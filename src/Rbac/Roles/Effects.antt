-- ===== src/Rbac/Roles/Effects.antt =====
-- What the role handlers do to the super admins.
use vpn_manager.Common.{
  ℕ, ◌≡◌, refl, ◌∙◌, sym, ap, true, false, not, ◌&&◌, Option, List, [], ◌∷◌, arith, any-append,
  any-map, any-select, any_mono, String, Bool-cases, inl, inr, by_key, select, ◌==◌, if◌then◌else◌,
}
use vpn_manager.Http.Attempt.Ends.{Ends-go, Ends-bind, answer-Ends}
use vpn_manager.Rbac.Model.{Permission, wildcard, grants}
use vpn_manager.Rbac.Store.{
  Db, RoleRow, load_permissions, is_super_row, is_in, user_key, set_role, drop_role, without_role,
}
use vpn_manager.Rbac.Store.Reload.{hits_found, permission_key}
use vpn_manager.Rbac.Store.Super.{
  AddsNoSuper, AddsNoSuper-roles, is_super_row-eq, holds_wild, role_wild,
}
use vpn_manager.Rbac.Resolve.{caller_is_super}
use vpn_manager.Rbac.Resolve.Sound.{ArePermissions, resolve_permissions-Ends}
use vpn_manager.Rbac.Roles.{
  Env, CreateRoleRequest, UpdateRoleRequest, new_role, add_role, write_role, grant_role,
  permission_ids, create_role, update_role, delete_role, set_role_permissions,
}

AddsNoSuper-set_role :
    (db : Db) (k : ℕ) (f : RoleRow → RoleRow)
    → ((r : RoleRow) → (f r).id ≡ r.id)
    → ((r : RoleRow) → role_wild db (f r) ≡ true → role_wild db r ≡ true)
    → AddsNoSuper db (set_role k f db)
AddsNoSuper-set_role db k f same weaker =
    AddsNoSuper-roles db (set_role k f db).roles db.role_seq (λ ids h.
      any_mono
        (λ r. let v : RoleRow = if r.id == k then f r else r in is_in ids v.id && role_wild db v)
        (λ r. is_in ids r.id && role_wild db r) db.roles
        (λ r e. elim (Bool-cases (r.id == k)) [
          | inl own ↦
              let e' : (is_in ids (f r).id && role_wild db (f r)) ≡ true =
                rw (own, if◌then◌else◌) at e in
              ground (arith, ap (is_in ids) (same r), weaker r)
          | inr other ↦ rw (other, if◌then◌else◌) at e
        ])
        (sym (
            any-map (λ r. is_in ids r.id && role_wild db r) (λ r. if r.id == k then f r else r)
              db.roles)
          ∙ h))

-- Deleting a role takes it from its users too.
AddsNoSuper-drop_role : (db : Db) (k : ℕ) → AddsNoSuper db (drop_role k db)
AddsNoSuper-drop_role db k j h =
    any_mono
      (λ u.
        by_key user_key j (without_role k u) && is_super_row (drop_role k db) (without_role k u))
      (λ u. by_key user_key j u && is_super_row db u) db.users
      (λ u e. ground (
        arith,
        is_super_row-eq db u,
        is_super_row-eq (drop_role k db) (without_role k u),
        fewer u.role_ids,
      ))
      (sym (
          any-map (λ u. by_key user_key j u && is_super_row (drop_role k db) u) (without_role k)
            db.users)
        ∙ h)
  where
    fewer :
        (ids : List ℕ)
        → holds_wild (drop_role k db) (select (λ i. not (i == k)) ids) ≡ true
        → holds_wild db ids ≡ true
    fewer ids e =
        any_mono
          (λ r. not (r.id == k) && (is_in (select (λ i. not (i == k)) ids) r.id && role_wild db r))
          (λ r. is_in ids r.id && role_wild db r) db.roles
          (λ r w. ground (
            arith,
            any-select (λ i. i == r.id) (λ i. not (i == k)) ids,
            any_mono (λ i. not (i == k) && i == r.id) (λ i. i == r.id) ids
                (λ i v. ground (arith, v)),
          ))
          (sym (
              any-select (λ r. is_in (select (λ i. not (i == k)) ids) r.id && role_wild db r)
                (λ r. not (r.id == k)) db.roles)
            ∙ e)

module _ (env : Env) (db : Db) where
  pub update_role-AddsNoSuper :
      (param : String) (body : Option UpdateRoleRequest)
      → AddsNoSuper db (update_role env param body db).1
  unfolding update_role
  update_role-AddsNoSuper param body =
      answer-Ends (AddsNoSuper db) (λ k h. h)
        (Ends-bind λ role _. Ends-bind λ req _. Ends-bind λ _ _. Ends-bind λ _ _. Ends-bind λ _ _.
          Ends-bind λ _ _.
            Ends-go (AddsNoSuper-set_role db role.id (write_role req) (λ r. refl) (λ r e. e)))

  pub delete_role-AddsNoSuper : (param : String) → AddsNoSuper db (delete_role env param db).1
  unfolding delete_role
  delete_role-AddsNoSuper param =
      answer-Ends (AddsNoSuper db) (λ k h. h)
        (Ends-bind
          λ role _. Ends-bind λ _ _. Ends-bind λ _ _. Ends-go (AddsNoSuper-drop_role db role.id))

module _ (env : Env) (db : Db) (mortal : caller_is_super env.caller ≡ false) where
  stored_tame :
      (perms : List Permission)
      → ArePermissions env.caller db perms
      → grants wildcard (load_permissions db (permission_ids perms)) ≡ false
  stored_tame perms r =
      elim (Bool-cases (grants wildcard (load_permissions db (permission_ids perms)))) [
        | inl wild ↦
            let back : grants wildcard perms ≡ true =
              rw r.loaded
                (hits_found permission_key r.ids db.permissions _ (rw r.loaded at wild)) in
            cc (back, r.harmless mortal)
        | inr tame ↦ tame
      ]

  pub create_role-AddsNoSuper :
      (body : Option CreateRoleRequest) → AddsNoSuper db (create_role env body db).1
  unfolding create_role
  create_role-AddsNoSuper body =
      answer-Ends (AddsNoSuper db) (λ k h. h)
        (Ends-bind λ req _. Ends-bind λ _ _. Ends-bind λ perms granted. Ends-bind λ _ _.
          Ends-bind λ _ _.
            let p =
              (resolve_permissions-Ends env.faults env.caller db req.permission_ids).at perms
                granted in
            let row = new_role db req perms in
            Ends-go (
              AddsNoSuper-roles db (add_role row db).roles row.id (λ ids h. ground (
                arith,
                any-append (λ r. is_in ids r.id && role_wild db r) db.roles (row ∷ []),
                stored_tame perms p,
              ))))

  pub set_role_permissions-AddsNoSuper :
      (param : String) (body : Option (List ℕ))
      → AddsNoSuper db (set_role_permissions env param body db).1
  unfolding set_role_permissions
  set_role_permissions-AddsNoSuper param body =
      answer-Ends (AddsNoSuper db) (λ k h. h)
        (Ends-bind λ role _. Ends-bind λ _ _. Ends-bind λ ids _. Ends-bind λ perms granted.
          Ends-bind λ _ _.
            let p = (resolve_permissions-Ends env.faults env.caller db ids).at perms granted in
            Ends-go (
              AddsNoSuper-set_role db role.id (grant_role perms) (λ r. refl)
                (λ r e. ground (arith, stored_tame perms p, e))))
