-- ===== src/Rbac/Users/Escalation.antt =====
-- A caller who is no super admin makes nobody one through the user handlers.
use vpn_manager.Common.{
  ℕ, ◌≡◌, refl, ◌∙◌, sym, true, false, ◌&&◌, Option, List, [], ◌∷◌, arith, any-append, String,
  Bool-cases, inl, inr, by_key,
}
use vpn_manager.Http.Attempt.Ends.{Ends-go, Ends-bind, answer-Ends}
use vpn_manager.Rbac.Model.{Role, Permission, wildcard, grants, roles_grant}
use vpn_manager.Rbac.Store.{Db, load_roles, load_permissions, is_super_row, user_key}
use vpn_manager.Rbac.Store.Reload.{roles_found, hits_found, permission_key}
use vpn_manager.Rbac.Store.Super.{
  AddsNoSuper, AddsNoSuper-set_user, AddsNoSuper-drop_user, is_super_row-eq, roles_grant-load,
  holds_wild,
}
use vpn_manager.Rbac.Resolve.{caller_is_super}
use vpn_manager.Rbac.Resolve.Sound.{
  AreRoles, ArePermissions, resolve_roles-Ends, resolve_permissions-Ends,
}
use vpn_manager.Rbac.Users.{
  Env, CreateUserRequest, UpdateUserRequest, with_roles, with_permissions, write_user, new_user,
  role_ids, permission_ids, create_user, update_user, delete_user, set_user_roles,
  set_user_permissions,
}

module _ (env : Env) (db : Db) (mortal : caller_is_super env.caller ≡ false) where
  -- What is stored of resolved roles or permissions does not load the wildcard back.
  stored_roles_tame :
      (roles : List Role) → AreRoles env.caller db roles → holds_wild db (role_ids roles) ≡ false
  stored_roles_tame roles r =
      elim (Bool-cases (roles_grant wildcard (load_roles db (role_ids roles)))) [
        | inl wild ↦
            let back : roles_grant wildcard roles ≡ true =
              rw r.loaded (roles_found db wildcard r.ids (rw r.loaded at wild)) in
            cc (back, r.harmless mortal)
        | inr tame ↦ sym (roles_grant-load db (role_ids roles)) ∙ tame
      ]

  pub stored_permissions_tame :
      (perms : List Permission)
      → ArePermissions env.caller db perms
      → grants wildcard (load_permissions db (permission_ids perms)) ≡ false
  stored_permissions_tame perms r =
      elim (Bool-cases (grants wildcard (load_permissions db (permission_ids perms)))) [
        | inl wild ↦
            let back : grants wildcard perms ≡ true =
              rw r.loaded
                (hits_found permission_key r.ids db.permissions _ (rw r.loaded at wild)) in
            cc (back, r.harmless mortal)
        | inr tame ↦ tame
      ]

  pub create_user-AddsNoSuper :
      (body : Option CreateUserRequest) → AddsNoSuper db (create_user env body db).1
  unfolding create_user
  create_user-AddsNoSuper body =
      answer-Ends (AddsNoSuper db) (λ k h. h)
        (Ends-bind λ req _. Ends-bind λ _ _. Ends-bind λ roles resolved. Ends-bind λ perms granted.
          Ends-bind λ hash _. Ends-bind λ _ _. Ends-bind λ _ _.
            let r = (resolve_roles-Ends env.faults env.caller db req.role_ids).at roles resolved in
            let p =
              (resolve_permissions-Ends env.faults env.caller db req.permission_ids).at perms
                granted in
            let row = new_user db req hash roles perms in
            Ends-go (λ k h. ground (
              arith,
              any-append (λ u. by_key user_key k u && is_super_row db u) db.users (row ∷ []),
              is_super_row-eq db row,
              stored_roles_tame roles r,
              stored_permissions_tame perms p,
            )))

  pub update_user-AddsNoSuper :
      (param : String) (body : Option UpdateUserRequest)
      → AddsNoSuper db (update_user env param body db).1
  unfolding update_user
  update_user-AddsNoSuper param body =
      answer-Ends (AddsNoSuper db) (λ k h. h)
        (Ends-bind λ user _. Ends-bind λ req _. Ends-bind λ _ _. Ends-bind λ _ _. Ends-bind λ _ _.
          Ends-bind λ hash _. Ends-bind λ _ _. Ends-go (
            AddsNoSuper-set_user db user.id (write_user req user hash) (λ u. refl)
              (λ u e.
                ground
                  (arith, is_super_row-eq db u, is_super_row-eq db (write_user req user hash u)))))

  pub delete_user-AddsNoSuper : (param : String) → AddsNoSuper db (delete_user env param db).1
  unfolding delete_user
  delete_user-AddsNoSuper param =
      answer-Ends (AddsNoSuper db) (λ k h. h)
        (Ends-bind λ user _.
          Ends-bind
            λ _ _. Ends-bind λ _ _. Ends-bind λ _ _. Ends-go (AddsNoSuper-drop_user db user.id))

  pub set_user_roles-AddsNoSuper :
      (param : String) (body : Option (List ℕ))
      → AddsNoSuper db (set_user_roles env param body db).1
  unfolding set_user_roles
  set_user_roles-AddsNoSuper param body =
      answer-Ends (AddsNoSuper db) (λ k h. h)
        (Ends-bind λ user _. Ends-bind λ ids _. Ends-bind λ roles resolved. Ends-bind λ _ _.
          Ends-bind λ _ _.
            let r = (resolve_roles-Ends env.faults env.caller db ids).at roles resolved in
            Ends-go (
              AddsNoSuper-set_user db user.id (with_roles roles) (λ u. refl)
                (λ u e. ground (
                  arith,
                  is_super_row-eq db u,
                  is_super_row-eq db (with_roles roles u),
                  stored_roles_tame roles r,
                ))))

  pub set_user_permissions-AddsNoSuper :
      (param : String) (body : Option (List ℕ))
      → AddsNoSuper db (set_user_permissions env param body db).1
  unfolding set_user_permissions
  set_user_permissions-AddsNoSuper param body =
      answer-Ends (AddsNoSuper db) (λ k h. h)
        (Ends-bind λ user _. Ends-bind λ ids _. Ends-bind λ perms granted. Ends-bind λ _ _.
          Ends-bind λ _ _.
            let p = (resolve_permissions-Ends env.faults env.caller db ids).at perms granted in
            Ends-go (
              AddsNoSuper-set_user db user.id (with_permissions perms) (λ u. refl)
                (λ u e. ground (
                  arith,
                  is_super_row-eq db u,
                  is_super_row-eq db (with_permissions perms u),
                  stored_permissions_tame perms p,
                ))))
