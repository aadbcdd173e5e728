-- ===== src/Rbac/Users/Grants.antt =====
-- Replacing the roles or the direct permissions of a user, and creating one, keeps an active super
-- admin.
use vpn_manager.Common.{
  ℕ, ◌≡◌, ◌∙◌, ap, true, ◌&&◌, Option, List, [], ◌∷◌, arith, any-append, inl, inr, String,
}
use vpn_manager.Http.Attempt.Ends.{Ends-go, Ends-bind, answer-Ends}
use vpn_manager.Rbac.Model.{User, Role, Permission, wildcard, is_super_admin, grants, roles_grant}
use vpn_manager.Rbac.Model.Laws.{is_super_admin-eq}
use vpn_manager.Rbac.Store.{
  Db, UserRow, load_user, load_roles, load_permissions, has_active_super, is_super_row, IsValid,
  set_user,
}
use vpn_manager.Rbac.Store.Reload.{roles_reload, hits_reload, permission_key}
use vpn_manager.Rbac.Resolve.Sound.{
  AreRoles, ArePermissions, resolve_roles-Ends, resolve_permissions-Ends,
}
use vpn_manager.Rbac.Users.{
  Env, CreateUserRequest, with_roles, with_permissions, create_user, set_user_roles,
  set_user_permissions, new_user, add_user, role_ids, permission_ids,
}
use vpn_manager.Rbac.Users.Guard.{set_user_keeps_other, set_user_keeps}
use vpn_manager.Rbac.Users.LastAdmin.{IsLoaded, find_user-Ends, survivors}

-- What the handlers store of roles and permissions loads back with the wildcard, if it had it.
stored_roles_wild :
    (env : Env) (db : Db) (roles : List Role)
    → AreRoles env.caller db roles
    → roles_grant wildcard roles ≡ true
    → roles_grant wildcard (load_roles db (role_ids roles)) ≡ true
stored_roles_wild env db roles r h = rw r.loaded (roles_reload db wildcard r.ids (rw r.loaded at h))

stored_permissions_wild :
    (env : Env) (db : Db) (perms : List Permission)
    → ArePermissions env.caller db perms
    → grants wildcard perms ≡ true
    → grants wildcard (load_permissions db (permission_ids perms)) ≡ true
stored_permissions_wild env db perms r h =
    rw r.loaded (hits_reload permission_key r.ids db.permissions _ (rw r.loaded at h))

module _ (env : Env) (db : Db) (valid : IsValid db) (h : has_active_super db ≡ true) where
  roles_keep_super :
      (user : User) (l : IsLoaded db user) (roles : List Role)
      → AreRoles env.caller db roles
      → is_super_admin (record user { roles = roles }) ≡ true
      → has_active_super (set_user user.id (with_roles roles) db) ≡ true
  roles_keep_super user l roles r strong =
      set_user_keeps db user.id (with_roles roles) l.row valid l.found h (λ e. ground (
        arith,
        ap (λ (u : User). u.permissions) l.loaded,
        is_super_admin-eq (record user { roles = roles }),
        is_super_admin-eq (load_user db (with_roles roles l.row)),
        stored_roles_wild env db roles r,
      ))

  permissions_keep_super :
      (user : User) (l : IsLoaded db user) (perms : List Permission)
      → ArePermissions env.caller db perms
      → is_super_admin (record user { permissions = perms }) ≡ true
      → has_active_super (set_user user.id (with_permissions perms) db) ≡ true
  permissions_keep_super user l perms r strong =
      set_user_keeps db user.id (with_permissions perms) l.row valid l.found h (λ e. ground (
        arith,
        ap (λ (u : User). u.roles) l.loaded,
        is_super_admin-eq (record user { permissions = perms }),
        is_super_admin-eq (load_user db (with_permissions perms l.row)),
        stored_permissions_wild env db perms r,
      ))

  pub set_user_roles-keeps :
      (param : String) (body : Option (List ℕ))
      → has_active_super (set_user_roles env param body db).1 ≡ true
  unfolding set_user_roles
  set_user_roles-keeps param body =
      answer-Ends (λ d. has_active_super d ≡ true) h
        (Ends-bind λ user found. Ends-bind λ ids _. Ends-bind λ roles resolved.
          Ends-bind λ _ guarded. Ends-bind λ _ _.
            let l = (find_user-Ends env.faults param db).at user found in
            let r = (resolve_roles-Ends env.faults env.caller db ids).at roles resolved in
            Ends-go (elim (survivors env.faults db user _ valid h l guarded) [
              | inl strong ↦ roles_keep_super user l roles r strong
              | inr other ↦ set_user_keeps_other db user.id (with_roles roles) other
            ]))

  pub set_user_permissions-keeps :
      (param : String) (body : Option (List ℕ))
      → has_active_super (set_user_permissions env param body db).1 ≡ true
  unfolding set_user_permissions
  set_user_permissions-keeps param body =
      answer-Ends (λ d. has_active_super d ≡ true) h
        (Ends-bind λ user found. Ends-bind λ ids _. Ends-bind λ perms resolved.
          Ends-bind λ _ guarded. Ends-bind λ _ _.
            let l = (find_user-Ends env.faults param db).at user found in
            let r = (resolve_permissions-Ends env.faults env.caller db ids).at perms resolved in
            Ends-go (elim (survivors env.faults db user _ valid h l guarded) [
              | inl strong ↦ permissions_keep_super user l perms r strong
              | inr other ↦ set_user_keeps_other db user.id (with_permissions perms) other
            ]))

  add_user-keeps : (row : UserRow) → has_active_super (add_user row db) ≡ true
  unfolding add_user
  add_user-keeps row =
      any-append (λ u. u.active && is_super_row db u) db.users (row ∷ []) ∙ ground (arith, h)

  pub create_user-keeps :
      (body : Option CreateUserRequest) → has_active_super (create_user env body db).1 ≡ true
  unfolding create_user
  create_user-keeps body =
      answer-Ends (λ d. has_active_super d ≡ true) h
        (Ends-bind λ req _. Ends-bind λ _ _. Ends-bind λ roles _. Ends-bind λ perms _.
          Ends-bind λ hash _.
            Ends-bind
              λ _ _. Ends-bind λ _ _. Ends-go (add_user-keeps (new_user db req hash roles perms)))
