-- ===== src/Rbac/Resolve/Sound.antt =====
-- What the id resolvers of the role and user handlers hand on.
use vpn_manager.Common.{ℕ, ◌≡◌, refl, ap, map, Bool, false, not, ◌&&◌, List, [], ◌∷◌, arith, select}
use vpn_manager.Http.Attempt.Ends.{Ends, Ends-go, Ends-bind, refuse_if-eq-go}
use vpn_manager.Rbac.Model.{Permission, Role, wildcard, grants, roles_grant}
use vpn_manager.Rbac.Store.{Db, load_role, load_roles, load_permissions}
use vpn_manager.Rbac.Resolve.{
  Caller, caller_is_super, Faults, resolve_role_ids, resolve_roles, resolve_permission_ids,
  resolve_permissions, dedupe_ids,
}

-- Roles of the table, without the wildcard unless the caller is a super admin.
pub record AreRoles (caller : Caller) (db : Db) (roles : List Role) : Type 0 where
  pub ids : List ℕ
  pub loaded : roles ≡ load_roles db ids
  pub harmless : caller_is_super caller ≡ false → roles_grant wildcard roles ≡ false

pub record ArePermissions (caller : Caller) (db : Db) (perms : List Permission) : Type 0 where
  pub ids : List ℕ
  pub loaded : perms ≡ load_permissions db ids
  pub harmless : caller_is_super caller ≡ false → grants wildcard perms ≡ false

nobody : (b : Bool) {x : Bool} → (not b && x) ≡ false → b ≡ false → x ≡ false
nobody b e h = ground arith

select_nothing : {A : Type 0} (xs : List A) → [] ≡ select (λ _. false) xs
select_nothing [] = refl
select_nothing (x ∷ xs) = select_nothing xs

module _ {R : Type 0} (f : Faults) (caller : Caller) (db : Db) where
  resolve_role_ids-Ends :
      (ids : List ℕ) → Ends {R = R} (AreRoles caller db) (resolve_role_ids f caller db ids)
  resolve_role_ids-Ends [] = Ends-go (record {
    ids = [];
    loaded = ap (map (load_role db)) (select_nothing db.roles);
    harmless = λ _. refl;
  })
  resolve_role_ids-Ends (k ∷ ks) = Ends-bind λ _ _. Ends-bind λ _ _. Ends-bind λ _ e.
      Ends-go
        (record { ids = k ∷ ks; loaded = refl; harmless = nobody _ (refuse_if-eq-go _ _ _ e) })

  pub resolve_roles-Ends :
      (ids : List ℕ) → Ends {R = R} (AreRoles caller db) (resolve_roles f caller db ids)
  unfolding resolve_roles
  resolve_roles-Ends ids = resolve_role_ids-Ends (dedupe_ids ids)

  resolve_permission_ids-Ends :
      (ids : List ℕ)
      → Ends {R = R} (ArePermissions caller db) (resolve_permission_ids f caller db ids)
  resolve_permission_ids-Ends [] =
      Ends-go (record { ids = []; loaded = select_nothing db.permissions; harmless = λ _. refl })
  resolve_permission_ids-Ends (k ∷ ks) = Ends-bind λ _ _. Ends-bind λ _ _. Ends-bind λ _ e.
      Ends-go
        (record { ids = k ∷ ks; loaded = refl; harmless = nobody _ (refuse_if-eq-go _ _ _ e) })

  pub resolve_permissions-Ends :
      (ids : List ℕ) → Ends {R = R} (ArePermissions caller db) (resolve_permissions f caller db ids)
  unfolding resolve_permissions
  resolve_permissions-Ends ids = resolve_permission_ids-Ends (dedupe_ids ids)
