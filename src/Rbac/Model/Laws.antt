-- ===== src/Rbac/Model/Laws.antt =====
-- The effective permissions of a user are the union of what its roles and direct grants name.
use vpn_manager.Common.{
  String, ◌≡◌, ap, true, ◌||◌, List, [], ◌∷◌, arith, any-append, ◌=ₛ◌, =ₛ_iff, Bool-cases, inl, inr,
  if◌then◌else◌,
}
use vpn_manager.Rbac.Model.{
  Permission, Role, User, wildcard, has_key, add_names, add_role_names, effective_permissions,
  has_permission, is_super_admin, grants, roles_grant, add_key,
}

has_key-eq :
    (set : List String) (name k : String) → (name =ₛ k) ≡ true → has_key set name ≡ has_key set k
has_key-eq set name k h = ap (has_key set) ((=ₛ_iff name k).0 h)

has_key-add_key :
    (set : List String) (name k : String)
    → has_key (add_key set name) k ≡ (has_key set k || name =ₛ k)
has_key-add_key set name k = elim (Bool-cases (has_key set name)) [
  | inl old ↦ rw (old, if◌then◌else◌) (ground (arith, has_key-eq set name k))
  | inr new ↦
      rw (new, if◌then◌else◌) (ground (arith, any-append (λ (x : String). x =ₛ k) set (name ∷ [])))
]

has_key-add_names :
    (set : List String) (ps : List Permission) (k : String)
    → has_key (add_names set ps) k ≡ (has_key set k || grants k ps)
unfolding add_names
has_key-add_names set [] k = ground arith
has_key-add_names set (p ∷ ps) k =
    ground (arith, has_key-add_names (add_key set p.name) ps k, has_key-add_key set p.name k)

has_key-add_role_names :
    (set : List String) (rs : List Role) (k : String)
    → has_key (add_role_names set rs) k ≡ (has_key set k || roles_grant k rs)
unfolding add_role_names
has_key-add_role_names set [] k = ground arith
has_key-add_role_names set (r ∷ rs) k = ground (
  arith,
  has_key-add_role_names (add_names set r.permissions) rs k,
  has_key-add_names set r.permissions k,
)

-- A name is in the effective set exactly when a role or a direct permission carries it.
pub has_key-effective_permissions :
    (u : User) (k : String)
    → has_key (effective_permissions u) k ≡ (roles_grant k u.roles || grants k u.permissions)
unfolding effective_permissions
has_key-effective_permissions u k = ground (
  arith,
  has_key-add_names (add_role_names [] u.roles) u.permissions k,
  has_key-add_role_names [] u.roles k,
)

-- A user is a super admin exactly when a role or a direct permission carries the wildcard.
pub is_super_admin-eq :
    (u : User) → is_super_admin u ≡ (roles_grant wildcard u.roles || grants wildcard u.permissions)
unfolding is_super_admin
is_super_admin-eq u = has_key-effective_permissions u wildcard

-- A user holds a permission exactly when a role or a direct grant carries its name or the
-- wildcard.
pub has_permission-eq :
    (u : User) (k : String)
    → has_permission u k ≡ (
        (roles_grant wildcard u.roles || grants wildcard u.permissions)
        || (roles_grant k u.roles || grants k u.permissions))
unfolding has_permission
has_permission-eq u k =
    ground (arith, has_key-effective_permissions u wildcard, has_key-effective_permissions u k)
