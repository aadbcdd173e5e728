-- ===== src/Rbac/Model.antt =====
-- backend/models/rbac.go: users, roles and permissions with their associations preloaded.
pub mod Laws
use vpn_manager.Common.{
  ℕ, String, Bool, true, false, ◌||◌, List, [], ◌∷◌, ◌++◌, any, ◌=ₛ◌, if◌then◌else◌,
}

pub record Permission : Type 0 where
  pub id : ℕ
  pub name : String
  pub description : String

pub record Role : Type 0 where
  pub id : ℕ
  pub name : String
  pub description : String
  pub permissions : List Permission

pub record User : Type 0 where
  pub id : ℕ
  pub username : String
  pub name : String
  pub password_hash : String
  pub active : Bool
  pub roles : List Role
  pub permissions : List Permission

-- `PermissionWildcard`
abbrev pub wildcard : String
wildcard = "*"

-- A `map[string]bool` that only ever stores `true` is the list of its keys.
abbrev pub has_key : List String → String → Bool
has_key set name = any (λ k. k =ₛ name) set

abbrev add_key : List String → String → List String
add_key set name = if has_key set name then set else set ++ name ∷ []

-- one of the loops `for _, p := range …  set[p.Name] = true`
add_names : List String → List Permission → List String
add_names set [] = set
add_names set (p ∷ ps) = add_names (add_key set p.name) ps

add_role_names : List String → List Role → List String
unfolding add_names
add_role_names set [] = set
add_role_names set (r ∷ rs) = add_role_names (add_names set r.permissions) rs

-- `User.EffectivePermissions`
unfoldable pub effective_permissions : User → List String
unfolding add_role_names
effective_permissions u = add_names (add_role_names [] u.roles) u.permissions

-- `User.HasPermission`
unfoldable pub has_permission : User → String → Bool
unfolding effective_permissions
has_permission u name =
    let perms = effective_permissions u in has_key perms wildcard || has_key perms name

-- `User.IsSuperAdmin`
unfoldable pub is_super_admin : User → Bool
unfolding effective_permissions
is_super_admin u = has_key (effective_permissions u) wildcard

-- Whether a list of permissions, or a role, holds a name.
abbrev pub grants : String → List Permission → Bool
grants name ps = any (λ p. p.name =ₛ name) ps

abbrev pub roles_grant : String → List Role → Bool
roles_grant name rs = any (λ r. grants name r.permissions) rs
