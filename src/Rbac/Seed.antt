-- ===== src/Rbac/Seed.antt =====
-- backend/rbac/seed.go: what is in the tables after a start of the program. The queries succeed here;
-- `hash` is `security.HashPassword`, `none` where it fails.
pub mod Bootstrap
use vpn_manager.Common.{
  ℕ, suc, String, Bool, true, false, not, Option, none, some, List, [], ◌∷◌, ◌++◌, map, any, select,
  first, ◌==◌, ◌=ₛ◌, if◌then◌else◌,
}
use vpn_manager.Text.{trim_space}
use vpn_manager.Rbac.Model.{Permission}
use vpn_manager.Rbac.Store.{Db, UserRow, RoleRow, is_in, set_role, set_user}
use vpn_manager.Rbac.Resolve.{super_admin_role}
use vpn_manager.Rbac.Catalog.{PermissionDef, RoleDef, all_permissions, default_roles}

-- one round of the loop of `seedPermissions`: `FirstOrCreate`, with the description assigned
seed_permission : PermissionDef → Db → Db
seed_permission d db =
    if any (λ p. p.name =ₛ d.name) db.permissions
    then record db {
      permissions =
          map (λ p. if p.name =ₛ d.name then record p { description = d.description } else p)
            db.permissions;
    }
    else record db {
      permissions =
          db.permissions
          ++ record { id = suc db.permission_seq; name = d.name; description = d.description } ∷ [];
      permission_seq = suc db.permission_seq;
    }

each_permission : List PermissionDef → Db → Db
unfolding seed_permission
each_permission [] db = db
each_permission (d ∷ ds) db = each_permission ds (seed_permission d db)

-- `seedPermissions`
unfoldable pub seed_permissions : Db → Db
unfolding each_permission
seed_permissions db = each_permission all_permissions db

abbrev named_in : List String → String → Bool
named_in names name = any (λ n. n =ₛ name) names

-- the ids of the permissions with these names
abbrev ids_of : List String → Db → List ℕ
ids_of names db = map (λ p. p.id) (select (λ p. named_in names p.name) db.permissions)

-- one round of the loop of `seedRoles`
seed_role : RoleDef → Db → Db
seed_role d db =
    if any (λ r. r.name =ₛ d.name) db.roles
    then record db {
      roles =
          map
            (λ r.
              if r.name =ₛ d.name
              then record r {
                description = d.description;
                permission_ids = ids_of d.permissions db;
              }
              else r)
            db.roles;
    }
    else record db {
      roles =
          db.roles
          ++ record {
            id = suc db.role_seq;
            name = d.name;
            description = d.description;
            permission_ids = ids_of d.permissions db;
          }
            ∷ [];
      role_seq = suc db.role_seq;
    }

each_role : List RoleDef → Db → Db
unfolding seed_role
each_role [] db = db
each_role (d ∷ ds) db = each_role ds (seed_role d db)

-- `seedRoles`
unfoldable pub seed_roles : Db → Db
unfolding each_role
seed_roles db = each_role default_roles db

-- how `Seed` ends
pub data Outcome : Type 0 where
  seeded hashing_failed no_super_admin_role : Outcome

abbrev admin_name : String → String
admin_name configured = let name = trim_space configured in if name =ₛ "" then "admin" else name

abbrev create_admin : String → String → List ℕ → Db → Db
create_admin username hash role_ids db = record db {
  users =
      db.users
      ++ record {
        id = suc db.user_seq;
        username = username;
        name = "Administrator";
        password_hash = hash;
        active = true;
        role_ids = role_ids;
        permission_ids = [];
      }
        ∷ [];
  user_seq = suc db.user_seq;
}

-- `bootstrapAdmin` on an empty table, with the hash of the password
with_hash : Option String → String → Db → Outcome × Db
with_hash none username db = (hashing_failed, db)
with_hash (some hash) username db = elim (first (λ r. r.name =ₛ super_admin_role) db.roles) [
  | none ↦ (no_super_admin_role, create_admin username hash [] db)
  | some r ↦ (seeded, create_admin username hash (r.id ∷ []) db)
]

-- `bootstrapAdmin`
unfoldable pub bootstrap_admin : (String → Option String) → String → String → Db → Outcome × Db
unfolding with_hash
bootstrap_admin hash admin_username admin_password db = elim db.users [
  | _ ∷ _ ↦ (seeded, db)
  | [] ↦
      if trim_space admin_password =ₛ ""
      then (seeded, db)
      else with_hash (hash admin_password) (admin_name admin_username) db
]

-- `Seed`
unfoldable pub seed : (String → Option String) → String → String → Db → Outcome × Db
unfolding bootstrap_admin seed_roles seed_permissions
seed hash admin_username admin_password db =
    bootstrap_admin hash admin_username admin_password (seed_roles (seed_permissions db))
