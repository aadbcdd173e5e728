-- ===== src/Rbac/Roles.antt =====
-- `RoleHandler` of backend/handlers/rbac_handler.go: the operations that change roles.
pub mod Effects
pub mod Lockout
use vpn_manager.Common.{
  ℕ, suc, String, not, ◌&&◌, List, [], ◌∷◌, ◌++◌, map, Option, none, some, ◌=ₛ◌,
}
use vpn_manager.Text.{trim_space, ◌⧺◌}
use vpn_manager.Http.{Reply, reply_ok, reply_created, reply_no_data}
use vpn_manager.Http.Attempt.{go, ◌>>=◌, ◌>>◌, refuse_if, bind_json, validated, answer}
use vpn_manager.Rbac.Model.{Permission, Role}
use vpn_manager.Rbac.Store.{Db, RoleRow, load_role, role_row, set_role, drop_role, role_name_taken}
use vpn_manager.Rbac.Resolve.{
  Caller, Faults, find_role_by_param, resolve_permissions, protect_super_admin_role,
  super_admin_role,
}

pub record CreateRoleRequest : Type 0 where
  pub name : String
  pub description : String
  pub permission_ids : List ℕ

pub record UpdateRoleRequest : Type 0 where
  pub name : String
  pub description : String

pub record Env : Type 0 where
  pub faults : Faults
  pub check_create : CreateRoleRequest → List String
  pub check_update : UpdateRoleRequest → List String
  pub caller : Caller

abbrev reload_role : Db → Role → Role
reload_role db role = elim (role_row db role.id) [ none ↦ role | some row ↦ load_role db row ]

abbrev pub permission_ids : List Permission → List ℕ
permission_ids perms = map (λ p. p.id) perms

unfoldable pub new_role : Db → CreateRoleRequest → List Permission → RoleRow
new_role db req perms = record {
  id = suc db.role_seq;
  name = trim_space req.name;
  description = trim_space req.description;
  permission_ids = permission_ids perms;
}

unfoldable pub add_role : RoleRow → Db → Db
add_role row db = record db { roles = db.roles ++ row ∷ []; role_seq = row.id }

-- `Create`
unfoldable pub create_role : Env → Option CreateRoleRequest → Db → Reply Role × Db
unfolding new_role add_role
create_role env body db = answer db do
  req ← bind_json body
  validated (env.check_create req)
  perms ← resolve_permissions env.faults env.caller db req.permission_ids
  let row = new_role db req perms
  refuse_if (role_name_taken db row.id row.name) 409 "role name already in use"
  refuse_if env.faults.write 500 "failed to create role"
  let saved = add_role row db
  go (reply_created "role created" (load_role saved row), saved)

abbrev pub write_role : UpdateRoleRequest → RoleRow → RoleRow
write_role req row = record row {
  name = trim_space req.name;
  description = trim_space req.description;
}

-- `Update`
unfoldable pub update_role : Env → String → Option UpdateRoleRequest → Db → Reply Role × Db
update_role env param body db = answer db do
  role ← find_role_by_param env.faults param db
  req ← bind_json body
  validated (env.check_update req)
  refuse_if (role.name =ₛ super_admin_role && not (trim_space req.name =ₛ super_admin_role)) 409
      ("the " ⧺ super_admin_role ⧺ " role cannot be renamed")
  refuse_if (role_name_taken db role.id (trim_space req.name)) 409 "role name already in use"
  refuse_if env.faults.write 500 "failed to update role"
  let saved = set_role role.id (write_role req) db
  go (reply_ok "role updated" (reload_role saved role), saved)

-- `Delete`
unfoldable pub delete_role : Env → String → Db → Reply Role × Db
delete_role env param db = answer db do
  role ← find_role_by_param env.faults param db
  protect_super_admin_role role "deleted"
  refuse_if env.faults.write 500 "failed to delete role"
  go (reply_no_data 200 "role deleted", drop_role role.id db)

abbrev grant_role : List Permission → RoleRow → RoleRow
grant_role perms row = record row { permission_ids = permission_ids perms }

-- `SetPermissions`
unfoldable pub set_role_permissions : Env → String → Option (List ℕ) → Db → Reply Role × Db
set_role_permissions env param body db = answer db do
  role ← find_role_by_param env.faults param db
  protect_super_admin_role role "modified"
  ids ← bind_json body
  perms ← resolve_permissions env.faults env.caller db ids
  refuse_if env.faults.write 500 "failed to set role permissions"
  let saved = set_role role.id (grant_role perms) db
  go (reply_ok "role permissions updated" (reload_role saved role), saved)
