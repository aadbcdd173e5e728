-- ===== src/Rbac/Trace.antt =====
-- Sequences of requests to the user and role handlers, whatever fails in them.
pub mod Valid
pub mod LastAdmin
pub mod Escalation
use vpn_manager.Common.{ℕ, String, Option, List, [], ◌∷◌}
use vpn_manager.Rbac.Store.{Db}
use vpn_manager.Rbac.Resolve.{Caller}
use vpn_manager.Rbac.Users
use vpn_manager.Rbac.Roles

-- A request, with what its handler has from outside.
pub data Op : Type 0 where
  create_user : Users.Env → Option Users.CreateUserRequest → Op
  update_user : Users.Env → String → Option Users.UpdateUserRequest → Op
  delete_user : Users.Env → String → Op
  set_user_roles set_user_permissions : Users.Env → String → Option (List ℕ) → Op
  create_role : Roles.Env → Option Roles.CreateRoleRequest → Op
  update_role : Roles.Env → String → Option Roles.UpdateRoleRequest → Op
  delete_role : Roles.Env → String → Op
  set_role_permissions : Roles.Env → String → Option (List ℕ) → Op

-- The tables after a request.
unfoldable pub apply : Op → Db → Db
apply (create_user env body) db = (Users.create_user env body db).1
apply (update_user env param body) db = (Users.update_user env param body db).1
apply (delete_user env param) db = (Users.delete_user env param db).1
apply (set_user_roles env param body) db = (Users.set_user_roles env param body db).1
apply (set_user_permissions env param body) db = (Users.set_user_permissions env param body db).1
apply (create_role env body) db = (Roles.create_role env body db).1
apply (update_role env param body) db = (Roles.update_role env param body db).1
apply (delete_role env param) db = (Roles.delete_role env param db).1
apply (set_role_permissions env param body) db = (Roles.set_role_permissions env param body db).1

unfoldable pub serve : List Op → Db → Db
unfolding apply
serve [] db = db
serve (op ∷ ops) db = serve ops (apply op db)

abbrev pub caller_of : Op → Caller
caller_of (create_user env _) = env.caller
caller_of (update_user env _ _) = env.caller
caller_of (delete_user env _) = env.caller
caller_of (set_user_roles env _ _) = env.caller
caller_of (set_user_permissions env _ _) = env.caller
caller_of (create_role env _) = env.caller
caller_of (update_role env _ _) = env.caller
caller_of (delete_role env _) = env.caller
caller_of (set_role_permissions env _ _) = env.caller
