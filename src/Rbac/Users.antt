-- ===== src/Rbac/Users.antt =====
-- `UserHandler` of backend/handlers/rbac_handler.go: the operations that change users.
pub mod Guard
pub mod LastAdmin
pub mod Grants
pub mod Escalation
use vpn_manager.Common.{
  ℕ, suc, ◌+◌, String, Bool, true, false, not, ◌&&◌, List, [], ◌∷◌, ◌++◌, map, Option, none, some,
  ◌==◌, ◌=ₛ◌, with_default_true, if◌then◌else◌,
}
use vpn_manager.Text.{trim_space}
use vpn_manager.Http.{Reply, reply_ok, reply_created, reply_no_data, reply_error}
use vpn_manager.Http.Attempt.{
  Attempt, halt, go, ◌>>=◌, ◌>>◌, refuse_if, bind_json, validated, answer,
}
use vpn_manager.Rbac.Model.{Permission, Role, User, is_super_admin}
use vpn_manager.Rbac.Store.{Db, UserRow, load_user, user_row, set_user, drop_user, username_taken}
use vpn_manager.Rbac.Resolve.{
  Caller, Faults, find_user_by_param, resolve_roles, resolve_permissions, guard_last_super_admin,
}

pub record CreateUserRequest : Type 0 where
  pub username : String
  pub name : String
  pub password : String
  pub active : Option Bool
  pub role_ids : List ℕ
  pub permission_ids : List ℕ

pub record UpdateUserRequest : Type 0 where
  pub name : String
  pub password : String
  pub active : Option Bool

-- What a handler has from outside: which database calls fail, the validator, the password hash
-- (`none` is an error) and the caller.
pub record Env : Type 0 where
  pub faults : Faults
  pub check_create : CreateUserRequest → List String
  pub check_update : UpdateUserRequest → List String
  pub hash : String → Option String
  pub caller : Caller

abbrev hashed : Option String → Attempt User String
hashed none = halt (reply_error 500 "failed to hash password")
hashed (some h) = go h

abbrev or_default : {A : Type 0} → Option A → A → A
or_default none d = d
or_default (some a) d = a

abbrev role_ids : List Role → List ℕ
role_ids roles = map (λ r. r.id) roles

abbrev permission_ids : List Permission → List ℕ
permission_ids perms = map (λ p. p.id) perms

-- `reloadUser`: a row that is gone leaves the user as it was
abbrev reload_user : Db → User → User
reload_user db user = elim (user_row db user.id) [ none ↦ user | some row ↦ load_user db row ]

new_user : Db → CreateUserRequest → String → List Role → List Permission → UserRow
new_user db req hash roles perms = record {
  id = suc db.user_seq;
  username = trim_space req.username;
  name = trim_space req.name;
  password_hash = hash;
  active = with_default_true (or_default req.active true);
  role_ids = role_ids roles;
  permission_ids = permission_ids perms;
}

add_user : UserRow → Db → Db
add_user row db = record db { users = db.users ++ row ∷ []; user_seq = row.id }

-- `Create`
unfoldable pub create_user : Env → Option CreateUserRequest → Db → Reply User × Db
unfolding new_user add_user
create_user env body db = answer db do
  req ← bind_json body
  validated (env.check_create req)
  roles ← resolve_roles env.faults env.caller db req.role_ids
  perms ← resolve_permissions env.faults env.caller db req.permission_ids
  h ← hashed (env.hash req.password)
  let row = new_user db req h roles perms
  refuse_if (username_taken db row.username) 409 "username already in use"
  refuse_if env.faults.write 500 "failed to create user"
  let saved = add_user row db
  go (reply_created "user created" (load_user saved row), saved)

abbrev is_disabling : UpdateUserRequest → Bool
is_disabling req = elim req.active [ none ↦ false | some on ↦ not on ]

-- the hash that an update stores
abbrev next_hash : Env → UpdateUserRequest → User → Attempt User String
next_hash env req user =
    if req.password =ₛ "" then go user.password_hash else hashed (env.hash req.password)

abbrev guard_disabling : Env → UpdateUserRequest → Db → User → Attempt User (Unit {0})
guard_disabling env req db user =
    if is_disabling req then guard_last_super_admin env.faults db user false else go tt

write_user : UpdateUserRequest → User → String → UserRow → UserRow
write_user req user h row = record row {
  name = if req.name =ₛ "" then user.name else trim_space req.name;
  active = or_default req.active user.active;
  password_hash = h;
}

-- `Update`
unfoldable pub update_user : Env → String → Option UpdateUserRequest → Db → Reply User × Db
unfolding write_user
update_user env param body db = answer db do
  user ← find_user_by_param env.faults param db
  req ← bind_json body
  validated (env.check_update req)
  refuse_if (is_disabling req && user.id == env.caller.id) 409 "you cannot disable your own account"
  guard_disabling env req db user
  h ← next_hash env req user
  refuse_if env.faults.write 500 "failed to update user"
  let saved = set_user user.id (write_user req user h) db
  go (reply_ok "user updated" (reload_user saved user), saved)

-- `Delete`
unfoldable pub delete_user : Env → String → Db → Reply User × Db
delete_user env param db = answer db do
  user ← find_user_by_param env.faults param db
  refuse_if (user.id == env.caller.id) 409 "you cannot delete your own account"
  guard_last_super_admin env.faults db user false
  refuse_if env.faults.write 500 "failed to delete user"
  go (reply_no_data 200 "user deleted", drop_user user.id db)

abbrev with_roles : List Role → UserRow → UserRow
with_roles roles row = record row { role_ids = role_ids roles }

abbrev with_permissions : List Permission → UserRow → UserRow
with_permissions perms row = record row { permission_ids = permission_ids perms }

-- `SetRoles`
unfoldable pub set_user_roles : Env → String → Option (List ℕ) → Db → Reply User × Db
set_user_roles env param body db = answer db do
  user ← find_user_by_param env.faults param db
  ids ← bind_json body
  roles ← resolve_roles env.faults env.caller db ids
  guard_last_super_admin env.faults db user (is_super_admin (record user { roles = roles }))
  refuse_if env.faults.write 500 "failed to set user roles"
  let saved = set_user user.id (with_roles roles) db
  go (reply_ok "user roles updated" (reload_user saved user), saved)

-- `SetPermissions`
unfoldable pub set_user_permissions : Env → String → Option (List ℕ) → Db → Reply User × Db
set_user_permissions env param body db = answer db do
  user ← find_user_by_param env.faults param db
  ids ← bind_json body
  perms ← resolve_permissions env.faults env.caller db ids
  guard_last_super_admin env.faults db user (is_super_admin (record user { permissions = perms }))
  refuse_if env.faults.write 500 "failed to set user permissions"
  let saved = set_user user.id (with_permissions perms) db
  go (reply_ok "user direct permissions updated" (reload_user saved user), saved)
