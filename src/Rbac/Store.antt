-- ===== src/Rbac/Store.antt =====
-- The tables behind the models, with the joins and writes that the handlers ask GORM for.
-- The fields in `_seq` are the sequences of the primary keys.
pub mod Reload
pub mod Valid
pub mod Super
pub mod Writes
use vpn_manager.Common.{
  ℕ, ◌≤◌, String, Bool, ◌&&◌, List, map, Option, any, select, first, by_key, All, IsKeyed, ◌==◌,
  not, ◌=ₛ◌, if◌then◌else◌,
}
use vpn_manager.Rbac.Model.{Permission, Role, User, is_super_admin}

pub record RoleRow : Type 0 where
  pub id : ℕ
  pub name : String
  pub description : String
  pub permission_ids : List ℕ

pub record UserRow : Type 0 where
  pub id : ℕ
  pub username : String
  pub name : String
  pub password_hash : String
  pub active : Bool
  pub role_ids : List ℕ
  pub permission_ids : List ℕ

pub record Db : Type 0 where
  pub users : List UserRow
  pub roles : List RoleRow
  pub permissions : List Permission
  pub user_seq : ℕ
  pub role_seq : ℕ
  pub permission_seq : ℕ

-- `id IN ?`
abbrev pub is_in : List ℕ → ℕ → Bool
is_in ids k = any (λ i. i == k) ids

-- `Preload("Permissions")`
abbrev pub load_permissions : Db → List ℕ → List Permission
load_permissions db ids = select (λ p. is_in ids p.id) db.permissions

abbrev pub load_role : Db → RoleRow → Role
load_role db r = record {
  id = r.id;
  name = r.name;
  description = r.description;
  permissions = load_permissions db r.permission_ids;
}

abbrev pub load_roles : Db → List ℕ → List Role
load_roles db ids = map (load_role db) (select (λ r. is_in ids r.id) db.roles)

-- `Preload("Roles.Permissions").Preload("Permissions")`
abbrev pub load_user : Db → UserRow → User
load_user db u = record {
  id = u.id;
  username = u.username;
  name = u.name;
  password_hash = u.password_hash;
  active = u.active;
  roles = load_roles db u.role_ids;
  permissions = load_permissions db u.permission_ids;
}

abbrev pub user_key : UserRow → ℕ
user_key u = u.id

abbrev pub role_key : RoleRow → ℕ
role_key r = r.id

-- `First(&user, id)` and `First(&role, id)`
abbrev pub user_row : Db → ℕ → Option UserRow
user_row db k = first (by_key user_key k) db.users

abbrev pub role_row : Db → ℕ → Option RoleRow
role_row db k = first (by_key role_key k) db.roles

-- an `UPDATE` of the row with a key
abbrev pub set_user : ℕ → (UserRow → UserRow) → Db → Db
set_user k f db = record db { users = map (λ u. if u.id == k then f u else u) db.users }

abbrev pub set_role : ℕ → (RoleRow → RoleRow) → Db → Db
set_role k f db = record db { roles = map (λ r. if r.id == k then f r else r) db.roles }

abbrev pub drop_user : ℕ → Db → Db
drop_user k db = record db { users = select (λ u. not (u.id == k)) db.users }

abbrev pub without_role : ℕ → UserRow → UserRow
without_role k u = record u { role_ids = select (λ i. not (i == k)) u.role_ids }

-- the foreign keys of the join tables cascade
abbrev pub drop_role : ℕ → Db → Db
drop_role k db = record db {
  users = map (without_role k) db.users;
  roles = select (λ r. not (r.id == k)) db.roles;
}

-- the unique indexes
abbrev pub username_taken : Db → String → Bool
username_taken db name = any (λ u. u.username =ₛ name) db.users

abbrev pub role_name_taken : Db → ℕ → String → Bool
role_name_taken db k name = any (λ r. not (r.id == k) && r.name =ₛ name) db.roles

-- Primary keys are unique.
pub record IsValid (db : Db) : Type 0 where
  pub users : IsKeyed user_key db.users
  pub roles : IsKeyed role_key db.roles
  pub users_below : All (λ u. u.id ≤ db.user_seq) db.users
  pub roles_below : All (λ r. r.id ≤ db.role_seq) db.roles

abbrev pub is_super_row : Db → UserRow → Bool
is_super_row db u = is_super_admin (load_user db u)

-- Some active user is a super admin.
abbrev pub has_active_super : Db → Bool
has_active_super db = any (λ u. u.active && is_super_row db u) db.users

-- The user with this id is a super admin, active or not.
abbrev pub super_at : Db → ℕ → Bool
super_at db k = any (λ u. by_key user_key k u && is_super_row db u) db.users
