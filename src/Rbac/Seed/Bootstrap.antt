-- ===== src/Rbac/Seed/Bootstrap.antt =====
-- The first start.
use vpn_manager.Common.{
  String, true, false, ◌≡◌, refl, ◌∙◌, ap, Option, some, [], ◌=ₛ◌, if◌then◌else◌,
}
use vpn_manager.Text.{trim_space}
use vpn_manager.Rbac.Model.{is_super_admin}
use vpn_manager.Rbac.Store.{Db, has_active_super}
use vpn_manager.Rbac.Seed.{
  seed, seed_permissions, seed_roles, bootstrap_admin, Outcome, with_hash, admin_name,
}

-- tables without a row
abbrev pub empty_db : Db
empty_db = record {
  users = [];
  roles = [];
  permissions = [];
  user_seq = 0;
  role_seq = 0;
  permission_seq = 0;
}

bootstrap_admin-first :
    (hash : String → Option String) (username password hashed : String) (db : Db)
    → db.users ≡ []
    → (trim_space password =ₛ "") ≡ false
    → hash password ≡ some hashed
    → bootstrap_admin hash username password db ≡ with_hash (some hashed) (admin_name username) db
unfolding bootstrap_admin
bootstrap_admin-first hash username password hashed db none_yet given ok =
    rw (none_yet, given, if◌then◌else◌, ok) refl

created_super :
    (hashed username : String)
    → has_active_super (with_hash (some hashed) username (seed_roles (seed_permissions empty_db))).1
      ≡ true
unfolding seed_roles seed_permissions with_hash is_super_admin
created_super hashed username = refl

users_before : (seed_roles (seed_permissions empty_db)).users ≡ []
unfolding seed_roles seed_permissions
users_before = refl

-- The first start with a password that is not blank and that can be hashed leaves an active super admin.
pub seed-has_active_super :
    (hash : String → Option String) (username password hashed : String)
    → (trim_space password =ₛ "") ≡ false
    → hash password ≡ some hashed
    → has_active_super (seed hash username password empty_db).1 ≡ true
unfolding seed
seed-has_active_super hash username password hashed given ok =
    ap (λ (x : Outcome × Db). has_active_super x.1)
      (bootstrap_admin-first hash username password hashed (seed_roles (seed_permissions empty_db))
        users_before given ok)
    ∙ created_super hashed (admin_name username)
