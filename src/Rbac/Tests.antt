-- ===== src/Rbac/Tests.antt =====
-- Concrete tables and requests for the theorems on users and roles.
use vpn_manager.Common.{◌≡◌, ◌≢◌, ◌||◌, ◌=ₛ◌, =ₛ_iff, refl, true, false, List, [], ◌∷◌, some, arith}
use vpn_manager.Http.{reply_no_data}
use vpn_manager.Rbac.Model.{
  Role, User, is_super_admin, has_permission, roles_grant, grants, wildcard,
}
use vpn_manager.Rbac.Store.{Db, IsValid, has_active_super, super_at}
use vpn_manager.Rbac.Resolve.{
  Caller, Faults, find_user_by_param, find_role_by_param, super_admin_role, resolve_roles,
  guard_last_super_admin, dedupe_ids,
}
use vpn_manager.Text.{atoi, trim_space}
use vpn_manager.Http.Attempt.{◌>>=◌, answer, go}
use vpn_manager.Rbac.Users
use vpn_manager.Rbac.Roles
use vpn_manager.Rbac.Trace.{Op, delete_user, set_user_roles, serve}
use vpn_manager.Common.{ℕ, not, ◌&&◌, ◌==◌, IsKeyed}
use vpn_manager.Rbac.Store.{is_in}
use vpn_manager.Rbac.Resolve.Dedupe.{dedupe_ids-exact}
use vpn_manager.Rbac.Model.Laws.{has_permission-eq}
use vpn_manager.Rbac.Seed.{seed}
use vpn_manager.Rbac.Seed.Bootstrap.{empty_db, seed-has_active_super}
use vpn_manager.Rbac.Roles.Lockout.{delete_role_locks_out}
use vpn_manager.Rbac.Trace.LastAdmin.{serve_keeps_super}
use vpn_manager.Rbac.Trace.Escalation.{serve-AddsNoSuper}

abbrev db : Db
db = record {
  users =
      record {
        id = 1;
        username = "admin";
        name = "Administrator";
        password_hash = "h1";
        active = true;
        role_ids = 1 ∷ [];
        permission_ids = [];
      }
      ∷ record {
        id = 2;
        username = "olga";
        name = "Olga";
        password_hash = "h2";
        active = true;
        role_ids = 2 ∷ [];
        permission_ids = [];
      }
      ∷ [];
  roles =
      record { id = 1; name = "super-admin"; description = ""; permission_ids = 1 ∷ [] }
      ∷ record { id = 2; name = "operator"; description = ""; permission_ids = 2 ∷ [] }
      ∷ [];
  permissions =
      record { id = 1; name = "*"; description = "" }
      ∷ record { id = 2; name = "users.update"; description = "" }
      ∷ [];
  user_seq = 2;
  role_seq = 2;
  permission_seq = 2;
}

abbrev no_faults : Faults
no_faults = record {
  find = false;
  resolve_roles = false;
  resolve_permissions = false;
  verify = false;
  write = false;
}

abbrev as_caller : Caller → Users.Env
as_caller c = record {
  faults = no_faults;
  check_create = λ _. [];
  check_update = λ _. [];
  hash = λ p. some p;
  caller = c;
}

abbrev admin : Users.Env
admin = as_caller (record { id = 1; permissions = "*" ∷ [] })

abbrev olga : Users.Env
olga = as_caller (record { id = 2; permissions = "users.update" ∷ [] })

-- An operator tries to delete the admin, to take its role, and to take the role itself; then the
-- admin gives the role away.
abbrev attack : List Op
attack =
    delete_user olga "1"
    ∷ set_user_roles olga "1" (some [])
    ∷ set_user_roles olga "2" (some (1 ∷ []))
    ∷ []

abbrev mixed : List Op
mixed = set_user_roles admin "2" (some (1 ∷ [])) ∷ delete_user olga "1" ∷ delete_user admin "2" ∷ []

-- what the tests compute with
running : Unit {0}
unfolding serve Users.delete_user Users.set_user_roles is_super_admin find_user_by_param
    resolve_roles guard_last_super_admin dedupe_ids atoi ◌>>=◌ answer
running = tt

valid : IsValid db
valid = record {
  users = (refl, (refl, tt));
  roles = (refl, (refl, tt));
  users_below = omega arith;
  roles_below = omega arith;
}

has_super : has_active_super db ≡ true
unfolding is_super_admin
has_super = refl

attack_fails : serve attack db ≡ db
unfolding running
attack_fails = refl

serve_keeps_super_example : has_active_super (serve mixed db) ≡ true
serve_keeps_super_example = serve_keeps_super mixed db (tt, (tt, (tt, tt))) valid has_super

admin_before : super_at (serve attack db) 1 ≡ true
unfolding running
admin_before = refl

serve-AddsNoSuper_example : super_at db 1 ≡ true
serve-AddsNoSuper_example = serve-AddsNoSuper attack db 1 (refl, (refl, (refl, tt))) admin_before

abbrev olga_loaded : User
olga_loaded = record {
  id = 2;
  username = "olga";
  name = "Olga";
  password_hash = "h2";
  active = true;
  roles =
      record {
        id = 2;
        name = "operator";
        description = "";
        permissions = record { id = 2; name = "users.update"; description = "" } ∷ [];
      }
      ∷ [];
  permissions = [];
}

has_permission-eq_example : has_permission olga_loaded "users.update" ≡ (
    (roles_grant wildcard olga_loaded.roles || grants wildcard olga_loaded.permissions)
    || (roles_grant "users.update" olga_loaded.roles
        || grants "users.update" olga_loaded.permissions))
has_permission-eq_example = has_permission-eq olga_loaded "users.update"

not_blank : (trim_space "secret" =ₛ "") ≡ false
unfolding trim_space
not_blank = refl

seed-has_active_super_example : has_active_super (seed (λ p. some p) "" "secret" empty_db).1 ≡ true
seed-has_active_super_example =
    seed-has_active_super (λ p. some p) "" "secret" "secret" not_blank refl

-- The admin's wildcard comes from a role of its own, which is deleted.
abbrev custom : Db
custom = record db {
  users =
      record {
        id = 1;
        username = "admin";
        name = "Administrator";
        password_hash = "h1";
        active = true;
        role_ids = 3 ∷ [];
        permission_ids = [];
      }
      ∷ [];
  roles = record { id = 3; name = "root"; description = ""; permission_ids = 1 ∷ [] } ∷ [];
}

abbrev root_role : Role
root_role = record {
  id = 3;
  name = "root";
  description = "";
  permissions = record { id = 1; name = "*"; description = "" } ∷ [];
}

custom_found : find_role_by_param no_faults "3" custom ≡ go root_role
unfolding find_role_by_param atoi ◌>>=◌
custom_found = refl

abbrev role_admin : Roles.Env
role_admin = record {
  faults = no_faults;
  check_create = λ _. [];
  check_update = λ _. [];
  caller = record { id = 1; permissions = "*" ∷ [] };
}

not_protected : "root" ≢ super_admin_role
not_protected e =
    let same : ("root" =ₛ super_admin_role) ≡ true = (=ₛ_iff "root" super_admin_role).1 e in cc

delete_role_locks_out_example :
    ((Roles.delete_role role_admin "3" custom).0 ≡ reply_no_data 200 "role deleted")
    × (has_active_super (Roles.delete_role role_admin "3" custom).1 ≡ false)
delete_role_locks_out_example =
    delete_role_locks_out role_admin "3" custom root_role custom_found not_protected refl refl

dedupe_ids-exact_example :
    ((k : ℕ)
      → is_in (dedupe_ids (3 ∷ 0 ∷ 3 ∷ 1 ∷ [])) k ≡ (not (k == 0) && is_in (3 ∷ 0 ∷ 3 ∷ 1 ∷ []) k))
    × IsKeyed (λ (i : ℕ). i) (dedupe_ids (3 ∷ 0 ∷ 3 ∷ 1 ∷ []))
dedupe_ids-exact_example = dedupe_ids-exact (3 ∷ 0 ∷ 3 ∷ 1 ∷ [])
