-- ===== src/Rbac/Resolve.antt =====
-- The helpers of backend/handlers/rbac_handler.go that the user and role handlers share.
pub mod Sound
pub mod Dedupe
use vpn_manager.Common.{
  ℕ, zero, suc, String, Bool, not, ◌&&◌, ◌||◌, List, [], ◌∷◌, Option, none, some, any, select,
  length, ◌==◌, ◌=ₛ◌, if◌then◌else◌,
}
use vpn_manager.Text.{◌⧺◌, atoi, ℤ, pos, negsuc}
use vpn_manager.Http.{reply_error}
use vpn_manager.Http.Attempt.{Attempt, halt, go, ◌>>=◌, ◌>>◌, refuse_if, found_or}
use vpn_manager.Rbac.Model.{Permission, Role, User, wildcard, has_key, grants, is_super_admin}
use vpn_manager.Rbac.Store.{Db, is_in, load_role, load_user, load_roles, user_row, role_row}

-- The user that the middleware put on the context: id 0 and no permissions if there is none.
pub record Caller : Type 0 where
  pub id : ℕ
  pub permissions : List String

-- `CurrentUserIsSuperAdmin`
abbrev pub caller_is_super : Caller → Bool
caller_is_super c = has_key c.permissions wildcard

-- Which database calls of a handler fail.
pub record Faults : Type 0 where
  pub find : Bool
  pub resolve_roles : Bool
  pub resolve_permissions : Bool
  pub verify : Bool
  pub write : Bool

pub data IdCheck : Type 0 where
  bad_id : IdCheck
  an_id : ℕ → IdCheck

id_check : Option ℤ → IdCheck
id_check none = bad_id
id_check (some (negsuc n)) = bad_id
id_check (some (pos zero)) = bad_id
id_check (some (pos (suc n))) = an_id (suc n)

-- `parseID` of backend/handlers/interface_handler.go
unfoldable pub parse_id : {R : Type 0} → String → Attempt R ℕ
unfolding id_check
parse_id text = elim (id_check (atoi text)) [
  | bad_id ↦ halt (reply_error 400 "invalid id")
  | an_id n ↦ go n
]

-- `findUserByParam`; the row that the later writes address comes along as its id
unfoldable pub find_user_by_param : Faults → String → Db → Attempt User User
unfolding parse_id
find_user_by_param f text db = do
  id ← parse_id text
  row ← found_or f.find (user_row db id) "user not found" "failed to fetch user"
  go (load_user db row)

unfoldable pub find_role_by_param : Faults → String → Db → Attempt Role Role
unfolding parse_id
find_role_by_param f text db = do
  id ← parse_id text
  row ← found_or f.find (role_row db id) "role not found" "failed to fetch role"
  go (load_role db row)

dedupe_from : List ℕ → List ℕ → List ℕ
dedupe_from seen [] = []
dedupe_from seen (id ∷ ids) =
    let skip = id == 0 || is_in seen id in
    let rest = dedupe_from (if skip then seen else id ∷ seen) ids in
    if skip then rest else id ∷ rest

-- `dedupeIDs`
unfoldable pub dedupe_ids : List ℕ → List ℕ
unfolding dedupe_from
dedupe_ids ids = dedupe_from [] ids

-- `roleHasWildcard`
abbrev pub role_has_wildcard : Role → Bool
role_has_wildcard role = grants wildcard role.permissions

abbrev resolve_role_ids : {R : Type 0} → Faults → Caller → Db → List ℕ → Attempt R (List Role)
resolve_role_ids f caller db [] = go []
resolve_role_ids f caller db (k ∷ ks) = do
  refuse_if f.resolve_roles 500 "failed to resolve roles"
  let roles = load_roles db (k ∷ ks)
  refuse_if (not (length roles == length (k ∷ ks))) 422 "one or more role_ids do not exist"
  refuse_if (not (caller_is_super caller) && any role_has_wildcard roles) 403
      "only a super admin can assign a role that grants the wildcard permission"
  go roles

-- `resolveRoles`
unfoldable pub resolve_roles : {R : Type 0} → Faults → Caller → Db → List ℕ → Attempt R (List Role)
resolve_roles f caller db ids = resolve_role_ids f caller db (dedupe_ids ids)

abbrev resolve_permission_ids :
    {R : Type 0} → Faults → Caller → Db → List ℕ → Attempt R (List Permission)
resolve_permission_ids f caller db [] = go []
resolve_permission_ids f caller db (k ∷ ks) = do
  refuse_if f.resolve_permissions 500 "failed to resolve permissions"
  let perms = select (λ p. is_in (k ∷ ks) p.id) db.permissions
  refuse_if (not (length perms == length (k ∷ ks))) 422 "one or more permission_ids do not exist"
  refuse_if (not (caller_is_super caller) && grants wildcard perms) 403
      "only a super admin can grant the wildcard permission"
  go perms

-- `resolvePermissions`
unfoldable pub resolve_permissions :
    {R : Type 0} → Faults → Caller → Db → List ℕ → Attempt R (List Permission)
resolve_permissions f caller db ids = resolve_permission_ids f caller db (dedupe_ids ids)

-- `rbac.SuperAdminRole`
abbrev pub super_admin_role : String
super_admin_role = "super-admin"

-- `protectSuperAdminRole`
unfoldable pub protect_super_admin_role : {R : Type 0} → Role → String → Attempt R (Unit {0})
protect_super_admin_role role action =
    refuse_if (role.name =ₛ super_admin_role) 409
      ("the " ⧺ super_admin_role ⧺ " role is protected and cannot be " ⧺ action)

-- `guardLastSuperAdmin`
unfoldable pub guard_last_super_admin : Faults → Db → User → Bool → Attempt User (Unit {0})
guard_last_super_admin f db user still_super =
    if not (is_super_admin user) || still_super then go tt else do
      refuse_if f.verify 500 "failed to verify super admins"
      let others = select (λ u. u.active && not (u.id == user.id)) db.users
      refuse_if (not (any (λ u. is_super_admin (load_user db u)) others)) 409
          "cannot remove the last active super admin"
