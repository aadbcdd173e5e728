-- ===== src/Auth/Middleware.antt =====
-- backend/middleware/auth.go: what a protected route requires. The context of a request holds a session
-- once `Auth` has passed.
pub mod Laws
use vpn_manager.Common.{
  ℕ, String, Bool, true, false, not, ◌&&◌, ◌||◌, Option, none, some, List, [], ◌∷◌, if◌then◌else◌,
}
use vpn_manager.Text.{◌⧺◌, trim_space, has_prefix, drop_chars}
use vpn_manager.Http.{reply_error}
use vpn_manager.Http.Attempt.{Attempt, halt, go, ◌>>=◌, ◌>>◌, refuse_if}
use vpn_manager.Rbac.Model.{User, wildcard, has_key, effective_permissions}
use vpn_manager.Rbac.Store.{Db, UserRow, load_user, user_row}
use vpn_manager.Auth.Token.{Codec, Service, Validation, accepted, rejected, validate}

-- `ContextAuthUser` and `ContextAuthPerms`
pub record Session : Type 0 where
  pub user : User
  pub permissions : List String

abbrev pub session_of : User → Session
session_of u = record { user = u; permissions = effective_permissions u }

module _ {R : Type 0} where
  bearer_user : Validation → Attempt R ℕ
  bearer_user (rejected e) = halt (reply_error 401 "invalid or expired token")
  bearer_user (accepted id) = go id

  known_user : Bool → Option UserRow → Attempt R UserRow
  known_user true o = halt (reply_error 500 "failed to load user")
  known_user false none = halt (reply_error 401 "user no longer exists")
  known_user false (some u) = go u

  -- `Auth`; `fault` is whether the query fails
  unfoldable pub authenticate : Codec → Service → Bool → String → ℕ → Db → Attempt R Session
  unfolding bearer_user known_user
  authenticate codec service fault authorization now db = do
    let header = trim_space authorization
    refuse_if (not (has_prefix header "Bearer ")) 401 "authentication required"
    id ← bearer_user (validate codec service (trim_space (drop_chars 7 header)) now)
    row ← known_user fault (user_row db id)
    refuse_if (not row.active) 403 "user account is disabled"
    go (session_of (load_user db row))

  -- `RequirePermission`
  unfoldable pub require_permission : String → Option Session → Attempt R (Unit {0})
  require_permission perm none = halt (reply_error 401 "authentication required")
  require_permission perm (some s) =
      refuse_if (not (has_key s.permissions wildcard || has_key s.permissions perm)) 403
        ("missing required permission: " ⧺ perm)

  -- a route behind both
  unfoldable pub guard_route : Codec → Service → Bool → String → ℕ → Db → String → Attempt R Session
  unfolding authenticate require_permission
  guard_route codec service fault authorization now db perm = do
    s ← authenticate codec service fault authorization now db
    require_permission perm (some s)
    go s

-- `CurrentUser`
unfoldable pub current_user : Option Session → Option User
current_user none = none
current_user (some s) = some s.user

-- `CurrentUserID`
unfoldable pub current_user_id : Option Session → ℕ
unfolding current_user
current_user_id o = elim (current_user o) [ none ↦ 0 | some u ↦ u.id ]

-- `CurrentUserIsSuperAdmin`
unfoldable pub current_user_is_super_admin : Option Session → Bool
current_user_is_super_admin none = false
current_user_is_super_admin (some s) = has_key s.permissions wildcard
