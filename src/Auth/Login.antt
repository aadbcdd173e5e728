-- ===== src/Auth/Login.antt =====
-- backend/handlers/auth_handler.go: logging in, and the current user.
pub mod Laws
use vpn_manager.Common.{
  ℕ, ◌+◌, String, Bool, true, false, not, Option, none, some, List, [], ◌∷◌, map, first, ◌=ₛ◌,
}
use vpn_manager.Http.{Reply, reply_ok, reply_error}
use vpn_manager.Http.Attempt.{
  Attempt, halt, go, ◌>>=◌, ◌>>◌, refuse_if, found_or, bind_json, validated,
}
use vpn_manager.Wg.Firewall.{Result, fine, broken}
use vpn_manager.Rbac.Model.{User, effective_permissions}
use vpn_manager.Rbac.Store.{Db, UserRow}
use vpn_manager.Auth.Token.{Codec, Service, issue}
use vpn_manager.Auth.Middleware.{Session, current_user}
use vpn_manager.Auth.Password.{Crypto, verify_password}

-- `LoginRequest`
pub record LoginRequest : Type 0 where
  pub username : String
  pub password : String

-- `LoginResponse`; the expiry is in Unix seconds
pub record LoginResponse : Type 0 where
  pub token : String
  pub token_type : String
  pub expires_at : ℕ
  pub username : String

-- the query for the user by name
abbrev pub row_by_username : Db → String → Option UserRow
row_by_username db name = first (λ u. u.username =ₛ name) db.users

found_user : Bool → Option UserRow → Attempt LoginResponse UserRow
found_user true o = halt (reply_error 500 "failed to look up user")
found_user false none = halt (reply_error 401 "invalid username or password")
found_user false (some row) = go row

checked : Result Bool → Attempt LoginResponse (Unit {0})
checked (broken e) = halt (reply_error 500 "failed to verify password")
checked (fine valid) = refuse_if (not valid) 401 "invalid username or password"

-- `AuthHandler.Login`: what it answers with, where `fault` is whether the query fails
unfoldable pub login :
    Codec
    → Crypto
    → Service
    → Bool
    → (LoginRequest → List String)
    → Option LoginRequest
    → ℕ
    → Db
    → Attempt LoginResponse LoginResponse
unfolding found_user checked
login codec crypto service fault check body now db = do
  req ← bind_json body
  validated (check req)
  row ← found_user fault (row_by_username db req.username)
  checked (verify_password crypto row.password_hash req.password)
  refuse_if (not row.active) 403 "user account is disabled"
  go (record {
    token = issue codec service row.id now;
    token_type = "Bearer";
    expires_at = now + service.ttl;
    username = row.username;
  })

-- `currentUserResponse`, without the sorting of its two lists
pub record CurrentUser : Type 0 where
  pub id : ℕ
  pub username : String
  pub name : String
  pub active : Bool
  pub roles : List String
  pub permissions : List String

unfoldable pub current_user_response : User → CurrentUser
current_user_response u = record {
  id = u.id;
  username = u.username;
  name = u.name;
  active = u.active;
  roles = map (λ r. r.name) u.roles;
  permissions = effective_permissions u;
}

-- `AuthHandler.Me`
unfoldable pub me : Option Session → Reply CurrentUser
unfolding current_user current_user_response
me o = elim (current_user o) [
  | none ↦ reply_error 401 "authentication required"
  | some u ↦ reply_ok "data fetched successfully" (current_user_response u)
]
