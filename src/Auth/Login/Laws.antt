-- ===== src/Auth/Login/Laws.antt =====
-- What a login opens.
use vpn_manager.Common.{
  ℕ, ◌+◌, ◌^◌, ◌<◌, String, true, false, ◌≡◌, refl, ap, ◌∙◌, some, List, [], IsKeyed, first-keyed,
  ◌=ₛ◌,
}
use vpn_manager.Text.{◌⧺◌, trim_space, has_prefix, drop_chars}
use vpn_manager.Text.Trim.{no_space, bearer_token}
use vpn_manager.Http.Attempt.{go, ◌>>=◌}
use vpn_manager.Wg.Firewall.{fine}
use vpn_manager.Rbac.Store.{Db, UserRow, user_key, user_row, load_user}
use vpn_manager.Auth.Token.{Codec, Service, issue, validate}
use vpn_manager.Auth.Token.Laws.{claims_of, IsSegment, validate-issue}
use vpn_manager.Auth.Middleware.{session_of, authenticate}
use vpn_manager.Auth.Middleware.Laws.{authenticate_admits}
use vpn_manager.Auth.Password.{Crypto, verify_password}
use vpn_manager.Auth.Login.{
  LoginRequest, LoginResponse, row_by_username, login, found_user, checked,
}

-- What the codec has to do for the claims on a user.
pub record Encodes (codec : Codec) (service : Service) (id now : ℕ) : Type 0 where
  pub undo :
      codec.decode (codec.encode (claims_of id now service.ttl))
      ≡ some (claims_of id now service.ttl)
  pub payload : IsSegment (codec.encode (claims_of id now service.ttl))
  pub signature : IsSegment (codec.mac service.secret (codec.encode (claims_of id now service.ttl)))
  pub unspaced : no_space (issue codec service id now) ≡ true
  pub nonempty : (issue codec service id now =ₛ "") ≡ false

-- Who logs in with the right password of an active user gets a token that, sent back in a Bearer header
-- before its time to live has passed, authenticates as that user, where ids are unique 64-bit numbers
-- other than 0 and the codec reads back the claims that it writes, in texts without dots and spaces.
pub login-authenticates :
    (codec : Codec) (crypto : Crypto) (service : Service) (check : LoginRequest → List String)
    (req : LoginRequest) (now later : ℕ) (db : Db) (row : UserRow)
    → check req ≡ []
    → row_by_username db req.username ≡ some row
    → verify_password crypto row.password_hash req.password ≡ fine true
    → row.active ≡ true
    → IsKeyed user_key db.users
    → 0 < row.id
    → row.id < 2 ^ 64
    → Encodes codec service row.id now
    → later < now + service.ttl
    → (response : LoginResponse) × (login codec crypto service false check (some req) now db
        ≡ go response)
      × (authenticate {R = Unit {0}} codec service false ("Bearer " ⧺ response.token) later db
          ≡ go (session_of (load_user db row)))
unfolding login ◌>>=◌ found_user checked has_prefix drop_chars
login-authenticates codec crypto service check req now later db row valid known right active keyed
      positive small enc fresh =
    let token = issue codec service row.id now in
    let read = bearer_token token enc.nonempty enc.unspaced in
    let found : user_row db row.id ≡ some row =
      first-keyed user_key (λ u. u.username =ₛ req.username) db.users keyed known in
    let good =
      validate-issue codec service row.id now later enc.undo enc.payload enc.signature positive
        small fresh in
    (
      record {
        token = token;
        token_type = "Bearer";
        expires_at = now + service.ttl;
        username = row.username;
      },
      rw (valid, known, right, active) refl,
      authenticate_admits codec service db ("Bearer " ⧺ token) later row.id row
          (ap (λ (t : String). has_prefix t "Bearer ") read.0)
          (ap (λ (t : String). validate codec service (trim_space (drop_chars 7 t)) later) read.0
            ∙ ap (λ (t : String). validate codec service t later) read.1
            ∙ good)
          found active,
    )
