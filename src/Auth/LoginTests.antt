-- ===== src/Auth/LoginTests.antt =====
-- A password, its hash, and a login with it.
use vpn_manager.Common.{String, true, false, ◌≡◌, refl, [], ◌∷◌, some, arith, ◌=ₛ◌}
use vpn_manager.Text.{◌⧺◌, itoa, emit}
use vpn_manager.Http.Attempt.{go}
use vpn_manager.Wg.Firewall.{fine}
use vpn_manager.Rbac.Store.{Db, UserRow, load_user}
use vpn_manager.Auth.Token.{Codec, Service, issue}
use vpn_manager.Auth.Middleware.{session_of, authenticate}
use vpn_manager.Auth.Password.{Crypto, default_params, hash_password, verify_password}
use vpn_manager.Auth.Password.Laws.{verify_password-hash_password}
use vpn_manager.Auth.Login.{LoginRequest, LoginResponse, login}
use vpn_manager.Auth.Login.Laws.{Encodes, login-authenticates}

-- keys of 32 bytes that depend on whether the password is "secret"
abbrev crypto : Crypto
crypto = record {
  id_key = λ password salt params n. elim (password =ₛ "secret") [
    | true ↦ "0123456789abcdef0123456789abcdef"
    | false ↦ "f123456789abcdef0123456789abcdef"
  ];
  encode = λ s. s;
  decode = λ s. some s;
}

abbrev hash : String
hash = "$argon2id$v=19$m=65536,t=3,p=2$salt$0123456789abcdef0123456789abcdef"

hashed : hash_password crypto (some "salt") "secret" ≡ fine hash
unfolding hash_password itoa emit
hashed = refl

verify_password-hash_password_example :
    verify_password crypto hash "guess"
    ≡ fine (
        crypto.id_key "secret" "salt" default_params 32
        =ₛ crypto.id_key "guess" "salt" default_params 32)
verify_password-hash_password_example =
    verify_password-hash_password crypto "salt" "secret" "guess" hash hashed refl refl refl refl
      refl

right_password : verify_password crypto hash "secret" ≡ fine true
right_password =
    verify_password-hash_password crypto "salt" "secret" "secret" hash hashed refl refl refl refl
      refl

abbrev codec : Codec
codec = record {
  mac = λ key payload. "signature";
  encode = λ cl. "payload";
  decode = λ text. some (record { sub = "2"; iat = 100; exp = 200 });
}

abbrev service : Service
service = record { secret = "key"; ttl = 100 }

abbrev olga : UserRow
olga = record {
  id = 2;
  username = "olga";
  name = "Olga";
  password_hash = hash;
  active = true;
  role_ids = [];
  permission_ids = [];
}

abbrev db : Db
db = record {
  users = olga ∷ [];
  roles = [];
  permissions = [];
  user_seq = 2;
  role_seq = 0;
  permission_seq = 0;
}

encodes : Encodes codec service 2 100
unfolding itoa emit issue
encodes = record {
  undo = refl;
  payload = (refl, refl);
  signature = (refl, refl);
  unspaced = refl;
  nonempty = refl;
}

abbrev credentials : LoginRequest
credentials = record { username = "olga"; password = "secret" }

login-authenticates_example :
    (response : LoginResponse) × (login codec crypto service false
        (λ _. [])
        (some credentials)
        100
        db
      ≡ go response)
    × (authenticate {R = Unit {0}} codec service false ("Bearer " ⧺ response.token) 150 db
        ≡ go (session_of (load_user db olga)))
login-authenticates_example =
    login-authenticates codec crypto service (λ _. []) credentials 100 150 db olga refl refl
      right_password refl (refl, tt) (omega arith) (omega arith) encodes (omega arith)
