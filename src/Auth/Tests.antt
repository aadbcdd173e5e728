-- ===== src/Auth/Tests.antt =====
-- Concrete tokens and requests.

use vpn_manager.Common.{◌≡◌, refl, true, false, [], ◌∷◌, some, arith}
use vpn_manager.Text.{split, trim_space, has_prefix, drop_chars, parse_uint, itoa, emit}
use vpn_manager.Http.Attempt.{◌>>=◌, go}
use vpn_manager.Rbac.Model.{effective_permissions}
use vpn_manager.Rbac.Store.{Db}
use vpn_manager.Auth.Token.{Claims, Codec, Service, accepted, validate, issue}
use vpn_manager.Auth.Token.Laws.{Credentials, validate_sound, validate-issue}
use vpn_manager.Auth.Middleware.{Session, guard_route}
use vpn_manager.Auth.Middleware.Laws.{Entitled, guard_route_sound}

-- a codec that reads one payload
abbrev olga_claims : Claims
olga_claims = record { sub = "2"; iat = 100; exp = 200 }

abbrev codec : Codec
codec = record {
  mac = λ key payload. "signature";
  encode = λ cl. "payload";
  decode = λ text. some olga_claims;
}

abbrev service : Service
service = record { secret = "key"; ttl = 100 }

token_accepted : validate codec service "payload.signature" 150 ≡ accepted 2
unfolding validate split parse_uint
token_accepted = refl

validate_sound_example : Credentials codec service "payload.signature" 150 2
validate_sound_example = validate_sound codec service "payload.signature" 150 2 token_accepted

validate-issue_example : validate codec service (issue codec service 2 100) 150 ≡ accepted 2
unfolding itoa emit
validate-issue_example =
    validate-issue codec service 2 100 150 refl (refl, refl) (refl, refl) (omega arith)
      (omega arith) (omega arith)

abbrev db : Db
db = record {
  users =
      record {
        id = 2;
        username = "olga";
        name = "Olga";
        password_hash = "h";
        active = true;
        role_ids = 1 ∷ [];
        permission_ids = [];
      }
      ∷ [];
  roles = record { id = 1; name = "viewer"; description = ""; permission_ids = 1 ∷ [] } ∷ [];
  permissions = record { id = 1; name = "peers.view"; description = "" } ∷ [];
  user_seq = 2;
  role_seq = 1;
  permission_seq = 1;
}

abbrev session : Session
session = record {
  user = record {
    id = 2;
    username = "olga";
    name = "Olga";
    password_hash = "h";
    active = true;
    roles =
        record {
          id = 1;
          name = "viewer";
          description = "";
          permissions = record { id = 1; name = "peers.view"; description = "" } ∷ [];
        }
        ∷ [];
    permissions = [];
  };
  permissions = "peers.view" ∷ [];
}

route_passed :
    guard_route {R = Unit {0}} codec service false "Bearer payload.signature" 150 db "peers.view"
    ≡ go session
unfolding guard_route ◌>>=◌ validate split parse_uint trim_space has_prefix drop_chars
    effective_permissions
route_passed = refl

guard_route_sound_example :
    Entitled codec service db "Bearer payload.signature" 150 "peers.view" session
guard_route_sound_example =
    guard_route_sound codec service db {R = Unit {0}} false "Bearer payload.signature" 150
      "peers.view" session route_passed
