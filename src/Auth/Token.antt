-- ===== src/Auth/Token.antt =====
-- backend/auth/auth.go: signed session tokens. HMAC-SHA256, base64 and the JSON codec of the claims
-- are parameters; times are Unix seconds.
pub mod Laws
use vpn_manager.Common.{
  ℕ, zero, suc, ◌+◌, ◌*◌, ◌^◌, String, Bool, true, false, not, ◌&&◌, ◌||◌, Option, none, some, List,
  [], ◌∷◌, leb, ◌==◌, ◌=ₛ◌, if◌then◌else◌,
}
use vpn_manager.Text.{◌⧺◌, split, trim_space, itoa, parse_uint}

-- `claims`
pub record Claims : Type 0 where
  pub sub : String
  pub iat : ℕ
  pub exp : ℕ

-- What the package calls: `mac` is HMAC-SHA256 followed by base64, `encode` is `json.Marshal`
-- followed by base64, `decode` undoes it, `none` where either step fails.
pub record Codec : Type 0 where
  pub mac : String → String → String
  pub encode : Claims → String
  pub decode : String → Option Claims

pub data TokenError : Type 0 where
  invalid_token expired_token : TokenError

pub data Validation : Type 0 where
  accepted : ℕ → Validation
  rejected : TokenError → Validation

-- `Service`; the key and the TTL in seconds
pub record Service : Type 0 where
  pub secret : String
  pub ttl : ℕ

-- `NewService`: `random` is the ephemeral key, and a TTL that is not positive is 0 here
pub new_service : String → String → ℕ → Service
new_service random secret ttl = record {
  secret = if trim_space secret =ₛ "" then random else secret;
  ttl = if ttl == 0 then 24 * 3600 else ttl;
}

module _ (c : Codec) where
  -- `sign`
  sign : Service → String → String
  sign s payload = c.mac s.secret payload

  -- `Issue`
  unfoldable pub issue : Service → ℕ → ℕ → String
  unfolding sign
  issue s user_id now =
      let payload = c.encode (record { sub = itoa user_id; iat = now; exp = now + s.ttl }) in
      payload ⧺ "." ⧺ sign s payload

  check_subject : Option ℕ → Validation
  check_subject none = rejected invalid_token
  check_subject (some id) = if id == 0 then rejected invalid_token else accepted id

  check_claims : Option Claims → ℕ → Validation
  unfolding check_subject
  check_claims none now = rejected invalid_token
  check_claims (some cl) now =
      if leb cl.exp now then rejected expired_token else check_subject (parse_uint cl.sub)

  check_parts : Service → List String → ℕ → Validation
  unfolding sign check_claims
  check_parts s (payload ∷ signature ∷ []) now =
      if payload =ₛ "" || signature =ₛ ""
      then rejected invalid_token
      else if not (signature =ₛ sign s payload)
      then rejected invalid_token
      else check_claims (c.decode payload) now
  check_parts s _ now = rejected invalid_token

  -- `Validate`
  unfoldable pub validate : Service → String → ℕ → Validation
  unfolding check_parts
  validate s token now = check_parts s (split b'.' token) now
