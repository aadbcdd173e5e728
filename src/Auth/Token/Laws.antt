-- ===== src/Auth/Token/Laws.antt =====
-- What a session token proves: an issued token is accepted until it expires, and an accepted one
-- carries the service's signature.
use vpn_manager.Common.{
  ℕ, ◌+◌, ◌^◌, ◌<◌, String, true, false, ◌||◌, List, [], ◌∷◌, Option, none, some, ◌≡◌, refl, ◌∙◌,
  ap, inl, inr, arith, leb, ◌=ₛ◌, =ₛ_iff, if◌then◌else◌, Bool-cases,
}
use vpn_manager.Text.{◌⧺◌, split, itoa, parse_uint}
use vpn_manager.Text.Decimal.{parse_uint-itoa}
use vpn_manager.Text.Splitting.{avoids, split-append}
use vpn_manager.Auth.Token.{
  Claims, Codec, Service, accepted, rejected, invalid_token, sign, issue, check_subject,
  check_claims, check_parts, validate,
}

-- The text is not empty and has no dot, as base64 of a text that is not empty.
abbrev pub IsSegment : String → Type 0
IsSegment s = (avoids b'.' s ≡ true) × ((s =ₛ "") ≡ false)

-- The claims that `issue` signs.
abbrev pub claims_of : ℕ → ℕ → ℕ → Claims
claims_of id now ttl = record { sub = itoa id; iat = now; exp = now + ttl }

module _ (c : Codec) where
  check_claims-issued :
      (id now ttl later : ℕ)
      → 0 < id
      → id < 2 ^ 64
      → later < now + ttl
      → check_claims c (some (claims_of id now ttl)) later ≡ accepted id
  unfolding check_claims check_subject
  check_claims-issued id now ttl later positive small fresh =
      rw (parse_uint-itoa id small) (ground arith)

  check_parts-signed :
      (s : Service) (payload : String) (now : ℕ)
      → IsSegment payload
      → IsSegment (c.mac s.secret payload)
      → check_parts c s (payload ∷ c.mac s.secret payload ∷ []) now
        ≡ check_claims c (c.decode payload) now
  unfolding check_parts sign
  check_parts-signed s payload now (_, hp) (_, hs) =
      let same : (c.mac s.secret payload =ₛ c.mac s.secret payload) ≡ true =
        (=ₛ_iff (c.mac s.secret payload) (c.mac s.secret payload)).1 refl in
      rw (hp, hs, same) refl

  -- A token that the service issued to a user is accepted as that user's until the time to live has
  -- passed, where the codec reads back the claims that it wrote and both parts are segments.
  pub validate-issue :
      (s : Service) (id now later : ℕ)
      → c.decode (c.encode (claims_of id now s.ttl)) ≡ some (claims_of id now s.ttl)
      → IsSegment (c.encode (claims_of id now s.ttl))
      → IsSegment (c.mac s.secret (c.encode (claims_of id now s.ttl)))
      → 0 < id
      → id < 2 ^ 64
      → later < now + s.ttl
      → validate c s (issue c s id now) later ≡ accepted id
  unfolding validate issue sign
  validate-issue s id now later undo encoded signed positive small fresh =
      let cl = claims_of id now s.ttl in
      let payload = c.encode cl in
      let signature = c.mac s.secret payload in
      let parts : split b'.' (payload ⧺ "." ⧺ signature) ≡ payload ∷ signature ∷ [] =
        split-append "." payload signature encoded.0 signed.0 in
      ap (λ (ps : List String). check_parts c s ps later) parts
      ∙ check_parts-signed s payload later encoded signed
      ∙ ap (λ (o : Option Claims). check_claims c o later) undo
      ∙ check_claims-issued id now s.ttl later positive small fresh

  -- What an accepted token contains.
  pub record Credentials (s : Service) (token : String) (now id : ℕ) : Type 0 where
    pub payload : String
    pub claims : Claims
    pub signed : split b'.' token ≡ payload ∷ c.mac s.secret payload ∷ []
    pub decoded : c.decode payload ≡ some claims
    pub fresh : now < claims.exp
    pub subject : parse_uint claims.sub ≡ some id
    pub positive : 0 < id

  check_subject_sound :
      (o : Option ℕ) (id : ℕ) → check_subject c o ≡ accepted id → (o ≡ some id) × (0 < id)
  unfolding check_subject
  check_subject_sound none id h = cc
  check_subject_sound (some k) id h = ground arith

  check_claims_sound :
      (o : Option Claims) (now id : ℕ)
      → check_claims c o now ≡ accepted id
      → (cl : Claims) × (o ≡ some cl) × (now < cl.exp) × (parse_uint cl.sub ≡ some id) × (0 < id)
  unfolding check_claims
  check_claims_sound none now id h = cc
  check_claims_sound (some cl) now id h = elim (Bool-cases (leb cl.exp now)) [
    | inl e ↦ ground (arith, e)
    | inr e ↦
        let sub : check_subject c (parse_uint cl.sub) ≡ accepted id = rw (e, if◌then◌else◌) at h in
        let facts = check_subject_sound (parse_uint cl.sub) id sub in
        (cl, refl, ground arith, facts.0, facts.1)
  ]

  check_parts_sound :
      (s : Service) (parts : List String) (now id : ℕ)
      → check_parts c s parts now ≡ accepted id
      → (payload : String) × (parts ≡ payload ∷ c.mac s.secret payload ∷ [])
        × (check_claims c (c.decode payload) now ≡ accepted id)
  unfolding check_parts sign
  check_parts_sound s [] now id h = cc
  check_parts_sound s (a ∷ []) now id h = cc
  check_parts_sound s (a ∷ b ∷ d ∷ ps) now id h = cc
  check_parts_sound s (a ∷ b ∷ []) now id h = elim (Bool-cases (a =ₛ "" || b =ₛ "")) [
    | inl e ↦ let bad : rejected invalid_token ≡ accepted id = rw (e, if◌then◌else◌) at h in cc
    | inr e ↦ elim (Bool-cases (b =ₛ c.mac s.secret a)) [
      | inl m ↦
          let same : b ≡ c.mac s.secret a = (=ₛ_iff b (c.mac s.secret a)).0 m in
          (a, rw same refl, rw (e, m, if◌then◌else◌) at h)
      | inr m ↦ let bad : rejected invalid_token ≡ accepted id = rw (e, m, if◌then◌else◌) at h in cc
    ]
  ]

  -- A token that is accepted as a user's has two parts, of which the second is the service's signature
  -- of the first; the first decodes to claims on that user that have not expired, and the user's id is
  -- not 0.
  pub validate_sound :
      (s : Service) (token : String) (now id : ℕ)
      → validate c s token now ≡ accepted id
      → Credentials s token now id
  unfolding validate
  validate_sound s token now id h =
      let parts = check_parts_sound s (split b'.' token) now id h in
      let claims = check_claims_sound (c.decode parts.0) now id parts.2 in
      record {
        payload = parts.0;
        claims = claims.0;
        signed = parts.1;
        decoded = claims.1;
        fresh = claims.2;
        subject = claims.3;
        positive = claims.4;
      }
