-- ===== src/Auth/Password.antt =====
-- backend/security/password.go: password hashes in the PHC format. Argon2id and base64 without padding
-- are parameters; the salt is an argument, `none` where the random source fails.
pub mod Laws
use vpn_manager.Common.{
  ℕ, suc, ◌+◌, ◌-◌, ◌*◌, ◌^◌, String, Bool, true, false, ◌&&◌, Option, none, some, List, [], ◌∷◌,
  not, ◌==◌, ◌=ₛ◌, if◌then◌else◌,
}
use vpn_manager.Text.{◌⧺◌, split, itoa, size_of}
use vpn_manager.Text.Scan.{scan_is, scan_field}
use vpn_manager.Wg.Firewall.{Result, fine, broken}

-- `argon2Params` without the two lengths, which nothing reads
pub record Params : Type 0 where
  pub memory : ℕ
  pub time : ℕ
  pub threads : ℕ

-- `argon2.IDKey` of a password, a salt, the parameters and the length of the key, and
-- `base64.RawStdEncoding`
pub record Crypto : Type 0 where
  pub id_key : String → String → Params → ℕ → String
  pub encode : String → String
  pub decode : String → Option String

-- `defaultParams`
abbrev pub default_params : Params
default_params = record { memory = 64 * 1024; time = 3; threads = 2 }

-- `HashPassword`
unfoldable pub hash_password : Crypto → Option String → String → Result String
hash_password c salt password =
    if password =ₛ "" then broken "password must not be empty" else elim salt [
      | none ↦ broken "generate salt"
      | some s ↦ fine (
          "$argon2id$v="
          ⧺ itoa 19
          ⧺ "$m="
          ⧺ itoa default_params.memory
          ⧺ ",t="
          ⧺ itoa default_params.time
          ⧺ ",p="
          ⧺ itoa default_params.threads
          ⧺ "$"
          ⧺ c.encode s
          ⧺ "$"
          ⧺ c.encode (c.id_key password s default_params 32))
    ]

scan_params : String → Option Params
unfolding scan_field
scan_params s = elim (scan_field "m=" 32 s) [
  | none ↦ none
  | some m ↦ elim (scan_field ",t=" 32 m.1) [
    | none ↦ none
    | some t ↦ elim (scan_field ",p=" 8 t.1) [
      | none ↦ none
      | some p ↦ some (record { memory = m.0; time = t.0; threads = p.0 })
    ]
  ]
]

module _ (c : Crypto) where
  decode_keys : Params → Option String → Option String → Result (Params × String × String)
  decode_keys p (some salt) (some key) = fine (p, salt, key)
  decode_keys p none key = broken "invalid argon2 hash"
  decode_keys p (some salt) none = broken "invalid argon2 hash"

  decode_parts : List String → Result (Params × String × String)
  unfolding decode_keys scan_is scan_params
  decode_parts (empty ∷ name ∷ version ∷ params ∷ salt ∷ key ∷ []) =
      if not (name =ₛ "argon2id")
      then broken "invalid argon2 hash"
      else elim (scan_is "v=" 19 version) [
        | none ↦ broken "invalid argon2 hash"
        | some false ↦ broken "incompatible argon2 version"
        | some true ↦ elim (scan_params params) [
          | none ↦ broken "invalid argon2 hash"
          | some p ↦ decode_keys p (c.decode salt) (c.decode key)
        ]
      ]
  decode_parts _ = broken "invalid argon2 hash"

  -- `decodeHash`
  unfoldable pub decode_hash : String → Result (Params × String × String)
  unfolding decode_parts split
  decode_hash encoded = decode_parts (split b'$' encoded)

  -- `VerifyPassword`: texts of different lengths are not equal
  unfoldable pub verify_password : String → String → Result Bool
  unfolding decode_hash
  verify_password encoded password = elim (decode_hash encoded) [
    | broken e ↦ broken e
    | fine (p, salt, key) ↦ fine (key =ₛ c.id_key password salt p (size_of key))
  ]
