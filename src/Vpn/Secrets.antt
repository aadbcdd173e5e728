-- ===== src/Vpn/Secrets.antt =====
-- backend/secrets/crypto.go: references of secrets, and sealing. The authenticated cipher and base64 are
-- parameters, and the nonce is an argument, `none` where the random source fails.
pub mod Laws
use vpn_manager.Common.{
  ℕ, String, Bool, not, Option, none, some, List, [], ◌∷◌, ◌=ₛ◌, if◌then◌else◌,
}
use vpn_manager.Text.{join, itoa, trim_space}
use vpn_manager.Wg.Firewall.{Result, fine, broken}
use vpn_manager.Vpn.Slug.{sanitize_ref_part}

-- `BuildRef`
unfoldable pub build_ref : String → ℕ → String → String
unfolding sanitize_ref_part
build_ref scope owner_id name =
    join "/" (sanitize_ref_part scope ∷ itoa owner_id ∷ sanitize_ref_part name ∷ [])

-- `SealedSecret`
pub record SealedSecret : Type 0 where
  pub algorithm : String
  pub nonce : String
  pub ciphertext : String

-- AES-256-GCM under the hash of a master key, and `base64.StdEncoding`
pub record Cipher : Type 0 where
  pub seal : String → String → String → String
  pub unseal : String → String → String → Option String
  pub encode : String → String
  pub decode : String → Option String

-- `Envelope`: the master key, `none` for a nil one
abbrev pub Envelope : Type 0
Envelope = Option String

-- `NewEnvelope`
unfoldable pub new_envelope : String → Result Envelope
new_envelope master_key =
    if trim_space master_key =ₛ ""
    then broken "secret master key is required"
    else fine (some master_key)

module _ (c : Cipher) where
  -- `Encrypt`
  unfoldable pub encrypt : Envelope → Option String → String → Result SealedSecret
  encrypt none fresh plaintext = broken "secret envelope is not initialized"
  encrypt (some key) none plaintext = broken "random source failed"
  encrypt (some key) (some fresh) plaintext = fine (record {
    algorithm = "AES-256-GCM";
    nonce = c.encode fresh;
    ciphertext = c.encode (c.seal key fresh plaintext);
  })

  opened : Option String → Result String
  opened none = broken "failed to decrypt secret"
  opened (some text) = fine text

  unseal_with : String → Option String → Option String → Result String
  unfolding opened
  unseal_with key none ciphertext = broken "invalid secret nonce"
  unseal_with key (some nonce) none = broken "invalid secret ciphertext"
  unseal_with key (some nonce) (some text) = opened (c.unseal key nonce text)

  -- `Decrypt`
  unfoldable pub decrypt : Envelope → SealedSecret → Result String
  unfolding unseal_with
  decrypt none secret = broken "secret envelope is not initialized"
  decrypt (some key) secret =
      if not (secret.algorithm =ₛ "AES-256-GCM")
      then broken "unsupported secret algorithm"
      else unseal_with key (c.decode secret.nonce) (c.decode secret.ciphertext)
