-- ===== src/Vpn/Secrets/Laws.antt =====
-- References of secrets keep their parts apart, and a sealed secret is opened again.
use Prim.Native.String as Str
use vpn_manager.Common.{
  ℕ, zero, suc, ◌/◌, ◌%◌, String, true, ◌≡◌, refl, ◌∙◌, ap, some, List, [], ◌∷◌, arith,
}
use vpn_manager.Text.{split, join, itoa, emit, emit_digit}
use vpn_manager.Text.Decimal.{emit_digit-code}
use vpn_manager.Text.Splitting.{avoids, split-append, split-piece}
use vpn_manager.Wg.Firewall.{Result, fine}
use vpn_manager.Vpn.Slug.{sanitize_instance_name, sanitize_ref_part}
use vpn_manager.Vpn.Slug.Laws.{sanitize_instance_name-IsSlug, chars-avoids}
use vpn_manager.Vpn.Secrets.{SealedSecret, Cipher, build_ref, encrypt, decrypt, unseal_with, opened}

emit-avoids : (f n : ℕ) (out : String) → avoids b'/' out ≡ true → avoids b'/' (emit f n out) ≡ true
unfolding emit
emit-avoids zero n out h = h
emit-avoids (suc f) n out h =
    let digit = emit_digit-code (n % 10) (omega arith) in
    ground (arith, h, digit, emit-avoids f (n / 10) (Str.◌∷◌ (emit_digit (n % 10)) out))

itoa-avoids : (n : ℕ) → avoids b'/' (itoa n) ≡ true
unfolding itoa
itoa-avoids n = emit-avoids 20 n "" refl

ref_part-avoids : (s : String) → avoids b'/' (sanitize_ref_part s) ≡ true
unfolding sanitize_ref_part
ref_part-avoids s = chars-avoids (sanitize_instance_name s) (sanitize_instance_name-IsSlug s).0

-- A reference splits at its slashes into the sanitised scope, the number of the owner and the sanitised
-- name.
pub build_ref-parts :
    (scope : String) (owner_id : ℕ) (name : String)
    → split b'/' (build_ref scope owner_id name)
      ≡ sanitize_ref_part scope ∷ itoa owner_id ∷ sanitize_ref_part name ∷ []
unfolding build_ref join
build_ref-parts scope owner_id name =
    split-piece "/" (sanitize_ref_part scope) _ (ref_part-avoids scope)
    ∙ ap (λ (ps : List String). sanitize_ref_part scope ∷ ps)
        (split-append "/" (itoa owner_id) (sanitize_ref_part name) (itoa-avoids owner_id)
          (ref_part-avoids name))

-- What was sealed under a key is opened under the same key, where base64 is read back and the cipher opens
-- what it sealed.
pub decrypt-encrypt :
    (c : Cipher) (key nonce plaintext : String) (sealed : SealedSecret)
    → encrypt c (some key) (some nonce) plaintext ≡ fine sealed
    → c.decode (c.encode nonce) ≡ some nonce
    → c.decode (c.encode (c.seal key nonce plaintext)) ≡ some (c.seal key nonce plaintext)
    → c.unseal key nonce (c.seal key nonce plaintext) ≡ some plaintext
    → decrypt c (some key) sealed ≡ fine plaintext
unfolding encrypt decrypt unseal_with opened
decrypt-encrypt c key nonce plaintext sealed made undo_nonce undo_text opens =
    let sealed' : SealedSecret = record {
      algorithm = "AES-256-GCM";
      nonce = c.encode nonce;
      ciphertext = c.encode (c.seal key nonce plaintext);
    } in
    let same : sealed' ≡ sealed =
      (let eq : ◌≡◌ {A = Result SealedSecret} (fine sealed') (fine sealed) = made in cc) in
    rw (← same) (rw (undo_nonce, undo_text, opens) refl)
