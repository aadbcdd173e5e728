-- ===== src/Auth/Password/Laws.antt =====
-- Hashing a password and verifying it.
use vpn_manager.Common.{
  String, true, ◌≡◌, refl, sym, ap, ◌∙◌, Bool-cases, inl, inr, some, [], ◌∷◌, ◌=ₛ◌, if◌then◌else◌,
}
use vpn_manager.Text.{◌⧺◌, split, itoa, emit, size_of}
use vpn_manager.Text.Splitting.{avoids, split-append}
use vpn_manager.Text.Scan.{scan_is, scan_field}
use vpn_manager.Wg.Firewall.{Result, fine, broken}
use vpn_manager.Auth.Password.{
  Crypto, default_params, hash_password, scan_params, decode_parts, decode_hash, verify_password,
}

module _ (c : Crypto) where
  -- the text of a hash
  abbrev phc : String → String → String
  phc salt key = "$argon2id$v=19$m=65536,t=3,p=2$" ⧺ c.encode salt ⧺ "$" ⧺ c.encode key

  decode_hash-phc :
      (salt key : String)
      → avoids b'$' (c.encode salt) ≡ true
      → avoids b'$' (c.encode key) ≡ true
      → c.decode (c.encode salt) ≡ some salt
      → c.decode (c.encode key) ≡ some key
      → decode_hash c (phc salt key) ≡ fine (default_params, salt, key)
  unfolding decode_hash split decode_parts scan_params scan_is scan_field
  decode_hash-phc salt key plain_salt plain_key undo_salt undo_key =
      let parts : split b'$' (c.encode salt ⧺ "$" ⧺ c.encode key)
          ≡ c.encode salt ∷ c.encode key ∷ [] =
        split-append "$" (c.encode salt) (c.encode key) plain_salt plain_key in
      rw parts (rw (undo_salt, undo_key) refl)

  -- A password verifies against the hash of another exactly when Argon2id derives the same key from both,
  -- where base64 has no `$` and is read back, and keys have the 32 bytes asked for.
  pub verify_password-hash_password :
      (salt password other hash : String)
      → hash_password c (some salt) password ≡ fine hash
      → avoids b'$' (c.encode salt) ≡ true
      → avoids b'$' (c.encode (c.id_key password salt default_params 32)) ≡ true
      → c.decode (c.encode salt) ≡ some salt
      → c.decode (c.encode (c.id_key password salt default_params 32))
        ≡ some (c.id_key password salt default_params 32)
      → size_of (c.id_key password salt default_params 32) ≡ 32
      → verify_password c hash other
        ≡ fine (c.id_key password salt default_params 32 =ₛ c.id_key other salt default_params 32)
  unfolding hash_password verify_password itoa emit
  verify_password-hash_password salt password other hash made plain_salt plain_key undo_salt
        undo_key size =
      let key = c.id_key password salt default_params 32 in
      elim (Bool-cases (password =ₛ "")) [
        | inl e ↦
            let no : ◌≡◌ {A = Result String} (broken "password must not be empty") (fine hash) =
              rw (e, if◌then◌else◌) at made in
            cc
        | inr e ↦
            let made' : ◌≡◌ {A = Result String} (fine (phc salt key)) (fine hash) =
              rw (e, if◌then◌else◌) at made in
            let same : phc salt key ≡ hash = cc in
            ap (λ (h : String). verify_password c h other) (sym same)
            ∙ (rw
                (verify_password, decode_hash-phc salt key plain_salt plain_key undo_salt undo_key)
                (rw size refl))
      ]
