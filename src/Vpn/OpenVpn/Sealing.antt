-- ===== src/Vpn/OpenVpn/Sealing.antt =====
-- The secrets of a draft are opened again, and the draft refers to them.
use vpn_manager.Common.{
  ℕ, suc, String, Bool, true, false, not, ◌≡◌, refl, sym, subst, Option, none, some, List, [], ◌∷◌,
  map, ltb, ◌==◌, ◌=ₛ◌, Bool-cases, inl, inr, if◌then◌else◌,
}
use vpn_manager.Text.{◌⧺◌, trim_space}
use vpn_manager.Wg.Firewall.{Result, fine, broken}
use vpn_manager.Vpn.Secrets.{Cipher, SealedSecret, build_ref, encrypt, decrypt}
use vpn_manager.Vpn.Secrets.Laws.{decrypt-encrypt}
use vpn_manager.Vpn.OpenVpn.Plans.{OpenVpnInstance}
use vpn_manager.Vpn.OpenVpn.Drafts.{
  InstanceDraftInput, EncryptedSecret, SecretInput, with_secret, seal_inputs, instance_error,
  drafted_instance, instance_secrets, build_instance_draft,
}

-- base64 is read back, and the cipher opens what it sealed
pub record IsCipher (c : Cipher) : Type 0 where
  pub undo : (s : String) → c.decode (c.encode s) ≡ some s
  pub opens : (key nonce text : String) → c.unseal key nonce (c.seal key nonce text) ≡ some text

-- The references of the inputs, assigned in their order.
unfoldable pub assign_all : {A : Type 0} → String → List (SecretInput A) → A → A
assign_all scope [] owner = owner
assign_all scope (i ∷ is) owner =
    assign_all scope is (i.assign_ref (build_ref scope 0 i.name) owner)

module _ (c : Cipher) (key scope : String) where
  -- Each secret has the name and the reference that are listed, and opens to the listed text.
  unfoldable pub Open : List (String × String) → List EncryptedSecret → Type 0
  Open [] [] = Unit
  Open [] (s ∷ ss) = ⊥
  Open (text ∷ texts) [] = ⊥
  Open ((name, text) ∷ texts) (s ∷ ss) =
      (s.name ≡ name)
      × (s.ref ≡ build_ref scope 0 name)
      × (decrypt c (some key) s.sealed ≡ fine text)
      × Open texts ss

-- the name of an input and the text that it seals
abbrev text_of : {A : Type 0} → SecretInput A → String × String
text_of i = (i.name, trim_space i.plaintext)

module _ (c : Cipher) (law : IsCipher c) (key scope owner_type : String) where
  encrypt-opens :
      (fresh : Option String) (text : String) (sealed : SealedSecret)
      → encrypt c (some key) fresh text ≡ fine sealed
      → decrypt c (some key) sealed ≡ fine text
  unfolding encrypt
  encrypt-opens none text sealed made = cc
  encrypt-opens (some nonce) text sealed made =
      decrypt-encrypt c key nonce text sealed made (law.undo nonce)
        (law.undo (c.seal key nonce text)) (law.opens key nonce text)

  -- What the loop returns from an owner on.
  abbrev IsMade : {A : Type 0} → List (SecretInput A) → A → A × List EncryptedSecret → Type 0
  IsMade is owner made =
      (made.0 ≡ assign_all scope is owner) × Open c key scope (map text_of is) made.1

  later :
      {A : Type 0} (i : SecretInput A) (is : List (SecretInput A)) (sealed : SealedSecret)
      (rest : A → Result (A × List EncryptedSecret)) (owner : A) (made : A × List EncryptedSecret)
      (after : Result (A × List EncryptedSecret))
      → decrypt c (some key) sealed ≡ fine (trim_space i.plaintext)
      → rest (i.assign_ref (build_ref scope 0 i.name) owner) ≡ after
      → ((tail : A × List EncryptedSecret)
          → after ≡ fine tail
          → IsMade is (i.assign_ref (build_ref scope 0 i.name) owner) tail)
      → with_secret scope owner_type i (fine sealed) rest owner ≡ fine made
      → IsMade (i ∷ is) owner made
  unfolding with_secret assign_all Open
  later {A = A} i is sealed rest owner made (broken e) opened eq ih h =
      let no : ◌≡◌ {A = Result (A × List EncryptedSecret)} (broken e) (fine made) =
        rw (with_secret, eq) at h in
      cc
  later {A = A} i is sealed rest owner made (fine tail) opened eq ih h =
      let it : A × List EncryptedSecret = (
        tail.0,
        record {
          ref = build_ref scope 0 i.name;
          scope = "openvpn";
          owner_type = owner_type;
          name = i.name;
          sealed = sealed;
          key_version = "v1";
        }
            ∷ tail.1,
      ) in
      let found : ◌≡◌ {A = Result (A × List EncryptedSecret)} (fine it) (fine made) =
        rw (with_secret, eq) at h in
      let same : it ≡ made = cc in
      let known = ih tail refl in
      subst (IsMade (i ∷ is) owner) same (known.0, (refl, refl, opened, known.1))

  turn :
      {A : Type 0} (i : SecretInput A) (is : List (SecretInput A)) (result : Result SealedSecret)
      (rest : A → Result (A × List EncryptedSecret)) (owner : A) (made : A × List EncryptedSecret)
      → ((sealed : SealedSecret)
          → result ≡ fine sealed
          → decrypt c (some key) sealed ≡ fine (trim_space i.plaintext))
      → ((tail : A × List EncryptedSecret)
          → rest (i.assign_ref (build_ref scope 0 i.name) owner) ≡ fine tail
          → IsMade is (i.assign_ref (build_ref scope 0 i.name) owner) tail)
      → with_secret scope owner_type i result rest owner ≡ fine made
      → IsMade (i ∷ is) owner made
  unfolding with_secret
  turn i is (broken e) rest owner made opens ih h = cc
  turn i is (fine sealed) rest owner made opens ih h =
      later i is sealed rest owner made (rest (i.assign_ref (build_ref scope 0 i.name) owner))
        (opens sealed refl) refl ih h

  seal_inputs-made :
      {A : Type 0} (fresh : ℕ → Option String) (n : ℕ) (is : List (SecretInput A)) (owner : A)
      (made : A × List EncryptedSecret)
      → seal_inputs c fresh (some key) n scope owner_type is owner ≡ fine made
      → IsMade is owner made
  unfolding seal_inputs assign_all Open
  seal_inputs-made {A = A} fresh n [] owner made h =
      let same : ◌≡◌ {A = A × List EncryptedSecret} (owner, []) made = cc in
      subst (IsMade [] owner) same (refl, tt)
  seal_inputs-made fresh n (i ∷ is) owner made h =
      turn i is (encrypt c (some key) (fresh n) (trim_space i.plaintext))
        (seal_inputs c fresh (some key) (suc n) scope owner_type is) owner made
        (encrypt-opens (fresh n) (trim_space i.plaintext))
        (λ tail e. seal_inputs-made fresh (suc n) is _ tail e) h

-- The secrets of an instance: three certificates and keys, and a fourth where it is given.
abbrev pub texts_of : InstanceDraftInput → List (String × String)
texts_of i =
    ("ca-cert-pem", trim_space i.ca_cert_pem)
    ∷ ("server-cert-pem", trim_space i.server_cert_pem)
    ∷ ("server-key-pem", trim_space i.server_key_pem)
    ∷ (if trim_space i.tls_crypt_pem =ₛ ""
        then []
        else ("tls-crypt-pem", trim_space i.tls_crypt_pem) ∷ [])

-- A named and disabled instance on a port of 16 bits, whose four references are those of its secrets, and
-- secrets that open to the texts of the input.
pub record IsDraft (c : Cipher) (key : String) (i : InstanceDraftInput)
    (draft : OpenVpnInstance × List EncryptedSecret) : Type 0 where
  pub named : (draft.0.name =ₛ "") ≡ false
  pub port : ltb 65535 draft.0.listen_port ≡ false
  pub disabled : draft.0.enabled ≡ false
  pub ca : draft.0.ca_ref ≡ build_ref ("openvpn-" ⧺ draft.0.name) 0 "ca-cert-pem"
  pub server_cert :
      draft.0.server_cert_ref ≡ build_ref ("openvpn-" ⧺ draft.0.name) 0 "server-cert-pem"
  pub server_key : draft.0.server_key_ref ≡ build_ref ("openvpn-" ⧺ draft.0.name) 0 "server-key-pem"
  pub tls_crypt : draft.0.tls_crypt_ref ≡ (
      if trim_space i.tls_crypt_pem =ₛ ""
      then ""
      else build_ref ("openvpn-" ⧺ draft.0.name) 0 "tls-crypt-pem")
  pub secrets : Open c key ("openvpn-" ⧺ draft.0.name) (texts_of i) draft.1

abbrev IsAssigned : String → InstanceDraftInput → ℕ → OpenVpnInstance → Type 0
IsAssigned scope i port o =
    (o.name ≡ trim_space i.name)
    × (o.listen_port ≡ port)
    × (o.enabled ≡ false)
    × (o.ca_ref ≡ build_ref scope 0 "ca-cert-pem")
    × (o.server_cert_ref ≡ build_ref scope 0 "server-cert-pem")
    × (o.server_key_ref ≡ build_ref scope 0 "server-key-pem")
    × (o.tls_crypt_ref
        ≡ (if trim_space i.tls_crypt_pem =ₛ "" then "" else build_ref scope 0 "tls-crypt-pem"))

assigned :
    (scope : String) (i : InstanceDraftInput) (port : ℕ)
    → IsAssigned scope i port (assign_all scope (instance_secrets i) (drafted_instance i port))
unfolding assign_all instance_secrets drafted_instance
assigned scope i port = elim (Bool-cases (trim_space i.tls_crypt_pem =ₛ "")) [
  | inl e ↦ rw (e, if◌then◌else◌) (refl, refl, refl, refl, refl, refl, refl)
  | inr e ↦ rw (e, if◌then◌else◌) (refl, refl, refl, refl, refl, refl, refl)
]

listed : (i : InstanceDraftInput) → map text_of (instance_secrets i) ≡ texts_of i
unfolding instance_secrets
listed i = elim (Bool-cases (trim_space i.tls_crypt_pem =ₛ "")) [
  | inl e ↦ rw (e, if◌then◌else◌) refl
  | inr e ↦ rw (e, if◌then◌else◌) refl
]

accepted-named :
    (is_cidr : String → Bool) (i : InstanceDraftInput)
    → (instance_error is_cidr i =ₛ "") ≡ true
    → (trim_space i.name =ₛ "") ≡ false
unfolding instance_error
accepted-named is_cidr i h = elim (Bool-cases (trim_space i.name =ₛ "")) [
  | inl e ↦ let no : ◌≡◌ {A = Bool} false true = rw (instance_error, e, if◌then◌else◌) at h in cc
  | inr e ↦ e
]

-- A draft of an instance that is built, under a cipher that opens what it sealed, is disabled, and has a
-- name and a port of 16 bits. It has a secret for the certificate authority, the server's certificate, the
-- server's key and, if it is given, the tls-crypt key, in this order: each opens to the trimmed text that
-- was given, and the instance has its reference.
pub build_instance_draft-IsDraft :
    (c : Cipher) (law : IsCipher c) (fresh : ℕ → Option String) (is_cidr : String → Bool)
    (i : InstanceDraftInput) (key : String) (draft : OpenVpnInstance × List EncryptedSecret)
    → build_instance_draft c fresh is_cidr i (some key) ≡ fine draft
    → IsDraft c key i draft
unfolding build_instance_draft
build_instance_draft-IsDraft c law fresh is_cidr i key draft h =
    let error = instance_error is_cidr i in
    let port : ℕ = if i.listen_port == 0 then 1194 else i.listen_port in
    let scope = "openvpn-" ⧺ trim_space i.name in
    elim (Bool-cases (error =ₛ "")) [
      | inr e ↦
          let no : ◌≡◌ {A = Result (OpenVpnInstance × List EncryptedSecret)} (broken error)
              (fine draft) =
            rw (build_instance_draft, e, not, if◌then◌else◌) at h in
          cc
      | inl e ↦ elim (Bool-cases (ltb 65535 port)) [
        | inl p ↦
            let no : ◌≡◌ {A = Result (OpenVpnInstance × List EncryptedSecret)}
                (broken "listen port must be between 1 and 65535") (fine draft) =
              rw (build_instance_draft, e, p, not, if◌then◌else◌) at h in
            cc
        | inr p ↦
            let made =
              seal_inputs-made c law key scope "openvpn_instance" fresh 0 (instance_secrets i)
                (drafted_instance i port) draft
                (rw (build_instance_draft, e, p, not, if◌then◌else◌) at h) in
            let known : IsAssigned scope i port draft.0 =
              subst (IsAssigned scope i port) (sym made.0) (assigned scope i port) in
            let name = known.0 in
            record {
              named = rw (name) (accepted-named is_cidr i e);
              port = rw (known.1) p;
              disabled = known.2;
              ca = rw (name) known.3;
              server_cert = rw (name) known.4;
              server_key = rw (name) known.5;
              tls_crypt = rw (name) known.6;
              secrets = rw (name) (
                  subst (λ (texts : List (String × String)). Open c key scope texts draft.1)
                    (listed i) made.1);
            }
      ]
    ]
