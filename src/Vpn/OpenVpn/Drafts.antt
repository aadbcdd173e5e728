-- ===== src/Vpn/OpenVpn/Drafts.antt =====
-- The drafts of backend/openvpn/instance_draft.go and `BuildUserDraft` of operations.go: what is stored of a
-- new instance or user, and its sealed secrets. Whether a text is a network is a parameter.
use vpn_manager.Common.{
  ℕ, suc, String, Bool, true, false, not, Option, none, some, List, [], ◌∷◌, ltb, ◌==◌, ◌=ₛ◌,
  if◌then◌else◌,
}
use vpn_manager.Text.{◌⧺◌, itoa, trim_space}
use vpn_manager.Wg.Firewall.{Result, fine, broken}
use vpn_manager.Vpn.Secrets.{Cipher, Envelope, SealedSecret, build_ref, encrypt}
use vpn_manager.Vpn.OpenVpn.{normalize_protocol}
use vpn_manager.Vpn.OpenVpn.Plans.{OpenVpnInstance}

-- `InstanceDraftInput`; a negative port is not among the inputs
pub record InstanceDraftInput : Type 0 where
  pub name : String
  pub remote_host : String
  pub listen_port : ℕ
  pub protocol : String
  pub tunnel_cidr : String
  pub dns : String
  pub ca_cert_pem : String
  pub server_cert_pem : String
  pub server_key_pem : String
  pub tls_crypt_pem : String

-- `EncryptedSecret` without its key and times; every owner's number is 0
pub record EncryptedSecret : Type 0 where
  pub ref : String
  pub scope : String
  pub owner_type : String
  pub name : String
  pub sealed : SealedSecret
  pub key_version : String

-- one of the `secretInputs`
pub record SecretInput (A : Type 0) : Type 0 where
  pub name : String
  pub plaintext : String
  pub assign_ref : String → A → A

-- one turn of the loop, and the turns after it
unfoldable pub with_secret :
    {A : Type 0}
    → String
    → String
    → SecretInput A
    → Result SealedSecret
    → (A → Result (A × List EncryptedSecret))
    → A
    → Result (A × List EncryptedSecret)
with_secret scope owner_type i (broken e) rest owner = broken e
with_secret scope owner_type i (fine sealed) rest owner =
    let ref = build_ref scope 0 i.name in
    elim (rest (i.assign_ref ref owner)) [
      | broken e ↦ broken e
      | fine made ↦ fine (
        made.0,
        record {
          ref = ref;
          scope = "openvpn";
          owner_type = owner_type;
          name = i.name;
          sealed = sealed;
          key_version = "v1";
        }
            ∷ made.1,
      )
    ]

module _ (c : Cipher) (fresh : ℕ → Option String) where
  -- The loop over the secrets: `fresh n` is what the random source yields at its n-th use.
  unfoldable pub seal_inputs :
      {A : Type 0}
      → Envelope
      → ℕ
      → String
      → String
      → List (SecretInput A)
      → A
      → Result (A × List EncryptedSecret)
  unfolding with_secret encrypt trim_space
  seal_inputs envelope n scope owner_type [] owner = fine (owner, [])
  seal_inputs envelope n scope owner_type (i ∷ is) owner =
      with_secret scope owner_type i (encrypt c envelope (fresh n) (trim_space i.plaintext))
        (seal_inputs envelope (suc n) scope owner_type is) owner

-- `OpenVPNUser` without its number and times
pub record OpenVpnUser : Type 0 where
  pub instance_id : ℕ
  pub name : String
  pub assigned_ip : String
  pub enabled : Bool
  pub cert_ref : String
  pub key_ref : String

-- `UserDraftInput`
pub record UserDraftInput : Type 0 where
  pub instance_id : ℕ
  pub name : String
  pub assigned_ip : String
  pub client_cert_pem : String
  pub client_key_pem : String

abbrev blank : String → Bool
blank s = trim_space s =ₛ ""

-- the checks of an instance before its port, "" where they pass
unfoldable pub instance_error : (String → Bool) → InstanceDraftInput → String
unfolding trim_space
instance_error is_cidr i =
    if blank i.name
    then "instance name is required"
    else if blank i.remote_host
    then "remote host is required"
    else if not (is_cidr (trim_space i.tunnel_cidr))
    then "tunnel cidr must be a valid CIDR"
    else if blank i.ca_cert_pem
    then "ca certificate is required"
    else if blank i.server_cert_pem
    then "server certificate is required"
    else if blank i.server_key_pem
    then "server private key is required"
    else ""

-- the new instance, before its references are assigned
unfoldable pub drafted_instance : InstanceDraftInput → ℕ → OpenVpnInstance
unfolding trim_space normalize_protocol
drafted_instance i port = record {
  id = 0;
  name = trim_space i.name;
  remote_host = trim_space i.remote_host;
  listen_port = port;
  protocol = normalize_protocol i.protocol;
  tunnel_cidr = trim_space i.tunnel_cidr;
  dns = trim_space i.dns;
  enabled = false;
  runtime_mode = "container_openvpn_preview";
  ca_ref = "";
  server_cert_ref = "";
  server_key_ref = "";
  tls_crypt_ref = "";
  owner_id = none;
}

-- `secretInputs` of an instance
unfoldable pub instance_secrets : InstanceDraftInput → List (SecretInput OpenVpnInstance)
unfolding trim_space
instance_secrets i =
    record {
      name = "ca-cert-pem";
      plaintext = i.ca_cert_pem;
      assign_ref = λ ref o. record o { ca_ref = ref };
    }
    ∷ record {
      name = "server-cert-pem";
      plaintext = i.server_cert_pem;
      assign_ref = λ ref o. record o { server_cert_ref = ref };
    }
    ∷ record {
      name = "server-key-pem";
      plaintext = i.server_key_pem;
      assign_ref = λ ref o. record o { server_key_ref = ref };
    }
    ∷ (if blank i.tls_crypt_pem
        then []
        else record {
          name = "tls-crypt-pem";
          plaintext = i.tls_crypt_pem;
          assign_ref = λ ref o. record o { tls_crypt_ref = ref };
        }
          ∷ [])

-- the checks of a user, "" where they pass
unfoldable pub user_error : UserDraftInput → String
unfolding trim_space
user_error i =
    if i.instance_id == 0
    then "saved OpenVPN instance is required"
    else if blank i.name
    then "client name is required"
    else if blank i.client_cert_pem
    then "client certificate is required"
    else if blank i.client_key_pem
    then "client private key is required"
    else ""

-- `inputs` of a user
unfoldable pub user_secrets : UserDraftInput → List (SecretInput OpenVpnUser)
user_secrets i =
    record {
      name = "client-cert-pem";
      plaintext = i.client_cert_pem;
      assign_ref = λ ref o. record o { cert_ref = ref };
    }
    ∷ record {
      name = "client-key-pem";
      plaintext = i.client_key_pem;
      assign_ref = λ ref o. record o { key_ref = ref };
    }
    ∷ []

module _ (c : Cipher) (fresh : ℕ → Option String) where
  -- `BuildInstanceDraft`
  unfoldable pub build_instance_draft :
      (String → Bool)
      → InstanceDraftInput
      → Envelope
      → Result (OpenVpnInstance × List EncryptedSecret)
  unfolding instance_error drafted_instance instance_secrets seal_inputs trim_space
  build_instance_draft is_cidr i none = broken "secret envelope is required"
  build_instance_draft is_cidr i (some key) =
      let error = instance_error is_cidr i in
      let port : ℕ = if i.listen_port == 0 then 1194 else i.listen_port in
      if not (error =ₛ "")
      then broken error
      else if ltb 65535 port
      then broken "listen port must be between 1 and 65535"
      else seal_inputs c fresh (some key) 0 ("openvpn-" ⧺ trim_space i.name) "openvpn_instance"
          (instance_secrets i) (drafted_instance i port)

  -- `BuildUserDraft`
  unfoldable pub build_user_draft :
      UserDraftInput → Envelope → Result (OpenVpnUser × List EncryptedSecret)
  unfolding user_error user_secrets seal_inputs trim_space itoa
  build_user_draft i none = broken "secret envelope is required"
  build_user_draft i (some key) =
      let error = user_error i in
      let name = trim_space i.name in
      if not (error =ₛ "")
      then broken error
      else seal_inputs c fresh (some key) 0 ("openvpn-client-" ⧺ itoa i.instance_id ⧺ "-" ⧺ name)
          "openvpn_user" (user_secrets i)
          (record {
            instance_id = i.instance_id;
            name = name;
            assigned_ip = trim_space i.assigned_ip;
            enabled = true;
            cert_ref = "";
            key_ref = "";
          })
