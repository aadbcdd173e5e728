-- ===== src/Vpn/Tests.antt =====
-- Plans, references and sealed secrets at concrete values.
use vpn_manager.Common.{String, true, false, ◌≡◌, refl, subst, List, [], ◌∷◌, none, some, All}
use vpn_manager.Text.{◌⧺◌, split, has_prefix, itoa}
use vpn_manager.Wg.Firewall.{fine, broken}
use vpn_manager.Vpn.Secrets.{Cipher, build_ref}
use vpn_manager.Vpn.Slug.{sanitize_instance_name, sanitize_ref_part}
use vpn_manager.Vpn.Slug.Laws.{IsSlug, sanitize_instance_name-IsSlug}
use vpn_manager.Vpn.Secrets.Laws.{build_ref-parts}
use vpn_manager.Vpn.Runtime.{clean, safe_join, ApplyPlan, Options, Os, apply}
use vpn_manager.Vpn.Runtime.Laws.{IsInside, Keeps, apply-keeps}
use vpn_manager.Vpn.OpenVpn.Drafts.{InstanceDraftInput, EncryptedSecret, build_instance_draft}
use vpn_manager.Vpn.OpenVpn.Sealing.{IsCipher, IsDraft, build_instance_draft-IsDraft}
use vpn_manager.Vpn.OpenVpn.Plans.{
  OpenVpnInstance, LifecyclePlan, compose_base, build_lifecycle_plan,
}
use vpn_manager.Vpn.OpenVpn.Laws.{IsOnProject, build_lifecycle_plan-IsOnProject}

cleaned :
    (clean "a//b/./../c" ≡ "a/c")
    × (clean "/../x/" ≡ "/x")
    × (clean "../a" ≡ "../a")
    × (clean "" ≡ ".")
unfolding clean has_prefix
cleaned = (refl, refl, refl, refl)

joined : safe_join "/srv/vpn" "a/../b.conf" false ≡ fine "/srv/vpn/b.conf"
unfolding safe_join
joined = refl

refused : safe_join "/srv/vpn" "a/../../b.conf" false ≡ broken "unsafe file path"
unfolding safe_join
refused = refl

absolute : has_prefix "/srv/vpn" "/" ≡ true
unfolding has_prefix
absolute = refl

abbrev cipher : Cipher
cipher = record {
  seal = λ key nonce text. text;
  unseal = λ key nonce text. some text;
  encode = λ s. s;
  decode = λ s. some s;
}

is_cipher : IsCipher cipher
is_cipher = record { undo = λ s. refl; opens = λ key nonce text. refl }

abbrev draft_input : InstanceDraftInput
draft_input = record {
  name = " Office ";
  remote_host = "vpn.example.org";
  listen_port = 0;
  protocol = "TCP4";
  tunnel_cidr = "10.8.0.0/24";
  dns = "";
  ca_cert_pem = "ca\n";
  server_cert_pem = "cert";
  server_key_pem = "private";
  tls_crypt_pem = " ";
}

abbrev ref_of : String → String
ref_of name = build_ref "openvpn-Office" 0 name

abbrev secret_of : String → String → EncryptedSecret
secret_of name text = record {
  ref = ref_of name;
  scope = "openvpn";
  owner_type = "openvpn_instance";
  name = name;
  sealed = record { algorithm = "AES-256-GCM"; nonce = "n"; ciphertext = text };
  key_version = "v1";
}

abbrev draft : OpenVpnInstance × List EncryptedSecret
draft = (
  record {
    id = 0;
    name = "Office";
    remote_host = "vpn.example.org";
    listen_port = 1194;
    protocol = "tcp";
    tunnel_cidr = "10.8.0.0/24";
    dns = "";
    enabled = false;
    runtime_mode = "container_openvpn_preview";
    ca_ref = ref_of "ca-cert-pem";
    server_cert_ref = ref_of "server-cert-pem";
    server_key_ref = ref_of "server-key-pem";
    tls_crypt_ref = "";
    owner_id = none;
  },
  secret_of "ca-cert-pem" "ca"
      ∷ secret_of "server-cert-pem" "cert"
      ∷ secret_of "server-key-pem" "private"
      ∷ [],
)

drafted :
    build_instance_draft cipher (λ n. some "n") (λ s. true) draft_input (some "key") ≡ fine draft
unfolding build_instance_draft
drafted = refl

build_instance_draft-IsDraft_example : IsDraft cipher "key" draft_input draft
build_instance_draft-IsDraft_example =
    build_instance_draft-IsDraft cipher is_cipher (λ n. some "n") (λ s. true) draft_input "key"
      draft drafted

-- the paths that were written
abbrev Disk : Type 0
Disk = List String

abbrev os : Os Disk
os = record {
  abs = λ path. fine "/srv/vpn";
  mkdir_all = λ path k. (none, k);
  write_file = λ path content k. (none, path ∷ k);
  run = λ command k. (record { command = command; exit_code = 0; output = ""; error = "" }, k);
}

abbrev options : Options
options = record { root_dir = "/srv/vpn"; execution_enabled = true; allow_absolute_paths = false }

abbrev plan : ApplyPlan
plan = record {
  files = ("server.conf", "port 1194") ∷ ("../../etc/passwd", "") ∷ [];
  commands = "docker compose up -d" ∷ [];
}

keeps : Keeps os (All (IsInside "/srv/vpn")) "/srv/vpn"
keeps = record {
  mkdir = λ path k p. p;
  run = λ command k p. p;
  write = λ path content k inside p. (inside, p);
}

apply-keeps_example : All (IsInside "/srv/vpn") (apply os options plan []).1
apply-keeps_example =
    apply-keeps os (All (IsInside "/srv/vpn")) options plan [] (refl, (refl, tt))
      (λ root e.
        let same : "/srv/vpn" ≡ root = cc in
        subst (λ (r : String). (has_prefix r "/" ≡ true) × Keeps os (All (IsInside "/srv/vpn")) r)
          same (absolute, keeps))
      tt

sanitize_instance_name-IsSlug_example :
    IsSlug (sanitize_instance_name " My_VPN ")
    × (sanitize_instance_name (sanitize_instance_name " My_VPN ")
        ≡ sanitize_instance_name " My_VPN ")
sanitize_instance_name-IsSlug_example = sanitize_instance_name-IsSlug " My_VPN "

build_ref-parts_example :
    split b'/' (build_ref "openvpn/../office" 7 "CA_cert")
    ≡ sanitize_ref_part "openvpn/../office" ∷ itoa 7 ∷ sanitize_ref_part "CA_cert" ∷ []
build_ref-parts_example = build_ref-parts "openvpn/../office" 7 "CA_cert"

abbrev office : OpenVpnInstance
office = record {
  id = 3;
  name = "My Office; rm";
  remote_host = "vpn.example.org";
  listen_port = 1194;
  protocol = "udp";
  tunnel_cidr = "10.8.0.0/24";
  dns = "";
  enabled = true;
  runtime_mode = "container_openvpn_preview";
  ca_ref = "";
  server_cert_ref = "";
  server_key_ref = "";
  tls_crypt_ref = "";
  owner_id = none;
}

abbrev restart : LifecyclePlan
restart = record {
  action = "restart";
  project_name = "vpn-manager-openvpn-my-office-rm";
  container_name = "vpn-manager-openvpn-my-office-rm";
  commands =
      (compose_base "vpn-manager-openvpn-my-office-rm" 3 ⧺ " down")
      ∷ (compose_base "vpn-manager-openvpn-my-office-rm" 3 ⧺ " up -d")
      ∷ [];
}

restarted : build_lifecycle_plan office " Restart " ≡ fine restart
unfolding build_lifecycle_plan
restarted = refl

build_lifecycle_plan-IsOnProject_example : IsOnProject office restart
build_lifecycle_plan-IsOnProject_example =
    build_lifecycle_plan-IsOnProject office " Restart " restart restarted
