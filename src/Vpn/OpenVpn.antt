-- ===== src/Vpn/OpenVpn.antt =====
-- backend/openvpn: client profiles (config.go), runtime manifests (runtime.go, manifest_record.go) and the
-- plans of operations.go. Parsing networks is a parameter.
pub mod Plans
pub mod Laws
pub mod Drafts
pub mod Sealing
use vpn_manager.Common.{
  ℕ, String, Bool, true, false, not, ◌&&◌, ◌||◌, Option, none, some, List, [], ◌∷◌, ltb, leb, ◌==◌,
  ◌=ₛ◌, any, if◌then◌else◌,
}
use vpn_manager.Text.{◌⧺◌, itoa, join, trim_space, to_lower}
use vpn_manager.Wg.Firewall.{Result, fine, broken}
use vpn_manager.Vpn.Slug.{sanitize_instance_name}

-- `normalizeProtocol`
unfoldable pub normalize_protocol : String → String
unfolding trim_space to_lower
normalize_protocol protocol =
    let p = to_lower (trim_space protocol) in
    if p =ₛ "tcp" || p =ₛ "tcp4" || p =ₛ "tcp6" then "tcp" else "udp"

-- `ClientProfileInput`; a port that is not positive is 0
pub record ClientProfileInput : Type 0 where
  pub client_name : String
  pub remote_host : String
  pub remote_port : ℕ
  pub protocol : String
  pub ca_cert_pem : String
  pub client_cert_pem : String
  pub client_key_pem : String
  pub tls_auth_pem : String

-- what is missing first, "" where nothing is
abbrev blank : String → Bool
blank s = trim_space s =ₛ ""

profile_error : ClientProfileInput → String
profile_error i =
    if blank i.client_name
    then "client name is required"
    else if blank i.remote_host
    then "remote host is required"
    else if i.remote_port == 0 || ltb 65535 i.remote_port
    then "remote port must be between 1 and 65535"
    else if blank i.ca_cert_pem
    then "ca certificate is required"
    else if blank i.client_cert_pem
    then "client certificate is required"
    else if blank i.client_key_pem
    then "client private key is required"
    else ""

profile_text : ClientProfileInput → String
unfolding normalize_protocol trim_space itoa
profile_text i =
    "client\ndev tun\nproto "
    ⧺ normalize_protocol i.protocol
    ⧺ "\nremote "
    ⧺ trim_space i.remote_host
    ⧺ " "
    ⧺ itoa i.remote_port
    ⧺ "\nresolv-retry infinite\nnobind\npersist-key\npersist-tun\nremote-cert-tls server\n"
    ⧺ "cipher AES-256-GCM\nauth SHA256\nverb 3\n"
    ⧺ "\n<ca>\n"
    ⧺ trim_space i.ca_cert_pem
    ⧺ "\n</ca>\n\n<cert>\n"
    ⧺ trim_space i.client_cert_pem
    ⧺ "\n</cert>\n\n<key>\n"
    ⧺ trim_space i.client_key_pem
    ⧺ "\n</key>\n"
    ⧺ (if blank i.tls_auth_pem
        then ""
        else "\n<tls-crypt>\n" ⧺ trim_space i.tls_auth_pem ⧺ "\n</tls-crypt>\n")

-- `BuildClientProfile`
unfoldable pub build_client_profile : ClientProfileInput → Result String
unfolding profile_error profile_text
build_client_profile i =
    let error = profile_error i in if error =ₛ "" then fine (profile_text i) else broken error

-- `RuntimeManifestInput` and `RuntimeManifest`, whose two files are named
pub record RuntimeManifestInput : Type 0 where
  pub instance_name : String
  pub remote_host : String
  pub listen_port : ℕ
  pub protocol : String
  pub tunnel_cidr : String
  pub dns : String

pub record RuntimeManifest : Type 0 where
  pub runtime_mode : String
  pub server_conf : String
  pub docker_compose : String
  pub warnings : List String

-- An IPv4 network as `net.ParseCIDR` yields it: its address and mask as texts, and the length of its
-- prefix.
pub record Ipv4Network : Type 0 where
  pub ip : String
  pub mask : String
  pub ones : ℕ

-- `openVPNServerNetwork`; the parser yields `none` for what is no IPv4 network
unfoldable pub openvpn_server_network :
    (String → Option Ipv4Network) → String → Result (String × String)
unfolding trim_space
openvpn_server_network parse cidr = elim (parse (trim_space cidr)) [
  | none ↦ broken "tunnel cidr must be a valid IPv4 CIDR"
  | some n ↦
      if n.ones == 0 || leb 32 n.ones
      then broken "tunnel cidr must be an IPv4 network with usable host addresses"
      else fine (n.ip, n.mask)
]

-- `buildServerConf`
unfoldable pub build_server_conf : ℕ → String → String × String → String → String → String
unfolding trim_space itoa
build_server_conf port protocol network dns remote_host =
    "port "
    ⧺ itoa port
    ⧺ "\nproto "
    ⧺ protocol
    ⧺ "\ndev tun\ntopology subnet\nserver "
    ⧺ network.0
    ⧺ " "
    ⧺ network.1
    ⧺ "\nkeepalive 10 120\npersist-key\npersist-tun\nuser nobody\ngroup nogroup\n"
    ⧺ "cipher AES-256-GCM\nauth SHA256\nverb 3\nexplicit-exit-notify 1\n"
    ⧺ (if blank dns then "" else "push \"dhcp-option DNS " ⧺ trim_space dns ⧺ "\"\n")
    ⧺ "# Remote host for generated client profiles: "
    ⧺ trim_space remote_host
    ⧺ "\n# Certificate/key paths are intentionally externalized for a future secret store.\n"
    ⧺ "ca /etc/openvpn/pki/ca.crt\ncert /etc/openvpn/pki/server.crt\n"
    ⧺ "key /etc/openvpn/pki/server.key\ndh none\n"

-- `buildDockerCompose`
unfoldable pub build_docker_compose : String → ℕ → String → String
unfolding itoa
build_docker_compose instance_name port protocol =
    "services:\n  openvpn:\n    image: kylemanna/openvpn:latest\n    container_name: "
    ⧺ "vpn-manager-openvpn-"
    ⧺ instance_name
    ⧺ "\n    restart: unless-stopped\n    cap_add:\n      - NET_ADMIN\n    devices:\n"
    ⧺ "      - /dev/net/tun:/dev/net/tun\n    ports:\n      - \""
    ⧺ itoa port
    ⧺ ":"
    ⧺ itoa port
    ⧺ "/"
    ⧺ protocol
    ⧺ "\"\n    volumes:\n      - ./server.conf:/etc/openvpn/server.conf:ro\n"
    ⧺ "      - ./pki:/etc/openvpn/pki:ro\n"
    ⧺ "    command: [\"openvpn\", \"--config\", \"/etc/openvpn/server.conf\"]\n"

manifest_on : RuntimeManifestInput → String → ℕ → Result (String × String) → Result RuntimeManifest
unfolding build_server_conf build_docker_compose normalize_protocol
manifest_on i name port (broken e) = broken e
manifest_on i name port (fine network) =
    let protocol = normalize_protocol i.protocol in
    fine (record {
      runtime_mode = "container";
      server_conf = build_server_conf port protocol network i.dns i.remote_host;
      docker_compose = build_docker_compose name port protocol;
      warnings =
          "Preview only: do not deploy until CA/certificate/key storage and lifecycle management are implemented."
          ∷ "Container needs NET_ADMIN and /dev/net/tun access on the host." ∷ [];
    })

-- `BuildContainerRuntimeManifest`; a negative port is not among the inputs
unfoldable pub build_container_runtime_manifest :
    (String → Option Ipv4Network) → RuntimeManifestInput → Result RuntimeManifest
unfolding sanitize_instance_name openvpn_server_network manifest_on
build_container_runtime_manifest parse i =
    let name = sanitize_instance_name i.instance_name in
    let port : ℕ = if i.listen_port == 0 then 1194 else i.listen_port in
    if name =ₛ ""
    then broken "instance name is required"
    else if blank i.remote_host
    then broken "remote host is required"
    else if ltb 65535 port
    then broken "listen port must be between 1 and 65535"
    else manifest_on i name port (openvpn_server_network parse i.tunnel_cidr)
