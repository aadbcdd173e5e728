-- ===== src/Wg/Device.antt =====
-- backend/wg/service.go: configurations of a WireGuard device. The key and CIDR parsers are parameters;
-- error messages leave out the quoted operand.
pub mod Laws
use vpn_manager.Common.{
  ℕ, String, Bool, true, false, not, Option, none, some, List, [], ◌∷◌, ltb, ◌=ₛ◌, if◌then◌else◌,
}
use vpn_manager.Text.{◌⧺◌, trim_space, split, itoa}
use vpn_manager.Wg.Firewall.{Result, fine, broken}
use vpn_manager.Wg.Model.{Interface, Peer}

-- `wgtypes.ParseKey` and `net.ParseCIDR`, with the key and the network in a standard spelling
pub record Parsers : Type 0 where
  pub parse_key : String → Result String
  pub parse_cidr : String → Result String

-- `wgtypes.PeerConfig` and `wgtypes.Config`
pub record PeerConfig : Type 0 where
  pub public_key : String
  pub remove : Bool
  pub replace_allowed_ips : Bool
  pub allowed_ips : List String
  pub preshared_key : Option String
  pub keepalive : Option ℕ

pub record Config : Type 0 where
  pub private_key : Option String
  pub listen_port : Option ℕ
  pub replace_peers : Bool
  pub peers : List PeerConfig

-- `if err != nil { return …, fmt.Errorf("prefix: %w", err) }`
abbrev pub with_fine : {A B : Type 0} → String → Result A → (A → Result B) → Result B
with_fine prefix (broken e) f = broken (prefix ⧺ e)
with_fine prefix (fine a) f = f a

module _ (p : Parsers) where
  cidr_parts : List String → Result (List String)
  cidr_parts [] = fine []
  cidr_parts (raw ∷ parts) =
      let s = trim_space raw in
      let rest = cidr_parts parts in
      if s =ₛ ""
      then rest
      else with_fine "invalid CIDR: " (p.parse_cidr s)
          λ net. with_fine "" rest λ nets. fine (net ∷ nets)

  -- `parseCIDRList`
  unfoldable pub parse_cidr_list : String → Result (List String)
  unfolding cidr_parts
  parse_cidr_list list = cidr_parts (split b',' list)

  abbrev optional_key : String → Result (Option String)
  optional_key text =
      if text =ₛ "" then fine none else with_fine "" (p.parse_key text) λ k. fine (some k)

  -- `buildPeerConfig`
  unfoldable pub build_peer_config : Peer → Result PeerConfig
  unfolding parse_cidr_list
  build_peer_config peer = with_fine "peer public key: " (p.parse_key peer.public_key) λ pub_key.
      with_fine "peer allowed_ips: " (parse_cidr_list peer.allowed_ips) λ allowed.
        with_fine "peer preshared key: " (optional_key peer.preshared_key) λ psk. fine (record {
          public_key = pub_key;
          remove = false;
          replace_allowed_ips = true;
          allowed_ips = allowed;
          preshared_key = psk;
          keepalive =
              if ltb 0 peer.persistent_keepalive then some peer.persistent_keepalive else none;
        })

  -- the loop of `FullDeviceConfig`
  enabled_configs : List Peer → Result (List PeerConfig)
  unfolding build_peer_config
  enabled_configs [] = fine []
  enabled_configs (peer ∷ peers) =
      let rest = enabled_configs peers in
      if not peer.enabled
      then rest
      else with_fine "" (build_peer_config peer) λ pc. with_fine "" rest λ pcs. fine (pc ∷ pcs)

  -- `FullDeviceConfig`
  unfoldable pub full_device_config : Interface → List Peer → Result Config
  unfolding enabled_configs
  full_device_config iface peers =
      with_fine "parse interface private key: " (p.parse_key iface.private_key) λ priv.
        with_fine "" (enabled_configs peers) λ configs. fine (record {
          private_key = some priv;
          listen_port = some iface.listen_port;
          replace_peers = true;
          peers = configs;
        })

  -- `PeerDeviceConfig`
  unfoldable pub peer_device_config : Peer → Result Config
  unfolding build_peer_config
  peer_device_config peer = with_fine "" (build_peer_config peer) λ pc.
      fine
        (record { private_key = none; listen_port = none; replace_peers = false; peers = pc ∷ [] })

  -- `RemovePeerDeviceConfig`
  unfoldable pub remove_peer_device_config : String → Result Config
  remove_peer_device_config public_key =
      with_fine "peer public key: " (p.parse_key public_key) λ pub_key. fine (record {
        private_key = none;
        listen_port = none;
        replace_peers = false;
        peers =
            record {
              public_key = pub_key;
              remove = true;
              replace_allowed_ips = false;
              allowed_ips = [];
              preshared_key = none;
              keepalive = none;
            }
            ∷ [];
      })

  -- `ValidatePublicKey` and `ValidateCIDRList`: the error, if there is one
  unfoldable pub validate_public_key : String → Option String
  validate_public_key public_key =
      if trim_space public_key =ₛ "" then none else elim (p.parse_key public_key) [
        | fine _ ↦ none
        | broken e ↦ some ("invalid public key: " ⧺ e)
      ]

  unfoldable pub validate_cidr_list : String → Option String
  unfolding parse_cidr_list
  validate_cidr_list list = elim (parse_cidr_list list) [ fine _ ↦ none | broken e ↦ some e ]

abbrev line_if : Bool → String → String
line_if b text = if b then text else ""

-- `BuildClientConfig`
unfoldable pub build_client_config : Interface → Peer → String
build_client_config iface peer =
    "[Interface]\n"
    ⧺ (if peer.private_key =ₛ ""
        then "PrivateKey = <your-private-key>\n"
        else "PrivateKey = " ⧺ peer.private_key ⧺ "\n")
    ⧺ "Address = "
    ⧺ peer.assigned_ip
    ⧺ "/32\n"
    ⧺ line_if (not (iface.dns =ₛ "")) ("DNS = " ⧺ iface.dns ⧺ "\n")
    ⧺ line_if (ltb 0 iface.mtu) ("MTU = " ⧺ itoa iface.mtu ⧺ "\n")
    ⧺ "\n[Peer]\n"
    ⧺ "PublicKey = "
    ⧺ iface.public_key
    ⧺ "\n"
    ⧺ line_if (not (peer.preshared_key =ₛ "")) ("PresharedKey = " ⧺ peer.preshared_key ⧺ "\n")
    ⧺ "Endpoint = "
    ⧺ iface.endpoint
    ⧺ ":"
    ⧺ itoa iface.listen_port
    ⧺ "\n"
    ⧺ "AllowedIPs = "
    ⧺ peer.client_allowed_ips
    ⧺ "\n"
    ⧺ line_if (ltb 0 peer.persistent_keepalive)
        ("PersistentKeepalive = " ⧺ itoa peer.persistent_keepalive ⧺ "\n")
