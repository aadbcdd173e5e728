-- ===== src/Wg/Samples.antt =====
-- Rows, requests and a kernel for the tests.
use vpn_manager.Common.{ℕ, ◌+◌, true, false, List, [], ◌∷◌, none, some, String, if◌then◌else◌, ◌=ₛ◌}
use vpn_manager.Rbac.Resolve.{Caller}
use vpn_manager.Wg.Firewall.{fine}
use vpn_manager.Wg.Forwards.{PortForward}
use vpn_manager.Wg.Model.{Interface, Peer, Tables}
use vpn_manager.Wg.Publish.{Env}
use vpn_manager.Wg.Publish.Reserved.{Op, delete, create, update}
use vpn_manager.Wg.Addresses.{Address, Network, Net, same_address}
use vpn_manager.Wg.Device.{Parsers, Config}
use vpn_manager.Wg.Peers
use vpn_manager.Wg.Sync.{Kernel}
use vpn_manager.Wg.Simulated.{State, host}

abbrev pub owned_by : ℕ → ℕ → Interface
owned_by owner id = record {
  id = id;
  name = "wg0";
  private_key = "priv";
  public_key = "pub";
  listen_port = 51820;
  address = "10.8.0.1/24";
  dns = "";
  mtu = 1420;
  endpoint = "vpn.example.com";
  enabled = true;
  masquerade = true;
  egress = "";
  owner_id = some owner;
  trashed = false;
}

abbrev pub peer : Peer
peer = record {
  id = 1;
  interface_id = 1;
  name = "laptop";
  private_key = "";
  public_key = "key";
  preshared_key = "";
  allowed_ips = "10.8.0.2/32";
  assigned_ip = "10.8.0.2";
  client_allowed_ips = "0.0.0.0/0";
  persistent_keepalive = 25;
  enabled = true;
  trashed = false;
}

abbrev pub forward : ℕ → PortForward
forward id = record {
  id = id;
  interface_id = 1;
  peer_id = 1;
  protocol = "tcp";
  public_port = 8000 + id;
  target_port = 80;
  target_ip = "10.8.0.2";
  egress = "eth0";
  enabled = true;
  comment = "";
  owner_id = some 2;
}

abbrev pub tables : Tables
tables = record {
  interfaces = owned_by 2 1 ∷ owned_by 3 2 ∷ [];
  peers = peer ∷ [];
  forwards = [];
  interface_seq = 2;
  peer_seq = 1;
  forward_seq = 0;
}

abbrev pub olga : Caller
olga = record { id = 2; permissions = "portforwards.manage" ∷ [] }

abbrev pub env : Env
env = record {
  caller = olga;
  server_port = some "8080";
  check_create = λ _. [];
  check_update = λ _. [];
  count_fails = false;
  find_fails = false;
  interface_fails = false;
  peer_fails = false;
  write_fails = false;
}

abbrev pub requests : List Op
requests =
    create env (
      some (record {
        interface_id = 1;
        peer_id = 1;
        protocol = "TCP";
        public_port = 8443;
        target_port = 443;
        comment = "";
      }))
    ∷ create env (
        some (record {
          interface_id = 1;
          peer_id = 1;
          protocol = "tcp";
          public_port = 22;
          target_port = 22;
          comment = "";
        }))
    ∷ update env "1" (some (record { enabled = some false; target_port = 444; comment = "x" }))
    ∷ []

abbrev pub parsers : Parsers
parsers = record { parse_key = λ k. fine k; parse_cidr = λ c. fine c }

abbrev pub configured : Config
configured = record {
  private_key = some "priv";
  listen_port = some 51820;
  replace_peers = true;
  peers =
      record {
        public_key = "key";
        remove = false;
        replace_allowed_ips = true;
        allowed_ips = "10.8.0.2/32" ∷ [];
        preshared_key = none;
        keepalive = some 25;
      }
      ∷ [];
}

-- a port forward of another owner, which two requests try to change
abbrev pub shared : Tables
shared = record tables { forwards = record (forward 7) { owner_id = some 3 } ∷ []; forward_seq = 7 }

abbrev pub intrusion : List Op
intrusion =
    delete env "7"
    ∷ update env "7" (some (record { enabled = some false; target_port = 1; comment = "" }))
    ∷ requests

abbrev pub kernel : Kernel State
kernel = record {
  host = host;
  parsers = parsers;
  has_link = λ name k. true;
  link_add = λ name mtu k. (none, k);
  link_del = λ name k. (none, k);
  address_ok = λ a. none;
  addr_replace = λ name a k. (none, k);
  link_set_up = λ name k. (none, k);
  open_wgctrl = λ k. none;
  configure_device = λ name c k. (none, k);
}

abbrev pub peer_env : Peers.Env
peer_env = record {
  caller = olga;
  check_update = λ _. [];
  find_fails = false;
  interface_fails = false;
  forwards_fail = false;
  write_fails = false;
  rows_fail = λ _. false;
}

abbrev pub published : Tables
published = record tables { forwards = forward 1 ∷ forward 2 ∷ []; forward_seq = 2 }

abbrev pub lan : Network
lan = record { ip = 10 ∷ 8 ∷ 0 ∷ 0 ∷ []; prefix = 24 }

abbrev pub server : Address
server = 10 ∷ 8 ∷ 0 ∷ 1 ∷ []

abbrev pub second : Address
second = 10 ∷ 8 ∷ 0 ∷ 2 ∷ []

abbrev pub print : Address → String
print a =
    if same_address a second
    then "10.8.0.2"
    else if same_address a server
    then "10.8.0.1"
    else "another"

-- a network library that knows two addresses
abbrev pub net : Net
net = record {
  parse_cidr = λ _. fine (server, lan);
  parse_ip = λ s. if s =ₛ "10.8.0.2" then some second else none;
  print = print;
}
