-- ===== src/Wg/Model.antt =====
-- backend/models/interface.go and peer.go: the tables of interfaces, peers and port forwards.
-- `trashed` is `DeletedAt.Valid`; timestamps and figures read from the kernel are left out.
use vpn_manager.Common.{ℕ, String, Bool, not, ◌&&◌, List, Option, first, by_key, ◌==◌}
use vpn_manager.Wg.Forwards.{PortForward}

-- `WGInterface`
pub record Interface : Type 0 where
  pub id : ℕ
  pub name : String
  pub private_key : String
  pub public_key : String
  pub listen_port : ℕ
  pub address : String
  pub dns : String
  pub mtu : ℕ
  pub endpoint : String
  pub enabled : Bool
  pub masquerade : Bool
  pub egress : String
  pub owner_id : Option ℕ
  pub trashed : Bool

-- `Peer`
pub record Peer : Type 0 where
  pub id : ℕ
  pub interface_id : ℕ
  pub name : String
  pub private_key : String
  pub public_key : String
  pub preshared_key : String
  pub allowed_ips : String
  pub assigned_ip : String
  pub client_allowed_ips : String
  pub persistent_keepalive : ℕ
  pub enabled : Bool
  pub trashed : Bool

pub record Tables : Type 0 where
  pub interfaces : List Interface
  pub peers : List Peer
  pub forwards : List PortForward
  -- the sequences of the primary keys
  pub interface_seq : ℕ
  pub peer_seq : ℕ
  pub forward_seq : ℕ

abbrev pub interface_key : Interface → ℕ
interface_key i = i.id

abbrev pub forward_key : PortForward → ℕ
forward_key pf = pf.id

-- `First` leaves out what is in the trash, `Unscoped().First` does not.
abbrev pub interface_row : Tables → ℕ → Option Interface
interface_row t k = first (λ i. by_key interface_key k i && not i.trashed) t.interfaces

abbrev pub interface_unscoped : Tables → ℕ → Option Interface
interface_unscoped t k = first (by_key interface_key k) t.interfaces

abbrev pub peer_row : Tables → ℕ → Option Peer
peer_row t k = first (λ p. p.id == k && not p.trashed) t.peers

abbrev pub peer_unscoped : Tables → ℕ → Option Peer
peer_unscoped t k = first (λ p. p.id == k) t.peers

abbrev pub forward_row : Tables → ℕ → Option PortForward
forward_row t k = first (by_key forward_key k) t.forwards
