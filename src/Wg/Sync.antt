-- ===== src/Wg/Sync.antt =====
-- backend/handlers/sync.go, with the device operations of backend/wg/service.go: what a change of an
-- interface or a peer does to the kernel. netlink and wgctrl are parameters; `K` is the
-- state of the host. Error messages leave out the operand that the source quotes.
pub mod Written
use vpn_manager.Common.{
  ℕ, String, Bool, not, ◌&&◌, ◌||◌, Option, none, some, List, map, select, ◌==◌, ◌=ₛ◌,
  if◌then◌else◌,
}
use vpn_manager.Text.{◌⧺◌}
use vpn_manager.Wg.Firewall.{Result, fine, broken, Host, setup_nat, teardown_nat}
use vpn_manager.Wg.Model.{Interface, Peer, Tables, interface_row}
use vpn_manager.Wg.Device.{
  Parsers, Config, full_device_config, peer_device_config, remove_peer_device_config,
}

-- a call on the host that may fail with a message
abbrev pub Call : Type 0 → Type 0
Call K = K → Option String × K

abbrev pub ok : {K : Type 0} → Call K
ok k = (none, k)

abbrev pub fail : {K : Type 0} → String → Call K
fail e k = (some e, k)

-- one call after another, if the first succeeds, with what is put before its message
abbrev pub then_call : {K : Type 0} → String → Call K → Call K → Call K
then_call prefix first second k =
    let a = first k in
    let b = second a.1 in elim a.0 [ none ↦ b | some e ↦ (some (prefix ⧺ e), a.1) ]

-- What the kernel offers; `mtu` is 0 where none is asked for.
pub record Kernel (K : Type 0) : Type 0 where
  pub host : Host K
  pub parsers : Parsers
  pub has_link : String → K → Bool
  pub link_add : String → ℕ → Call K
  pub link_del : String → Call K
  -- `ParseAddr` followed by `AddrReplace`
  pub address_ok : String → Option String
  pub addr_replace : String → String → Call K
  pub link_set_up : String → Call K
  -- `wgctrl.New`: the error, if there is one
  pub open_wgctrl : K → Option String
  pub configure_device : String → Config → Call K

abbrev pub store_egress : ℕ → String → Tables → Tables
store_egress id egress t = record t {
  interfaces = map (λ i. if i.id == id then record i { egress = egress } else i) t.interfaces;
}

module _ {K : Type 0} (kernel : Kernel K) where
  address_call : String → String → Option String → Call K
  address_call name address (some e) k = fail ("parse address: " ⧺ e) k
  address_call name address none k =
      then_call "assign address: " (kernel.addr_replace name address)
        (λ k'. then_call "bring up link: " (kernel.link_set_up name) ok k') k

  -- `EnsureLink`
  unfoldable pub ensure_link : String → String → ℕ → Call K
  unfolding address_call
  ensure_link name address mtu k =
      if kernel.has_link name k
      then address_call name address (kernel.address_ok address) k
      else then_call "create link: " (kernel.link_add name mtu)
          (address_call name address (kernel.address_ok address)) k

  -- `RemoveLink`
  unfoldable pub remove_link : String → Call K
  remove_link name k = if kernel.has_link name k then kernel.link_del name k else ok k

  -- the shape of `ConfigureDevice`, `ConfigurePeer` and `RemovePeer`
  configure : String → String → Result Config → Call K
  configure prefix name cfg k = elim (kernel.open_wgctrl k) [
    | some e ↦ fail ("open wgctrl: " ⧺ e) k
    | none ↦ elim cfg [
      | broken e ↦ fail e k
      | fine c ↦ then_call prefix (kernel.configure_device name c) ok k
    ]
  ]

  unfoldable pub configure_device : Interface → List Peer → Call K
  unfolding configure full_device_config
  configure_device iface peers k =
      configure "configure device: " iface.name (full_device_config kernel.parsers iface peers) k

  unfoldable pub configure_peer : String → Peer → Call K
  unfolding configure peer_device_config
  configure_peer name peer k =
      configure "configure peer: " name (peer_device_config kernel.parsers peer) k

  unfoldable pub remove_peer : String → String → Call K
  unfolding configure remove_peer_device_config
  remove_peer name public_key k =
      configure "remove peer: " name (remove_peer_device_config kernel.parsers public_key) k

  -- `applyNAT`; `fault` is whether its update of the row fails
  unfoldable pub apply_nat : Bool → Interface → Tables × K → Option String × (Tables × K)
  unfolding setup_nat teardown_nat
  apply_nat fault iface (t, k) =
      let torn = teardown_nat kernel.host iface.address iface.name iface.egress k in
      let done = setup_nat kernel.host iface.address iface.name iface.egress k in
      let name = done.0.egress in
      if not iface.masquerade then (none, (t, torn.1)) else elim done.0.error [
        | some e ↦ (some ("nat setup: " ⧺ e), (t, done.1))
        | none ↦
            if name =ₛ "" || name =ₛ iface.egress
            then (none, (t, done.1))
            else if fault
            then (some "update failed", (t, done.1))
            else (none, (store_egress iface.id name t, done.1))
      ]

  -- `EnsureLink` and then `ConfigureDevice` with the peers outside the trash
  push : Interface → Tables → Call K
  unfolding ensure_link configure_device
  push iface t k =
      let peers = select (λ p. p.interface_id == iface.id && not p.trashed) t.peers in
      then_call "" (ensure_link iface.name iface.address iface.mtu) (configure_device iface peers) k

  reconcile_on : Bool → Interface → Tables × K → Option String × (Tables × K)
  unfolding push apply_nat
  reconcile_on fault iface (t, k) =
      let pushed = push iface t k in
      elim pushed.0 [
        | some e ↦ (some e, (t, pushed.1))
        | none ↦ apply_nat fault iface (t, pushed.1)
      ]

  reconcile_found : Bool → Option Interface → Tables × K → Option String × (Tables × K)
  unfolding reconcile_on remove_link teardown_nat
  reconcile_found fault none s = (some "record not found", s)
  reconcile_found fault (some iface) (t, k) =
      let torn = teardown_nat kernel.host iface.address iface.name iface.egress k in
      let removed = remove_link iface.name torn.1 in
      if not iface.enabled then (removed.0, (t, removed.1)) else reconcile_on fault iface (t, k)

  -- `reconcile`, when its query succeeds
  unfoldable pub reconcile : Bool → ℕ → Tables × K → Option String × (Tables × K)
  unfolding reconcile_found
  reconcile fault id (t, k) = reconcile_found fault (interface_row t id) (t, k)

  sync_found : Option Interface → Peer → Bool → Call K
  unfolding ensure_link remove_peer configure_peer
  sync_found none peer remove k = fail "record not found" k
  sync_found (some iface) peer remove k =
      if not iface.enabled
      then ok k
      else then_call "" (ensure_link iface.name iface.address iface.mtu)
          (λ k'.
            if remove || not peer.enabled
            then remove_peer iface.name peer.public_key k'
            else configure_peer iface.name peer k')
          k

  -- `syncPeer`, when its query succeeds
  unfoldable pub sync_peer : Tables → ℕ → Peer → Bool → Call K
  unfolding sync_found
  sync_peer t id peer remove k = sync_found (interface_row t id) peer remove k
