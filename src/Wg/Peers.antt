-- ===== src/Wg/Peers.antt =====
-- backend/handlers/peer_handler.go: changing, trashing, restoring and purging a peer. Creation is in a
-- module of its own; the read-only requests are not here.
pub mod Purged
pub mod Creation
pub mod Unique
pub mod Trace
pub mod Conflicts
mod Tests
use vpn_manager.Common.{
  ℕ, zero, suc, String, Bool, true, false, not, ◌&&◌, Option, none, some, List, [], ◌∷◌, map,
  select, any, ◌==◌, ◌=ₛ◌, if◌then◌else◌,
}
use vpn_manager.Text.{◌⧺◌, atoi, ℤ, pos, negsuc}
use vpn_manager.Http.{
  Reply, reply_ok, reply_ok_warn, reply_no_data, reply_no_data_warn, reply_error,
}
use vpn_manager.Http.Attempt.{
  Attempt, halt, go, ◌>>=◌, ◌>>◌, refuse_if, found_or, bind_json, validated, answer,
}
use vpn_manager.Rbac.Resolve.{Caller}
use vpn_manager.Wg.Forwards.{PortForward}
use vpn_manager.Wg.Model.{Interface, Peer, Tables, interface_row, peer_row, peer_unscoped}
use vpn_manager.Wg.Ownership.{assert_peer_owned}
use vpn_manager.Wg.Device.{validate_cidr_list}
use vpn_manager.Wg.Publish.{interface_name_by_id}
use vpn_manager.Wg.Publish.Loops.{
  remove_port_forward_rules, purge_port_forwards, reapply_port_forwards,
}
use vpn_manager.Wg.Sync.{Kernel, sync_peer}

-- `UpdatePeerRequest`
pub record UpdatePeerRequest : Type 0 where
  pub name : String
  pub client_allowed_ips : String
  pub persistent_keepalive : ℕ
  pub enabled : Option Bool

-- What a request has from outside: the caller, the validator, and which queries fail. `rows_fail` is the
-- deletions of port forwards, by their ids.
pub record Env : Type 0 where
  pub caller : Caller
  pub check_update : UpdatePeerRequest → List String
  pub find_fails : Bool
  pub interface_fails : Bool
  pub forwards_fail : Bool
  pub write_fails : Bool
  pub rows_fail : ℕ → Bool

peer_id_of : {R : Type 0} → Option ℤ → Attempt R ℕ
peer_id_of none = halt (reply_error 400 "invalid peer id")
peer_id_of (some (negsuc n)) = halt (reply_error 400 "invalid peer id")
peer_id_of (some (pos zero)) = halt (reply_error 400 "invalid peer id")
peer_id_of (some (pos (suc n))) = go (suc n)

-- `findPeerWithScope`, with the rows that the scope shows
unfoldable pub find_peer_with_scope :
    {R : Type 0} → Env → (ℕ → Option Peer) → String → Attempt R Peer
unfolding peer_id_of
find_peer_with_scope env scope param = do
  id ← peer_id_of (atoi param)
  found_or env.find_fails (scope id) "peer not found" "failed to fetch peer"

-- `findPeer` and `findPeerUnscoped`
unfoldable pub find_peer : {R : Type 0} → Env → Tables → String → Attempt R Peer
unfolding find_peer_with_scope
find_peer env t param = find_peer_with_scope env (peer_row t) param

unfoldable pub find_peer_unscoped : {R : Type 0} → Env → Tables → String → Attempt R Peer
unfolding find_peer_with_scope
find_peer_unscoped env t param = find_peer_with_scope env (peer_unscoped t) param

-- `ensurePeerUnique`: the conflict, "" where there is none
unfoldable pub ensure_peer_unique : Peer → Tables → String
ensure_peer_unique peer t =
    if any (λ p. p.public_key =ₛ peer.public_key) t.peers
    then "peer public key already exists"
    else if any (λ p. p.interface_id == peer.interface_id && p.assigned_ip =ₛ peer.assigned_ip)
        t.peers
    then "assigned IP already exists on this interface"
    else ""

abbrev pub put_peer : Peer → Tables → Tables
put_peer peer t = record t { peers = map (λ p. if p.id == peer.id then peer else p) t.peers }

abbrev pub drop_peer : ℕ → Tables → Tables
drop_peer id t = record t { peers = select (λ p. not (p.id == id)) t.peers }

-- the port forwards of a peer, none where the query fails
abbrev pub forwards_to : Env → Tables → ℕ → List PortForward
forwards_to env t id = if env.forwards_fail then [] else select (λ f. f.peer_id == id) t.forwards

-- the changes of `Update`
abbrev pub changed : UpdatePeerRequest → Peer → Peer
changed req peer = record peer {
  name = req.name;
  client_allowed_ips =
      if req.client_allowed_ips =ₛ "" then peer.client_allowed_ips else req.client_allowed_ips;
  persistent_keepalive = req.persistent_keepalive;
  enabled = elim req.enabled [ none ↦ peer.enabled | some b ↦ b ];
}

refuse_cidrs : {R : Type 0} → Option String → Attempt R (Unit {0})
refuse_cidrs none = go tt
refuse_cidrs (some e) = halt (reply_error 422 ("invalid client_allowed_ips: " ⧺ e))

module _ {K : Type 0} (kernel : Kernel K) where
  updated : Peer → Option String × K → Reply Peer × K
  updated peer (none, k) = (reply_ok "peer updated" peer, k)
  updated peer (some e, k) = (reply_ok_warn "peer updated" peer ("not applied to kernel: " ⧺ e), k)

  -- `PeerHandler.Update`
  unfoldable pub update_peer :
      Env → String → Option UpdatePeerRequest → Tables × K → Reply Peer × (Tables × K)
  unfolding find_peer assert_peer_owned refuse_cidrs validate_cidr_list sync_peer updated
  update_peer env param body (t, k) =
      answer (t, k)
        do
          old ← find_peer env t param
          assert_peer_owned env.interface_fails env.caller t old
          req ← bind_json body
          validated (env.check_update req)
          let peer = changed req old
          refuse_cidrs (validate_cidr_list kernel.parsers peer.client_allowed_ips)
          refuse_if env.write_fails 500 "failed to update peer"
          let saved = put_peer peer t
          let out = updated peer (sync_peer kernel saved peer.interface_id peer false k)
          go (out.0, (saved, out.1))

  ended : String → Option String × K → Reply Peer × K
  ended message (none, k) = (reply_no_data 200 message, k)
  ended message (some e, k) = (reply_no_data_warn message ("kernel not updated: " ⧺ e), k)

  -- `PeerHandler.Delete`
  unfoldable pub trash_peer : Env → String → Tables × K → Reply Peer × (Tables × K)
  unfolding find_peer assert_peer_owned remove_port_forward_rules interface_name_by_id sync_peer
      ended
  trash_peer env param (t, k) =
      answer (t, k)
        do
          peer ← find_peer env t param
          assert_peer_owned env.interface_fails env.caller t peer
          let device = interface_name_by_id t peer.interface_id
          let cleared = remove_port_forward_rules kernel.host device (forwards_to env t peer.id) k
          let trashed = put_peer (record peer { trashed = true }) t
          let out =
              ended "peer moved to trash"
                (sync_peer kernel trashed peer.interface_id peer true cleared)
          go (
              if env.write_fails
              then (reply_error 500 "failed to move peer to trash", (t, cleared))
              else (out.0, (trashed, out.1)))

  parent_of : Bool → Option Interface → Attempt Peer Interface
  parent_of true o = halt (reply_error 500 "failed to fetch parent interface")
  parent_of false none =
      halt (reply_error 409 "restore the parent interface before restoring this peer")
  parent_of false (some i) = go i

  restored : Interface → Peer → List PortForward → Option String × K → Reply Peer × K
  unfolding reapply_port_forwards
  restored iface peer pfs (some e, k) =
      (reply_ok_warn "peer restored" peer ("kernel not updated: " ⧺ e), k)
  restored iface peer pfs (none, k) =
      (reply_ok "peer restored" peer, reapply_port_forwards kernel.host iface.name pfs k)

  unfoldable pub restore_trashed :
      Env → Peer → Tables × K → Attempt Peer (Reply Peer × (Tables × K))
  unfolding parent_of restored sync_peer
  restore_trashed env peer (t, k) = do
    iface ← parent_of env.interface_fails (interface_row t peer.interface_id)
    refuse_if env.write_fails 500 "failed to restore peer"
    let live : Peer = record peer { trashed = false }
    let saved = put_peer live t
    let out =
        restored iface live (forwards_to env saved peer.id)
          (sync_peer kernel saved peer.interface_id live false k)
    go (out.0, (saved, out.1))

  -- `PeerHandler.Restore`
  unfoldable pub restore_peer : Env → String → Tables × K → Reply Peer × (Tables × K)
  unfolding find_peer_unscoped assert_peer_owned restore_trashed
  restore_peer env param (t, k) =
      answer (t, k)
        do
          peer ← find_peer_unscoped env t param
          assert_peer_owned env.interface_fails env.caller t peer
          (if peer.trashed
              then restore_trashed env peer (t, k)
              else go (reply_ok "peer already active" peer, (t, k)))

  -- `PeerHandler.Purge`
  unfoldable pub purge_peer : Env → String → Tables × K → Reply Peer × (Tables × K)
  unfolding find_peer_unscoped assert_peer_owned purge_port_forwards interface_name_by_id sync_peer
      ended
  purge_peer env param (t, k) =
      answer (t, k)
        do
          peer ← find_peer_unscoped env t param
          assert_peer_owned env.interface_fails env.caller t peer
          let device = interface_name_by_id t peer.interface_id
          let cleared =
              purge_port_forwards kernel.host env.rows_fail device (forwards_to env t peer.id)
                (t, k)
          let dropped = drop_peer peer.id cleared.0
          let out =
              ended "peer permanently deleted"
                (sync_peer kernel dropped peer.interface_id peer true cleared.1)
          go (
              if env.write_fails
              then (reply_error 500 "failed to permanently delete peer", cleared)
              else (out.0, (dropped, out.1)))
