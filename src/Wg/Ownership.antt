-- ===== src/Wg/Ownership.antt =====
-- backend/handlers/ownership.go: which rows a caller may see and act on.
pub mod Hidden
use vpn_manager.Common.{
  ℕ, Bool, ◌||◌, Option, none, some, List, select, any, ◌==◌, not, if◌then◌else◌,
}
use vpn_manager.Http.{reply_error}
use vpn_manager.Http.Attempt.{Attempt, halt, go, ◌>>=◌, ◌>>◌, refuse_if, found_or}
use vpn_manager.Rbac.Resolve.{Caller, caller_is_super}
use vpn_manager.Wg.Forwards.{PortForward}
use vpn_manager.Wg.Model.{Interface, Peer, Tables, interface_row, interface_unscoped}

-- `owner_id = ?`
abbrev pub is_owner : Option ℕ → ℕ → Bool
is_owner none id = Bool.false
is_owner (some owner) id = owner == id

-- `ownsResource`
unfoldable pub owns_resource : Caller → Option ℕ → Bool
owns_resource c owner = if caller_is_super c then Bool.true else is_owner owner c.id

-- `scopeOwned` on interfaces and on port forwards
unfoldable pub scope_interfaces : Caller → List Interface → List Interface
scope_interfaces c rows =
    if caller_is_super c then rows else select (λ i. is_owner i.owner_id c.id) rows

unfoldable pub scope_forwards : Caller → List PortForward → List PortForward
scope_forwards c rows =
    if caller_is_super c then rows else select (λ f. is_owner f.owner_id c.id) rows

-- `scopeOwnedPeers`
unfoldable pub scope_owned_peers : Caller → Tables → List Peer
scope_owned_peers c t =
    let owned = select (λ i. is_owner i.owner_id c.id) t.interfaces in
    if caller_is_super c
    then t.peers
    else select (λ p. any (λ i. i.id == p.interface_id) owned) t.peers

-- `currentOwnerID`
unfoldable pub current_owner_id : Caller → Option ℕ
current_owner_id c = if c.id == 0 then none else some c.id

module _ {R : Type 0} where
  -- `getOwnedInterface`; the first argument is whether the query fails
  unfoldable pub get_owned_interface : Bool → Caller → Tables → ℕ → Attempt R Interface
  unfolding owns_resource
  get_owned_interface fault c t id = do
    iface ← found_or fault (interface_row t id) "interface not found" "failed to fetch interface"
    refuse_if (not (owns_resource c iface.owner_id)) 404 "interface not found"
    go iface

  parent_owned : Bool → Caller → Option Interface → Attempt R (Unit {0})
  unfolding owns_resource
  parent_owned Bool.true c o = halt (reply_error 404 "peer not found")
  parent_owned Bool.false c none = halt (reply_error 404 "peer not found")
  parent_owned Bool.false c (some iface) =
      refuse_if (not (owns_resource c iface.owner_id)) 404 "peer not found"

  -- `assertPeerOwned`
  unfoldable pub assert_peer_owned : Bool → Caller → Tables → Peer → Attempt R (Unit {0})
  unfolding parent_owned
  assert_peer_owned fault c t peer =
      if caller_is_super c
      then go tt
      else parent_owned fault c (interface_unscoped t peer.interface_id)
