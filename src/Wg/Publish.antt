-- ===== src/Wg/Publish.antt =====
-- backend/handlers/portforward_handler.go: the requests on port forwards, over the tables and the
-- state `K` of the host.
pub mod Reserved
pub mod Rows
pub mod Isolation
pub mod Loops
use vpn_manager.Common.{
  ℕ, suc, ◌+◌, String, Bool, true, false, not, ◌&&◌, ◌||◌, Option, none, some, List, [], ◌∷◌, ◌++◌,
  map, any, select, first, ◌==◌, ◌=ₛ◌, ltb, if◌then◌else◌,
}
use vpn_manager.Text.{◌⧺◌, trim_space, to_lower, itoa, atoi, ℤ, pos, negsuc}
use vpn_manager.Http.{
  Reply, reply_ok, reply_created, reply_created_warn, reply_ok_warn, reply_error, reply_no_data,
}
use vpn_manager.Http.Attempt.{
  Attempt, halt, go, ◌>>=◌, ◌>>◌, refuse_if, found_or, bind_json, validated, answer,
}
use vpn_manager.Rbac.Resolve.{Caller, parse_id}
use vpn_manager.Wg.Firewall.{Result, fine, broken, Host, default_egress}
use vpn_manager.Wg.Forwards.{PortForward, apply_port_forward, remove_port_forward}
use vpn_manager.Wg.Model.{
  Interface, Peer, Tables, interface_unscoped, peer_row, peer_unscoped, forward_row,
}
use vpn_manager.Wg.Ownership.{owns_resource, current_owner_id, get_owned_interface}

-- `CreatePortForwardRequest` and `UpdatePortForwardRequest`; the validator refuses negative numbers
pub record CreatePortForwardRequest : Type 0 where
  pub interface_id : ℕ
  pub peer_id : ℕ
  pub protocol : String
  pub public_port : ℕ
  pub target_port : ℕ
  pub comment : String

pub record UpdatePortForwardRequest : Type 0 where
  pub enabled : Option Bool
  pub target_port : ℕ
  pub comment : String

-- `PortForwardResponse`
pub record Response : Type 0 where
  pub forward : PortForward
  pub interface_name : String
  pub peer_name : String

-- What a request has from outside: the caller, the port in the configuration (`none` for a nil one),
-- the validator, and which queries fail.
pub record Env : Type 0 where
  pub caller : Caller
  pub server_port : Option String
  pub check_create : CreatePortForwardRequest → List String
  pub check_update : UpdatePortForwardRequest → List String
  pub count_fails : Bool
  pub find_fails : Bool
  pub interface_fails : Bool
  pub peer_fails : Bool
  pub write_fails : Bool

is_number : ℕ → Option ℤ → Bool
is_number port none = false
is_number port (some (pos n)) = n == port
is_number port (some (negsuc n)) = false

pub panel_port : ℕ → Option String → Bool
unfolding is_number
panel_port port none = false
panel_port port (some text) = is_number port (atoi (trim_space text))

-- `reservedPort`: what reserves the port
unfoldable pub reserved_port : Env → Tables → ℕ → Option String
unfolding panel_port
reserved_port env t port =
    if port == 22
    then some "SSH"
    else if panel_port port env.server_port
    then some "the management panel"
    else if not env.count_fails && any (λ i. i.listen_port == port) t.interfaces
    then some "a WireGuard interface listen port"
    else none

abbrev refuse_reserved : {R : Type 0} → ℕ → Option String → Attempt R (Unit {0})
refuse_reserved port none = go tt
refuse_reserved port (some why) = halt (
    reply_error 422
      ("public port " ⧺ itoa port ⧺ " is reserved by " ⧺ why ⧺ "; choose a different public port"))

-- `peerNameByID` and `interfaceNameByID`
unfoldable pub peer_name_by_id : Tables → ℕ → String
peer_name_by_id t id = elim (peer_unscoped t id) [ none ↦ "" | some p ↦ p.name ]

unfoldable pub interface_name_by_id : Tables → ℕ → String
interface_name_by_id t id = elim (interface_unscoped t id) [ none ↦ "" | some i ↦ i.name ]

-- the unique index on the protocol and the public port
abbrev pub port_taken : Tables → String → ℕ → Bool
port_taken t protocol port = any (λ f. f.protocol =ₛ protocol && f.public_port == port) t.forwards

-- `findOwnedPortForward`
unfoldable pub find_owned_port_forward :
    {R : Type 0} → Env → String → Tables → Attempt R (PortForward × Interface)
unfolding parse_id owns_resource
find_owned_port_forward env param t = do
  id ← parse_id param
  pf ←
      found_or env.find_fails (forward_row t id) "port forward not found"
        "failed to fetch port forward"
  refuse_if (not (owns_resource env.caller pf.owner_id)) 404 "port forward not found"
  iface ← parent env.interface_fails (interface_unscoped t pf.interface_id)
  go (pf, iface)
  where
    parent : {R : Type 0} → Bool → Option Interface → Attempt R Interface
    parent true o = halt (reply_error 500 "failed to fetch the port forward's interface")
    parent false none = halt (reply_error 500 "failed to fetch the port forward's interface")
    parent false (some i) = go i

abbrev with_forwards : Tables → List PortForward → Tables
with_forwards t rows = record t { forwards = rows }

-- `Save` and `Delete` of a port forward
abbrev pub save_forward : PortForward → Tables → Tables
save_forward pf t = with_forwards t (map (λ f. if f.id == pf.id then pf else f) t.forwards)

abbrev pub drop_forward : ℕ → Tables → Tables
drop_forward id t = with_forwards t (select (λ f. not (f.id == id)) t.forwards)

abbrev pub insert_forward : PortForward → Tables → Tables
insert_forward pf t = record t { forwards = t.forwards ++ pf ∷ []; forward_seq = suc t.forward_seq }

-- the assignments to `pf` in `Update`
unfoldable pub changed : UpdatePortForwardRequest → PortForward → PortForward
changed req pf = record pf {
  target_port = if ltb 0 req.target_port then req.target_port else pf.target_port;
  comment = trim_space req.comment;
  enabled = elim req.enabled [ none ↦ pf.enabled | some b ↦ b ];
}

module _ {K : Type 0} (h : Host K) where
  egress_of : {R : Type 0} → Result String → Attempt R String
  egress_of (fine name) = go name
  egress_of (broken e) =
      halt (reply_error 500 ("could not detect the server WAN/egress interface: " ⧺ e))

  -- `resolveEgress`
  unfoldable pub resolve_egress : {R : Type 0} → Interface → Attempt R String
  unfolding egress_of default_egress
  resolve_egress iface =
      if trim_space iface.egress =ₛ ""
      then egress_of (default_egress h)
      else go (trim_space iface.egress)

  -- what follows the row's creation
  created : Response → Option String × K → Reply Response × K
  created resp (none, k) = (reply_created "port forward created" resp, k)
  created resp (some e, k) = (
    reply_created_warn "port forward created" resp ("saved but firewall rules not applied: " ⧺ e),
    k,
  )

  -- `PortForwardHandler.Create`
  unfoldable pub create_port_forward :
      Env → Option CreatePortForwardRequest → Tables × K → Reply Response × (Tables × K)
  unfolding reserved_port get_owned_interface resolve_egress current_owner_id apply_port_forward
      created
  create_port_forward env body (t, k) =
      answer (t, k)
        do
          req ← bind_json body
          validated (env.check_create req)
          refuse_reserved req.public_port (reserved_port env t req.public_port)
          iface ← get_owned_interface env.interface_fails env.caller t req.interface_id
          peer ←
              found_or env.peer_fails (peer_row t req.peer_id) "peer not found"
                "failed to fetch peer"
          refuse_if (not (peer.interface_id == iface.id)) 422
              "peer does not belong to the selected interface"
          refuse_if (trim_space peer.assigned_ip =ₛ "") 422 "peer has no tunnel IP to forward to"
          egress ← resolve_egress iface
          let pf : PortForward = record {
            id = suc t.forward_seq;
            interface_id = iface.id;
            peer_id = peer.id;
            protocol = to_lower (trim_space req.protocol);
            public_port = req.public_port;
            target_port = req.target_port;
            target_ip = peer.assigned_ip;
            egress = egress;
            enabled = true;
            comment = trim_space req.comment;
            owner_id = current_owner_id env.caller;
          }
          refuse_if env.write_fails 500 "failed to create port forward"
          refuse_if (port_taken t pf.protocol pf.public_port) 409
              "a port forward for this protocol and public port already exists"
          let resp : Response = record {
            forward = pf;
            interface_name = iface.name;
            peer_name = peer.name;
          }
          let out = created resp (apply_port_forward h pf iface.name k)
          go (out.0, (insert_forward pf t, out.1))

  updated : Response → Option String × K → Reply Response × K
  updated resp (none, k) = (reply_ok "port forward updated" resp, k)
  updated resp (some e, k) =
      (reply_ok_warn "port forward updated" resp ("saved but firewall rules not applied: " ⧺ e), k)

  -- the part of `Update` after the old rules were removed, which leaves `k`
  save_update :
      Env
      → UpdatePortForwardRequest
      → PortForward
      → Interface
      → Tables
      → K
      → Reply Response × (Tables × K)
  unfolding changed apply_port_forward updated peer_name_by_id
  save_update env req old iface t k =
      let pf = changed req old in
      let resp : Response = record {
        forward = pf;
        interface_name = iface.name;
        peer_name = peer_name_by_id t pf.peer_id;
      } in
      let out = updated resp (apply_port_forward h pf iface.name k) in
      if env.write_fails
      then (reply_error 500 "failed to update port forward", (t, k))
      else if pf.enabled
      then (out.0, (save_forward pf t, out.1))
      else (reply_ok "port forward updated" resp, (save_forward pf t, k))

  -- `PortForwardHandler.Update`
  unfoldable pub update_port_forward :
      Env → String → Option UpdatePortForwardRequest → Tables × K → Reply Response × (Tables × K)
  unfolding find_owned_port_forward save_update remove_port_forward
  update_port_forward env param body (t, k) =
      answer (t, k)
        do
          found ← find_owned_port_forward env param t
          req ← bind_json body
          validated (env.check_update req)
          let removed = remove_port_forward h found.0 found.1.name k
          go (save_update env req found.0 found.1 t removed.1)

  -- `PortForwardHandler.Delete`
  unfoldable pub delete_port_forward : Env → String → Tables × K → Reply Response × (Tables × K)
  unfolding find_owned_port_forward remove_port_forward
  delete_port_forward env param (t, k) =
      answer (t, k)
        do
          found ← find_owned_port_forward env param t
          let removed = remove_port_forward h found.0 found.1.name k
          go (
              if env.write_fails
              then (reply_error 500 "failed to delete port forward", (t, removed.1))
              else (
                reply_no_data 200 "port forward deleted",
                (drop_forward found.0.id t, removed.1),
              ))
