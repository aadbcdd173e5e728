-- ===== src/Wg/Interfaces.antt =====
-- backend/handlers/interface_handler.go: creating, changing, trashing, restoring and purging an
-- interface, and applying it to the kernel. The lists of rows are not here.
pub mod Requests
pub mod Writes
pub mod Foreign
pub mod Keeps
pub mod Trace
pub mod Purged
pub mod Lifecycle
mod Tests
use vpn_manager.Common.{
  ℕ, suc, String, Bool, true, false, not, ◌&&◌, Option, none, some, List, [], ◌∷◌, ◌++◌, select,
  any, revise, ◌==◌, ◌=ₛ◌, ltb, with_default_true, if◌then◌else◌,
}
use vpn_manager.Text.{◌⧺◌, trim_space}
use vpn_manager.Http.{
  Reply, reply_ok, reply_ok_warn, reply_created, reply_created_warn, reply_no_data,
  reply_no_data_warn, reply_error,
}
use vpn_manager.Http.Attempt.{
  Attempt, halt, go, ◌>>=◌, ◌>>◌, refuse_if, found_or, bind_json, validated, answer,
}
use vpn_manager.Rbac.Resolve.{Caller, parse_id}
use vpn_manager.Wg.Firewall.{teardown_nat}
use vpn_manager.Wg.Forwards.{PortForward}
use vpn_manager.Wg.Model.{Interface, Peer, Tables, interface_row, interface_unscoped}
use vpn_manager.Wg.Ownership.{owns_resource, current_owner_id, get_owned_interface}
use vpn_manager.Wg.Publish.Loops.{
  remove_port_forward_rules, purge_port_forwards, reapply_port_forwards,
}
use vpn_manager.Wg.Sync.{Kernel, remove_link, reconcile}

-- `CreateInterfaceRequest` and `UpdateInterfaceRequest`; the validator refuses negative numbers
pub record CreateInterfaceRequest : Type 0 where
  pub name : String
  pub private_key : String
  pub listen_port : ℕ
  pub address : String
  pub endpoint : String
  pub dns : String
  pub mtu : ℕ
  pub enabled : Option Bool
  pub masquerade : Option Bool
  pub egress : String

pub record UpdateInterfaceRequest : Type 0 where
  pub listen_port : ℕ
  pub address : String
  pub endpoint : String
  pub dns : String
  pub mtu : ℕ
  pub enabled : Option Bool
  pub masquerade : Option Bool
  pub egress : String

-- What a request has from outside: the caller, the configuration, the validator, the key functions
-- (`none` is an error), and which queries fail. `egress_fails` is the update in `applyNAT`,
-- `rows_fail` the deletions of port forwards, by their ids.
pub record Env : Type 0 where
  pub caller : Caller
  pub default_endpoint : String
  pub check_create : CreateInterfaceRequest → List String
  pub check_update : UpdateInterfaceRequest → List String
  pub generate_key : Option String
  pub public_key_from_private : String → Option String
  pub find_fails : Bool
  pub forwards_fail : Bool
  pub peers_fail : Bool
  pub write_fails : Bool
  pub egress_fails : Bool
  pub rows_fail : ℕ → Bool

-- `findInterface`
unfoldable pub find_interface : {R : Type 0} → Env → Tables → String → Attempt R Interface
unfolding parse_id owns_resource
find_interface env t param = do
  id ← parse_id param
  iface ←
      found_or env.find_fails (interface_row t id) "interface not found" "failed to fetch interface"
  refuse_if (not (owns_resource env.caller iface.owner_id)) 404 "interface not found"
  go iface

-- the lookup of `Restore` and `Purge`, which takes every error for a missing row
unfoldable pub find_unscoped : {R : Type 0} → Env → Tables → String → Attempt R Interface
unfolding parse_id owns_resource
find_unscoped env t param = do
  id ← parse_id param
  iface ←
      found_or false (if env.find_fails then none else interface_unscoped t id)
        "interface not found" ""
  refuse_if (not (owns_resource env.caller iface.owner_id)) 404 "interface not found"
  go iface

-- the unique index on the name, which rows in the trash take part in
abbrev pub name_taken : Tables → String → Bool
name_taken t name = any (λ i. i.name =ₛ name) t.interfaces

-- `conflictMessageForInterfaceName`
unfoldable pub conflict_message : Env → Tables → String → String
conflict_message env t name =
    if not env.find_fails && any (λ i. i.name =ₛ name && i.trashed) t.interfaces
    then "interface name exists in trash; restore or permanently delete it first"
    else "interface name already in use"

abbrev pub is_row : ℕ → Interface → Bool
is_row id i = i.id == id

abbrev pub is_on : ℕ → Peer → Bool
is_on id p = p.interface_id == id

abbrev pub insert_interface : Interface → Tables → Tables
insert_interface i t = record t {
  interfaces = t.interfaces ++ i ∷ [];
  interface_seq = suc t.interface_seq;
}

abbrev pub save_interface : Interface → Tables → Tables
save_interface new t = record t { interfaces = revise (is_row new.id) (λ _. new) t.interfaces }

-- writing `deleted_at` of an interface, and of all its peers
abbrev pub mark_interface : Bool → ℕ → Tables → Tables
mark_interface gone id t = record t {
  interfaces = revise (is_row id) (λ i. record i { trashed = gone }) t.interfaces;
}

abbrev pub mark_peers : Bool → ℕ → Tables → Tables
mark_peers gone id t = record t {
  peers = revise (is_on id) (λ p. record p { trashed = gone }) t.peers;
}

abbrev pub drop_peers : ℕ → Tables → Tables
drop_peers id t = record t { peers = select (λ p. not (is_on id p)) t.peers }

abbrev pub drop_interface : ℕ → Tables → Tables
drop_interface id t = record t { interfaces = select (λ i. not (is_row id i)) t.interfaces }

-- the port forwards of an interface, none where the query fails
abbrev pub forwards_on : Env → Tables → ℕ → List PortForward
forwards_on env t id =
    if env.forwards_fail then [] else select (λ f. f.interface_id == id) t.forwards

abbrev pub set_or : {A : Type 0} → Option A → A → A
set_or none old = old
set_or (some new) old = new

unfoldable pub private_key_of : Env → CreateInterfaceRequest → Attempt Interface String
private_key_of env req =
    if req.private_key =ₛ "" then generated env.generate_key else go req.private_key
  where
    generated : Option String → Attempt Interface String
    generated none = halt (reply_error 500 "failed to generate keys")
    generated (some key) = go key

unfoldable pub public_key_of : Option String → Attempt Interface String
public_key_of none = halt (reply_error 422 "invalid private key")
public_key_of (some key) = go key

abbrev pub new_interface : Env → Tables → CreateInterfaceRequest → String → String → Interface
new_interface env t req private public = record {
  id = suc t.interface_seq;
  name = req.name;
  private_key = private;
  public_key = public;
  listen_port = req.listen_port;
  address = req.address;
  dns = req.dns;
  mtu = if req.mtu == 0 then 1420 else req.mtu;
  endpoint = if req.endpoint =ₛ "" then env.default_endpoint else req.endpoint;
  enabled = with_default_true (set_or req.enabled true);
  masquerade = set_or req.masquerade false;
  egress = trim_space req.egress;
  owner_id = current_owner_id env.caller;
  trashed = false;
}

-- the assignments to `iface` in `Update`
abbrev pub changed : UpdateInterfaceRequest → Interface → Interface
changed req i = record i {
  listen_port = req.listen_port;
  address = req.address;
  endpoint = req.endpoint;
  dns = req.dns;
  mtu = if ltb 0 req.mtu then req.mtu else i.mtu;
  enabled = set_or req.enabled i.enabled;
  masquerade = set_or req.masquerade i.masquerade;
  egress = trim_space req.egress;
}
