-- ===== src/Wg/Peers/Creation.antt =====
-- `PeerHandler.Create` of backend/handlers/peer_handler.go.
use vpn_manager.Common.{
  ℕ, suc, String, Bool, true, false, not, ◌&&◌, ◌||◌, Option, none, some, List, [], ◌∷◌, ◌++◌, map,
  select, any, ◌==◌, ◌=ₛ◌, with_default, with_default_true, if◌then◌else◌,
}
use vpn_manager.Text.{◌⧺◌}
use vpn_manager.Http.{Reply, failure, reply_created, reply_created_warn, reply_error}
use vpn_manager.Http.Attempt.{
  Attempt, halt, go, ◌>>=◌, ◌>>◌, refuse_if, found_or, bind_json, validated, answer,
}
use vpn_manager.Rbac.Resolve.{Caller, parse_id}
use vpn_manager.Wg.Firewall.{Result, fine, broken}
use vpn_manager.Wg.Model.{Interface, Peer, Tables, interface_row}
use vpn_manager.Wg.Ownership.{owns_resource}
use vpn_manager.Wg.Addresses.{Net, next_free_ip, validate_ip_in_cidr}
use vpn_manager.Wg.Device.{validate_public_key, validate_cidr_list}
use vpn_manager.Wg.Sync.{Kernel, sync_peer}
use vpn_manager.Wg.Peers.{ensure_peer_unique}

-- `CreatePeerRequest`
pub record CreatePeerRequest : Type 0 where
  pub name : String
  pub public_key : String
  pub assigned_ip : String
  pub client_allowed_ips : String
  pub persistent_keepalive : ℕ
  pub use_preshared_key : Bool
  pub enabled : Option Bool

-- What a creation has from outside: the caller, the validator, the key generators (`none` is an error),
-- the network library, and which queries fail.
pub record Source : Type 0 where
  pub caller : Caller
  pub check : CreatePeerRequest → List String
  pub key_pair : Option (String × String)
  pub preshared_key : Option String
  pub net : Net
  pub find_fails : Bool
  pub unique_fails : Bool
  pub write_fails : Bool

-- `private_key` and `public_key`
keys_of : Source → String → Attempt Peer (String × String)
keys_of src given = if given =ₛ "" then generated src.key_pair else go ("", given)
  where
    generated : Option (String × String) → Attempt Peer (String × String)
    generated none = halt (reply_error 500 "failed to generate keys")
    generated (some keys) = go keys

psk_of : Source → Bool → Attempt Peer String
psk_of src wanted = if wanted then generated src.preshared_key else go ""
  where
    generated : Option String → Attempt Peer String
    generated none = halt (reply_error 500 "failed to generate preshared key")
    generated (some key) = go key

-- an error of a check, with what is put before it
abbrev refuse_error : String → Option String → Attempt Peer (Unit {0})
refuse_error prefix none = go tt
refuse_error prefix (some e) = halt (reply_error 422 (prefix ⧺ e))

-- The address asked for, or the next free one. `none` is a request that is never answered, which
-- is written as the status 0.
assigned_of : Option (Result String) → Attempt Peer String
assigned_of none = halt (failure 0 "" "")
assigned_of (some (broken e)) = halt (reply_error 422 e)
assigned_of (some (fine ip)) = go ip

abbrev pub allocated : Source → Tables → Interface → String → Option (Result String)
unfolding next_free_ip
allocated src t iface asked =
    let taken =
      map (λ p. p.assigned_ip)
        (select (λ p. p.interface_id == iface.id && not p.trashed) t.peers) in
    let next = next_free_ip src.net iface.address taken in
    if asked =ₛ "" then next else some (fine asked)

-- the unique indexes of peers
abbrev pub peer_taken : Peer → Tables → Bool
peer_taken new t =
    any
      (λ p.
        p.public_key =ₛ new.public_key
        || p.interface_id == new.interface_id
          && (p.assigned_ip =ₛ new.assigned_ip || p.allowed_ips =ₛ new.allowed_ips))
      t.peers

abbrev pub new_peer :
    Tables → Interface → CreatePeerRequest → String × String → String → String → Peer
new_peer t iface req keys psk ip = record {
  id = suc t.peer_seq;
  interface_id = iface.id;
  name = req.name;
  private_key = keys.0;
  public_key = keys.1;
  preshared_key = psk;
  allowed_ips = ip ⧺ "/32";
  assigned_ip = ip;
  client_allowed_ips =
      if req.client_allowed_ips =ₛ "" then "0.0.0.0/0, ::/0" else req.client_allowed_ips;
  persistent_keepalive = with_default 25 req.persistent_keepalive;
  enabled = with_default_true (elim req.enabled [ none ↦ true | some b ↦ b ]);
  trashed = false;
}

abbrev pub insert_peer : Peer → Tables → Tables
insert_peer p t = record t { peers = t.peers ++ p ∷ []; peer_seq = suc t.peer_seq }

abbrev refuse_conflict : String → Attempt Peer (Unit {0})
refuse_conflict conflict = refuse_if (not (conflict =ₛ "")) 409 conflict

created : Peer → Option String → Reply Peer
created peer none = reply_created "peer created" peer
created peer (some e) = reply_created_warn "peer created" peer ("not applied to kernel: " ⧺ e)

module _ {K : Type 0} (kernel : Kernel K) where
  -- `PeerHandler.Create`
  unfoldable pub create_peer :
      Source → String → Option CreatePeerRequest → Tables × K → Reply Peer × (Tables × K)
  unfolding parse_id owns_resource keys_of psk_of assigned_of allocated validate_public_key
      validate_cidr_list validate_ip_in_cidr ensure_peer_unique sync_peer created
  create_peer src param body (t, k) =
      answer (t, k)
        do
          id ← parse_id param
          iface ←
              found_or src.find_fails (interface_row t id) "interface not found"
                "failed to fetch interface"
          refuse_if (not (owns_resource src.caller iface.owner_id)) 404 "interface not found"
          req ← bind_json body
          validated (src.check req)
          keys ← keys_of src req.public_key
          refuse_error "" (validate_public_key kernel.parsers keys.1)
          let allowed : String =
              if req.client_allowed_ips =ₛ "" then "0.0.0.0/0, ::/0" else req.client_allowed_ips
          refuse_error "invalid client_allowed_ips: " (validate_cidr_list kernel.parsers allowed)
          psk ← psk_of src req.use_preshared_key
          ip ← assigned_of (allocated src t iface req.assigned_ip)
          refuse_error "" (validate_ip_in_cidr src.net ip iface.address)
          let peer = new_peer t iface req keys psk ip
          refuse_if src.unique_fails 500 "failed to check peer uniqueness"
          refuse_conflict (ensure_peer_unique peer t)
          refuse_if (peer_taken peer t) 409 "peer public key or assigned IP already in use"
          refuse_if src.write_fails 500 "failed to create peer"
          let saved = insert_peer peer t
          let out = sync_peer kernel saved iface.id peer false k
          go (created peer out.0, (saved, out.1))
