-- ===== src/Wg/Peers/Tests.antt =====
-- Requests on peers at concrete tables.
use vpn_manager.Common.{◌≡◌, not, ◌=ₛ◌, true, false, refl, List, [], ◌∷◌, none, some, arith}
use vpn_manager.Wg.Simulated.{off}
use vpn_manager.Wg.Samples.{olga, kernel, tables, peer, peer_env, net}
use vpn_manager.Wg.Model.{Peer}
use vpn_manager.Wg.Peers.{ensure_peer_unique}
use vpn_manager.Wg.Peers.Conflicts.{serve-agrees}
use vpn_manager.Wg.Peers.Creation.{Source, CreatePeerRequest, peer_taken}
use vpn_manager.Wg.Peers.Unique.{IsValid}
use vpn_manager.Wg.Peers.Trace.{Op, create, update, trash, purge, serve}

abbrev source : Source
source = record {
  caller = olga;
  check = λ _. [];
  key_pair = some ("private", "public");
  preshared_key = some "psk";
  net = net;
  find_fails = false;
  unique_fails = false;
  write_fails = false;
}

abbrev phone : CreatePeerRequest
phone = record {
  name = "phone";
  public_key = "";
  assigned_ip = "";
  client_allowed_ips = "";
  persistent_keepalive = 0;
  use_preshared_key = true;
  enabled = none;
}

abbrev ops : List Op
ops =
    create source "1" (some phone)
    ∷ update peer_env "1" none
    ∷ trash peer_env "1"
    ∷ create source "1" (some phone)
    ∷ purge peer_env "1"
    ∷ create source "1" (some phone)
    ∷ []

start-IsValid : IsValid tables
start-IsValid = record {
  keyed = (refl, tt);
  below = omega arith;
  keys = (refl, tt);
  places = (refl, tt);
  nets = (refl, tt);
}

-- a second peer with the key of the first and a free address
abbrev double : Peer
double = record peer { id = 9; assigned_ip = "10.8.0.77"; allowed_ips = "10.8.0.77/32" }

doubled : ensure_peer_unique double tables ≡ "peer public key already exists"
unfolding ensure_peer_unique
doubled = refl

serve-agrees_example :
    (ensure_peer_unique double (serve kernel ops (tables, off)).0 =ₛ "")
    ≡ not (peer_taken double (serve kernel ops (tables, off)).0)
serve-agrees_example = serve-agrees kernel ops (tables, off) double start-IsValid refl
