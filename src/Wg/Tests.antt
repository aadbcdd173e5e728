-- ===== src/Wg/Tests.antt =====
-- Concrete runs for the theorems on interfaces and port forwards.
use vpn_manager.Text.{atoi}
use vpn_manager.Http.Attempt.{go, ◌>>=◌}
use vpn_manager.Wg.Ownership.{assert_peer_owned}
use vpn_manager.Common.{any, ◌==◌, ◌≡◌, refl, true, false, [], ◌∷◌, none, some, arith, map, select}
use mathlib.Core.List.{Memᴰ}
use vpn_manager.Text.{trim_space, to_lower, itoa, emit, split}
use vpn_manager.Wg.Firewall.{
  fine, setup_nat, nat_rules, ensure_rule, until_error, enable_forwarding,
}
use vpn_manager.Wg.Firewall.Laws.{Installed}
use vpn_manager.Wg.Firewall.Setup.{setup_nat_again}
use vpn_manager.Wg.Forwards.{
  port_forward_rules, apply_port_forward, remove_port_forward, install, pf_comment,
}
use vpn_manager.Wg.Forwards.Laws.{apply_port_forward_again, remove_port_forward_keeps}
use vpn_manager.Wg.Model.{Interface, Peer}
use vpn_manager.Wg.Ownership.{get_owned_interface}
use vpn_manager.Wg.Ownership.Hidden.{get_owned_interface_hidden, visible_interfaces}
use vpn_manager.Wg.Publish.Reserved.{AllSafe, serve, serve-AllSafe}
use vpn_manager.Wg.Device.{build_peer_config, full_device_config}
use vpn_manager.Wg.Device.Laws.{fine_of, full_device_config-enabled}
use vpn_manager.Wg.Publish.Isolation
use vpn_manager.Wg.Publish.Isolation.{forwards_of, serve_keeps_forwards}
use vpn_manager.Wg.Peers
use vpn_manager.Wg.Peers.Purged.{is_to, purge_peer-gone}
use vpn_manager.Wg.Simulated.{State, host, count, off, run}
use vpn_manager.Wg.Simulated.Laws.{host-IsIptables, append-Adds, insert-Adds, host-IsForwarding}
use vpn_manager.Wg.Samples.{
  owned_by, peer, forward, tables, olga, requests, parsers, configured, shared, intrusion, kernel,
  peer_env, published,
}

-- what the tests compute with
running : Unit {0}
unfolding setup_nat nat_rules ensure_rule until_error enable_forwarding run apply_port_forward
    port_forward_rules install pf_comment trim_space itoa remove_port_forward to_lower emit
running = tt

setup_works : (setup_nat host "10.8.0.1/24" "wg0" "" off).0.error ≡ none
unfolding running
setup_works = refl

setup_nat_again_example :
    setup_nat host "10.8.0.1/24" "wg0" "" (setup_nat host "10.8.0.1/24" "wg0" "" off).1
    ≡ setup_nat host "10.8.0.1/24" "wg0" "" off
setup_nat_again_example =
    setup_nat_again host-IsIptables append-Adds host-IsForwarding "10.8.0.1/24" "wg0" "" off
      setup_works

apply_works : (apply_port_forward host (forward 1) "wg0" off).0 ≡ none
unfolding running
apply_works = refl

apply_port_forward_again_example :
    Installed count
      (port_forward_rules (forward 1) "wg0")
      (apply_port_forward host (forward 1) "wg0" off).1
    × (apply_port_forward host (forward 1) "wg0" (apply_port_forward host (forward 1) "wg0" off).1
        ≡ apply_port_forward host (forward 1) "wg0" off)
apply_port_forward_again_example =
    apply_port_forward_again host-IsIptables append-Adds insert-Adds host-IsForwarding (forward 1)
      "wg0" off apply_works

both : State
both =
    (apply_port_forward host (forward 2) "wg0" (apply_port_forward host (forward 1) "wg0" off).1).1

other_rule :
    Memᴰ
      (record {
        table = "nat";
        chain = "PREROUTING";
        args =
            "-i" ∷ "eth0" ∷ "-p" ∷ "tcp" ∷ "--dport" ∷ "8002" ∷ "-j" ∷ "DNAT" ∷ "--to-destination"
            ∷ "10.8.0.2:80" ∷ "-m" ∷ "comment" ∷ "--comment" ∷ "vpn-manager-pf-2" ∷ [];
      })
      (port_forward_rules (forward 2) "wg0")
unfolding running
other_rule = Memᴰ.head refl

remove_port_forward_keeps_example :
    count
      (record {
        table = "nat";
        chain = "PREROUTING";
        args =
            "-i" ∷ "eth0" ∷ "-p" ∷ "tcp" ∷ "--dport" ∷ "8002" ∷ "-j" ∷ "DNAT" ∷ "--to-destination"
            ∷ "10.8.0.2:80" ∷ "-m" ∷ "comment" ∷ "--comment" ∷ "vpn-manager-pf-2" ∷ [];
      })
      (remove_port_forward host (forward 1) "wg0" both).1
    ≡ count
        (record {
          table = "nat";
          chain = "PREROUTING";
          args =
              "-i" ∷ "eth0" ∷ "-p" ∷ "tcp" ∷ "--dport" ∷ "8002" ∷ "-j" ∷ "DNAT" ∷ "--to-destination"
              ∷ "10.8.0.2:80" ∷ "-m" ∷ "comment" ∷ "--comment" ∷ "vpn-manager-pf-2" ∷ [];
        })
        both
remove_port_forward_keeps_example =
    remove_port_forward_keeps host-IsIptables (forward 1) (forward 2) "wg0" "wg0" _ both
      (omega arith) (omega arith) (omega arith) other_rule

get_owned_interface_hidden_example :
    get_owned_interface {R = Interface} false olga tables 2
    ≡ get_owned_interface false olga (visible_interfaces olga tables) 2
get_owned_interface_hidden_example =
    get_owned_interface_hidden false olga tables 2 (refl, (refl, tt))

serve-AllSafe_example : AllSafe (some "8080") (serve host requests (tables, off)).0
serve-AllSafe_example =
    serve-AllSafe host (some "8080") requests (tables, off) (refl, (refl, (refl, tt))) tt

device_run :
    full_device_config parsers (owned_by 2 1) (peer ∷ record peer { enabled = false } ∷ [])
    ≡ fine configured
unfolding full_device_config split trim_space
device_run = refl

full_device_config-enabled_example :
    (configured.replace_peers ≡ true)
    × (map
          (build_peer_config parsers)
          (select (λ q. q.enabled) (peer ∷ record peer { enabled = false } ∷ []))
        ≡ map fine_of configured.peers)
full_device_config-enabled_example =
    full_device_config-enabled parsers (owned_by 2 1) (peer ∷ record peer { enabled = false } ∷ [])
      configured device_run

shared-IsValid : Isolation.IsValid shared
shared-IsValid = record { keyed = (refl, tt); below = omega arith }

serve_keeps_forwards_example :
    (forwards_of 3 (serve host intrusion (shared, off)).0 ≡ forwards_of 3 shared)
    × Isolation.IsValid (serve host intrusion (shared, off)).0
serve_keeps_forwards_example =
    serve_keeps_forwards host 3 intrusion (shared, off)
      (
        (refl, omega arith),
        (
          (refl, omega arith),
          ((refl, omega arith), ((refl, omega arith), ((refl, omega arith), tt))),
        ),
      )
      shared-IsValid

peer_found : Peers.find_peer_unscoped {R = Peer} peer_env published "1" ≡ go peer
unfolding Peers.find_peer_unscoped atoi ◌>>=◌
peer_found = refl

peer_owned : assert_peer_owned {R = Peer} false olga published peer ≡ go tt
unfolding assert_peer_owned
peer_owned = refl

purge_peer-gone_example :
    (any (λ p. p.id == peer.id) (Peers.purge_peer kernel peer_env "1" (published, off)).1.0.peers
      ≡ false)
    × (any (is_to peer.id) (Peers.purge_peer kernel peer_env "1" (published, off)).1.0.forwards
        ≡ false)
purge_peer-gone_example =
    purge_peer-gone kernel peer_env "1" published off peer peer_found peer_owned refl refl
      (λ id. refl)
