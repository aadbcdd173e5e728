-- ===== src/Wg/Interfaces/Tests.antt =====
-- The requests on interfaces at concrete tables.
use vpn_manager.Common.{true, false, ◌≡◌, refl, List, [], ◌∷◌, some, any, arith}
use vpn_manager.Text.{atoi}
use vpn_manager.Http.Attempt.{go, ◌>>=◌}
use vpn_manager.Rbac.Resolve.{parse_id}
use vpn_manager.Wg.Model.{Interface, Tables}
use vpn_manager.Wg.Ownership.{is_owner, owns_resource}
use vpn_manager.Wg.Simulated.{off}
use vpn_manager.Wg.Samples.{owned_by, peer, forward, tables, olga, kernel}
use vpn_manager.Wg.Interfaces.{Env, CreateInterfaceRequest, find_unscoped, is_row, is_on}
use vpn_manager.Wg.Interfaces.Requests.{purge_interface, restore_interface}
use vpn_manager.Wg.Interfaces.Writes.{IsValid, view_of}
use vpn_manager.Wg.Interfaces.Trace.{
  Op, create, trash, restore, purge, sync, serve, serve_keeps_view,
}
use vpn_manager.Wg.Interfaces.Purged.{
  is_forward_on, purge_interface-gone, IsLive, restore_interface-IsLive,
}

abbrev env : Env
env = record {
  caller = olga;
  default_endpoint = "vpn.example.com";
  check_create = λ _. [];
  check_update = λ _. [];
  generate_key = some "key";
  public_key_from_private = λ k. some k;
  find_fails = false;
  forwards_fail = false;
  peers_fail = false;
  write_fails = false;
  egress_fails = false;
  rows_fail = λ _. false;
}

abbrev wg2 : CreateInterfaceRequest
wg2 = record {
  name = "wg2";
  private_key = "";
  listen_port = 51822;
  address = "10.9.0.1/24";
  endpoint = "vpn.example.com";
  dns = "";
  mtu = 0;
  enabled = some false;
  masquerade = some true;
  egress = "";
}

abbrev two : Tables
two = record tables {
  interfaces = owned_by 2 1 ∷ record (owned_by 3 2) { name = "wg1" } ∷ [];
  forwards = forward 1 ∷ [];
}

abbrev trashed : Tables
trashed = record two {
  interfaces = record (owned_by 2 1) { trashed = true } ∷ [];
  peers = record peer { trashed = true } ∷ [];
}

abbrev ops : List Op
ops =
    create env (some wg2)
    ∷ trash env "2"
    ∷ trash env "1"
    ∷ restore env "1"
    ∷ purge env "2"
    ∷ sync env "1"
    ∷ []

two-IsValid : IsValid two
two-IsValid = record {
  keyed = (refl, (refl, tt));
  below = (omega arith, (omega arith, tt));
  distinct = (refl, (refl, tt));
  forwards_keyed = (refl, tt);
}

serve_keeps_view_example :
    view_of (λ w. is_owner w 3) (serve kernel ops (two, off)).0 ≡ view_of (λ w. is_owner w 3) two
serve_keeps_view_example =
    serve_keeps_view kernel 3 ops (two, off)
      (
        (refl, omega arith),
        (
          (refl, omega arith),
          (
            (refl, omega arith),
            ((refl, omega arith), ((refl, omega arith), ((refl, omega arith), tt))),
          ),
        ),
      )
      two-IsValid

found : find_unscoped {R = Interface} env two "1" ≡ go (owned_by 2 1)
unfolding find_unscoped owns_resource parse_id atoi ◌>>=◌
found = refl

found_trashed :
    find_unscoped {R = Interface} env trashed "1" ≡ go (record (owned_by 2 1) { trashed = true })
unfolding find_unscoped owns_resource parse_id atoi ◌>>=◌
found_trashed = refl

purge_interface-gone_example :
    (any (is_row 1) (purge_interface kernel env "1" (two, off)).1.0.interfaces ≡ false)
    × (any (is_on 1) (purge_interface kernel env "1" (two, off)).1.0.peers ≡ false)
    × (any (is_forward_on 1) (purge_interface kernel env "1" (two, off)).1.0.forwards ≡ false)
purge_interface-gone_example =
    purge_interface-gone kernel env "1" two off (owned_by 2 1) found refl refl refl (λ id. refl)

restore_interface-IsLive_example : IsLive 1 (restore_interface kernel env "1" (trashed, off)).1.0
restore_interface-IsLive_example =
    restore_interface-IsLive kernel env "1" trashed off (record (owned_by 2 1) { trashed = true })
      found_trashed refl refl refl
