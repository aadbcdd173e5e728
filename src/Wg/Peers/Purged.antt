-- ===== src/Wg/Peers/Purged.antt =====
-- A purged peer leaves nothing behind.
use vpn_manager.Common.{
  ap, selected_gone, ℕ, String, Bool, false, not, ◌≡◌, refl, ◌∙◌, List, [], ◌∷◌, select, any, arith,
  if◌then◌else◌, ◌==◌,
}
use vpn_manager.Http.Attempt.{go, ◌>>=◌, answer}
use vpn_manager.Wg.Forwards.{PortForward}
use vpn_manager.Wg.Model.{Peer, Tables, forward_key}
use vpn_manager.Wg.Interfaces.Foreign.{purge-all}
use vpn_manager.Wg.Ownership.{assert_peer_owned}
use vpn_manager.Wg.Sync.{Kernel}
use vpn_manager.Wg.Peers.{Env, find_peer_unscoped, purge_peer}

-- a port forward to the peer
abbrev pub is_to : ℕ → PortForward → Bool
is_to id f = f.peer_id == id

dropped_gone :
    (id : ℕ) (xs : List Peer) → any (λ p. p.id == id) (select (λ p. not (p.id == id)) xs) ≡ false
dropped_gone id [] = refl
dropped_gone id (x ∷ xs) = ground (arith, dropped_gone id xs)

-- Purging a peer that the caller may purge, when no query fails, leaves neither the peer nor a port
-- forward to it in the tables.
pub purge_peer-gone :
    {K : Type 0} (kernel : Kernel K) (env : Env) (param : String) (t : Tables) (k : K) (peer : Peer)
    → find_peer_unscoped {R = Peer} env t param ≡ go peer
    → assert_peer_owned {R = Peer} env.interface_fails env.caller t peer ≡ go tt
    → env.write_fails ≡ false
    → env.forwards_fail ≡ false
    → ((id : ℕ) → env.rows_fail id ≡ false)
    → (any (λ p. p.id == peer.id) (purge_peer kernel env param (t, k)).1.0.peers ≡ false)
      × (any (is_to peer.id) (purge_peer kernel env param (t, k)).1.0.forwards ≡ false)
unfolding purge_peer ◌>>=◌ answer
purge_peer-gone kernel env param t k peer found owned works reads deletes =
    rw (found, owned, works, reads, if◌then◌else◌)
      (
        dropped_gone peer.id _,
        ap (λ (s : Tables). any (is_to peer.id) s.forwards)
              (purge-all kernel.host env.rows_fail _ (select (is_to peer.id) t.forwards) t k
                deletes)
            ∙ selected_gone forward_key (is_to peer.id) t.forwards,
      )
