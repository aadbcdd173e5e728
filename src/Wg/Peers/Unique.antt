-- ===== src/Wg/Peers/Unique.antt =====
-- The unique indexes of peers under the requests on peers.
use vpn_manager.Common.{
  any-part, ℕ, suc, ◌≤◌, Bool, false, not, ◌&&◌, ◌||◌, ◌≡◌, refl, sym, subst, some, List, [], ◌∷◌,
  All, first, by_key, IsKeyed, IsDistinct, IsDistinct-map, IsDistinct-select, IsDistinct-insert,
  =ₛ-comm, revise, revise-found, arith, Bool-cases, inl, inr, if◌then◌else◌, ◌==◌, ◌=ₛ◌,
}
use vpn_manager.Rbac.Store.Valid.{
  IsKeyed-map, IsKeyed-select, IsKeyed-append, All-map, All-select, All-append, All-weaken,
}
use vpn_manager.Text.{◌⧺◌}
use vpn_manager.Wg.Model.{Peer, Tables}
use vpn_manager.Wg.Peers.{drop_peer}
use vpn_manager.Wg.Peers.Creation.{peer_taken, insert_peer}

abbrev pub peer_key : Peer → ℕ
peer_key p = p.id

abbrev pub same_key : Peer → Peer → Bool
same_key x y = x.public_key =ₛ y.public_key

abbrev pub same_place : Peer → Peer → Bool
same_place x y = x.interface_id == y.interface_id && x.assigned_ip =ₛ y.assigned_ip

-- the network of a peer is its address alone
abbrev pub IsHostNet : Peer → Type 0
IsHostNet p = p.allowed_ips ≡ p.assigned_ip ⧺ "/32"

-- Ids are unique and within their sequence, public keys are unique, so are the addresses on one interface,
-- and every network is that of one address.
pub record IsValid (t : Tables) : Type 0 where
  pub keyed : IsKeyed peer_key t.peers
  pub below : All (λ p. p.id ≤ t.peer_seq) t.peers
  pub keys : IsDistinct same_key t.peers
  pub places : IsDistinct same_place t.peers
  pub nets : All IsHostNet t.peers

abbrev taken_by : Peer → Peer → Bool
taken_by new p =
    p.public_key =ₛ new.public_key
    || p.interface_id == new.interface_id
      && (p.assigned_ip =ₛ new.assigned_ip || p.allowed_ips =ₛ new.allowed_ips)

pub IsValid-insert :
    (new : Peer) (t : Tables)
    → new.id ≡ suc t.peer_seq
    → IsHostNet new
    → peer_taken new t ≡ false
    → IsValid t
    → IsValid (insert_peer new t)
IsValid-insert new t e net free v = record {
  keyed = IsKeyed-append peer_key t.peers new t.peer_seq v.keyed v.below e;
  below =
      All-append (λ p. p.id ≤ suc t.peer_seq) t.peers (new ∷ [])
        (All-weaken (λ p. p.id ≤ t.peer_seq) (λ p. p.id ≤ suc t.peer_seq) t.peers
          (λ p h. omega (arith, h)) v.below)
        (omega (arith, e), tt);
  keys =
      IsDistinct-insert same_key t.peers new (λ x y. =ₛ-comm x.public_key y.public_key)
        (any-part (taken_by new) (λ p. same_key p new) t.peers (λ p h. ground (arith, h)) free)
        v.keys;
  places =
      IsDistinct-insert same_place t.peers new
        (λ x y. ground (arith, =ₛ-comm x.assigned_ip y.assigned_ip))
        (any-part (taken_by new) (λ p. same_place p new) t.peers (λ p h. ground (arith, h)) free)
        v.places;
  nets = All-append IsHostNet t.peers (new ∷ []) v.nets (net, tt);
}

module _ (t : Tables) where
  -- a write of a found row that keeps what the indexes are about
  pub IsValid-put :
      (f : Peer → Peer) (old : Peer)
      → ((p : Peer)
          → ((f p).id ≡ p.id)
            × ((f p).public_key ≡ p.public_key)
            × ((f p).interface_id ≡ p.interface_id)
            × ((f p).assigned_ip ≡ p.assigned_ip)
            × ((f p).allowed_ips ≡ p.allowed_ips))
      → first (by_key peer_key old.id) t.peers ≡ some old
      → IsValid t
      → IsValid (record t { peers = revise (by_key peer_key old.id) (λ _. f old) t.peers })
  IsValid-put f old keeps found v =
      subst (λ (ps : List Peer). IsValid (record t { peers = ps }))
        (sym (revise-found peer_key f old.id t.peers v.keyed found))
        (record {
          keyed = IsKeyed-map peer_key g t.peers (λ p. (kept p).0) v.keyed;
          below =
              All-map (λ p. p.id ≤ t.peer_seq) g t.peers (λ p h. omega (arith, h, (kept p).0))
                v.below;
          keys = IsDistinct-map same_key g t.peers (λ x y. rw ((kept x).1, (kept y).1) refl) v.keys;
          places =
              IsDistinct-map same_place g t.peers
                (λ x y. rw ((kept x).2, (kept y).2, (kept x).3, (kept y).3) refl) v.places;
          nets = All-map IsHostNet g t.peers (λ p h. rw ((kept p).3, (kept p).4) h) v.nets;
        })
    where
      g : Peer → Peer
      g p = if by_key peer_key old.id p then f p else p

      kept :
          (p : Peer)
          → ((g p).id ≡ p.id)
            × ((g p).public_key ≡ p.public_key)
            × ((g p).interface_id ≡ p.interface_id)
            × ((g p).assigned_ip ≡ p.assigned_ip)
            × ((g p).allowed_ips ≡ p.allowed_ips)
      kept p = elim (Bool-cases (by_key peer_key old.id p)) [
        | inl e ↦ rw (e, if◌then◌else◌) (keeps p)
        | inr e ↦ rw (e, if◌then◌else◌) (refl, refl, refl, refl, refl)
      ]

  pub IsValid-drop : (id : ℕ) → IsValid t → IsValid (drop_peer id t)
  IsValid-drop id v = record {
    keyed = IsKeyed-select peer_key (λ p. not (p.id == id)) t.peers v.keyed;
    below = All-select (λ p. p.id ≤ t.peer_seq) (λ p. not (p.id == id)) t.peers v.below;
    keys = IsDistinct-select same_key (λ p. not (p.id == id)) t.peers v.keys;
    places = IsDistinct-select same_place (λ p. not (p.id == id)) t.peers v.places;
    nets = All-select IsHostNet (λ p. not (p.id == id)) t.peers v.nets;
  }
