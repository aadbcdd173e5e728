-- ===== src/Wg/Peers/Conflicts.antt =====
-- The check before a peer is inserted, beside the unique indexes of its table.
use Prim.Native.String as Str
use vpn_manager.Common.{
  ℕ, suc, ◌+◌, String, not, ◌&&◌, ◌||◌, ◌≡◌, refl, sym, ap, ◌∙◌, List, [], ◌∷◌, All, any, arith,
  Bool-cases, inl, inr, if◌then◌else◌, ◌==◌, ◌=ₛ◌, =ₛ_iff,
}
use vpn_manager.Text.{◌⧺◌}
use vpn_manager.Wg.Model.{Peer, Tables}
use vpn_manager.Wg.Sync.{Kernel}
use vpn_manager.Wg.Peers.{ensure_peer_unique}
use vpn_manager.Wg.Peers.Creation.{peer_taken}
use vpn_manager.Wg.Peers.Unique.{IsValid, IsHostNet}
use vpn_manager.Wg.Peers.Trace.{Op, serve, serve_keeps_unique}

size : String → ℕ
size Str.[] = 0
size (Str.◌∷◌ c s) = suc (size s)

size-append : (s t : String) → size (s ⧺ t) ≡ size s + size t
unfolding size
size-append Str.[] t = omega arith
size-append (Str.◌∷◌ c s) t = ground (arith, size-append s t)

append_cancel : (a b s : String) → a ⧺ s ≡ b ⧺ s → a ≡ b
unfolding size
append_cancel Str.[] Str.[] s h = refl
append_cancel Str.[] (Str.◌∷◌ d b) s h =
    let same : size s ≡ suc (size (b ⧺ s)) = ap size h in
    let no : ⊥ = omega (arith, same, size-append b s) in elim no [ ]
append_cancel (Str.◌∷◌ c a) Str.[] s h =
    let same : suc (size (a ⧺ s)) ≡ size s = ap size h in
    let no : ⊥ = omega (arith, same, size-append a s) in elim no [ ]
append_cancel (Str.◌∷◌ c a) (Str.◌∷◌ d b) s h =
    let first_same : c ≡ d = cc in
    let rest : a ⧺ s ≡ b ⧺ s = cc in
    let same = append_cancel a b s rest in rw (first_same, same) refl

-- Two peers have the same network exactly when they have the same address.
same_net :
    (p q : Peer)
    → IsHostNet p
    → IsHostNet q
    → (p.allowed_ips =ₛ q.allowed_ips) ≡ (p.assigned_ip =ₛ q.assigned_ip)
same_net p q hp hq = elim (Bool-cases (p.assigned_ip =ₛ q.assigned_ip)) [
  | inl e ↦
      let same : p.assigned_ip ≡ q.assigned_ip = (=ₛ_iff p.assigned_ip q.assigned_ip).0 e in
      (=ₛ_iff p.allowed_ips q.allowed_ips).1 (hp ∙ ap (λ (a : String). a ⧺ "/32") same ∙ sym hq)
      ∙ sym e
  | inr e ↦ elim (Bool-cases (p.allowed_ips =ₛ q.allowed_ips)) [
    | inr d ↦ d ∙ sym e
    | inl d ↦
        let same : p.allowed_ips ≡ q.allowed_ips = (=ₛ_iff p.allowed_ips q.allowed_ips).0 d in
        let address = append_cancel p.assigned_ip q.assigned_ip "/32" (sym hp ∙ same ∙ hq) in
        let yes = (=ₛ_iff p.assigned_ip q.assigned_ip).1 address in cc
  ]
]

taken-parts :
    (new : Peer) (ps : List Peer)
    → IsHostNet new
    → All IsHostNet ps
    → any
        (λ p.
          p.public_key =ₛ new.public_key
          || p.interface_id == new.interface_id
            && (p.assigned_ip =ₛ new.assigned_ip || p.allowed_ips =ₛ new.allowed_ips))
        ps
      ≡ (any (λ p. p.public_key =ₛ new.public_key) ps
          || any (λ p. p.interface_id == new.interface_id && p.assigned_ip =ₛ new.assigned_ip) ps)
taken-parts new [] h hs = refl
taken-parts new (p ∷ ps) h (net, hs) = ground (arith, same_net p new net h, taken-parts new ps h hs)

ensure_peer_unique-agrees :
    (new : Peer) (t : Tables)
    → IsHostNet new
    → IsValid t
    → (ensure_peer_unique new t =ₛ "") ≡ not (peer_taken new t)
unfolding ensure_peer_unique
ensure_peer_unique-agrees new t h v =
    let parts = taken-parts new t.peers h v.nets in
    elim (Bool-cases (any (λ p. p.public_key =ₛ new.public_key) t.peers)) [
      | inl e ↦ rw (parts, ensure_peer_unique, e, if◌then◌else◌) refl
      | inr e ↦
          elim (Bool-cases (
            any (λ p. p.interface_id == new.interface_id && p.assigned_ip =ₛ new.assigned_ip)
              t.peers)) [
                | inl d ↦ rw (parts, ensure_peer_unique, e, d, if◌then◌else◌) refl
                | inr d ↦ rw (parts, ensure_peer_unique, e, d, if◌then◌else◌) refl
              ]
    ]

-- After any sequence of requests on peers, whatever fails in it, from tables in which ids, keys and
-- addresses are unique and every network is that of one address: the check before an insertion finds no
-- conflict of a peer whose network is that of its address exactly when no unique index would refuse it,
-- rows in the trash included.
pub serve-agrees :
    {K : Type 0} (kernel : Kernel K) (ops : List Op) (s : Tables × K) (new : Peer)
    → IsValid s.0
    → IsHostNet new
    → (ensure_peer_unique new (serve kernel ops s).0 =ₛ "")
      ≡ not (peer_taken new (serve kernel ops s).0)
serve-agrees kernel ops s new v h =
    ensure_peer_unique-agrees new (serve kernel ops s).0 h (serve_keeps_unique kernel ops s v)
