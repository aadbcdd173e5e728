-- ===== src/Rbac/Resolve/Dedupe.antt =====
-- `dedupeIDs` against its description: each id once, none of them 0.
use vpn_manager.Common.{
  ℕ, true, not, ◌&&◌, ◌||◌, ◌≡◌, refl, List, [], ◌∷◌, IsKeyed, arith, Bool-cases, inl, inr, ◌==◌,
  ==_iff, if◌then◌else◌,
}
use vpn_manager.Rbac.Store.{is_in}
use vpn_manager.Rbac.Resolve.{dedupe_from, dedupe_ids}

is_in-same : (seen : List ℕ) (i k : ℕ) → (i == k) ≡ true → is_in seen i ≡ is_in seen k
is_in-same seen i k e = let same : i ≡ k = (==_iff i k).0 e in rw same refl

is_in-dedupe_from :
    (seen ids : List ℕ) (k : ℕ)
    → is_in (dedupe_from seen ids) k ≡ (not (k == 0) && (not (is_in seen k) && is_in ids k))
unfolding dedupe_from
is_in-dedupe_from seen [] k = ground arith
is_in-dedupe_from seen (id ∷ ids) k = elim (Bool-cases (id == 0 || is_in seen id)) [
  | inl skip ↦
      rw (skip, if◌then◌else◌)
        (ground (arith, skip, is_in-dedupe_from seen ids k, is_in-same seen id k))
  | inr new ↦
      rw (new, if◌then◌else◌)
        (ground (arith, new, is_in-dedupe_from (id ∷ seen) ids k, is_in-same seen id k))
]

IsKeyed-dedupe_from : (seen ids : List ℕ) → IsKeyed (λ (i : ℕ). i) (dedupe_from seen ids)
unfolding dedupe_from
IsKeyed-dedupe_from seen [] = tt
IsKeyed-dedupe_from seen (id ∷ ids) = elim (Bool-cases (id == 0 || is_in seen id)) [
  | inl skip ↦ rw (skip, if◌then◌else◌) (IsKeyed-dedupe_from seen ids)
  | inr new ↦
      rw (new, if◌then◌else◌)
        (ground (arith, is_in-dedupe_from (id ∷ seen) ids id), IsKeyed-dedupe_from (id ∷ seen) ids)
]

-- Among the ids that are left are those that were given, but 0, and each of them stands there once.
pub dedupe_ids-exact :
    (ids : List ℕ)
    → ((k : ℕ) → is_in (dedupe_ids ids) k ≡ (not (k == 0) && is_in ids k))
      × IsKeyed (λ (i : ℕ). i) (dedupe_ids ids)
unfolding dedupe_ids
dedupe_ids-exact ids =
    ((λ k. ground (arith, is_in-dedupe_from [] ids k)), IsKeyed-dedupe_from [] ids)
