-- ===== src/Wg/Interfaces/Lifecycle/Phases.antt =====
-- The phases of interfaces after each write.
use vpn_manager.Common.{
  ℕ, suc, ◌≤◌, ◌≡◌, ◌≢◌, refl, ap, Bool, false, not, List, [], ◌∷◌, ◌++◌, All, select, first,
  by_key, revise, arith, Option, some, Bool-cases, inl, inr, if◌then◌else◌, ◌==◌,
}
use vpn_manager.Wg.Model.{Interface, interface_key}
use vpn_manager.Wg.Interfaces.{is_row}
use vpn_manager.Wg.Interfaces.Lifecycle.{Phase, absent, active, in_trash, phase_in}

-- the phase that a row shows
abbrev pub shown : Interface → Phase
shown i = if i.trashed then in_trash else active

pub phase_in-revise :
    (id : ℕ) (f : Interface → Interface) (xs : List Interface) (k : ℕ)
    → ((i : Interface) → ((f i).id ≡ i.id) × ((f i).trashed ≡ i.trashed))
    → phase_in (revise (is_row id) f xs) k ≡ phase_in xs k
phase_in-revise id f [] k keeps = refl
phase_in-revise id f (x ∷ xs) k keeps = elim (Bool-cases (x.id == id)) [
  | inl e ↦ rw (e, if◌then◌else◌, (keeps x).0, (keeps x).1, phase_in-revise id f xs k keeps) refl
  | inr e ↦ rw (e, if◌then◌else◌, phase_in-revise id f xs k keeps) refl
]

pub phase_in-other :
    (id : ℕ) (f : Interface → Interface) (xs : List Interface) (k : ℕ)
    → ((i : Interface) → (f i).id ≡ i.id)
    → k ≢ id
    → phase_in (revise (is_row id) f xs) k ≡ phase_in xs k
phase_in-other id f [] k keeps d = refl
phase_in-other id f (x ∷ xs) k keeps d = elim (Bool-cases (x.id == id)) [
  | inl e ↦
      let miss : (x.id == k) ≡ false = ground (arith, e, d) in
      rw (e, if◌then◌else◌, keeps x, miss, phase_in-other id f xs k keeps d) refl
  | inr e ↦ rw (e, if◌then◌else◌, phase_in-other id f xs k keeps d) refl
]

-- the row with an id, before and after a change
pub phase_in-first :
    (id : ℕ) (xs : List Interface) {i : Interface}
    → first (by_key interface_key id) xs ≡ some i
    → phase_in xs id ≡ shown i
phase_in-first id [] h = cc
phase_in-first id (x ∷ xs) {i} h = elim (Bool-cases (x.id == id)) [
  | inl e ↦
      let found : ◌≡◌ {A = Option Interface} (some x) (some i) = rw (e, if◌then◌else◌) at h in
      let same : x ≡ i = cc in rw (e, if◌then◌else◌) (ap shown same)
  | inr e ↦ rw (e, if◌then◌else◌) (phase_in-first id xs (rw (e, if◌then◌else◌) at h))
]

pub phase_in-marked :
    (gone : Bool) (id : ℕ) (xs : List Interface) {i : Interface}
    → first (by_key interface_key id) xs ≡ some i
    → phase_in (revise (is_row id) (λ x. record x { trashed = gone }) xs) id
      ≡ (if gone then in_trash else active)
phase_in-marked gone id [] h = cc
phase_in-marked gone id (x ∷ xs) {i} h = elim (Bool-cases (x.id == id)) [
  | inl e ↦ rw (e, if◌then◌else◌) (rw e refl)
  | inr e ↦ rw (e, if◌then◌else◌) (rw e (phase_in-marked gone id xs (rw (e, if◌then◌else◌) at h)))
]

pub phase_in-dropped :
    (id : ℕ) (xs : List Interface) → phase_in (select (λ i. not (is_row id i)) xs) id ≡ absent
phase_in-dropped id [] = refl
phase_in-dropped id (x ∷ xs) = elim (Bool-cases (x.id == id)) [
  | inl e ↦ rw (e, if◌then◌else◌) (phase_in-dropped id xs)
  | inr e ↦ rw (e, if◌then◌else◌) (rw e (phase_in-dropped id xs))
]

pub phase_in-kept :
    (id : ℕ) (xs : List Interface) (k : ℕ)
    → k ≢ id
    → phase_in (select (λ i. not (is_row id i)) xs) k ≡ phase_in xs k
phase_in-kept id [] k d = refl
phase_in-kept id (x ∷ xs) k d = elim (Bool-cases (x.id == id)) [
  | inl e ↦
      let miss : (x.id == k) ≡ false = ground (arith, e, d) in
      rw (e, miss, if◌then◌else◌) (phase_in-kept id xs k d)
  | inr e ↦ rw (e, if◌then◌else◌, phase_in-kept id xs k d) refl
]

pub phase_in-fresh :
    (top : ℕ) (xs : List Interface) → All (λ i. i.id ≤ top) xs → phase_in xs (suc top) ≡ absent
phase_in-fresh top [] h = refl
phase_in-fresh top (x ∷ xs) (low, h) =
    let miss : (x.id == suc top) ≡ false = ground (arith, low) in
    rw (miss, if◌then◌else◌) (phase_in-fresh top xs h)

pub phase_in-appended :
    (xs : List Interface) (new : Interface) (k : ℕ)
    → k ≢ new.id
    → phase_in (xs ++ new ∷ []) k ≡ phase_in xs k
phase_in-appended [] new k d =
    let miss : (new.id == k) ≡ false = ground (arith, d) in rw (miss, if◌then◌else◌) refl
phase_in-appended (x ∷ xs) new k d = rw (phase_in-appended xs new k d) refl

pub phase_in-new :
    (xs : List Interface) (new : Interface)
    → phase_in xs new.id ≡ absent
    → new.trashed ≡ false
    → phase_in (xs ++ new ∷ []) new.id ≡ active
phase_in-new [] new h live = ground (arith, live)
phase_in-new (x ∷ xs) new h live = elim (Bool-cases (x.id == new.id)) [
  | inl e ↦
      let taken : shown x ≡ absent = rw (e, if◌then◌else◌) at h in
      elim (Bool-cases x.trashed) [
        | inl d ↦ let no : in_trash ≡ absent = rw (d, if◌then◌else◌) at taken in cc
        | inr d ↦ let no : active ≡ absent = rw (d, if◌then◌else◌) at taken in cc
      ]
  | inr e ↦ rw (e, if◌then◌else◌) (phase_in-new xs new (rw (e, if◌then◌else◌) at h) live)
]
