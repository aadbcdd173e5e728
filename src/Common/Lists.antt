-- ===== src/Common/Lists.antt =====
-- Lists under Boolean tests and native numbers: tables of rows are lists, and a query is a filter.
use vpn_manager.Common.Tests.{◌==◌, if◌then◌else◌, Bool-cases}
use Prim.Native.Nat.{ℕ, suc}
use mathlib.Core.Path.{◌≡◌, refl}
use mathlib.Core.Logic.{inl, inr}
use mathlib.Core.Bool.{Bool, true, false, not, ◌&&◌, ◌||◌}
use mathlib.Core.Option.{Option, none, some}
use mathlib.Core.List.{List, [], ◌∷◌, ◌++◌, map, Memᴰ}
use native.Mathlib.Omega.{arith}

module _ {ℓ} {A : Type ℓ} where
  abbrev pub length : List A → ℕ
  length [] = 0
  length (x ∷ xs) = suc (length xs)

  abbrev pub any : (A → Bool) → List A → Bool
  any p [] = false
  any p (x ∷ xs) = p x || any p xs

  -- rows that satisfy a `WHERE`
  abbrev pub select : (A → Bool) → List A → List A
  select p [] = []
  select p (x ∷ xs) = let rest = select p xs in if p x then x ∷ rest else rest

  -- `First`: the first row that satisfies the condition
  abbrev pub first : (A → Bool) → List A → Option A
  first p [] = none
  first p (x ∷ xs) = if p x then some x else first p xs

  abbrev pub All : (A → Type 0) → List A → Type 0
  All P [] = Unit
  All P (x ∷ xs) = P x × All P xs

  pub any_mono :
      (p q : A → Bool) (xs : List A)
      → ((x : A) → p x ≡ true → q x ≡ true)
      → any p xs ≡ true
      → any q xs ≡ true
  any_mono p q [] f h = h
  any_mono p q (x ∷ xs) f h = ground (arith, f x, any_mono p q xs f)

  pub any-Memᴰ : (p : A → Bool) (xs : List A) {x : A} → Memᴰ x xs → p x ≡ true → any p xs ≡ true
  any-Memᴰ p [] m h = elim m [ ]
  any-Memᴰ p (y ∷ ys) (Memᴰ.head e) h = let g : p y ≡ true = rw (← e) h in ground (arith, g)
  any-Memᴰ p (y ∷ ys) (Memᴰ.tail m) h = ground (arith, any-Memᴰ p ys m h)

  any_mono_mem :
      (p q : A → Bool) (xs : List A)
      → ((x : A) → Memᴰ x xs → p x ≡ true → q x ≡ true)
      → any p xs ≡ true
      → any q xs ≡ true
  any_mono_mem p q [] f h = h
  any_mono_mem p q (x ∷ xs) f h =
      ground (arith, f x (Memᴰ.head refl), any_mono_mem p q xs (λ y m. f y (Memᴰ.tail m)))

  pub any_absent :
      (q : A → Bool) (xs : List A) → ((x : A) → Memᴰ x xs → q x ≡ false) → any q xs ≡ false
  any_absent q [] f = refl
  any_absent q (x ∷ xs) f =
      ground (arith, f x (Memᴰ.head refl), any_absent q xs (λ y m. f y (Memᴰ.tail m)))

  -- A test that each row passes at itself may be added.
  pub any_self :
      (p : A → Bool) (r : A → A → Bool) (xs : List A)
      → ((x : A) → r x x ≡ true)
      → any p xs ≡ true
      → any (λ x. any (r x) xs && p x) xs ≡ true
  any_self p r xs own h =
      any_mono_mem p (λ x. any (r x) xs && p x) xs
        (λ x m e. ground (arith, any-Memᴰ (r x) xs m (own x))) h

  pub any_congr : (p q : A → Bool) (xs : List A) → ((x : A) → p x ≡ q x) → any p xs ≡ any q xs
  any_congr p q [] f = refl
  any_congr p q (x ∷ xs) f = ground (arith, f x, any_congr p q xs f)

  pub any_none : (p : A → Bool) (xs : List A) → ((x : A) → p x ≡ false) → any p xs ≡ false
  any_none p [] f = refl
  any_none p (x ∷ xs) f = ground (arith, f x, any_none p xs f)

  pub any-select : (p q : A → Bool) (xs : List A) → any p (select q xs) ≡ any (λ x. q x && p x) xs
  any-select p q [] = refl
  any-select p q (x ∷ xs) = ground (arith, any-select p q xs)

  pub any-append : (p : A → Bool) (xs ys : List A) → any p (xs ++ ys) ≡ (any p xs || any p ys)
  any-append p [] ys = refl
  any-append p (x ∷ xs) ys = ground (arith, any-append p xs ys)

  -- What holds of no row, and what holds of some row outside a part of the table.
  pub any_split :
      (p q : A → Bool) (xs : List A)
      → any p xs ≡ true
      → any (λ x. q x && p x) xs ≡ false
      → any (λ x. not (q x) && p x) xs ≡ true
  any_split p q [] h k = h
  any_split p q (x ∷ xs) h k = ground (arith, any_split p q xs)

  pub first-satisfies : (p : A → Bool) (xs : List A) {x : A} → first p xs ≡ some x → p x ≡ true
  first-satisfies p [] h = cc
  first-satisfies p (y ∷ ys) {x} h = elim (Bool-cases (p y)) [
    | inl e ↦ ground (arith, e)
    | inr e ↦ first-satisfies p ys (ground arith)
  ]

module _ {ℓ κ} {A : Type ℓ} {B : Type κ} where
  pub any-map : (p : B → Bool) (f : A → B) (xs : List A) → any p (map f xs) ≡ any (λ x. p (f x)) xs
  any-map p f [] = refl
  any-map p f (x ∷ xs) = ground (arith, any-map p f xs)

-- Tables with a primary key.
module _ {ℓ} {A : Type ℓ} (key : A → ℕ) where
  abbrev pub by_key : ℕ → A → Bool
  by_key k x = key x == k

  -- no two rows have the same key
  abbrev pub IsKeyed : List A → Type 0
  IsKeyed [] = Unit
  IsKeyed (x ∷ xs) = (any (by_key (key x)) xs ≡ false) × IsKeyed xs

  any-by_key_none :
      (p : A → Bool) (k : ℕ) (xs : List A)
      → any (by_key k) xs ≡ false
      → any (λ x. by_key k x && p x) xs ≡ false
  any-by_key_none p k [] h = refl
  any-by_key_none p k (x ∷ xs) h = ground (arith, any-by_key_none p k xs)

  -- A row that was found by its key speaks for every row with that key.
  pub any-first :
      (p : A → Bool) (k : ℕ) (xs : List A) {x : A}
      → IsKeyed xs
      → first (by_key k) xs ≡ some x
      → any (λ y. by_key k y && p y) xs ≡ p x
  any-first p k [] u h = cc
  any-first p k (y ∷ ys) {x} (fresh, u) h = elim (Bool-cases (key y == k)) [
    | inl e ↦
        let same : key y ≡ k = ground arith in
        let none_left : any (by_key k) ys ≡ false = rw (← same) fresh in
        ground (arith, any-by_key_none p k ys none_left)
    | inr e ↦ ground (arith, any-first p k ys {x = x} u)
  ]
