-- ===== src/Common/Rows.antt =====
-- Rows that a write does not select are as they were after it, and what a write leaves distinct.
use vpn_manager.Common.Tests.{if◌then◌else◌, Bool-cases, ◌==◌}
use vpn_manager.Common.Lists.{
  any, select, first, All, any_congr, any-map, any-select, any-first, any_absent, by_key, IsKeyed,
  any-Memᴰ,
}
use mathlib.Core.Path.{◌≡◌, refl, ◌∙◌}
use mathlib.Core.Logic.{inl, inr}
use mathlib.Core.Bool.{Bool, true, false, not, ◌&&◌}
use mathlib.Core.List.{List, [], ◌∷◌, ◌++◌, map, Memᴰ}
use mathlib.Core.Option.{Option, none, some}
use Prim.Native.Nat.{ℕ}
use native.Mathlib.Omega.{arith}

module _ {ℓ} {A : Type ℓ} where
  -- an `UPDATE ... WHERE` of rows
  abbrev pub revise : (A → Bool) → (A → A) → List A → List A
  revise p f xs = map (λ x. if p x then f x else x) xs

  pub select-revise :
      (q p : A → Bool) (f : A → A) (xs : List A)
      → any (λ x. p x && q x) xs ≡ false
      → ((x : A) → q (f x) ≡ q x)
      → select q (revise p f xs) ≡ select q xs
  select-revise q p f [] h same = refl
  select-revise q p f (x ∷ xs) h same = elim (Bool-cases (p x)) [
    | inl e ↦ rw (e, if◌then◌else◌) (ground (arith, e, same x, select-revise q p f xs))
    | inr e ↦ rw (e, if◌then◌else◌) (ground (arith, e, select-revise q p f xs))
  ]

  pub select-remove :
      (q p : A → Bool) (xs : List A)
      → any (λ x. p x && q x) xs ≡ false
      → select q (select (λ x. not (p x)) xs) ≡ select q xs
  select-remove q p [] h = refl
  select-remove q p (x ∷ xs) h = ground (arith, select-remove q p xs)

  pub select-insert :
      (q : A → Bool) (xs : List A) (y : A) → q y ≡ false → select q (xs ++ y ∷ []) ≡ select q xs
  select-insert q [] y h = ground (arith, h)
  select-insert q (x ∷ xs) y h = ground (arith, select-insert q xs y h)

  pub any-revise :
      (q p : A → Bool) (f : A → A) (xs : List A)
      → ((x : A) → q (f x) ≡ q x)
      → any q (revise p f xs) ≡ any q xs
  any-revise q p f xs same =
      any-map q (λ x. if p x then f x else x) xs
      ∙ any_congr (λ x. q (if p x then f x else x)) q xs (λ x. ground (arith, same x))

  pub select_congr :
      (p q : A → Bool) (xs : List A) → ((x : A) → p x ≡ q x) → select p xs ≡ select q xs
  select_congr p q [] same = refl
  select_congr p q (x ∷ xs) same = ground (arith, same x, select_congr p q xs same)

  pub select-select :
      (p q : A → Bool) (xs : List A) → select p (select q xs) ≡ select (λ x. q x && p x) xs
  select-select p q [] = refl
  select-select p q (x ∷ xs) = ground (arith, select-select p q xs)

  pub select_all : (p : A → Bool) (xs : List A) → ((x : A) → p x ≡ true) → select p xs ≡ xs
  select_all p [] h = refl
  select_all p (x ∷ xs) h = ground (arith, h x, select_all p xs h)

  -- What holds of no row holds of none where it says less.
  pub any-part :
      (p q : A → Bool) (xs : List A)
      → ((x : A) → p x ≡ false → q x ≡ false)
      → any p xs ≡ false
      → any q xs ≡ false
  any-part p q [] f h = refl
  any-part p q (x ∷ xs) f h =
      ground (arith, f x (ground (arith, h)), any-part p q xs f (ground (arith, h)))

  pub any-removed : (p : A → Bool) (xs : List A) → any p (select (λ x. not (p x)) xs) ≡ false
  any-removed p [] = refl
  any-removed p (x ∷ xs) = ground (arith, any-removed p xs)

  pub All-revise :
      (P : A → Type 0) (p : A → Bool) (f : A → A) (xs : List A)
      → ((x : A) → p x ≡ true → P (f x))
      → ((x : A) → p x ≡ false → P x)
      → All P (revise p f xs)
  All-revise P p f [] h k = tt
  All-revise P p f (x ∷ xs) h k = elim (Bool-cases (p x)) [
    | inl e ↦ rw (e, if◌then◌else◌) (h x e, All-revise P p f xs h k)
    | inr e ↦ rw (e, if◌then◌else◌) (k x e, All-revise P p f xs h k)
  ]

-- rows with a primary key
module _ {ℓ} {A : Type ℓ} (key : A → ℕ) where
  first-by_key-none :
      (live : A → Bool) (k : ℕ) (xs : List A)
      → any (by_key key k) xs ≡ false
      → first (λ x. by_key key k x && live x) xs ≡ none
  first-by_key-none live k [] h = refl
  first-by_key-none live k (x ∷ xs) h = ground (arith, first-by_key-none live k xs)

  -- A row found among the live ones is the row with its key.
  pub first-live :
      (live : A → Bool) (k : ℕ) (xs : List A) {x : A}
      → IsKeyed key xs
      → first (λ y. by_key key k y && live y) xs ≡ some x
      → first (by_key key k) xs ≡ some x
  first-live live k [] u h = h
  first-live live k (y ∷ ys) {x} (fresh, u) h = elim (Bool-cases (key y == k)) [
    | inr e ↦ ground (arith, e, first-live live k ys {x = x} u)
    | inl e ↦
        let same : key y ≡ k = ground arith in
        let none_left = first-by_key-none live k ys (rw (← same) fresh) in
        elim (Bool-cases (live y)) [
          | inl l ↦ ground (arith, e, l)
          | inr l ↦ ground (arith, e, l, none_left)
        ]
  ]

  revise_absent :
      (f g : A → A) (k : ℕ) (xs : List A)
      → any (by_key key k) xs ≡ false
      → revise (by_key key k) f xs ≡ revise (by_key key k) g xs
  revise_absent f g k [] h = refl
  revise_absent f g k (x ∷ xs) h = ground (arith, revise_absent f g k xs)

  -- Saving a changed row changes the row.
  pub revise-found :
      (f : A → A) (k : ℕ) (xs : List A) {x : A}
      → IsKeyed key xs
      → first (by_key key k) xs ≡ some x
      → revise (by_key key k) (λ _. f x) xs ≡ revise (by_key key k) f xs
  revise-found f k [] u h = refl
  revise-found f k (y ∷ ys) {x} (fresh, u) h = elim (Bool-cases (key y == k)) [
    | inr e ↦ ground (arith, e, revise-found f k ys {x = x} u)
    | inl e ↦
        let same : key y ≡ k = ground arith in
        let found : ◌≡◌ {A = Option A} (some y) (some x) = rw (e, if◌then◌else◌) at h in
        let eq : y ≡ x = cc in
        let rest = revise_absent (λ _. f x) f k ys (rw (← same) fresh) in
        rw (e, if◌then◌else◌, rest, eq) refl
  ]

  first-Memᴰ :
      (xs : List A) {x : A} → IsKeyed key xs → Memᴰ x xs → first (by_key key (key x)) xs ≡ some x
  first-Memᴰ [] u m = elim m [ ]
  first-Memᴰ (y ∷ ys) {x} (fresh, u) (Memᴰ.head e) = rw e (ground arith)
  first-Memᴰ (y ∷ ys) {x} (fresh, u) (Memᴰ.tail m) = elim (Bool-cases (key y == key x)) [
    | inr e ↦ rw (e, if◌then◌else◌) (first-Memᴰ ys u m)
    | inl e ↦
        let same : key y ≡ key x = ground arith in
        let gone : any (by_key key (key x)) ys ≡ false = rw (← same) fresh in
        let here = any-Memᴰ (by_key key (key x)) ys m (ground arith) in ground (arith, gone, here)
  ]

  -- Where keys are unique, the rows with a key of a selected row are the selected rows.
  pub any-keys_of_selected :
      (s q : A → Bool) (xs : List A)
      → IsKeyed key xs
      → any (λ x. s x && q x) xs ≡ false
      → any (λ x. any (by_key key (key x)) (select s xs) && q x) xs ≡ false
  any-keys_of_selected s q xs u h = any_absent _ xs λ x m.
      let found = any-first key s (key x) xs u (first-Memᴰ xs u m) in
      let itself : any (by_key key (key x)) (select s xs) ≡ s x =
        any-select (by_key key (key x)) s xs
        ∙ any_congr (λ y. s y && by_key key (key x) y) (λ y. by_key key (key x) y && s y) xs
            (λ y. ground arith)
        ∙ found in
      elim (Bool-cases (s x && q x)) [
        | inl e ↦ let yes = any-Memᴰ (λ y. s y && q y) xs m e in ground (arith, yes, h)
        | inr e ↦ rw itself e
      ]

  -- Removing the rows with a key of a selected row leaves no selected row.
  pub selected_gone :
      (s : A → Bool) (xs : List A)
      → any s (select (λ x. not (any (by_key key (key x)) (select s xs))) xs) ≡ false
  selected_gone s xs =
      any-select s (λ x. not (any (by_key key (key x)) (select s xs))) xs
      ∙ any_absent _ xs λ x m. elim (Bool-cases (s x)) [
        | inr e ↦ ground (arith, e)
        | inl e ↦
            let itself = any-Memᴰ (λ y. s y && by_key key (key x) y) xs m (ground (arith, e)) in
            ground (arith, any-select (by_key key (key x)) s xs, itself)
      ]

  -- A row found by any test is the row with its key.
  pub first-keyed :
      (p : A → Bool) (xs : List A) {x : A}
      → IsKeyed key xs
      → first p xs ≡ some x
      → first (by_key key (key x)) xs ≡ some x
  first-keyed p xs {x} u h = first-Memᴰ xs u (member xs h)
    where
      member : (ys : List A) → first p ys ≡ some x → Memᴰ x ys
      member [] e = cc
      member (y ∷ ys) e = elim (Bool-cases (p y)) [
        | inl c ↦
            let found : ◌≡◌ {A = Option A} (some y) (some x) = rw (c, if◌then◌else◌) at e in
            let same : x ≡ y = cc in Memᴰ.head same
        | inr c ↦ Memᴰ.tail (member ys (rw (c, if◌then◌else◌) at e))
      ]
