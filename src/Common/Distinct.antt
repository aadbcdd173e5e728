-- ===== src/Common/Distinct.antt =====
-- Rows of which no two are alike: unique indexes.
use vpn_manager.Common.Tests.{◌=ₛ◌, =ₛ_iff, if◌then◌else◌, Bool-cases}
use vpn_manager.Common.Lists.{any, any-map, any-append, any_congr, select}
use Prim.Native.String.{String}
use mathlib.Core.Path.{◌≡◌, refl, sym, ◌∙◌}
use mathlib.Core.Logic.{inl, inr}
use mathlib.Core.Bool.{Bool, false}
use mathlib.Core.List.{List, [], ◌∷◌, ◌++◌, map}
use native.Mathlib.Omega.{arith}

pub =ₛ-comm : (a b : String) → (a =ₛ b) ≡ (b =ₛ a)
=ₛ-comm a b = elim (Bool-cases (b =ₛ a)) [
  | inl e ↦ (=ₛ_iff a b).1 (sym ((=ₛ_iff b a).0 e)) ∙ sym e
  | inr e ↦ elim (Bool-cases (a =ₛ b)) [
    | inl f ↦ let back = (=ₛ_iff b a).1 (sym ((=ₛ_iff a b).0 f)) in ground (arith, back, e)
    | inr f ↦ f ∙ sym e
  ]
]

module _ {A : Type 0} (alike : A → A → Bool) where
  -- no row is like a later one
  abbrev pub IsDistinct : List A → Type 0
  IsDistinct [] = Unit
  IsDistinct (x ∷ xs) = (any (λ y. alike y x) xs ≡ false) × IsDistinct xs

  pub IsDistinct-map :
      (f : A → A) (xs : List A)
      → ((x y : A) → alike (f x) (f y) ≡ alike x y)
      → IsDistinct xs
      → IsDistinct (map f xs)
  IsDistinct-map f [] same h = tt
  IsDistinct-map f (x ∷ xs) same (fresh, h) = (
    any-map (λ y. alike y (f x)) f xs
        ∙ any_congr (λ y. alike (f y) (f x)) (λ y. alike y x) xs (λ y. same y x)
        ∙ fresh,
    IsDistinct-map f xs same h,
  )

  any-select_none : (p q : A → Bool) (xs : List A) → any p xs ≡ false → any p (select q xs) ≡ false
  any-select_none p q [] h = h
  any-select_none p q (x ∷ xs) h = ground (arith, any-select_none p q xs)

  pub IsDistinct-select : (q : A → Bool) (xs : List A) → IsDistinct xs → IsDistinct (select q xs)
  IsDistinct-select q [] h = tt
  IsDistinct-select q (x ∷ xs) (fresh, h) = elim (Bool-cases (q x)) [
    | inl e ↦
        rw (e, if◌then◌else◌)
          (any-select_none (λ y. alike y x) q xs fresh, IsDistinct-select q xs h)
    | inr e ↦ rw (e, if◌then◌else◌) (IsDistinct-select q xs h)
  ]

  pub IsDistinct-insert :
      (xs : List A) (new : A)
      → ((x y : A) → alike x y ≡ alike y x)
      → any (λ x. alike x new) xs ≡ false
      → IsDistinct xs
      → IsDistinct (xs ++ new ∷ [])
  IsDistinct-insert [] new swap free h = (refl, tt)
  IsDistinct-insert (x ∷ xs) new swap free (fresh, h) = (
    any-append (λ y. alike y x) xs (new ∷ []) ∙ ground (arith, fresh, swap new x, free),
    IsDistinct-insert xs new swap (ground (arith, free)) h,
  )
