-- ===== src/Rbac/Store/Valid.antt =====
-- Writes that keep the primary keys unique.
use vpn_manager.Common.{
  ℕ, suc, ◌≤◌, ◌≡◌, refl, ◌∙◌, Bool, false, List, [], ◌∷◌, ◌++◌, map, arith, any, any-map,
  any-append, any_congr, select, All, IsKeyed, by_key, Bool-cases, inl, inr, if◌then◌else◌,
}

module _ {A : Type 0} (key : A → ℕ) where
  -- an update of rows that keeps their keys
  pub IsKeyed-map :
      (f : A → A) (xs : List A)
      → ((x : A) → key (f x) ≡ key x)
      → IsKeyed key xs
      → IsKeyed key (map f xs)
  IsKeyed-map f [] same h = tt
  IsKeyed-map f (x ∷ xs) same (fresh, h) = (
    any-map (by_key key (key (f x))) f xs
        ∙ any_congr (λ y. by_key key (key (f x)) (f y)) (by_key key (key x)) xs
            (λ y. ground (arith, same x, same y))
        ∙ fresh,
    IsKeyed-map f xs same h,
  )

  any-select-false : (p q : A → Bool) (xs : List A) → any p xs ≡ false → any p (select q xs) ≡ false
  any-select-false p q [] h = h
  any-select-false p q (x ∷ xs) h = ground (arith, any-select-false p q xs)

  pub IsKeyed-select : (q : A → Bool) (xs : List A) → IsKeyed key xs → IsKeyed key (select q xs)
  IsKeyed-select q [] h = tt
  IsKeyed-select q (x ∷ xs) (fresh, h) = elim (Bool-cases (q x)) [
    | inl in_it ↦
        rw (in_it, if◌then◌else◌)
          (any-select-false (by_key key (key x)) q xs fresh, IsKeyed-select q xs h)
    | inr out ↦ rw (out, if◌then◌else◌) (IsKeyed-select q xs h)
  ]

  pub IsKeyed-append :
      (xs : List A) (x : A) (top : ℕ)
      → IsKeyed key xs
      → All (λ y. key y ≤ top) xs
      → key x ≡ suc top
      → IsKeyed key (xs ++ x ∷ [])
  IsKeyed-append [] x top h below e = (refl, tt)
  IsKeyed-append (y ∷ ys) x top (fresh, h) (low, below) e = (
    any-append (by_key key (key y)) ys (x ∷ []) ∙ ground (arith, fresh),
    IsKeyed-append ys x top h below e,
  )

module _ {A : Type 0} (P : A → Type 0) where
  pub All-map : (f : A → A) (xs : List A) → ((x : A) → P x → P (f x)) → All P xs → All P (map f xs)
  All-map f [] k h = tt
  All-map f (x ∷ xs) k (p, h) = (k x p, All-map f xs k h)

  pub All-select : (q : A → Bool) (xs : List A) → All P xs → All P (select q xs)
  All-select q [] h = tt
  All-select q (x ∷ xs) (p, h) = elim (Bool-cases (q x)) [
    | inl in_it ↦ rw (in_it, if◌then◌else◌) (p, All-select q xs h)
    | inr out ↦ rw (out, if◌then◌else◌) (All-select q xs h)
  ]

  pub All-append : (xs ys : List A) → All P xs → All P ys → All P (xs ++ ys)
  All-append [] ys h k = k
  All-append (x ∷ xs) ys (p, h) k = (p, All-append xs ys h k)

pub All-weaken :
    {A : Type 0} (P Q : A → Type 0) (xs : List A) → ((x : A) → P x → Q x) → All P xs → All Q xs
All-weaken P Q [] k h = tt
All-weaken P Q (x ∷ xs) k (p, h) = (k x p, All-weaken P Q xs k h)
