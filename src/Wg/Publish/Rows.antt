-- ===== src/Wg/Publish/Rows.antt =====
-- Rows that a write does not select are as they were after it.
use vpn_manager.Common.{
  ℕ, Bool, false, not, ◌≡◌, refl, ◌∙◌, ap, Option, some, List, [], ◌∷◌, ◌++◌, map, first, select,
  any, by_key, IsKeyed, arith, Bool-cases, inl, inr, if◌then◌else◌, ◌==◌,
}
use vpn_manager.Wg.Forwards.{PortForward}
use vpn_manager.Wg.Model.{forward_key}

some-injective : {A : Type 0} {a b : A} → some a ≡ some b → a ≡ b
some-injective h = cc

module _ (q : PortForward → Bool) where
  pub select-append :
      (xs : List PortForward) (y : PortForward)
      → q y ≡ false
      → select q (xs ++ y ∷ []) ≡ select q xs
  select-append [] y h = ground (arith, h)
  select-append (x ∷ xs) y h = ground (arith, select-append xs y h)

  abbrev pub put : PortForward → PortForward → PortForward
  put new f = if f.id == new.id then new else f

  select-put_absent :
      (new : PortForward) (xs : List PortForward)
      → any (by_key forward_key new.id) xs ≡ false
      → select q (map (put new) xs) ≡ select q xs
  select-put_absent new [] h = refl
  select-put_absent new (x ∷ xs) h = elim (Bool-cases (x.id == new.id)) [
    | inl e ↦ ground (arith, e)
    | inr e ↦ rw (e, if◌then◌else◌) (ground (arith, e, select-put_absent new xs))
  ]

  pub select-put :
      (old new : PortForward) (xs : List PortForward)
      → IsKeyed forward_key xs
      → first (by_key forward_key new.id) xs ≡ some old
      → q old ≡ false
      → q new ≡ false
      → select q (map (put new) xs) ≡ select q xs
  select-put old new [] u h a b = cc
  select-put old new (x ∷ xs) (fresh, u) h a b = elim (Bool-cases (x.id == new.id)) [
    | inl e ↦
        let found : ◌≡◌ {A = Option PortForward} (some x) (some old) = rw (e, if◌then◌else◌) at h in
        let out : q x ≡ false = ap q (some-injective found) ∙ a in
        let key : x.id ≡ new.id = ground arith in
        let rest = select-put_absent new xs (rw (← key) fresh) in
        rw (e, if◌then◌else◌) (ground (arith, out, b, rest))
    | inr e ↦
        let rest = select-put old new xs u (rw (e, if◌then◌else◌) at h) a b in
        rw (e, if◌then◌else◌) (ground (arith, rest))
  ]

  select-drop_absent :
      (k : ℕ) (xs : List PortForward)
      → any (by_key forward_key k) xs ≡ false
      → select q (select (λ f. not (f.id == k)) xs) ≡ select q xs
  select-drop_absent k [] h = refl
  select-drop_absent k (x ∷ xs) h = ground (arith, select-drop_absent k xs)

  pub select-drop :
      (old : PortForward) (k : ℕ) (xs : List PortForward)
      → IsKeyed forward_key xs
      → first (by_key forward_key k) xs ≡ some old
      → q old ≡ false
      → select q (select (λ f. not (f.id == k)) xs) ≡ select q xs
  select-drop old k [] u h a = cc
  select-drop old k (x ∷ xs) (fresh, u) h a = elim (Bool-cases (x.id == k)) [
    | inl e ↦
        let found : ◌≡◌ {A = Option PortForward} (some x) (some old) = rw (e, if◌then◌else◌) at h in
        let out : q x ≡ false = ap q (some-injective found) ∙ a in
        let key : x.id ≡ k = ground arith in
        let rest = select-drop_absent k xs (rw (← key) fresh) in ground (arith, e, out, rest)
    | inr e ↦ ground (arith, e, select-drop old k xs u (rw (e, if◌then◌else◌) at h) a)
  ]
