-- ===== src/Text/Trim.antt =====
-- Texts that trimming leaves as they are.
use Prim.Native.Char.{Char}
use Prim.Native.String.{[], ◌∷◌}
use vpn_manager.Common.{
  String, Bool, true, false, not, ◌&&◌, ◌≡◌, refl, ap, ◌∙◌, arith, Bool-cases, inl, inr, ◌=ₛ◌,
  =ₛ_iff,
}
use vpn_manager.Text.{◌⧺◌, is_space, trim_left, trim_right, trim_func, trim_space}

-- no character of the text is cut off
abbrev pub keeps_all : (Char → Bool) → String → Bool
keeps_all cut [] = true
keeps_all cut (c ∷ s) = not (cut c) && keeps_all cut s

abbrev pub no_space : String → Bool
no_space s = keeps_all is_space s

module _ (cut : Char → Bool) where
  pub trim_left_plain : (s : String) → keeps_all cut s ≡ true → trim_left cut s ≡ s
  unfolding trim_left
  trim_left_plain [] h = refl
  trim_left_plain (c ∷ s) h = ground (arith, h)

  pub trim_right_plain : (s : String) → keeps_all cut s ≡ true → trim_right cut s ≡ s
  unfolding trim_right
  trim_right_plain [] h = refl
  trim_right_plain (c ∷ s) h = ground (arith, h, trim_right_plain s (ground (arith, h)))

  nonempty-append : (p s : String) → (s =ₛ "") ≡ false → ((p ⧺ s) =ₛ "") ≡ false
  nonempty-append [] s h = h
  nonempty-append (c ∷ p) s h = elim (Bool-cases ((c ∷ (p ⧺ s)) =ₛ "")) [
    | inr e ↦ e
    | inl e ↦ let same = (=ₛ_iff (c ∷ (p ⧺ s)) "").0 e in cc
  ]

  trim_right-append :
      (p s : String) → (s =ₛ "") ≡ false → keeps_all cut s ≡ true → trim_right cut (p ⧺ s) ≡ p ⧺ s
  unfolding trim_right
  trim_right-append [] s h k = trim_right_plain s k
  trim_right-append (c ∷ p) s h k =
      let rest = trim_right-append p s h k in
      let some_left = nonempty-append p s h in rw (rest, some_left) (ground arith)

-- What is read after `Bearer ` is the token, if it has no space.
pub bearer_token :
    (token : String)
    → (token =ₛ "") ≡ false
    → no_space token ≡ true
    → (trim_space ("Bearer " ⧺ token) ≡ "Bearer " ⧺ token) × (trim_space token ≡ token)
unfolding trim_space trim_func trim_left
bearer_token token h k = (
  trim_right-append is_space "Bearer " token h k,
  ap (trim_right is_space) (trim_left_plain is_space token k) ∙ trim_right_plain is_space token k,
)
