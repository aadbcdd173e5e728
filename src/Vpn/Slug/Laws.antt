-- ===== src/Vpn/Slug/Laws.antt =====
-- Sanitised names are slugs, and slugs stay as they are.
use Prim.Native.Char.{Char, code}
use Prim.Native.String.{[], ◌∷◌}
use vpn_manager.Common.{
  String, Bool, true, false, not, ◌&&◌, ◌≡◌, refl, ap, ◌∙◌, arith, Bool-cases, inl, inr,
  if◌then◌else◌, ◌==◌, ◌=ₛ◌, =ₛ_iff,
}
use vpn_manager.Text.{
  trim_left, trim_right, trim_func, trim_space, to_lower, lower_char, is_upper, is_space,
}
use vpn_manager.Text.Splitting.{avoids}
use vpn_manager.Text.Trim.{keeps_all, trim_left_plain, trim_right_plain}
use vpn_manager.Vpn.Slug.{is_slug_char, dashes, collapse, is_dash, sanitize_instance_name}

abbrev pub starts : (Char → Bool) → String → Bool
starts cut [] = false
starts cut (c ∷ s) = cut c

abbrev pub ends : (Char → Bool) → String → Bool
ends cut [] = false
ends cut (c ∷ s) = if s =ₛ "" then cut c else ends cut s

-- Only a-z, 0-9 and inner dashes.
pub record IsSlug (s : String) : Type 0 where
  pub chars : keeps_all (λ c. not (is_slug_char c)) s ≡ true
  pub start : starts is_dash s ≡ false
  pub end : ends is_dash s ≡ false

cons-nonempty : (c : Char) (s : String) → ((c ∷ s) =ₛ "") ≡ false
cons-nonempty c s = elim (Bool-cases ((c ∷ s) =ₛ "")) [
  | inr e ↦ e
  | inl e ↦ let same = (=ₛ_iff (c ∷ s) "").0 e in cc
]

module _ (cut : Char → Bool) where
  trim_left-starts : (s : String) → starts cut (trim_left cut s) ≡ false
  unfolding trim_left
  trim_left-starts [] = refl
  trim_left-starts (c ∷ s) = ground (arith, trim_left-starts s)

  trim_right-starts : (s : String) → starts cut s ≡ false → starts cut (trim_right cut s) ≡ false
  unfolding trim_right
  trim_right-starts [] h = refl
  trim_right-starts (c ∷ s) h = ground (arith, h)

  trim_right-ends : (s : String) → ends cut (trim_right cut s) ≡ false
  unfolding trim_right
  trim_right-ends [] = refl
  trim_right-ends (c ∷ s) = elim (Bool-cases (cut c && trim_right cut s =ₛ "")) [
    | inl e ↦ rw (e, if◌then◌else◌) refl
    | inr e ↦ rw (e, if◌then◌else◌) (ground (arith, e, trim_right-ends s))
  ]

  trim_left-kept :
      (p : Char → Bool) (s : String) → keeps_all p s ≡ true → keeps_all p (trim_left cut s) ≡ true
  unfolding trim_left
  trim_left-kept p [] h = refl
  trim_left-kept p (c ∷ s) h = ground (arith, h, trim_left-kept p s)

  trim_right-kept :
      (p : Char → Bool) (s : String) → keeps_all p s ≡ true → keeps_all p (trim_right cut s) ≡ true
  unfolding trim_right
  trim_right-kept p [] h = refl
  trim_right-kept p (c ∷ s) h = elim (Bool-cases (cut c && trim_right cut s =ₛ "")) [
    | inl e ↦ rw (e, if◌then◌else◌) refl
    | inr e ↦ rw (e, if◌then◌else◌) (ground (arith, h, trim_right-kept p s))
  ]

  trim_left_id : (s : String) → starts cut s ≡ false → trim_left cut s ≡ s
  unfolding trim_left
  trim_left_id [] h = refl
  trim_left_id (c ∷ s) h = ground (arith, h)

  ends-tail : (c : Char) (s : String) → ends cut (c ∷ s) ≡ false → ends cut s ≡ false
  ends-tail c [] h = refl
  ends-tail c (d ∷ s) h = ground (arith, h, cons-nonempty d s)

  trim_right_id : (s : String) → ends cut s ≡ false → trim_right cut s ≡ s
  unfolding trim_right
  trim_right_id [] h = refl
  trim_right_id (c ∷ s) h =
      let rest = trim_right_id s (ends-tail c s h) in
      let stays : (cut c && s =ₛ "") ≡ false = ground (arith, h) in
      rw (rest, stays, if◌then◌else◌) refl

collapse-chars :
    (run : Bool) (s : String) → keeps_all (λ c. not (is_slug_char c)) (collapse run s) ≡ true
unfolding collapse
collapse-chars run [] = refl
collapse-chars run (c ∷ s) = ground (arith, collapse-chars false s, collapse-chars true s)

-- What holds of the characters of a slug.
slug_char-plain :
    (c : Char)
    → is_slug_char c ≡ true
    → (is_space c ≡ false)
      × (is_upper c ≡ false)
      × ((code c == b'_') ≡ false)
      × ((code c == 304) ≡ false)
      × ((code c == 8490) ≡ false)
slug_char-plain c h = ground (arith, h)

to_lower_id : (s : String) → keeps_all (λ c. not (is_slug_char c)) s ≡ true → to_lower s ≡ s
unfolding to_lower lower_char
to_lower_id [] h = refl
to_lower_id (c ∷ s) h =
    let plain = slug_char-plain c (ground (arith, h)) in
    rw (plain.1, plain.3, plain.4, if◌then◌else◌, to_lower_id s (ground (arith, h))) refl

dashes_id : (s : String) → keeps_all (λ c. not (is_slug_char c)) s ≡ true → dashes s ≡ s
unfolding dashes
dashes_id [] h = refl
dashes_id (c ∷ s) h =
    let plain = slug_char-plain c (ground (arith, h)) in
    rw (plain.2, if◌then◌else◌, dashes_id s (ground (arith, h))) refl

collapse_id : (s : String) → keeps_all (λ c. not (is_slug_char c)) s ≡ true → collapse false s ≡ s
unfolding collapse
collapse_id [] h = refl
collapse_id (c ∷ s) h =
    let ok : is_slug_char c ≡ true = ground (arith, h) in
    rw (ok, if◌then◌else◌, collapse_id s (ground (arith, h))) refl

unspaced :
    (s : String) → keeps_all (λ c. not (is_slug_char c)) s ≡ true → keeps_all is_space s ≡ true
unspaced [] h = refl
unspaced (c ∷ s) h =
    let plain = slug_char-plain c (ground (arith, h)) in
    ground (arith, plain.0, unspaced s (ground (arith, h)))

slug_id : (s : String) → IsSlug s → sanitize_instance_name s ≡ s
unfolding sanitize_instance_name trim_func trim_space
slug_id s slug =
    let plain = unspaced s slug.chars in
    let trimmed : trim_space s ≡ s =
      ap (trim_right is_space) (trim_left_plain is_space s plain)
      ∙ trim_right_plain is_space s plain in
    ap (λ (x : String). trim_func is_dash (collapse false (dashes (to_lower x)))) trimmed
    ∙ ap (λ (x : String). trim_func is_dash (collapse false (dashes x))) (to_lower_id s slug.chars)
    ∙ ap (λ (x : String). trim_func is_dash (collapse false x)) (dashes_id s slug.chars)
    ∙ ap (trim_func is_dash) (collapse_id s slug.chars)
    ∙ ap (trim_right is_dash) (trim_left_id is_dash s slug.start)
    ∙ trim_right_id is_dash s slug.end

-- A sanitised name has only a-z, 0-9 and dashes, with no dash at either end, and sanitising it again
-- changes nothing.
pub sanitize_instance_name-IsSlug :
    (s : String)
    → IsSlug (sanitize_instance_name s)
      × (sanitize_instance_name (sanitize_instance_name s) ≡ sanitize_instance_name s)
unfolding sanitize_instance_name trim_func
sanitize_instance_name-IsSlug s =
    let text = collapse false (dashes (to_lower (trim_space s))) in
    let slug : IsSlug (sanitize_instance_name s) = record {
      chars =
          trim_right-kept is_dash (λ c. not (is_slug_char c)) (trim_left is_dash text)
            (trim_left-kept is_dash (λ c. not (is_slug_char c)) text
              (collapse-chars false (dashes (to_lower (trim_space s)))));
      start = trim_right-starts is_dash (trim_left is_dash text) (trim_left-starts is_dash text);
      end = trim_right-ends is_dash (trim_left is_dash text);
    } in
    (slug, slug_id (sanitize_instance_name s) slug)

-- A slug has no slash.
pub chars-avoids : (s : String) → IsSlug s → avoids b'/' s ≡ true
chars-avoids s slug = over s slug.chars
  where
    over : (t : String) → keeps_all (λ c. not (is_slug_char c)) t ≡ true → avoids b'/' t ≡ true
    over [] h = refl
    over (c ∷ t) h = ground (arith, h, over t)
