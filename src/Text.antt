-- ===== src/Text.antt =====
-- Go's `strings` and `strconv` functions that the program calls, over texts as lists of characters.
-- Of the letters outside ASCII, `to_lower` changes the two whose lower case is in ASCII, U+0130 and the
-- Kelvin sign U+212A, and leaves the others.
pub mod Decimal
pub mod Splitting
pub mod Scan
pub mod Trim
use Prim.Native.Char.{Char, code}
use Prim.Native.String
use Prim.Native.String.{[], ◌∷◌}
use mathlib.Core.List.{List}
use vpn_manager.Common.{
  ℕ, zero, suc, ◌+◌, ◌-◌, ◌*◌, ◌/◌, ◌%◌, ◌^◌, String, Bool, true, false, ◌&&◌, ◌||◌, Option, none,
  some, ltb, leb, ◌==◌, ◌=ₛ◌, if◌then◌else◌, ◌≡◌, refl,
}

-- `unicode.IsSpace`
abbrev pub is_space : Char → Bool
is_space c =
    let n = code c in
    (leb 9 n && leb n 13)
    || n == 32
    || n == 133
    || n == 160
    || n == 5760
    || (leb 8192 n && leb n 8202)
    || n == 8232
    || n == 8233
    || n == 8239
    || n == 8287
    || n == 12288

-- `strings.TrimLeftFunc` and `strings.TrimRightFunc`
unfoldable pub trim_left : (Char → Bool) → String → String
trim_left cut [] = []
trim_left cut (c ∷ s) = let rest = trim_left cut s in if cut c then rest else c ∷ s

unfoldable pub trim_right : (Char → Bool) → String → String
trim_right cut [] = []
trim_right cut (c ∷ s) = let rest = trim_right cut s in if cut c && rest =ₛ [] then [] else c ∷ rest

unfoldable pub trim_func : (Char → Bool) → String → String
unfolding trim_left trim_right
trim_func cut s = trim_right cut (trim_left cut s)

unfoldable pub trim_space : String → String
unfolding trim_func
trim_space s = trim_func is_space s

abbrev pub nth : String → ℕ → Char → Char
nth [] i d = d
nth (c ∷ s) zero d = c
nth (c ∷ s) (suc i) d = nth s i d

abbrev pub is_upper : Char → Bool
is_upper c = leb 65 (code c) && leb (code c) 90

unfoldable pub lower_char : Char → Char
lower_char c =
    if is_upper c
    then nth "abcdefghijklmnopqrstuvwxyz" (code c - 65) c
    else if code c == 304
    then "i"
    else if code c == 8490
    then "k"
    else c

unfoldable pub to_lower : String → String
unfolding lower_char
to_lower [] = []
to_lower (c ∷ s) = lower_char c ∷ to_lower s

unfoldable pub has_prefix : String → String → Bool
has_prefix s [] = true
has_prefix [] (d ∷ t) = false
has_prefix (c ∷ s) (d ∷ t) = code c == code d && has_prefix s t

-- `strings.Contains`
unfoldable pub contains_text : String → String → Bool
unfolding has_prefix
contains_text [] t = has_prefix [] t
contains_text (c ∷ s) t = has_prefix (c ∷ s) t || contains_text s t

-- `len(s)`
abbrev pub size_of : String → ℕ
size_of [] = 0
size_of (c ∷ s) = suc (size_of s)

-- `s[n:]`
unfoldable pub drop_chars : ℕ → String → String
drop_chars zero s = s
drop_chars (suc n) [] = []
drop_chars (suc n) (c ∷ s) = drop_chars n s

abbrev pub push_head : Char → List String → List String
push_head c List.[] = List.◌∷◌ (c ∷ []) List.[]
push_head c (List.◌∷◌ p ps) = List.◌∷◌ (c ∷ p) ps

-- `strings.Split` at a separator of one character
unfoldable pub split : ℕ → String → List String
split sep [] = List.◌∷◌ [] List.[]
split sep (c ∷ s) =
    let rest = split sep s in if code c == sep then List.◌∷◌ [] rest else push_head c rest

infixr 65 ◌⧺◌
abbrev pub ◌⧺◌ : String → String → String
[] ⧺ t = t
(c ∷ s) ⧺ t = c ∷ (s ⧺ t)

-- `strings.Join`
unfoldable pub join : String → List String → String
join sep List.[] = ""
join sep (List.◌∷◌ p List.[]) = p
join sep (List.◌∷◌ p (List.◌∷◌ q ps)) = p ⧺ sep ⧺ join sep (List.◌∷◌ q ps)

-- `%d`: a number of 64 bits has 20 digits at most.
abbrev pub emit_digit : ℕ → Char
emit_digit d = nth "0123456789" d "0"

unfoldable pub emit : ℕ → ℕ → String → String
emit zero n out = out
emit (suc f) n out =
    let out' = emit_digit (n % 10) ∷ out in
    let rest = emit f (n / 10) out' in if ltb n 10 then out' else rest

unfoldable pub itoa : ℕ → String
itoa n = emit 20 n ""

-- a signed number: `negsuc n` is -(n + 1)
pub data ℤ : Type 0 where
  pos : ℕ → ℤ
  negsuc : ℕ → ℤ

abbrev pub is_digit : Char → Bool
is_digit c = leb 48 (code c) && leb (code c) 57

digits_value : ℕ → String → Option ℕ
digits_value n [] = some n
digits_value n (c ∷ s) = if is_digit c then digits_value (n * 10 + (code c - 48)) s else none

unsigned : String → Option ℕ
unfolding digits_value
unsigned [] = none
unsigned (c ∷ s) = digits_value 0 (c ∷ s)

abbrev limited : ℕ → (ℕ → ℤ) → Option ℕ → Option ℤ
limited top sign none = none
limited top sign (some n) = if leb n top then some (sign n) else none

abbrev negate : ℕ → ℤ
negate zero = pos zero
negate (suc n) = negsuc n

-- `strconv.Atoi`, with the range of `int` on 64 bits
unfoldable pub atoi : String → Option ℤ
unfolding unsigned
atoi [] = none
atoi (c ∷ s) =
    if code c == b'-'
    then limited (2 ^ 63) negate (unsigned s)
    else if code c == b'+'
    then limited (2 ^ 63 - 1) pos (unsigned s)
    else limited (2 ^ 63 - 1) pos (unsigned (c ∷ s))

texts :
    (trim_space " a b\n" ≡ "a b")
    × (to_lower "AbZ9" ≡ "abz9")
    × (join "," (split b'.' "a..b") ≡ "a,,b")
    × (itoa 65535 ≡ "65535")
    × (itoa 0 ≡ "0")
    × (contains_text "xabc" "ab" ≡ true)
unfolding trim_space to_lower split join itoa emit contains_text
texts = (refl, refl, refl, refl, refl, refl)

numbers :
    (atoi "007" ≡ some (pos 7))
    × (atoi "-3" ≡ some (negsuc 2))
    × (atoi "" ≡ none)
    × (atoi "1x" ≡ none)
    × (atoi "9223372036854775808" ≡ none)
unfolding atoi
numbers = (refl, refl, refl, refl, refl)

abbrev below_2_64 : Option ℕ → Option ℕ
below_2_64 none = none
below_2_64 (some n) = if ltb n (2 ^ 64) then some n else none

-- `strconv.ParseUint(s, 10, 64)`
unfoldable pub parse_uint : String → Option ℕ
unfolding unsigned
parse_uint s = below_2_64 (unsigned s)
