-- ===== src/Text/Scan.antt =====
-- Go's `fmt.Sscanf` for the formats that the program reads.
use Prim.Native.Char.{Char, code}
use Prim.Native.String.{[], ◌∷◌}
use vpn_manager.Common.{
  ℕ, ◌+◌, ◌-◌, ◌*◌, ◌^◌, String, Bool, false, not, ◌&&◌, Option, none, some, ltb, ◌==◌,
  if◌then◌else◌,
}
use vpn_manager.Text.{is_space, is_digit, trim_left}

-- A literal part of the format, and a number, before which it skips spaces. What follows
-- the last number is not read.
after : String → String → Option String
after [] s = some s
after (d ∷ t) [] = none
after (d ∷ t) (c ∷ s) = let rest = after t s in if code c == code d then rest else none

scan_digits : ℕ → String → ℕ × String
scan_digits n [] = (n, [])
scan_digits n (c ∷ s) =
    let rest = scan_digits (n * 10 + (code c - 48)) s in if is_digit c then rest else (n, c ∷ s)

limited : ℕ → ℕ × String → Option (ℕ × String)
limited bits (n, rest) = if ltb n (2 ^ bits) then some (n, rest) else none

unsigned : ℕ → String → Option (ℕ × String)
unfolding scan_digits limited
unsigned bits [] = none
unsigned bits (c ∷ s) =
    let read = limited bits (scan_digits 0 (c ∷ s)) in if is_digit c then read else none

abbrev blank : Char → Bool
blank c = is_space c && not (code c == 10)

scan_uint : ℕ → String → Option (ℕ × String)
unfolding unsigned trim_left
scan_uint bits s = unsigned bits (trim_left blank s)

-- `%d` into an `int`, which may have a sign: whether it is the number `n`
signed : ℕ → String → Option Bool
unfolding unsigned
signed n [] = none
signed n (c ∷ s) =
    if code c == b'-'
    then elim (unsigned 63 s) [ none ↦ none | some _ ↦ some false ]
    else elim (unsigned 63 (if code c == b'+' then s else c ∷ s)) [
      | none ↦ none
      | some read ↦ some (read.0 == n)
    ]

-- `Sscanf(s, literal + "%d", &n)` into an `int`: whether the number is `n`
unfoldable pub scan_is : String → ℕ → String → Option Bool
unfolding after signed trim_left
scan_is literal n s = elim (after literal s) [
  | none ↦ none
  | some rest ↦ signed n (trim_left blank rest)
]

-- one number of `bits` bits after a literal
unfoldable pub scan_field : String → ℕ → String → Option (ℕ × String)
unfolding after scan_uint
scan_field name bits s = elim (after name s) [ none ↦ none | some rest ↦ scan_uint bits rest ]
