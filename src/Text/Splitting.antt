-- ===== src/Text/Splitting.antt =====
-- Splitting a text at a separator that its pieces do not contain.
use Prim.Native.Char.{Char, code}
use Prim.Native.String.{String, [], ◌∷◌}
use mathlib.Core.List.{List}
use vpn_manager.Common.{ℕ, Bool, true, not, ◌&&◌, ◌≡◌, refl, ◌==◌, arith}
use vpn_manager.Text.{◌⧺◌, split}

-- no character of the text has this code
abbrev pub avoids : ℕ → String → Bool
avoids sep [] = true
avoids sep (c ∷ s) = not (code c == sep) && avoids sep s

split-avoids : (sep : ℕ) (s : String) → avoids sep s ≡ true → split sep s ≡ List.◌∷◌ s List.[]
unfolding split
split-avoids sep [] h = refl
split-avoids sep (c ∷ s) h = ground (arith, split-avoids sep s)

pub split-append :
    (d : Char) (p s : String)
    → avoids (code d) p ≡ true
    → avoids (code d) s ≡ true
    → split (code d) (p ⧺ (d ∷ s)) ≡ List.◌∷◌ p (List.◌∷◌ s List.[])
unfolding split
split-append d [] s hp hs = ground (arith, split-avoids (code d) s hs)
split-append d (c ∷ p) s hp hs = ground (arith, split-append d p s)

-- the piece before the first separator, and the pieces of the rest
pub split-piece :
    (d : Char) (p s : String)
    → avoids (code d) p ≡ true
    → split (code d) (p ⧺ (d ∷ s)) ≡ List.◌∷◌ p (split (code d) s)
unfolding split
split-piece d [] s hp = ground arith
split-piece d (c ∷ p) s hp = ground (arith, split-piece d p s)
