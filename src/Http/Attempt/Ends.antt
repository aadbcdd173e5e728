-- ===== src/Http/Attempt/Ends.antt =====
-- What holds of the value that a chain of steps hands on: one rule for each way to build a chain.
use vpn_manager.Common.{Bool, true, false, String, ℕ, ◌≡◌, refl, Option, none, some}
use vpn_manager.Http.{Reply}
use vpn_manager.Http.Attempt.{Attempt, halt, go, ◌>>=◌, refuse_if, found_or, answer}

pub record Ends {R A : Type 0} (P : A → Type 0) (m : Attempt R A) : Type 0 where
  pub at : (a : A) → m ≡ go a → P a

go-injective :
    {R A : Type 0} (P : A → Type 0) (a b : A) → ◌≡◌ {A = Attempt R A} (go a) (go b) → P a → P b
go-injective P a b e h = let same : a ≡ b = cc in rw (← same) h

module _ {R A : Type 0} {P : A → Type 0} where
  pub Ends-go : {a : A} → P a → Ends {R = R} P (go a)
  Ends-go {a} h = record { at = λ b e. go-injective P a b e h }

  pub Ends-bind :
      {B : Type 0} {m : Attempt R B} {f : B → Attempt R A}
      → ((b : B) → m ≡ go b → Ends P (f b))
      → Ends P (m >>= f)
  unfolding ◌>>=◌
  Ends-bind {m = halt r} k = record { at = λ a e. cc }
  Ends-bind {m = go b} k = k b refl

-- A step that refuses on a condition was passed: the condition is false.
pub refuse_if-eq-go :
    {R : Type 0} (b : Bool) (status : ℕ) (message : String)
    → refuse_if {R = R} b status message ≡ go tt
    → b ≡ false
refuse_if-eq-go true status message e = cc
refuse_if-eq-go false status message e = refl

pub found_or-eq-go :
    {R A : Type 0} (broken : Bool) (o : Option A) (m b : String) (a : A)
    → found_or {R = R} broken o m b ≡ go a
    → o ≡ some a
found_or-eq-go true o m b a e = cc
found_or-eq-go false none m b a e = cc
found_or-eq-go false (some x) m b a e = cc

-- A property of the state that a handler finds and of the state that its last step leaves is a
-- property of the state that the handler leaves.
pub answer-Ends :
    {R S : Type 0} (P : S → Type 0) {s : S} {m : Attempt R (Reply R × S)}
    → P s
    → Ends (λ x. P x.1) m
    → P (answer s m).1
unfolding answer
answer-Ends P {m = halt r} h k = h
answer-Ends P {m = go x} h k = k.at x refl
