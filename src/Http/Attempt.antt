-- ===== src/Http/Attempt.antt =====
-- The early returns of a handler: a step answers the request, or hands on a value.
pub mod Ends
use vpn_manager.Common.{ℕ, String, Bool, true, false, Option, none, some, List, [], ◌∷◌}
use vpn_manager.Http.{Reply, reply_error, reply_validation_error}

pub data Attempt (R A : Type 0) : Type 0 where
  halt : Reply R → Attempt R A
  go : A → Attempt R A

infixl 5 ◌>>=◌ ◌>>◌
unfoldable pub ◌>>=◌ : {R A B : Type 0} → Attempt R A → (A → Attempt R B) → Attempt R B
halt r >>= f = halt r
go a >>= f = f a

abbrev pub ◌>>◌ : {R B : Type 0} → Attempt R (Unit {0}) → Attempt R B → Attempt R B
m >> k = m >>= λ _. k

-- `if cond { dto.Error(c, status, message); return }`
abbrev pub refuse_if : {R : Type 0} → Bool → ℕ → String → Attempt R (Unit {0})
refuse_if true status message = halt (reply_error status message)
refuse_if false status message = go tt

-- `c.ShouldBindJSON`: `none` is a body that does not decode
abbrev pub bind_json : {R A : Type 0} → Option A → Attempt R A
bind_json none = halt (reply_error 400 "invalid request body")
bind_json (some a) = go a

-- `middleware.Validate`: the failed fields, which the validator library computes
abbrev pub validated : {R : Type 0} → List String → Attempt R (Unit {0})
validated [] = go tt
validated (e ∷ es) = halt (reply_validation_error (e ∷ es))

-- a lookup of one row: 500 for a failed query, 404 for a missing row
abbrev pub found_or : {R A : Type 0} → Bool → Option A → String → String → Attempt R A
found_or true o missing broken = halt (reply_error 500 broken)
found_or false none missing broken = halt (reply_error 404 missing)
found_or false (some a) missing broken = go a

-- The reply of a handler that ended early, or what its last step writes.
unfoldable pub answer : {R S : Type 0} → S → Attempt R (Reply R × S) → Reply R × S
answer s (halt r) = (r, s)
answer s (go x) = x
