-- ===== src/Text/Decimal.antt =====
-- Printing a number and reading it again.
use Prim.Native.Char.{Char, code}
use Prim.Native.String.{◌∷◌}
use native.Mathlib.Nat.{pow-suc}
use vpn_manager.Common.{
  ℕ, zero, suc, ◌+◌, ◌*◌, ◌/◌, ◌%◌, ◌^◌, ◌<◌, String, ◌≡◌, refl, ◌∙◌, ap, some, arith, ltb,
  Bool-cases, inl, inr, if◌then◌else◌,
}
use vpn_manager.Text.{emit_digit, emit, itoa, unsigned, digits_value, parse_uint}

pub emit_digit-code : (d : ℕ) → d < 10 → code (emit_digit d) ≡ 48 + d
emit_digit-code zero h = refl
emit_digit-code (suc zero) h = refl
emit_digit-code (suc (suc zero)) h = refl
emit_digit-code (suc (suc (suc zero))) h = refl
emit_digit-code (suc (suc (suc (suc zero)))) h = refl
emit_digit-code (suc (suc (suc (suc (suc zero))))) h = refl
emit_digit-code (suc (suc (suc (suc (suc (suc zero)))))) h = refl
emit_digit-code (suc (suc (suc (suc (suc (suc (suc zero))))))) h = refl
emit_digit-code (suc (suc (suc (suc (suc (suc (suc (suc zero)))))))) h = refl
emit_digit-code (suc (suc (suc (suc (suc (suc (suc (suc (suc zero))))))))) h = refl
emit_digit-code (suc (suc (suc (suc (suc (suc (suc (suc (suc (suc n)))))))))) h =
    absurd (omega arith)

digits_value-digit :
    (a d : ℕ) (out : String)
    → d < 10
    → digits_value a (emit_digit d ∷ out) ≡ digits_value (a * 10 + d) out
unfolding digits_value
digits_value-digit a d out h = let e = emit_digit-code d h in ground arith

digits_value-emit :
    (f n : ℕ) (out : String) → n < 10 ^ f → digits_value 0 (emit f n out) ≡ digits_value n out
unfolding emit
digits_value-emit zero n out h = let e : n ≡ 0 = omega arith in rw e
digits_value-emit (suc f) n out h = elim (Bool-cases (ltb n 10)) [
  | inl small ↦
      let e : 0 * 10 + n % 10 ≡ n = ground arith in
      rw (small, if◌then◌else◌)
        (digits_value-digit 0 (n % 10) out (omega arith) ∙ ap (λ (k : ℕ). digits_value k out) e)
  | inr large ↦
      let e : n / 10 * 10 + n % 10 ≡ n = omega arith in
      let below : n / 10 < 10 ^ f = omega (arith, pow-suc 10 f) in
      rw (large, if◌then◌else◌)
        (digits_value-emit f (n / 10) (emit_digit (n % 10) ∷ out) below
          ∙ digits_value-digit (n / 10) (n % 10) out (omega arith)
          ∙ ap (λ (k : ℕ). digits_value k out) e)
]

unsigned-emit :
    (f n : ℕ) (c : Char) (out : String)
    → unsigned (emit f n (c ∷ out)) ≡ digits_value 0 (emit f n (c ∷ out))
unfolding emit unsigned
unsigned-emit zero n c out = refl
unsigned-emit (suc f) n c out =
    ground (arith, unsigned-emit f (n / 10) (emit_digit (n % 10)) (c ∷ out))

unsigned-itoa : (n : ℕ) → unsigned (itoa n) ≡ digits_value 0 (itoa n)
unfolding itoa emit unsigned
unsigned-itoa n = ground (arith, unsigned-emit 19 (n / 10) (emit_digit (n % 10)) "")

digits_value-itoa : (n : ℕ) → n < 2 ^ 64 → digits_value 0 (itoa n) ≡ some n
unfolding itoa digits_value
digits_value-itoa n h = digits_value-emit 20 n "" (omega arith)

-- A 64-bit number that is printed is read back.
pub parse_uint-itoa : (n : ℕ) → n < 2 ^ 64 → parse_uint (itoa n) ≡ some n
unfolding parse_uint
parse_uint-itoa n h =
    let read : unsigned (itoa n) ≡ some n = unsigned-itoa n ∙ digits_value-itoa n h in
    rw read (ground arith)
