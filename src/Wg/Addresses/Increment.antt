-- ===== src/Wg/Addresses/Increment.antt =====
-- `incIP` adds one to the number that an address is.
use vpn_manager.Common.{
  ℕ, ◌+◌, ◌*◌, ◌<◌, ◌^◌, ◌%◌, Bool, ◌≡◌, refl, sym, ap, ◌∙◌, inl, inr, [], ◌∷◌, All, length, arith,
  Bool-cases, pow-succ', if◌then◌else◌, ◌==◌,
}
use native.Mathlib.Nat.{mul-le-mul_right, mod-eq_of_lt, add-mod_right}
use vpn_manager.Wg.Addresses.{Address, inc_bytes, inc_ip}

abbrev pub IsBytes : Address → Type 0
IsBytes c = All (λ x. x < 256) c

-- the number with these bytes
abbrev pub value : Address → ℕ
value [] = 0
value (x ∷ xs) = x * 256 ^ length xs + value xs

abbrev pub weight : Bool → Address → ℕ
weight carry c = if carry then 256 ^ length c else 0

pub length-inc_bytes : (c : Address) → length (inc_bytes c).1 ≡ length c
length-inc_bytes [] = refl
length-inc_bytes (x ∷ xs) = ground (arith, length-inc_bytes xs)

inc_bytes-IsBytes : (c : Address) → IsBytes c → IsBytes (inc_bytes c).1
inc_bytes-IsBytes [] h = tt
inc_bytes-IsBytes (x ∷ xs) (low, h) = ground (arith, inc_bytes-IsBytes xs h)

-- a carry into a byte that is less than 255, and into one that is 255
step_low : (x W v u : ℕ) → x < 255 → v + W ≡ u + 1 → (x + 1) % 256 * W + v + 0 ≡ x * W + u + 1
step_low x W v u low h =
    let small : (x + 1) % 256 ≡ x + 1 = omega (arith, low) in rw small (omega (arith, h))

pub inc_bytes-value :
    (c : Address) → IsBytes c → value (inc_bytes c).1 + weight (inc_bytes c).0 c ≡ value c + 1
inc_bytes-value [] h = refl
inc_bytes-value (x ∷ xs) (low, h) =
    let ih = inc_bytes-value xs h in
    let same = length-inc_bytes xs in
    elim (Bool-cases (inc_bytes xs).0) [
      | inr e ↦
          let rest : value (inc_bytes xs).1 + 0 ≡ value xs + 1 = rw (e, if◌then◌else◌) at ih in
          rw (e, if◌then◌else◌, same) (omega (arith, rest))
      | inl e ↦
          let rest : value (inc_bytes xs).1 + 256 ^ length xs ≡ value xs + 1 =
            rw (e, if◌then◌else◌) at ih in
          elim (Bool-cases ((x + 1) % 256 == 0)) [
            | inl z ↦
                let top : x ≡ 255 = ground (arith, z, low) in
                rw (e, if◌then◌else◌, same, z, top) (omega (arith, rest, pow-succ' 256 (length xs)))
            | inr z ↦
                let low' : x < 255 = ground (arith, z, low) in
                rw (e, if◌then◌else◌, same, z) (step_low x (256 ^ length xs) _ _ low' rest)
          ]
    ]

pub value-bound : (c : Address) → IsBytes c → value c < 256 ^ length c
value-bound [] h = omega arith
value-bound (x ∷ xs) (low, h) =
    let rest = value-bound xs h in
    let scaled = mul-le-mul_right (256 ^ length xs) low in
    omega (arith, rest, scaled, pow-succ' 256 (length xs))

-- Adding one to an address adds one to its number, or takes the last address to the first; it keeps the
-- length, and the bytes in their range.
pub inc_ip-value :
    (c : Address)
    → IsBytes c
    → (value (inc_ip c) ≡ (value c + 1) % 256 ^ length c)
      × (length (inc_ip c) ≡ length c)
      × IsBytes (inc_ip c)
unfolding inc_ip
inc_ip-value c h = (
  (let sum = inc_bytes-value c h in
      let top = value-bound (inc_bytes c).1 (inc_bytes-IsBytes c h) in
      let low : value (inc_bytes c).1 < 256 ^ length c = rw (length-inc_bytes c) at top in
      let stays = mod-eq_of_lt low in
      elim (Bool-cases (inc_bytes c).0) [
        | inl e ↦
            let full : value (inc_bytes c).1 + 256 ^ length c ≡ value c + 1 =
              rw (e, if◌then◌else◌) at sum in
            sym (
              ap (λ (n : ℕ). n % 256 ^ length c) (sym full)
              ∙ add-mod_right (value (inc_bytes c).1) (256 ^ length c)
              ∙ stays)
        | inr e ↦
            let full : value (inc_bytes c).1 + 0 ≡ value c + 1 = rw (e, if◌then◌else◌) at sum in
            sym (ap (λ (n : ℕ). n % 256 ^ length c) (sym full ∙ omega arith) ∙ stays)
      ]),
  length-inc_bytes c,
  inc_bytes-IsBytes c h,
)
