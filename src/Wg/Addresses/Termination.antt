-- ===== src/Wg/Addresses/Termination.antt =====
-- `NextFreeIP` comes to an end.
use vpn_manager.Common.{
  ℕ, zero, suc, ◌+◌, ◌-◌, ◌/◌, ◌%◌, ◌^◌, ◌≤◌, ◌<◌, String, Bool, true, false, ◌||◌, ◌≡◌, refl, ap,
  some, List, [], ◌∷◌, map, length, arith, leb, Bool-cases, inl, inr, if◌then◌else◌, ◌==◌,
}
use vpn_manager.Text.{◌⧺◌, trim_space}
use vpn_manager.Wg.Firewall.{Result, fine, broken}
use vpn_manager.Wg.Addresses.{
  Address, Network, Net, same_address, same_prefix, contains, inc_bytes, inc_ip, is_used, next_free,
  fuel_for, next_free_ip,
}
use vpn_manager.Wg.Addresses.Increment.{IsBytes, value, value-bound, inc_ip-value, inc_bytes-value}

-- A network of at least one byte and a prefix of at least one bit, of bytes.
pub record IsNetwork (net : Network) : Type 0 where
  pub long : 1 ≤ length net.ip
  pub prefix : 1 ≤ net.prefix
  pub bytes : IsBytes net.ip

high_bit : (p : ℕ) → 1 ≤ p → p < 8 → (255 / 2 ^ (8 - p) == 0 / 2 ^ (8 - p)) ≡ false
high_bit zero low high = let no : ⊥ = omega (arith, low) in elim no [ ]
high_bit (suc zero) low high = refl
high_bit (suc (suc zero)) low high = refl
high_bit (suc (suc (suc zero))) low high = refl
high_bit (suc (suc (suc (suc zero)))) low high = refl
high_bit (suc (suc (suc (suc (suc zero))))) low high = refl
high_bit (suc (suc (suc (suc (suc (suc zero)))))) low high = refl
high_bit (suc (suc (suc (suc (suc (suc (suc zero))))))) low high = refl
high_bit (suc (suc (suc (suc (suc (suc (suc (suc p)))))))) low high =
    let no : ⊥ = omega (arith, high) in elim no [ ]

same_prefix_refl : (p : ℕ) (c : Address) → same_prefix p c c ≡ true
same_prefix_refl p [] = refl
same_prefix_refl p (x ∷ xs) = ground (arith, same_prefix_refl (p - 8) xs)

carried :
    (n : ℕ) (carry : Bool) (r : Address) (x : ℕ)
    → (if◌then◌else◌ {A = Bool × Address} carry (n % 256 == 0, n % 256 ∷ r) (false, x ∷ r)).0 ≡ true
    → (carry ≡ true) × ((n % 256 == 0) ≡ true)
carried n true r x h = (refl, h)
carried n false r x h = cc

-- An address of the network is not followed by the first address of all.
wrapped :
    (net : Network) (c : Address)
    → IsNetwork net
    → IsBytes c
    → contains net c ≡ true
    → (inc_bytes c).0 ≡ true
    → contains net (inc_bytes c).1 ≡ false
wrapped net c ok b inside carry = over net.ip c ok.long b inside carry
  where
    over :
        (n c : Address)
        → 1 ≤ length n
        → IsBytes c
        → same_prefix net.prefix n c ≡ true
        → (inc_bytes c).0 ≡ true
        → same_prefix net.prefix n (inc_bytes c).1 ≡ false
    over [] c long b inside carry = let no : ⊥ = omega (arith, long) in elim no [ ]
    over (n ∷ ns) [] long b inside carry = ground arith
    over (n ∷ ns) (x ∷ xs) long (low, b) inside carry =
        let ended = carried (x + 1) (inc_bytes xs).0 (inc_bytes xs).1 x carry in
        let top : x ≡ 255 = ground (arith, ended.1, low) in
        elim (Bool-cases (leb 8 net.prefix)) [
          | inl wide ↦
              let same : n ≡ 255 = ground (arith, inside, wide, top) in
              rw (ended.0, wide, if◌then◌else◌, top, same) refl
          | inr narrow ↦
              let less : net.prefix < 8 = ground (arith, narrow) in
              let high = high_bit net.prefix ok.prefix less in
              let kept = rw (narrow, if◌then◌else◌, top) at inside in
              rw (ended.0, narrow, if◌then◌else◌, top) (ground (arith, kept, high))
        ]

module _ (print : Address → String) (net : Network) (used : List String) where
  next_free-returns :
      (fuel : ℕ) (c : Address)
      → IsNetwork net
      → IsBytes c
      → contains net c ≡ true
      → 256 ^ length c ≤ value c + fuel
      → (r : Result String) × (next_free print net used fuel c ≡ some r)
  unfolding next_free
  next_free-returns zero c ok b inside enough =
      let no : ⊥ = omega (arith, value-bound c b, enough) in elim no [ ]
  next_free-returns (suc fuel) c ok b inside enough =
      let next = inc_ip c in
      elim (Bool-cases (contains net next)) [
        | inr out ↦ (broken "no free addresses left", rw (next_free, out) refl)
        | inl more ↦ elim (Bool-cases (same_address next net.ip || is_used used (print next))) [
          | inr free ↦ (fine (print next), rw (next_free, more, free) refl)
          | inl taken ↦
              let up = inc_ip-value c b in
              let step : value next ≡ value c + 1 = elim (Bool-cases (inc_bytes c).0) [
                | inl carry ↦ let no = wrapped net c ok b inside carry in ground (arith, no, more)
                | inr e ↦
                    let sum : value next + 0 ≡ value c + 1 =
                      rw (e, if◌then◌else◌) at (inc_bytes-value c b) in
                    omega (arith, sum)
              ] in
              let size : 256 ^ length next ≡ 256 ^ length c = ap (λ (n : ℕ). 256 ^ n) up.1 in
              let rest =
                next_free-returns fuel next ok up.2 more (omega (arith, step, size, enough)) in
              (rest.0, rw (next_free, more, taken) rest.1)
        ]
      ]

-- `NextFreeIP` comes to an end with an address or an error, for every list of taken addresses, where
-- the interface's address, if it parses, has a network of at least one byte with a prefix of at least
-- one bit.
pub next_free_ip-returns :
    (net : Net) (server_cidr : String) (taken : List String)
    → ((a : Address) (n : Network) → net.parse_cidr server_cidr ≡ fine (a, n) → IsNetwork n)
    → (r : Result String) × (next_free_ip net server_cidr taken ≡ some r)
unfolding next_free_ip
next_free_ip-returns net server_cidr taken parses = over (net.parse_cidr server_cidr) refl
  where
    over :
        (parsed : Result (Address × Network))
        → net.parse_cidr server_cidr ≡ parsed
        → (r : Result String) × (elim parsed [
          | broken e ↦ some (broken ("invalid interface address: " ⧺ e))
          | fine (ip, network) ↦
              next_free net.print network
                (net.print ip ∷ map trim_space taken)
                (fuel_for network.ip)
                network.ip
        ]
            ≡ some r)
    over (broken e) h = (broken ("invalid interface address: " ⧺ e), refl)
    over (fine (ip, network)) h =
        let ok = parses ip network h in
        next_free-returns net.print network (net.print ip ∷ map trim_space taken)
          (fuel_for network.ip) network.ip ok ok.bytes (same_prefix_refl network.prefix network.ip)
          (omega arith)
