-- ===== src/Wg/Addresses/Tests.antt =====
-- Allocation in a small network.
use vpn_manager.Common.{
  ◌%◌, ◌^◌, ◌+◌, String, true, false, ◌≡◌, refl, [], ◌∷◌, none, some, any, arith, length, ◌=ₛ◌,
  =ₛ_iff, ◌∙◌, if◌then◌else◌, sym, ap, subst, Bool-cases, inl, inr,
}
use vpn_manager.Text.{trim_space, drop_chars}
use vpn_manager.Wg.Firewall.{Result, fine}
use vpn_manager.Wg.Addresses.{
  Address, same_address, next_free, inc_ip, next_free_ip, validate_ip_in_cidr,
}
use vpn_manager.Wg.Samples.{server, second, lan, print, net}
use vpn_manager.Wg.Addresses.Increment.{IsBytes, value, inc_ip-value}
use vpn_manager.Wg.Addresses.Termination.{IsNetwork, next_free_ip-returns}
use vpn_manager.Wg.Addresses.Allocation.{same_address-eq, next_free_ip-accepted}

inc_ip-value_example :
    (value (inc_ip (10 ∷ 8 ∷ 0 ∷ 255 ∷ [])) ≡ (value (10 ∷ 8 ∷ 0 ∷ 255 ∷ []) + 1) % 256 ^ 4)
    × (length (inc_ip (10 ∷ 8 ∷ 0 ∷ 255 ∷ [])) ≡ 4)
    × IsBytes (inc_ip (10 ∷ 8 ∷ 0 ∷ 255 ∷ []))
inc_ip-value_example = inc_ip-value (10 ∷ 8 ∷ 0 ∷ 255 ∷ []) (omega arith)

carries : inc_ip (10 ∷ 8 ∷ 0 ∷ 255 ∷ []) ≡ 10 ∷ 8 ∷ 1 ∷ 0 ∷ []
unfolding inc_ip
carries = refl

lan-IsNetwork : IsNetwork lan
lan-IsNetwork = record { long = omega arith; prefix = omega arith; bytes = omega arith }

next_free_ip-returns_example :
    (r : Result String) × (next_free_ip net "10.8.0.1/24" ("10.8.0.2" ∷ []) ≡ some r)
next_free_ip-returns_example =
    next_free_ip-returns net "10.8.0.1/24" ("10.8.0.2" ∷ [])
      λ a n h. let same : lan ≡ n = cc in subst IsNetwork same lan-IsNetwork

allocated : next_free_ip net "10.8.0.1/24" [] ≡ some (fine "10.8.0.2")
unfolding next_free_ip next_free inc_ip
allocated = refl

differ : {A : Type 0} (s t : String) → s ≡ t → (s =ₛ t) ≡ false → A
differ s t e h = let yes = (=ₛ_iff s t).1 e in let no : true ≡ false = sym yes ∙ h in cc

print-second : (a : Address) → print a ≡ "10.8.0.2" → some second ≡ some a
print-second a h = elim (Bool-cases (same_address a second)) [
  | inl e ↦ ap some (sym (same_address-eq a second e))
  | inr e ↦ elim (Bool-cases (same_address a server)) [
    | inl f ↦
        let no : ◌≡◌ {A = String} "10.8.0.1" "10.8.0.2" = rw (e, f, if◌then◌else◌) at h in
        differ _ _ no refl
    | inr f ↦
        let no : ◌≡◌ {A = String} "another" "10.8.0.2" = rw (e, f, if◌then◌else◌) at h in
        differ _ _ no refl
  ]
]

trimmed : trim_space "10.8.0.1/24" ≡ "10.8.0.1/24"
unfolding trim_space drop_chars
trimmed = refl

next_free_ip-accepted_example :
    (validate_ip_in_cidr net "10.8.0.2" "10.8.0.1/24" ≡ none)
    × (any (λ u. trim_space u =ₛ "10.8.0.2") [] ≡ false)
unfolding trim_space drop_chars
next_free_ip-accepted_example =
    next_free_ip-accepted net "10.8.0.1/24" "10.8.0.2" [] allocated (λ a h. print-second a h)
      trimmed
