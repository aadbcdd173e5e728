-- ===== src/Wg/Firewall/Setup.antt =====
-- NAT set up twice.
use vpn_manager.Common.{
  [], ◌∷◌, ℕ, String, true, Option, none, some, List, ◌≡◌, refl, sym, ◌∙◌, ap, inl, inr, ◌⊎◌,
  Option-cases, Bool-cases, if◌then◌else◌,
}
use vpn_manager.Text.{trim_space, ◌⧺◌}
use vpn_manager.Wg.Firewall.{
  Result, fine, broken, Rule, Host, Nat, iptables_args, ensure_with, ensure_rule, until_error,
  already_on, enable_forwarding, nat_rules, subnet_for, chosen_egress, setup_on, setup_nat,
}
use vpn_manager.Wg.Firewall.Laws.{
  IsIptables, Adds, Ensures, Installed, ensure_with-Ensures, until_error-Installed,
  until_error_again,
}

-- The file `ip_forward` reads as it was written, and iptables does not write it.
pub record IsForwarding {K : Type 0} (h : Host K) : Type 0 where
  pub read_write :
      (k : K)
      → (h.write_forwarding k).0 ≡ none
      → h.read_forwarding (h.write_forwarding k).1 ≡ some "1\n"
  pub read_run :
      (args : List String) (k : K) → h.read_forwarding (h.run args k).1 ≡ h.read_forwarding k

Result-cases :
    {A : Type 0} (r : Result A) → ((a : A) × (r ≡ fine a)) ⊎ ((m : String) × (r ≡ broken m))
Result-cases (fine a) = inl (a, refl)
Result-cases (broken m) = inr (m, refl)

-- forwarding is on
abbrev pub IsOn : {K : Type 0} → Host K → K → Type 0
IsOn h k = already_on (h.read_forwarding k) ≡ true

module _ {K : Type 0} {h : Host K} (f : IsForwarding h) where
  pub enable_forwarding-IsOn :
      (k : K) → (enable_forwarding h k).0 ≡ none → IsOn h (enable_forwarding h k).1
  unfolding enable_forwarding already_on trim_space
  enable_forwarding-IsOn k e = elim (Bool-cases (already_on (h.read_forwarding k))) [
    | inl on ↦ rw (on, if◌then◌else◌) on
    | inr off ↦ elim (Option-cases (h.write_forwarding k).0) [
      | inl ok ↦ rw (off, if◌then◌else◌) (ap (already_on) (f.read_write k ok))
      | inr (m, bad) ↦
          let no : ◌≡◌ {A = Option String}
              (some ("enable ip_forward (run `sysctl -w net.ipv4.ip_forward=1` on the host): " ⧺ m))
              none =
            rw (off, if◌then◌else◌, bad) at e in
          cc
    ]
  ]

  pub enable_forwarding_again : (k : K) → IsOn h k → enable_forwarding h k ≡ (none, k)
  unfolding enable_forwarding
  enable_forwarding_again k on = rw (on, if◌then◌else◌) refl

  still : (args : List String) (k : K) → IsOn h k → IsOn h (h.run args k).1
  still args k on = ap already_on (f.read_run args k) ∙ on

  pub IsOn-ensure_with :
      (add : Rule → List String) (r : Rule) (k : K) → IsOn h k → IsOn h (ensure_with h add r k).1
  unfolding ensure_with
  IsOn-ensure_with add r k on = elim (Option-cases (h.run (iptables_args "-C" r) k).0) [
    | inl e ↦ rw (e, ensure_with) (still (iptables_args "-C" r) k on)
    | inr (m, e) ↦
        rw (e, ensure_with)
          (still (add r) (h.run (iptables_args "-C" r) k).1 (still (iptables_args "-C" r) k on))
  ]

  pub IsOn-until_error :
      (step : Rule → K → Option String × K)
      → ((r : Rule) (k : K) → IsOn h k → IsOn h (step r k).1)
      → (rs : List Rule) (k : K) → IsOn h k
      → IsOn h (until_error step rs k).1
  unfolding until_error
  IsOn-until_error step s [] k on = on
  IsOn-until_error step s (r ∷ rs) k on = elim (Option-cases (step r k).0) [
    | inl e ↦ rw (e, until_error) (IsOn-until_error step s rs (step r k).1 (s r k on))
    | inr (m, e) ↦ rw (e, until_error) (s r k on)
  ]

abbrev result_of : {K : Type 0} → String → Option String × K → Nat × K
result_of egress x = (record { egress = egress; error = x.0 }, x.1)

module _ {K : Type 0} {h : Host K} {count : Rule → K → ℕ} (laws : IsIptables h count)
    (appends : Adds h count (iptables_args "-A")) (f : IsForwarding h) where
  abbrev rules_from : String → String → String → K → Option String × K
  rules_from subnet device egress k = until_error (ensure_rule h) (nat_rules subnet device egress) k

  setup_on-result :
      (subnet device egress : String) (k : K)
      → (enable_forwarding h k).0 ≡ none
      → setup_on h subnet device egress k
        ≡ result_of egress (rules_from subnet device egress (enable_forwarding h k).1)
  unfolding setup_on
  setup_on-result subnet device egress k e = rw (e, setup_on) refl

  ensure_rule-Ensures : Ensures count (ensure_rule h)
  unfolding ensure_rule
  ensure_rule-Ensures = ensure_with-Ensures laws appends

  ensure_rule-IsOn : (r : Rule) (k : K) → IsOn h k → IsOn h (ensure_rule h r k).1
  unfolding ensure_rule
  ensure_rule-IsOn r k on = IsOn-ensure_with f (iptables_args "-A") r k on

  setup_on_again :
      (subnet device egress : String) (k : K)
      → (setup_on h subnet device egress k).0.error ≡ none
      → setup_on h subnet device egress (setup_on h subnet device egress k).1
        ≡ setup_on h subnet device egress k
  unfolding setup_on
  setup_on_again subnet device egress k e = elim (Option-cases (enable_forwarding h k).0) [
    | inr (m, bad) ↦ let no : ◌≡◌ {A = Option String} (some m) none = rw (bad, setup_on) at e in cc
    | inl on ↦
        let first = setup_on-result subnet device egress k on in
        let out = rules_from subnet device egress (enable_forwarding h k).1 in
        let ok : out.0 ≡ none = ap (λ (x : Nat × K). x.0.error) (sym first) ∙ e in
        let rules = nat_rules subnet device egress in
        let there : Installed count rules out.1 =
          until_error-Installed ensure_rule-Ensures rules (enable_forwarding h k).1 ok in
        let still_on : IsOn h out.1 =
          IsOn-until_error f (ensure_rule h) ensure_rule-IsOn rules (enable_forwarding h k).1
            (enable_forwarding-IsOn f k on) in
        let forwarding = enable_forwarding_again f out.1 still_on in
        ap (λ (x : Nat × K). setup_on h subnet device egress x.1) first
        ∙ setup_on-result subnet device egress out.1
            (ap (λ (x : Option String × K). x.0) forwarding)
        ∙ ap (λ (x : Option String × K). result_of egress (rules_from subnet device egress x.1))
            forwarding
        ∙ ap (result_of egress) (until_error_again ensure_rule-Ensures rules out.1 there)
        ∙ ap (λ (o : Option String). result_of egress (o, out.1)) (sym ok)
        ∙ sym first
  ]

  setup_nat-on :
      (address device egress subnet name : String)
      → subnet_for h address ≡ fine subnet
      → chosen_egress h (trim_space egress) ≡ fine name
      → (k : K) → setup_nat h address device egress k ≡ setup_on h subnet device name k
  unfolding setup_nat
  setup_nat-on address device egress subnet name s c k = rw (s, c, setup_nat) refl

  -- A setup of NAT that succeeded may be repeated: the second one finds the same egress, succeeds, and
  -- leaves the host as it is. For a host whose iptables and `ip_forward` behave as documented.
  pub setup_nat_again :
      (address device egress : String) (k : K)
      → (setup_nat h address device egress k).0.error ≡ none
      → setup_nat h address device egress (setup_nat h address device egress k).1
        ≡ setup_nat h address device egress k
  unfolding setup_nat
  setup_nat_again address device egress k e = elim (Result-cases (subnet_for h address)) [
    | inr (m, s) ↦ let no : ◌≡◌ {A = Option String} (some m) none = rw (s, setup_nat) at e in cc
    | inl (subnet, s) ↦ elim (Result-cases (chosen_egress h (trim_space egress))) [
      | inr (m, c) ↦
          let no : ◌≡◌ {A = Option String} (some m) none = rw (s, c, setup_nat) at e in cc
      | inl (name, c) ↦
          let on = setup_nat-on address device egress subnet name s c in
          let ok = ap (λ (x : Nat × K). x.0.error) (sym (on k)) ∙ e in
          ap (λ (x : Nat × K). setup_nat h address device egress x.1) (on k)
          ∙ on (setup_on h subnet device name k).1
          ∙ setup_on_again subnet device name k ok
          ∙ sym (on k)
    ]
  ]
