-- ===== src/Wg/Firewall/Laws.antt =====
-- What the documentation of iptables says of its commands, and what the program's loops over rules
-- make of it: installed rules stay, a second installation does nothing, a removal touches its own rules.
use vpn_manager.Common.{
  ℕ, ◌≤◌, ◌<◌, String, Option, none, some, List, [], ◌∷◌, ◌≡◌, ◌≢◌, refl, sym, subst, ◌∙◌, ap, inl,
  inr, arith, All, Option-cases,
}
use vpn_manager.Wg.Firewall.{
  Rule, Host, iptables_args, ensure_with, delete_rule, delete_rules, until_error,
}

-- `count r k` is how many copies of a rule the host has.
pub record IsIptables {K : Type 0} (h : Host K) (count : Rule → K → ℕ) : Type 0 where
  pub check_state : (r : Rule) (k : K) → (h.run (iptables_args "-C" r) k).1 ≡ k
  pub check_found : (r : Rule) (k : K) → 0 < count r k → (h.run (iptables_args "-C" r) k).0 ≡ none
  pub check_missing : (r : Rule) (k : K) → (h.run (iptables_args "-C" r) k).0 ≡ none → 0 < count r k
  pub delete_other :
      (r r' : Rule) (k : K) → r ≢ r' → count r' (h.run (iptables_args "-D" r) k).1 ≡ count r' k

-- A command that adds a rule: `-A`, or `-I` at the head of the chain.
pub record Adds {K : Type 0} (h : Host K) (count : Rule → K → ℕ) (add : Rule → List String)
    : Type 0 where
  pub added : (r : Rule) (k : K) → (h.run (add r) k).0 ≡ none → 0 < count r (h.run (add r) k).1
  pub kept : (r r' : Rule) (k : K) → count r' k ≤ count r' (h.run (add r) k).1

-- A step that leaves its rule in place when it succeeds, that loses no rule, and that does nothing
-- where the rule is in place.
pub record Ensures {K : Type 0} (count : Rule → K → ℕ) (step : Rule → K → Option String × K)
    : Type 0 where
  pub done : (r : Rule) (k : K) → (step r k).0 ≡ none → 0 < count r (step r k).1
  pub kept : (r r' : Rule) (k : K) → count r' k ≤ count r' (step r k).1
  pub again : (r : Rule) (k : K) → 0 < count r k → step r k ≡ (none, k)

-- every rule of the list is in place
abbrev pub Installed : {K : Type 0} → (Rule → K → ℕ) → List Rule → K → Type 0
Installed count rs k = All (λ r. 0 < count r k) rs

abbrev none_with : {K : Type 0} → K → Option String × K
none_with k = (none, k)

module _ {K : Type 0} {h : Host K} {count : Rule → K → ℕ} (laws : IsIptables h count) where
  pub ensure_with-Ensures :
      {add : Rule → List String} → Adds h count add → Ensures count (ensure_with h add)
  unfolding ensure_with
  ensure_with-Ensures {add} adds = record {
    done = λ r k e. elim (Option-cases (h.run (iptables_args "-C" r) k).0) [
      | inl f ↦
          rw (f, ensure_with)
            (subst (λ (x : K). 0 < count r x) (sym (laws.check_state r k))
              (laws.check_missing r k f))
      | inr (m, f) ↦
          let ok : (h.run (add r) (h.run (iptables_args "-C" r) k).1).0 ≡ none =
            rw (f, ensure_with) at e in
          rw (f, ensure_with) (adds.added r (h.run (iptables_args "-C" r) k).1 ok)
    ];
    kept = λ r r' k.
        let same : count r' (h.run (iptables_args "-C" r) k).1 ≡ count r' k =
          ap (count r') (laws.check_state r k) in
        elim (Option-cases (h.run (iptables_args "-C" r) k).0) [
          | inl f ↦ rw (f, ensure_with) (omega (arith, same))
          | inr (m, f) ↦
              rw (f, ensure_with)
                (omega (arith, same, adds.kept r r' (h.run (iptables_args "-C" r) k).1))
        ];
    again = λ r k p.
        rw (laws.check_found r k p, ensure_with)
          (ap (λ (x : K). none_with x) (laws.check_state r k));
  }

until_error-passes :
    {K : Type 0} (step : Rule → K → Option String × K) (r : Rule) (rs : List Rule) (k : K)
    → (step r k).0 ≡ none
    → until_error step (r ∷ rs) k ≡ until_error step rs (step r k).1
unfolding until_error
until_error-passes step r rs k e = rw (e, until_error) refl

module _ {K : Type 0} {count : Rule → K → ℕ} {step : Rule → K → Option String × K} where
  Installed-step :
      (s : Ensures count step) (r : Rule) (rs : List Rule) (k : K)
      → Installed count rs k
      → Installed count rs (step r k).1
  Installed-step s r [] k p = tt
  Installed-step s r (q ∷ qs) k (a, b) = (omega (arith, s.kept r q k), Installed-step s r qs k b)

  until_error-keeps :
      (s : Ensures count step) (rs : List Rule) (r : Rule) (k : K)
      → count r k ≤ count r (until_error step rs k).1
  unfolding until_error
  until_error-keeps s [] r k = omega arith
  until_error-keeps s (q ∷ qs) r k =
      let now = s.kept q r k in
      let rest = until_error-keeps s qs r (step q k).1 in
      elim (Option-cases (step q k).0) [
        | inl e ↦ rw (e, until_error) (omega arith)
        | inr (m, e) ↦ rw (e, until_error) now
      ]

  -- A loop that succeeds leaves all rules in place.
  pub until_error-Installed :
      (s : Ensures count step) (rs : List Rule) (k : K)
      → (until_error step rs k).0 ≡ none
      → Installed count rs (until_error step rs k).1
  unfolding until_error
  until_error-Installed s [] k e = tt
  until_error-Installed s (q ∷ qs) k e = elim (Option-cases (step q k).0) [
    | inl f ↦
        let there = s.done q k f in
        let rest : (until_error step qs (step q k).1).0 ≡ none = rw (f, until_error) at e in
        subst (λ (x : Option String × K). Installed count (q ∷ qs) x.1)
          (sym (until_error-passes step q qs k f))
          (
            omega (arith, until_error-keeps s qs q (step q k).1),
            until_error-Installed s qs (step q k).1 rest,
          )
    | inr (m, f) ↦ let bad : ◌≡◌ {A = Option String} (some m) none = rw (f, until_error) at e in cc
  ]

  -- A loop over rules that are in place does nothing.
  pub until_error_again :
      (s : Ensures count step) (rs : List Rule) (k : K)
      → Installed count rs k
      → until_error step rs k ≡ (none, k)
  unfolding until_error
  until_error_again s [] k p = refl
  until_error_again s (q ∷ qs) k (a, b) =
      until_error-passes step q qs k (ap (λ (x : Option String × K). x.0) (s.again q k a))
      ∙ ap (λ (x : Option String × K). until_error step qs x.1) (s.again q k a)
      ∙ until_error_again s qs k b

module _ {K : Type 0} {h : Host K} {count : Rule → K → ℕ} (laws : IsIptables h count) where
  delete_rule_other : (r r' : Rule) (k : K) → r ≢ r' → count r' (delete_rule h r k).1 ≡ count r' k
  unfolding delete_rule
  delete_rule_other r r' k d =
      let same = ap (count r') (laws.check_state r k) in
      elim (Option-cases (h.run (iptables_args "-C" r) k).0) [
        | inl f ↦
            rw (f, delete_rule) (laws.delete_other r r' (h.run (iptables_args "-C" r) k).1 d ∙ same)
        | inr (m, f) ↦ rw (f, delete_rule) same
      ]

  -- A removal leaves every rule alone that is not one of those to be removed.
  pub delete_rules_other :
      (rs : List Rule) (r' : Rule) (k : K)
      → All (λ r. r ≢ r') rs
      → count r' (delete_rules h rs k).1 ≡ count r' k
  unfolding delete_rules
  delete_rules_other [] r' k d = refl
  delete_rules_other (r ∷ rs) r' k (d, ds) =
      delete_rules_other rs r' (delete_rule h r k).1 ds ∙ delete_rule_other r r' k d
