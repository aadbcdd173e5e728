-- ===== src/Wg/Forwards/Laws.antt =====
-- Port forwards: applying one twice, and removing one beside others.
use vpn_manager.Common.{
  ℕ, ◌^◌, ◌<◌, String, Bool, false, ◌||◌, Option, none, some, List, [], ◌∷◌, ◌≡◌, ◌≢◌, refl, sym,
  ◌∙◌, ap, inl, inr, All, subst, Option-cases, Bool-cases, if◌then◌else◌, ◌=ₛ◌,
}
use mathlib.Core.List.{Memᴰ}
use vpn_manager.Text.{trim_space, itoa, ◌⧺◌, parse_uint}
use vpn_manager.Text.Decimal.{parse_uint-itoa}
use vpn_manager.Wg.Firewall.{Rule, Host, iptables_args, ensure_rule, until_error, enable_forwarding}
use vpn_manager.Wg.Firewall.Laws.{
  IsIptables, Adds, Ensures, Installed, ensure_with-Ensures, until_error-Installed,
  until_error_again, delete_rules_other,
}
use vpn_manager.Wg.Firewall.Setup.{
  IsForwarding, IsOn, enable_forwarding-IsOn, enable_forwarding_again, IsOn-ensure_with,
  IsOn-until_error,
}
use vpn_manager.Wg.Forwards.{
  PortForward, pf_comment, port_forward_rules, insert_args, install, ensure_rule_insert,
  apply_port_forward, remove_port_forward,
}

pf_comment-injective : (a b : ℕ) → a < 2 ^ 64 → b < 2 ^ 64 → pf_comment a ≡ pf_comment b → a ≡ b
unfolding pf_comment
pf_comment-injective a b ha hb e =
    let digits : itoa a ≡ itoa b = cc in
    let read : ◌≡◌ {A = Option ℕ} (some a) (some b) =
      sym (parse_uint-itoa a ha) ∙ ap parse_uint digits ∙ parse_uint-itoa b hb in
    cc

last_of : List String → String
last_of [] = ""
last_of (a ∷ []) = a
last_of (a ∷ b ∷ l) = last_of (b ∷ l)

port_forward_rules-last :
    (pf : PortForward) (device : String)
    → All (λ r. last_of r.args ≡ pf_comment pf.id) (port_forward_rules pf device)
unfolding port_forward_rules last_of
port_forward_rules-last pf device = (refl, (refl, (refl, (refl, tt))))

All-Memᴰ : {A : Type 0} (P : A → Type 0) {x : A} (xs : List A) → All P xs → Memᴰ x xs → P x
All-Memᴰ P [] p m = elim m [ ]
All-Memᴰ P (y ∷ ys) (p, ps) (Memᴰ.head e) = subst P (sym e) p
All-Memᴰ P (y ∷ ys) (p, ps) (Memᴰ.tail m) = All-Memᴰ P ys ps m

All-map :
    {A : Type 0} (P Q : A → Type 0) (xs : List A) → ((x : A) → P x → Q x) → All P xs → All Q xs
All-map P Q [] f p = tt
All-map P Q (x ∷ xs) f (p, ps) = (f x p, All-map P Q xs f ps)

module _ {K : Type 0} {h : Host K} {count : Rule → K → ℕ} (laws : IsIptables h count) where
  -- Removing a port forward changes the count of no rule of a port forward with another id.
  pub remove_port_forward_keeps :
      (pf other : PortForward) (device device' : String) (r : Rule) (k : K)
      → pf.id < 2 ^ 64
      → other.id < 2 ^ 64
      → pf.id ≢ other.id
      → Memᴰ r (port_forward_rules other device')
      → count r (remove_port_forward h pf device k).1 ≡ count r k
  unfolding remove_port_forward
  remove_port_forward_keeps pf other device device' r k small small' differ m =
      delete_rules_other laws (port_forward_rules pf device) r k (
        All-map (λ q. last_of q.args ≡ pf_comment pf.id) (λ q. q ≢ r) (port_forward_rules pf device)
          (λ q e same. differ (
            pf_comment-injective pf.id other.id small small' (
              sym e
              ∙ ap (λ (x : Rule). last_of x.args) same
              ∙ All-Memᴰ (λ r. last_of r.args ≡ pf_comment other.id)
                  (port_forward_rules other device') (port_forward_rules-last other device') m)))
          (port_forward_rules-last pf device))

module _ {K : Type 0} {h : Host K} {count : Rule → K → ℕ} (laws : IsIptables h count)
    (appends : Adds h count (iptables_args "-A")) (inserts : Adds h count insert_args)
    (f : IsForwarding h) where
  install-Ensures : Ensures count (install h)
  unfolding install ensure_rule ensure_rule_insert
  install-Ensures = record {
    done = λ r k e. elim (Bool-cases (r.chain =ₛ "FORWARD")) [
      | inl c ↦
          rw (c, if◌then◌else◌)
            ((ensure_with-Ensures laws inserts).done r k (rw (c, if◌then◌else◌) at e))
      | inr c ↦
          rw (c, if◌then◌else◌)
            ((ensure_with-Ensures laws appends).done r k (rw (c, if◌then◌else◌) at e))
    ];
    kept = λ r r' k. elim (Bool-cases (r.chain =ₛ "FORWARD")) [
      | inl c ↦ rw (c, if◌then◌else◌) ((ensure_with-Ensures laws inserts).kept r r' k)
      | inr c ↦ rw (c, if◌then◌else◌) ((ensure_with-Ensures laws appends).kept r r' k)
    ];
    again = λ r k p. elim (Bool-cases (r.chain =ₛ "FORWARD")) [
      | inl c ↦ rw (c, if◌then◌else◌) ((ensure_with-Ensures laws inserts).again r k p)
      | inr c ↦ rw (c, if◌then◌else◌) ((ensure_with-Ensures laws appends).again r k p)
    ];
  }

  install-IsOn : (r : Rule) (k : K) → IsOn h k → IsOn h (install h r k).1
  unfolding install ensure_rule ensure_rule_insert
  install-IsOn r k on = elim (Bool-cases (r.chain =ₛ "FORWARD")) [
    | inl e ↦ rw (e, if◌then◌else◌) (IsOn-ensure_with f insert_args r k on)
    | inr e ↦ rw (e, if◌then◌else◌) (IsOn-ensure_with f (iptables_args "-A") r k on)
  ]

  abbrev incomplete : PortForward → Bool
  incomplete pf = trim_space pf.target_ip =ₛ "" || trim_space pf.egress =ₛ ""

  apply-result :
      (pf : PortForward) (device : String) (k : K)
      → incomplete pf ≡ false
      → (enable_forwarding h k).0 ≡ none
      → apply_port_forward h pf device k
        ≡ until_error (install h) (port_forward_rules pf device) (enable_forwarding h k).1
  unfolding apply_port_forward
  apply-result pf device k c e = rw (c, if◌then◌else◌, e, apply_port_forward) refl

  -- A port forward that was applied has all its rules in place, and it may be applied again: that
  -- succeeds and leaves the host as it is. For a host whose iptables and `ip_forward` behave as
  -- documented.
  pub apply_port_forward_again :
      (pf : PortForward) (device : String) (k : K)
      → (apply_port_forward h pf device k).0 ≡ none
      → Installed count (port_forward_rules pf device) (apply_port_forward h pf device k).1
        × (apply_port_forward h pf device (apply_port_forward h pf device k).1
            ≡ apply_port_forward h pf device k)
  unfolding apply_port_forward
  apply_port_forward_again pf device k e = elim (Bool-cases (incomplete pf)) [
    | inl c ↦
        let no : ◌≡◌ {A = Option String}
            (some (
              "port forward "
              ⧺ itoa pf.id
              ⧺ " is missing a resolved target IP or egress interface"))
            none =
          rw (c, if◌then◌else◌) at e in
        cc
    | inr c ↦ elim (Option-cases (enable_forwarding h k).0) [
      | inr (m, bad) ↦
          let no : ◌≡◌ {A = Option String} (some m) none =
            rw (c, if◌then◌else◌, bad, apply_port_forward) at e in
          cc
      | inl on ↦
          let first = apply-result pf device k c on in
          let rules = port_forward_rules pf device in
          let out = until_error (install h) rules (enable_forwarding h k).1 in
          let ok : out.0 ≡ none = ap (λ (x : Option String × K). x.0) (sym first) ∙ e in
          let there = until_error-Installed install-Ensures rules (enable_forwarding h k).1 ok in
          let forwarding = enable_forwarding_again f out.1 (
            IsOn-until_error f (install h) install-IsOn rules (enable_forwarding h k).1
              (enable_forwarding-IsOn f k on)) in
          (
            subst (λ (x : Option String × K). Installed count rules x.1) (sym first) there,
            ap (λ (x : Option String × K). apply_port_forward h pf device x.1) first
                ∙ apply-result pf device out.1 c (ap (λ (x : Option String × K). x.0) forwarding)
                ∙ ap (λ (x : Option String × K). until_error (install h) rules x.1) forwarding
                ∙ until_error_again install-Ensures rules out.1 there
                ∙ ap (λ (o : Option String). (o, out.1)) (sym ok)
                ∙ sym first,
          )
    ]
  ]
