-- ===== src/Wg/Simulated/Laws.antt =====
-- The simulated host behaves as iptables documents.
use vpn_manager.Common.{
  ◌≤◌, ◌<◌, String, Bool, true, false, Option, none, some, List, [], ◌∷◌, any, ◌≡◌, ◌≢◌, refl, sym,
  ap, ◌∙◌, arith, Bool-cases, if-cases, inl, inr, if◌then◌else◌, ◌=ₛ◌, =ₛ_iff, subst,
}
use vpn_manager.Wg.Firewall.{Rule, iptables_args}
use vpn_manager.Wg.Firewall.Laws.{IsIptables, Adds}
use vpn_manager.Wg.Firewall.Setup.{IsForwarding}
use vpn_manager.Wg.Forwards.{insert_args}
use vpn_manager.Wg.Simulated.{
  Key, State, same, copies, remove_first, command, without_position, in_table, run, host, key,
  count,
}

same_refl : (k : Key) → same k k ≡ true
same_refl [] = refl
same_refl (a ∷ k) = ground (arith, (=ₛ_iff a a).1 refl, same_refl k)

same_sound : (k l : Key) → same k l ≡ true → k ≡ l
same_sound [] [] h = refl
same_sound [] (b ∷ bs) h = cc
same_sound (a ∷ k) [] h = cc
same_sound (a ∷ k) (b ∷ l) h = elim (Bool-cases (a =ₛ b)) [
  | inl e ↦
      let head : a ≡ b = (=ₛ_iff a b).0 e in
      let tail : k ≡ l = same_sound k l (ground (arith, e)) in rw (head, tail) refl
  | inr e ↦ ground (arith, e)
]

run-eq :
    (action : String) (r : Rule) (s : State)
    → (action =ₛ "-t") ≡ false
    → (action =ₛ "-I") ≡ false
    → run (iptables_args action r) s ≡ command action (key r) s
unfolding run in_table iptables_args
run-eq action r s h i = elim (Bool-cases (r.table =ₛ "")) [
  | inl e ↦
      let empty : r.table ≡ "" = (=ₛ_iff r.table "").0 e in
      rw (e, if◌then◌else◌, h, i)
        (ap (λ (t : String). command action (t ∷ r.chain ∷ r.args) s) (sym empty))
  | inr e ↦ rw (e, if◌then◌else◌, i) refl
]

run-insert : (r : Rule) (s : State) → run (insert_args r) s ≡ command "-A" (key r) s
unfolding run in_table insert_args
run-insert r s = elim (Bool-cases (r.table =ₛ "")) [
  | inl e ↦
      let empty : r.table ≡ "" = (=ₛ_iff r.table "").0 e in
      rw (e, if◌then◌else◌) (ap (λ (t : String). command "-A" (t ∷ r.chain ∷ r.args) s) (sym empty))
  | inr e ↦ rw (e, if◌then◌else◌) refl
]

copies-found : (k : Key) (ls : List Key) → any (same k) ls ≡ true → 0 < copies k ls
copies-found k [] h = cc
copies-found k (l ∷ ls) h = ground (arith, copies-found k ls)

found-copies : (k : Key) (ls : List Key) → 0 < copies k ls → any (same k) ls ≡ true
found-copies k [] h = absurd (omega (arith, h))
found-copies k (l ∷ ls) h = ground (arith, found-copies k ls)

remove_first-other :
    (k j : Key) (ls : List Key) → k ≢ j → copies j (remove_first k ls) ≡ copies j ls
remove_first-other k j [] d = refl
remove_first-other k j (l ∷ ls) d = elim (Bool-cases (same k l)) [
  | inr e ↦ ground (arith, e, remove_first-other k j ls d)
  | inl e ↦ elim (Bool-cases (same j l)) [
    | inl f ↦ absurd (d (same_sound k l e ∙ sym (same_sound j l f)))
    | inr f ↦ ground (arith, e, f)
  ]
]

key-injective : (r r' : Rule) → key r ≡ key r' → r ≡ r'
key-injective r r' e =
    let t : r.table ≡ r'.table = cc in
    let c : r.chain ≡ r'.chain = cc in
    let a : r.args ≡ r'.args = cc in λ i. record { table = t i; chain = c i; args = a i }

keeps_add : (r r' : Rule) (s : State) → count r' s ≤ count r' (command "-A" (key r) s).1
unfolding command
keeps_add r r' s = ground arith

has_add : (r : Rule) (s : State) → 0 < count r (command "-A" (key r) s).1
unfolding command
has_add r s = ground (arith, same_refl (key r))

check_some : (k : Key) (s : State) → (command "-C" k s).0 ≡ none → any (same k) s.rules ≡ true
unfolding command
check_some k s e = elim (Bool-cases (any (same k) s.rules)) [
  | inl f ↦ f
  | inr f ↦
      let bad : ◌≡◌ {A = Option String} (some "no such rule") none = rw (f, if◌then◌else◌) at e in
      cc
]

check_none : (k : Key) (s : State) → any (same k) s.rules ≡ true → (command "-C" k s).0 ≡ none
unfolding command
check_none k s e = rw (e, if◌then◌else◌) refl

abbrev after : Option String × State → State
after x = x.1

abbrev error_of : Option String × State → Option String
error_of x = x.0

pub host-IsIptables : IsIptables host count
unfolding command
host-IsIptables = record {
  check_state = λ r s. ap after (run-eq "-C" r s refl refl);
  check_found = λ r s p.
      ap error_of (run-eq "-C" r s refl refl)
      ∙ check_none (key r) s (found-copies (key r) s.rules p);
  check_missing = λ r s e.
      copies-found (key r) s.rules
        (check_some (key r) s (ap error_of (sym (run-eq "-C" r s refl refl)) ∙ e));
  delete_other = λ r r' s d.
      ap (λ (x : Option String × State). count r' x.1) (run-eq "-D" r s refl refl)
      ∙ remove_first-other (key r) (key r') s.rules (λ e. d (key-injective r r' e));
}

pub append-Adds : Adds host count (iptables_args "-A")
append-Adds = record {
  added = λ r s e.
      subst (λ (x : Option String × State). 0 < count r x.1) (sym (run-eq "-A" r s refl refl))
        (has_add r s);
  kept = λ r r' s.
      subst (λ (x : Option String × State). count r' s ≤ count r' x.1)
        (sym (run-eq "-A" r s refl refl)) (keeps_add r r' s);
}

pub insert-Adds : Adds host count insert_args
insert-Adds = record {
  added = λ r s e.
      subst (λ (x : Option String × State). 0 < count r x.1) (sym (run-insert r s)) (has_add r s);
  kept = λ r r' s.
      subst (λ (x : Option String × State). count r' s ≤ count r' x.1) (sym (run-insert r s))
        (keeps_add r r' s);
}

abbrev KeepsForwarding : State → Option String × State → Type 0
KeepsForwarding s x = x.1.forwarding ≡ s.forwarding

command-forwarding :
    (action : String) (k : Key) (s : State) → KeepsForwarding s (command action k s)
unfolding command
command-forwarding action k s =
    if-cases (KeepsForwarding s) (action =ₛ "-C") _ _ refl
      (if-cases (KeepsForwarding s) (action =ₛ "-D") _ _ refl refl)

in_table-forwarding :
    (table : String) (args : List String) (s : State) → KeepsForwarding s (in_table table args s)
unfolding in_table
in_table-forwarding table [] s = refl
in_table-forwarding table (a ∷ rest) s =
    if-cases (KeepsForwarding s) (a =ₛ "-I") _ _
      (command-forwarding "-A" (without_position (table ∷ rest)) s)
      (command-forwarding a (table ∷ rest) s)

run-forwarding : (args : List String) (s : State) → KeepsForwarding s (run args s)
unfolding run
run-forwarding [] s = refl
run-forwarding (a ∷ []) s = refl
run-forwarding (a ∷ b ∷ rest) s =
    if-cases (KeepsForwarding s) (a =ₛ "-t") _ _ (in_table-forwarding b rest s)
      (in_table-forwarding "" (a ∷ b ∷ rest) s)

pub host-IsForwarding : IsForwarding host
host-IsForwarding = record {
  read_write = λ s e. refl;
  read_run = λ args s. ap (λ (b : Bool). some (if b then "1\n" else "0\n")) (run-forwarding args s);
}
