-- ===== src/Wg/Simulated.antt =====
-- A host for the tests: a list of rules that the commands of iptables change, and a forwarding switch.
pub mod Laws
use vpn_manager.Common.{
  ℕ, suc, ◌≤◌, ◌<◌, String, Bool, true, false, ◌&&◌, Option, none, some, List, [], ◌∷◌, any, ◌≡◌,
  ◌≢◌, refl, sym, ap, ◌∙◌, arith, Bool-cases, if-cases, inl, inr, if◌then◌else◌, ◌=ₛ◌, =ₛ_iff,
  subst,
}
use vpn_manager.Wg.Firewall.{Rule, Host, fine, iptables_args}
use vpn_manager.Wg.Firewall.Laws.{IsIptables, Adds}
use vpn_manager.Wg.Firewall.Setup.{IsForwarding}
use vpn_manager.Wg.Forwards.{insert_args}

-- a rule as its table, chain and arguments in one list
abbrev pub Key : Type 0
Key = List String

pub record State : Type 0 where
  pub forwarding : Bool
  pub rules : List Key

abbrev pub same : Key → Key → Bool
same [] [] = true
same [] (b ∷ bs) = false
same (a ∷ as_rest) [] = false
same (a ∷ as_rest) (b ∷ bs) = a =ₛ b && same as_rest bs

abbrev pub copies : Key → List Key → ℕ
copies k [] = 0
copies k (l ∷ ls) = if same k l then suc (copies k ls) else copies k ls

abbrev pub remove_first : Key → List Key → List Key
remove_first k [] = []
remove_first k (l ∷ ls) = let rest = remove_first k ls in if same k l then ls else l ∷ rest

abbrev pub set_rules : List Key → State → State
set_rules ls s = record s { rules = ls }

pub command : String → Key → State → Option String × State
command action k s =
    let found = any (same k) s.rules in
    if action =ₛ "-C"
    then (if found then none else some "no such rule", s)
    else if action =ₛ "-D"
    then (if found then none else some "no such rule", set_rules (remove_first k s.rules) s)
    else (none, set_rules (k ∷ s.rules) s)

-- `-I chain 1 rule`
abbrev pub without_position : Key → Key
without_position (t ∷ c ∷ n ∷ rest) = t ∷ c ∷ rest
without_position k = k

pub in_table : String → List String → State → Option String × State
unfolding command
in_table table (action ∷ rest) s =
    if action =ₛ "-I"
    then command "-A" (without_position (table ∷ rest)) s
    else command action (table ∷ rest) s
in_table table [] s = (some "no command", s)

unfoldable pub run : List String → State → Option String × State
unfolding in_table
run (a ∷ b ∷ rest) s = if a =ₛ "-t" then in_table b rest s else in_table "" (a ∷ b ∷ rest) s
run _ s = (some "no command", s)

abbrev pub host : Host State
host = record {
  run = run;
  read_forwarding = λ s. some (if s.forwarding then "1\n" else "0\n");
  write_forwarding = λ s. (none, record s { forwarding = true });
  parse_subnet = λ a. fine "10.8.0.0/24";
  routes = fine (record { has_destination = false; link = fine "eth0" } ∷ []);
}

abbrev pub key : Rule → Key
key r = r.table ∷ r.chain ∷ r.args

abbrev pub count : Rule → State → ℕ
count r s = copies (key r) s.rules

abbrev pub off : State
off = record { forwarding = false; rules = [] }
