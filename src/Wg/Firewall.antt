-- ===== src/Wg/Firewall.antt =====
-- backend/wg/nat.go: the NAT and forwarding rules of an interface. `iptables`, the `ip_forward` file,
-- the parser of CIDRs and the routing table are parameters; `K` is the state of the host.
pub mod Laws
pub mod Setup
use vpn_manager.Common.{String, Bool, Option, none, some, List, [], ◌∷◌, ◌++◌, ◌=ₛ◌, if◌then◌else◌}
use vpn_manager.Text.{◌⧺◌, trim_space}

-- a value, or the message of an error
pub data Result (A : Type 0) : Type 0 where
  fine : A → Result A
  broken : String → Result A

pub record Rule : Type 0 where
  pub table : String
  pub chain : String
  pub args : List String

-- `natRules`
unfoldable pub nat_rules : String → String → String → List Rule
nat_rules subnet device egress =
    record {
      table = "nat";
      chain = "POSTROUTING";
      args = "-s" ∷ subnet ∷ "-o" ∷ egress ∷ "-j" ∷ "MASQUERADE" ∷ [];
    }
    ∷ record {
      table = "";
      chain = "FORWARD";
      args = "-i" ∷ device ∷ "-o" ∷ egress ∷ "-j" ∷ "ACCEPT" ∷ [];
    }
    ∷ record {
      table = "";
      chain = "FORWARD";
      args =
          "-i" ∷ egress ∷ "-o" ∷ device ∷ "-m" ∷ "state" ∷ "--state" ∷ "RELATED,ESTABLISHED" ∷ "-j"
          ∷ "ACCEPT" ∷ [];
    }
    ∷ record {
      table = "";
      chain = "FORWARD";
      args = "-i" ∷ device ∷ "-o" ∷ device ∷ "-j" ∷ "ACCEPT" ∷ [];
    }
    ∷ []

abbrev pub table_args : Rule → List String
table_args r = if r.table =ₛ "" then [] else "-t" ∷ r.table ∷ []

-- `iptablesArgs`
unfoldable pub iptables_args : String → Rule → List String
iptables_args action r = table_args r ++ (action ∷ r.chain ∷ r.args)

-- A default route has no destination, or the unspecified one; `link` is the result of `LinkByIndex`.
pub record Route : Type 0 where
  pub has_destination : Bool
  pub link : Result String

-- What the package calls on the host; the error of a call is a message.
pub record Host (K : Type 0) : Type 0 where
  pub run : List String → K → Option String × K
  pub read_forwarding : K → Option String
  pub write_forwarding : K → Option String × K
  -- `net.ParseCIDR`, with the network printed
  pub parse_subnet : String → Result String
  pub routes : Result (List Route)

-- the first default route's link
default_link : List Route → Result String
default_link [] = broken "no IPv4 default route found"
default_link (r ∷ rs) =
    let rest = default_link rs in
    if r.has_destination
    then rest
    else elim r.link [ fine name ↦ fine name | broken e ↦ broken ("resolve egress link: " ⧺ e) ]

pub record Nat : Type 0 where
  pub egress : String
  pub error : Option String

-- a loop that stops at the first error
unfoldable pub until_error :
    {K : Type 0} → (Rule → K → Option String × K) → List Rule → K → Option String × K
until_error step [] k = (none, k)
until_error step (r ∷ rs) k =
    let now = step r k in
    let rest = until_error step rs now.1 in elim now.0 [ none ↦ rest | some e ↦ (some e, now.1) ]

pub already_on : Option String → Bool
already_on none = Bool.false
already_on (some text) = trim_space text =ₛ "1"

module _ {K : Type 0} (h : Host K) where
  -- `DefaultEgressInterface`
  unfoldable pub default_egress : Result String
  unfolding default_link
  default_egress = elim h.routes [
    | broken e ↦ broken ("list routes: " ⧺ e)
    | fine rs ↦ default_link rs
  ]

  -- `subnetFor`; the message quotes no address here
  unfoldable pub subnet_for : String → Result String
  subnet_for address = elim (h.parse_subnet (trim_space address)) [
    | fine subnet ↦ fine subnet
    | broken e ↦ broken ("invalid interface address: " ⧺ e)
  ]

  -- `ensureRule`, with the arguments that add the rule: the shape `ensureRuleInsert` shares
  unfoldable pub ensure_with : (Rule → List String) → Rule → K → Option String × K
  unfolding iptables_args
  ensure_with add r k =
      let seen = h.run (iptables_args "-C" r) k in
      elim seen.0 [ none ↦ (none, seen.1) | some _ ↦ h.run (add r) seen.1 ]

  unfoldable pub ensure_rule : Rule → K → Option String × K
  unfolding ensure_with iptables_args
  ensure_rule r k = ensure_with (iptables_args "-A") r k

  -- `deleteRule`
  unfoldable pub delete_rule : Rule → K → Option String × K
  unfolding iptables_args
  delete_rule r k =
      let seen = h.run (iptables_args "-C" r) k in
      elim seen.0 [ none ↦ h.run (iptables_args "-D" r) seen.1 | some _ ↦ (none, seen.1) ]

  -- a loop that goes on and keeps the first error
  unfoldable pub delete_rules : List Rule → K → Option String × K
  unfolding delete_rule
  delete_rules [] k = (none, k)
  delete_rules (r ∷ rs) k =
      let now = delete_rule r k in
      let rest = delete_rules rs now.1 in (elim now.0 [ none ↦ rest.0 | some e ↦ some e ], rest.1)

  -- `EnableForwarding`
  unfoldable pub enable_forwarding : K → Option String × K
  unfolding already_on
  enable_forwarding k =
      if already_on (h.read_forwarding k)
      then (none, k)
      else let done = h.write_forwarding k in
        (
          elim done.0 [
            | none ↦ none
            | some e ↦
                some ("enable ip_forward (run `sysctl -w net.ipv4.ip_forward=1` on the host): " ⧺ e)
          ],
          done.1,
        )

  setup_on : String → String → String → K → Nat × K
  unfolding enable_forwarding until_error ensure_rule nat_rules
  setup_on subnet device egress k =
      let forwarding = enable_forwarding k in
      let rules = until_error ensure_rule (nat_rules subnet device egress) forwarding.1 in
      elim forwarding.0 [
        | some e ↦ (record { egress = egress; error = some e }, forwarding.1)
        | none ↦ (record { egress = egress; error = rules.0 }, rules.1)
      ]

  chosen_egress : String → Result String
  unfolding default_egress
  chosen_egress configured =
      if configured =ₛ ""
      then elim default_egress [
        | fine name ↦ fine name
        | broken e ↦ broken ("auto-detect egress interface: " ⧺ e)
      ]
      else fine configured

  -- `SetupNAT` of an interface's address, name and egress
  unfoldable pub setup_nat : String → String → String → K → Nat × K
  unfolding subnet_for chosen_egress setup_on
  setup_nat address device egress k = elim (subnet_for address) [
    | broken e ↦ (record { egress = ""; error = some e }, k)
    | fine subnet ↦ elim (chosen_egress (trim_space egress)) [
      | broken e ↦ (record { egress = ""; error = some e }, k)
      | fine name ↦ setup_on subnet device name k
    ]
  ]

  best_effort : String → String
  unfolding default_egress
  best_effort configured =
      if configured =ₛ ""
      then elim default_egress [ fine name ↦ name | broken _ ↦ "" ]
      else configured

  -- `TeardownNAT`
  unfoldable pub teardown_nat : String → String → String → K → Option String × K
  unfolding subnet_for best_effort delete_rules nat_rules
  teardown_nat address device egress k = elim (subnet_for address) [
    | broken e ↦ (some e, k)
    | fine subnet ↦
        let name = best_effort (trim_space egress) in
        if name =ₛ "" then (none, k) else delete_rules (nat_rules subnet device name) k
  ]
