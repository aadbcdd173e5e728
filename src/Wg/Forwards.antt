-- ===== src/Wg/Forwards.antt =====
-- backend/wg/portforward.go: the rules of a port forward.
pub mod Laws
use vpn_manager.Common.{
  ℕ, String, Bool, Option, none, some, List, [], ◌∷◌, ◌++◌, ◌||◌, ◌=ₛ◌, if◌then◌else◌,
}
use vpn_manager.Text.{◌⧺◌, trim_space, to_lower, itoa}
use vpn_manager.Wg.Firewall.{
  Rule, Host, table_args, iptables_args, ensure_with, ensure_rule, delete_rules, until_error,
  enable_forwarding,
}

-- `PortForward` of backend/models/port_forward.go; timestamps are left out
pub record PortForward : Type 0 where
  pub id : ℕ
  pub interface_id : ℕ
  pub peer_id : ℕ
  pub protocol : String
  pub public_port : ℕ
  pub target_port : ℕ
  pub target_ip : String
  pub egress : String
  pub enabled : Bool
  pub comment : String
  pub owner_id : Option ℕ

-- `normalizeProto`
unfoldable pub normalize_proto : String → String
normalize_proto p = if to_lower (trim_space p) =ₛ "udp" then "udp" else "tcp"

-- `pfComment`
unfoldable pub pf_comment : ℕ → String
pf_comment id = "vpn-manager-pf-" ⧺ itoa id

abbrev tagged : PortForward → List String → List String
tagged pf args = args ++ ("-m" ∷ "comment" ∷ "--comment" ∷ pf_comment pf.id ∷ [])

-- `portForwardRules`
unfoldable pub port_forward_rules : PortForward → String → List Rule
unfolding normalize_proto
port_forward_rules pf device =
    let proto = normalize_proto pf.protocol in
    let dport = itoa pf.public_port in
    let tport = itoa pf.target_port in
    let target = pf.target_ip ⧺ ":" ⧺ tport in
    record {
      table = "nat";
      chain = "PREROUTING";
      args = tagged pf (
          "-i" ∷ pf.egress ∷ "-p" ∷ proto ∷ "--dport" ∷ dport ∷ "-j" ∷ "DNAT" ∷ "--to-destination"
          ∷ target ∷ []);
    }
    ∷ record {
      table = "";
      chain = "FORWARD";
      args = tagged pf (
          "-i" ∷ pf.egress ∷ "-o" ∷ device ∷ "-p" ∷ proto ∷ "-d" ∷ pf.target_ip ∷ "--dport" ∷ tport
          ∷ "-j" ∷ "ACCEPT" ∷ []);
    }
    ∷ record {
      table = "";
      chain = "FORWARD";
      args = tagged pf (
          "-i" ∷ device ∷ "-o" ∷ pf.egress ∷ "-m" ∷ "state" ∷ "--state" ∷ "RELATED,ESTABLISHED"
          ∷ "-j" ∷ "ACCEPT" ∷ []);
    }
    ∷ record {
      table = "nat";
      chain = "POSTROUTING";
      args = tagged pf (
          "-o" ∷ device ∷ "-p" ∷ proto ∷ "-d" ∷ pf.target_ip ∷ "--dport" ∷ tport ∷ "-j"
          ∷ "MASQUERADE" ∷ []);
    }
    ∷ []

-- the arguments of `ensureRuleInsert`
unfoldable pub insert_args : Rule → List String
insert_args r = table_args r ++ ("-I" ∷ r.chain ∷ "1" ∷ r.args)

module _ {K : Type 0} (h : Host K) where
  -- `ensureRuleInsert`
  unfoldable pub ensure_rule_insert : Rule → K → Option String × K
  unfolding ensure_with iptables_args insert_args
  ensure_rule_insert r k = ensure_with h insert_args r k

  -- the body of the loop of `ApplyPortForward`
  unfoldable pub install : Rule → K → Option String × K
  unfolding ensure_rule_insert ensure_rule
  install r k = if r.chain =ₛ "FORWARD" then ensure_rule_insert r k else ensure_rule h r k

  -- `ApplyPortForward`
  unfoldable pub apply_port_forward : PortForward → String → K → Option String × K
  unfolding enable_forwarding until_error install port_forward_rules
  apply_port_forward pf device k =
      let forwarding = enable_forwarding h k in
      let rules = until_error install (port_forward_rules pf device) forwarding.1 in
      if trim_space pf.target_ip =ₛ "" || trim_space pf.egress =ₛ ""
      then (
        some
            ("port forward " ⧺ itoa pf.id ⧺ " is missing a resolved target IP or egress interface"),
        k,
      )
      else elim forwarding.0 [ some e ↦ (some e, forwarding.1) | none ↦ rules ]

  -- `RemovePortForward`
  unfoldable pub remove_port_forward : PortForward → String → K → Option String × K
  unfolding delete_rules port_forward_rules
  remove_port_forward pf device k = delete_rules h (port_forward_rules pf device) k
