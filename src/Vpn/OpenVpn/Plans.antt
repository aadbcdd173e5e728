-- ===== src/Vpn/OpenVpn/Plans.antt =====
-- The plans of backend/openvpn/operations.go and the stored manifest of manifest_record.go.
use vpn_manager.Common.{
  ℕ, String, Bool, Option, none, some, List, [], ◌∷◌, ◌==◌, ◌=ₛ◌, if◌then◌else◌,
}
use vpn_manager.Text.{◌⧺◌, itoa, join, trim_space, to_lower}
use vpn_manager.Wg.Firewall.{Result, fine, broken}
use vpn_manager.Vpn.Slug.{sanitize_instance_name}
use vpn_manager.Vpn.OpenVpn.{Ipv4Network, build_container_runtime_manifest}

-- `OpenVPNInstance` without its users and its times
pub record OpenVpnInstance : Type 0 where
  pub id : ℕ
  pub name : String
  pub remote_host : String
  pub listen_port : ℕ
  pub protocol : String
  pub tunnel_cidr : String
  pub dns : String
  pub enabled : Bool
  pub runtime_mode : String
  pub ca_ref : String
  pub server_cert_ref : String
  pub server_key_ref : String
  pub tls_crypt_ref : String
  pub owner_id : Option ℕ

-- `EnablementGates`, whose four flags are one
unfoldable pub build_enablement_gates : Bool → Bool × List String
build_enablement_gates enabled = (
  enabled,
  if enabled
      then []
      else "VPN_EXECUTION_ENABLED must be true before the API writes config and runs container/firewall commands"
        ∷ [],
)

-- `LifecyclePlan`, without its fixed texts
pub record LifecyclePlan : Type 0 where
  pub action : String
  pub project_name : String
  pub container_name : String
  pub commands : List String

-- the map `commands` at an action, `none` for one that is not allowed
unfoldable pub commands_of : String → String → Option (List String)
commands_of base action =
    if action =ₛ "start"
    then some ((base ⧺ " up -d") ∷ [])
    else if action =ₛ "stop"
    then some ((base ⧺ " down") ∷ [])
    else if action =ₛ "restart"
    then some ((base ⧺ " down") ∷ (base ⧺ " up -d") ∷ [])
    else if action =ₛ "reload"
    then some ((base ⧺ " exec openvpn sh -c 'kill -HUP 1'") ∷ [])
    else if action =ₛ "status"
    then some ((base ⧺ " ps") ∷ (base ⧺ " logs --tail=100 openvpn") ∷ [])
    else none

-- the start of every command
abbrev pub compose_base : String → ℕ → String
compose_base project id =
    "docker compose -p "
    ⧺ project
    ⧺ " -f /var/lib/vpn-manager/openvpn/"
    ⧺ itoa id
    ⧺ "/docker-compose.yml"

unfoldable pub lifecycle_plan : String → String → Option (List String) → Result LifecyclePlan
lifecycle_plan action name none = broken "unsupported OpenVPN lifecycle action"
lifecycle_plan action name (some commands) =
    if name =ₛ ""
    then broken "instance name is required"
    else fine (record {
      action = action;
      project_name = "vpn-manager-openvpn-" ⧺ name;
      container_name = "vpn-manager-openvpn-" ⧺ name;
      commands = commands;
    })

-- `BuildLifecyclePlan`
unfoldable pub build_lifecycle_plan : OpenVpnInstance → String → Result LifecyclePlan
unfolding commands_of lifecycle_plan sanitize_instance_name trim_space to_lower itoa
build_lifecycle_plan instance asked =
    let cleaned = to_lower (trim_space asked) in
    let action : String = if cleaned =ₛ "" then "status" else cleaned in
    let name = sanitize_instance_name instance.name in
    let base = compose_base ("vpn-manager-openvpn-" ⧺ name) instance.id in
    if instance.id == 0
    then broken "saved OpenVPN instance is required"
    else lifecycle_plan action name (commands_of base action)

-- `FirewallPlan`, without its fixed texts
pub record FirewallPlan : Type 0 where
  pub ownership_key : String
  pub rules : List String
  pub teardown_rules : List String

-- `%q` of a text that has nothing to escape, as a comment of slug characters and blanks
abbrev quoted : String → String
quoted s = "\"" ⧺ s ⧺ "\""

-- The plan for a network that is printed as `cidr`.
firewall_plan : String → Option String → Result FirewallPlan
firewall_plan name none = broken "tunnel cidr must be a valid CIDR"
firewall_plan name (some cidr) =
    let comment = "vpn-manager openvpn " ⧺ name in
    let tag = " -m comment --comment " ⧺ quoted comment in
    fine (record {
      ownership_key = comment;
      rules =
          ("iptables -A FORWARD -s " ⧺ cidr ⧺ tag ⧺ " -j ACCEPT")
          ∷ ("iptables -A FORWARD -d " ⧺ cidr ⧺ tag ⧺ " -j ACCEPT")
          ∷ ("iptables -t nat -A POSTROUTING -s " ⧺ cidr ⧺ tag ⧺ " -j MASQUERADE")
          ∷ [];
      teardown_rules = ("iptables-save | grep -v " ⧺ quoted comment ⧺ " | iptables-restore") ∷ [];
    })

-- `BuildFirewallPlan`; the argument parses a network and prints it back, `none` for what is none
unfoldable pub build_firewall_plan :
    (String → Option String) → OpenVpnInstance → Result FirewallPlan
unfolding firewall_plan sanitize_instance_name trim_space
build_firewall_plan parse instance =
    if instance.id == 0
    then broken "saved OpenVPN instance is required"
    else firewall_plan (sanitize_instance_name instance.name)
        (parse (trim_space instance.tunnel_cidr))

-- `BuildRuntimeManifestRecord`: the columns of `OpenVPNRuntimeManifest`
pub record ManifestRecord : Type 0 where
  pub instance_id : ℕ
  pub runtime_mode : String
  pub server_conf : String
  pub compose_yaml : String
  pub warnings : String
  pub generation_status : String

unfoldable pub build_runtime_manifest_record :
    (String → Option Ipv4Network) → OpenVpnInstance → Result ManifestRecord
unfolding build_container_runtime_manifest join
build_runtime_manifest_record parse i =
    let built = build_container_runtime_manifest parse (record {
      instance_name = i.name;
      remote_host = i.remote_host;
      listen_port = i.listen_port;
      protocol = i.protocol;
      tunnel_cidr = i.tunnel_cidr;
      dns = i.dns;
    }) in
    if i.id == 0 then broken "saved OpenVPN instance is required" else elim built [
      | broken e ↦ broken e
      | fine m ↦ fine (record {
        instance_id = i.id;
        runtime_mode = m.runtime_mode;
        server_conf = m.server_conf;
        compose_yaml = m.docker_compose;
        warnings = join "\n" m.warnings;
        generation_status = "generated";
      })
    ]
