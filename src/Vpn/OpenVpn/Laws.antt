-- ===== src/Vpn/OpenVpn/Laws.antt =====
-- What a lifecycle plan may run.
use Prim.Native.String as Str
use vpn_manager.Common.{
  String, Bool, true, false, ◌≡◌, refl, subst, Option, none, some, List, [], ◌∷◌, All, any, arith,
  Bool-cases, inl, inr, if◌then◌else◌, ◌==◌, ◌=ₛ◌,
}
use vpn_manager.Text.{◌⧺◌, has_prefix, trim_space, to_lower}
use vpn_manager.Wg.Firewall.{Result, fine, broken}
use vpn_manager.Vpn.Slug.{sanitize_instance_name}
use vpn_manager.Vpn.Slug.Laws.{IsSlug, sanitize_instance_name-IsSlug}
use vpn_manager.Vpn.OpenVpn.Plans.{
  OpenVpnInstance, LifecyclePlan, commands_of, compose_base, lifecycle_plan, build_lifecycle_plan,
}

has_prefix-append : (p s : String) → has_prefix (p ⧺ s) p ≡ true
unfolding has_prefix
has_prefix-append Str.[] s = refl
has_prefix-append (Str.◌∷◌ c p) s = ground (arith, has_prefix-append p s)

abbrev pub is_allowed : String → Bool
is_allowed action = any (λ a. action =ₛ a) ("start" ∷ "stop" ∷ "restart" ∷ "reload" ∷ "status" ∷ [])

-- Commands for an allowed action that all begin with the base.
abbrev Begins : String → String → Option (List String) → Type 0
Begins base action none = Unit
Begins base action (some commands) =
    (is_allowed action ≡ true) × All (λ c. has_prefix c base ≡ true) commands

commands_of-Begins : (base action : String) → Begins base action (commands_of base action)
unfolding commands_of
commands_of-Begins base action = elim (Bool-cases (action =ₛ "start")) [
  | inl a ↦ rw (a, if◌then◌else◌) (ground (arith, a), (has_prefix-append base _, tt))
  | inr a ↦ elim (Bool-cases (action =ₛ "stop")) [
    | inl b ↦ rw (a, b, if◌then◌else◌) (ground (arith, b), (has_prefix-append base _, tt))
    | inr b ↦ elim (Bool-cases (action =ₛ "restart")) [
      | inl c ↦
          rw (a, b, c, if◌then◌else◌)
            (ground (arith, c), (has_prefix-append base _, (has_prefix-append base _, tt)))
      | inr c ↦ elim (Bool-cases (action =ₛ "reload")) [
        | inl d ↦ rw (a, b, c, d, if◌then◌else◌) (ground (arith, d), (has_prefix-append base _, tt))
        | inr d ↦ elim (Bool-cases (action =ₛ "status")) [
          | inl e ↦
              rw (a, b, c, d, e, if◌then◌else◌)
                (ground (arith, e), (has_prefix-append base _, (has_prefix-append base _, tt)))
          | inr e ↦ rw (a, b, c, d, e, if◌then◌else◌) tt
        ]
      ]
    ]
  ]
]

-- An allowed action on one compose project, which is named by a slug.
pub record IsOnProject (instance : OpenVpnInstance) (plan : LifecyclePlan) : Type 0 where
  pub slug : String
  pub is_slug : IsSlug slug
  pub named : (slug =ₛ "") ≡ false
  pub project : plan.project_name ≡ "vpn-manager-openvpn-" ⧺ slug
  pub allowed : is_allowed plan.action ≡ true
  pub commands :
      All (λ c. has_prefix c (compose_base plan.project_name instance.id) ≡ true) plan.commands

planned :
    (instance : OpenVpnInstance) (action name : String) (commands : Option (List String))
    (plan : LifecyclePlan)
    → IsSlug name
    → Begins (compose_base ("vpn-manager-openvpn-" ⧺ name) instance.id) action commands
    → lifecycle_plan action name commands ≡ fine plan
    → IsOnProject instance plan
unfolding lifecycle_plan
planned instance action name none plan slug begins made = cc
planned instance action name (some commands) plan slug begins made =
    elim (Bool-cases (name =ₛ "")) [
      | inl e ↦
          let no : ◌≡◌ {A = Result LifecyclePlan} (broken "instance name is required") (fine plan) =
            rw (e, if◌then◌else◌) at made in
          cc
      | inr e ↦
          let it : LifecyclePlan = record {
            action = action;
            project_name = "vpn-manager-openvpn-" ⧺ name;
            container_name = "vpn-manager-openvpn-" ⧺ name;
            commands = commands;
          } in
          let found : ◌≡◌ {A = Result LifecyclePlan} (fine it) (fine plan) =
            rw (e, if◌then◌else◌) at made in
          let same : it ≡ plan = cc in
          subst (IsOnProject instance) same (record {
            slug = name;
            is_slug = slug;
            named = e;
            project = refl;
            allowed = begins.0;
            commands = begins.1;
          })
    ]

-- A lifecycle plan that is built, whatever the instance is called and whatever action is asked for, is
-- for one of the five actions, and each of its commands begins with `docker compose` on the project that
-- is named by a slug that is not empty.
pub build_lifecycle_plan-IsOnProject :
    (instance : OpenVpnInstance) (asked : String) (plan : LifecyclePlan)
    → build_lifecycle_plan instance asked ≡ fine plan
    → IsOnProject instance plan
unfolding build_lifecycle_plan
build_lifecycle_plan-IsOnProject instance asked plan made =
    let name = sanitize_instance_name instance.name in
    let cleaned = to_lower (trim_space asked) in
    let action : String = if cleaned =ₛ "" then "status" else cleaned in
    let base = compose_base ("vpn-manager-openvpn-" ⧺ name) instance.id in
    elim (Bool-cases (instance.id == 0)) [
      | inl e ↦
          let no : ◌≡◌ {A = Result LifecyclePlan} (broken "saved OpenVPN instance is required")
              (fine plan) =
            rw (build_lifecycle_plan, e, if◌then◌else◌) at made in
          cc
      | inr e ↦
          planned instance action name (commands_of base action) plan
            (sanitize_instance_name-IsSlug instance.name).0 (commands_of-Begins base action)
            (rw (build_lifecycle_plan, e) at made)
    ]
