-- ===== src/Wg/Device/Laws.antt =====
-- A full configuration replaces the device's peers by the enabled ones, each configured as by itself.
use vpn_manager.Common.{
  String, true, ◌≡◌, refl, ap, subst, inl, inr, List, [], ◌∷◌, map, select, Bool-cases,
  if◌then◌else◌,
}
use vpn_manager.Wg.Firewall.{Result, fine, broken}
use vpn_manager.Wg.Model.{Interface, Peer}
use vpn_manager.Wg.Device.{
  Parsers, PeerConfig, Config, with_fine, build_peer_config, enabled_configs, full_device_config,
}

abbrev pub fine_of : {A : Type 0} → A → Result A
fine_of a = fine a

fine-injective : {A : Type 0} {a b : A} → fine a ≡ fine b → a ≡ b
fine-injective h = cc

with_fine-fine :
    {A B : Type 0} (prefix : String) (r : Result A) (f : A → Result B) (b : B)
    → with_fine prefix r f ≡ fine b
    → (a : A) × (r ≡ fine a) × (f a ≡ fine b)
with_fine-fine prefix (broken e) f b h = cc
with_fine-fine prefix (fine a) f b h = (a, refl, h)

module _ (p : Parsers) where
  enabled_configs-map :
      (peers : List Peer) (configs : List PeerConfig)
      → enabled_configs p peers ≡ fine configs
      → map (build_peer_config p) (select (λ q. q.enabled) peers) ≡ map fine_of configs
  unfolding enabled_configs
  enabled_configs-map [] configs h = let e : configs ≡ [] = cc in rw e refl
  enabled_configs-map (q ∷ peers) configs h = elim (Bool-cases q.enabled) [
    | inr off ↦
        rw (off, if◌then◌else◌) (enabled_configs-map peers configs (rw (off, if◌then◌else◌) at h))
    | inl on ↦
        let one =
          with_fine-fine "" (build_peer_config p q) _ configs (rw (on, if◌then◌else◌) at h) in
        let more = with_fine-fine "" (enabled_configs p peers) _ configs one.2 in
        let same : one.0 ∷ more.0 ≡ configs = cc in
        rw (on, if◌then◌else◌, one.1, ← same)
          (ap (λ (l : List (Result PeerConfig)). fine one.0 ∷ l)
            (enabled_configs-map peers more.0 more.1))
  ]

  -- A full configuration replaces the peers of the device, and its peers are those that are enabled, in
  -- their order, each with the configuration that is built for it alone.
  pub full_device_config-enabled :
      (iface : Interface) (peers : List Peer) (cfg : Config)
      → full_device_config p iface peers ≡ fine cfg
      → (cfg.replace_peers ≡ true)
        × (map (build_peer_config p) (select (λ q. q.enabled) peers) ≡ map fine_of cfg.peers)
  unfolding full_device_config
  full_device_config-enabled iface peers cfg h =
      let key =
        with_fine-fine "parse interface private key: " (p.parse_key iface.private_key) _ cfg h in
      let inner = with_fine-fine "" (enabled_configs p peers) _ cfg key.2 in
      let configs = enabled_configs-map peers inner.0 inner.1 in
      subst
        (λ (c : Config).
          (c.replace_peers ≡ true)
          × (map (build_peer_config p) (select (λ q. q.enabled) peers) ≡ map fine_of c.peers))
        (fine-injective inner.2) (refl, configs)
