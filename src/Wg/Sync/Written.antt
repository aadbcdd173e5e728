-- ===== src/Wg/Sync/Written.antt =====
-- What `reconcile` writes into the tables: at most the uplink of its own interface.
use vpn_manager.Common.{
  ℕ, String, Bool, not, ◌||◌, ◌≡◌, refl, Option, none, some, if-cases, option-cases, ◌=ₛ◌,
}
use vpn_manager.Wg.Firewall.{setup_nat}
use vpn_manager.Wg.Model.{Interface, Tables, interface_row}
use vpn_manager.Wg.Sync.{
  Kernel, store_egress, push, apply_nat, reconcile_on, reconcile_found, reconcile,
}

module _ {K : Type 0} (kernel : Kernel K) (P : Tables → Type 0) where
  apply_nat-keeps :
      (fault : Bool) (iface : Interface) (t : Tables) (k : K)
      → P t
      → ((name : String) → P (store_egress iface.id name t))
      → P (apply_nat kernel fault iface (t, k)).1.0
  unfolding apply_nat
  apply_nat-keeps fault iface t k same other =
      let Q = λ (x : Option String × (Tables × K)). P x.1.0 in
      let done = setup_nat kernel.host iface.address iface.name iface.egress k in
      let name = done.0.egress in
      if-cases Q (not iface.masquerade) _ _ same (
        option-cases Q done.0.error _ _
          (if-cases Q (name =ₛ "" || name =ₛ iface.egress) _ _ same
            (if-cases Q fault _ _ same (other name)))
          (λ e _. same))

  reconcile_found-keeps :
      (fault : Bool) (o : Option Interface) (t : Tables) (k : K)
      → P t
      → ((iface : Interface) → o ≡ some iface → (name : String) → P (store_egress iface.id name t))
      → P (reconcile_found kernel fault o (t, k)).1.0
  unfolding reconcile_found reconcile_on
  reconcile_found-keeps fault none t k same other = same
  reconcile_found-keeps fault (some iface) t k same other =
      let Q = λ (x : Option String × (Tables × K)). P x.1.0 in
      let pushed = push kernel iface t k in
      if-cases Q (not iface.enabled) _ _ same (
        option-cases Q pushed.0 _ _ (apply_nat-keeps fault iface t pushed.1 same (other iface refl))
          (λ e _. same))

  pub reconcile-keeps :
      (fault : Bool) (id : ℕ) (t : Tables) (k : K)
      → P t
      → ((iface : Interface)
          → interface_row t id ≡ some iface
          → (name : String) → P (store_egress iface.id name t))
      → P (reconcile kernel fault id (t, k)).1.0
  unfolding reconcile
  reconcile-keeps fault id t k same other =
      reconcile_found-keeps fault (interface_row t id) t k same other
