-- ===== src/Wg/Publish/Loops.antt =====
-- The loops over port forwards of backend/handlers/portforward_handler.go: trashing, purging and
-- restoring, and the start of the program.
use vpn_manager.Common.{
  ℕ, String, Bool, not, ◌&&◌, none, some, List, [], ◌∷◌, first, select, ◌==◌, ◌=ₛ◌, if◌then◌else◌,
}
use vpn_manager.Wg.Firewall.{Host}
use vpn_manager.Wg.Forwards.{PortForward, apply_port_forward, remove_port_forward}
use vpn_manager.Wg.Model.{Interface, Tables}
use vpn_manager.Wg.Publish.{drop_forward}

module _ {K : Type 0} (h : Host K) where
  -- `removePortForwardRules`, on the rows that its query selects
  unfoldable pub remove_port_forward_rules : String → List PortForward → K → K
  unfolding remove_port_forward
  remove_port_forward_rules device [] k = k
  remove_port_forward_rules device (pf ∷ pfs) k =
      remove_port_forward_rules device pfs (remove_port_forward h pf device k).1

  -- `purgePortForwards`; the first argument is whether the deletion of a row fails, by its id
  unfoldable pub purge_port_forwards :
      (ℕ → Bool) → String → List PortForward → Tables × K → Tables × K
  unfolding remove_port_forward
  purge_port_forwards fails device [] (t, k) = (t, k)
  purge_port_forwards fails device (pf ∷ pfs) (t, k) =
      let rows : Tables = if fails pf.id then t else drop_forward pf.id t in
      purge_port_forwards fails device pfs (rows, (remove_port_forward h pf device k).1)

  -- `reapplyPortForwards`
  unfoldable pub reapply_port_forwards : String → List PortForward → K → K
  unfolding apply_port_forward
  reapply_port_forwards device [] k = k
  reapply_port_forwards device (pf ∷ pfs) k =
      let kept = reapply_port_forwards device pfs k in
      let next = reapply_port_forwards device pfs (apply_port_forward h pf device k).1 in
      if pf.enabled then next else kept

  -- the loop of `ReapplyAllPortForwards`, with the names of the enabled interfaces
  reapply_named : List Interface → List PortForward → K → K
  unfolding apply_port_forward
  reapply_named ifaces [] k = k
  reapply_named ifaces (pf ∷ pfs) k = elim (first (λ i. i.id == pf.interface_id) ifaces) [
    | none ↦ reapply_named ifaces pfs k
    | some i ↦
        let skipped = reapply_named ifaces pfs k in
        let next = reapply_named ifaces pfs (apply_port_forward h pf i.name k).1 in
        if i.name =ₛ "" then skipped else next
  ]

  -- `ReapplyAllPortForwards`, when its queries succeed
  unfoldable pub reapply_all_port_forwards : Tables → K → K
  unfolding reapply_named
  reapply_all_port_forwards t k =
      let ifaces = select (λ i. i.enabled && not i.trashed) t.interfaces in
      reapply_named ifaces (select (λ f. f.enabled) t.forwards) k
