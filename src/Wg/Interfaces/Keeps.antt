-- ===== src/Wg/Interfaces/Keeps.antt =====
-- Each request on interfaces of such a caller keeps what those interfaces have.
use vpn_manager.Common.{
  ℕ, suc, String, Bool, true, false, not, ◌&&◌, ◌≡◌, refl, sym, subst, ◌∙◌, ap, List, any,
  select_all, first-live, first-satisfies, by_key, if-cases, if◌then◌else◌, ◌==◌, ◌=ₛ◌, ==_iff,
  Option, none, some, Bool-cases, inl, inr, revise-found,
}
use vpn_manager.Http.{Reply}
use vpn_manager.Http.Attempt.Ends.{Ends-go, Ends-bind, answer-Ends, refuse_if-eq-go}
use vpn_manager.Wg.Forwards.{PortForward}
use vpn_manager.Wg.Model.{Interface, Tables, interface_key}
use vpn_manager.Wg.Publish.Loops.{purge_port_forwards}
use vpn_manager.Wg.Sync.{Kernel, reconcile}
use vpn_manager.Wg.Sync.Written.{reconcile-keeps}
use vpn_manager.Wg.Interfaces.{
  Env, CreateInterfaceRequest, UpdateInterfaceRequest, is_row, changed, forwards_on, save_interface,
  mark_interface,
}
use vpn_manager.Wg.Interfaces.Requests.{
  create_interface, update_interface, trash_interface, restore_interface, purge_interface,
  sync_interface, after_update, after_restore, save_changed, restore_trashed, synced,
}
use vpn_manager.Wg.Interfaces.Writes.{
  View, Kept, IsForeign, IsOutside, IsForeign-IsOutside, IsOutside-IsForeign, Kept-revise,
  Kept-mark_peers, Kept-drop_peers, Kept-drop_interface, Kept-insert, Kept-drop_forwards,
}
use vpn_manager.Wg.Interfaces.Foreign.{
  IsOutsider, Foreign, fresh_id, purge-forwards, found-Foreign, unscoped-Foreign, owned-IsOutside,
}

module _ {K : Type 0} (own : Option ℕ → Bool) (v : View) (kernel : Kernel K) where
  abbrev KeepsView : Tables × K → Type 0
  KeepsView s = Kept own v s.0

  reconcile-Kept :
      (fault : Bool) (id : ℕ) (t : Tables) (k : K)
      → IsOutside v id
      → Kept own v t
      → Kept own v (reconcile kernel fault id (t, k)).1.0
  reconcile-Kept fault id t k out kept =
      reconcile-keeps kernel (Kept own v) fault id t k kept λ iface row name.
        let key : iface.id ≡ id = (==_iff iface.id id).0 (
          first-satisfies (by_key interface_key id) t.interfaces
            (first-live interface_key (λ x. not x.trashed) id t.interfaces kept.valid.keyed row)) in
        let outside : IsOutside v iface.id = ap (λ (n : ℕ). any (is_row n) v.0) key ∙ out in
        Kept-revise own v iface.id (λ i. record i { egress = name }) t (λ i. (refl, refl, refl))
          (IsOutside-IsForeign own iface.id v t kept outside) kept

  mark-Kept :
      (gone : Bool) (id : ℕ) (t : Tables)
      → IsOutside v id
      → Kept own v t
      → Kept own v (mark_interface gone id t)
  mark-Kept gone id t out kept =
      Kept-revise own v id (λ i. record i { trashed = gone }) t (λ i. (refl, refl, refl))
        (IsOutside-IsForeign own id v t kept out) kept

  save-Kept :
      (req : UpdateInterfaceRequest) (old : Interface) (t : Tables)
      → Foreign v t old
      → Kept own v t
      → Kept own v (save_interface (changed req old) t)
  save-Kept req old t f kept =
      subst (λ (is : List Interface). Kept own v (record t { interfaces = is }))
        (sym
          (revise-found interface_key (changed req) old.id t.interfaces kept.valid.keyed f.found))
        (Kept-revise own v old.id (changed req) t (λ i. (refl, refl, refl))
          (IsOutside-IsForeign own old.id v t kept f.outside) kept)

  after_update-Kept :
      (env : Env) (i : Interface) (out : Option String × (Tables × K))
      → Kept own v out.1.0
      → Kept own v (after_update kernel env i out).1.0
  unfolding after_update
  after_update-Kept env i (none, (t, k)) kept = kept
  after_update-Kept env i (some e, (t, k)) kept = kept

  after_restore-Kept :
      (env : Env) (i : Interface) (out : Option String × (Tables × K))
      → Kept own v out.1.0
      → Kept own v (after_restore kernel env i out).1.0
  unfolding after_restore
  after_restore-Kept env i (none, (t, k)) kept = kept
  after_restore-Kept env i (some e, (t, k)) kept = kept

  pub create-Kept :
      (env : Env) (body : Option CreateInterfaceRequest) (s : Tables × K)
      → IsOutsider own env.caller
      → Kept own v s.0
      → Kept own v (create_interface kernel env body s).1.0
  unfolding create_interface
  create-Kept env body (t, k) out kept = answer-Ends KeepsView kept (
      Ends-bind λ req _. Ends-bind λ _ _. Ends-bind λ private _. Ends-bind λ public _.
        Ends-bind λ _ free. Ends-bind λ _ _.
          let fresh : IsForeign own (suc t.interface_seq) t =
            fresh_id (λ i. own i.owner_id) t.interface_seq t.interfaces kept.valid.below in
          Ends-go (
            reconcile-Kept env.egress_fails (suc t.interface_seq) _ k
              (IsForeign-IsOutside own _ v t kept fresh)
              (Kept-insert own v _ t refl (out.1) (refuse_if-eq-go _ _ _ free) kept)))

  pub update-Kept :
      (env : Env) (param : String) (body : Option UpdateInterfaceRequest) (s : Tables × K)
      → IsOutsider own env.caller
      → Kept own v s.0
      → Kept own v (update_interface kernel env param body s).1.0
  unfolding update_interface save_changed
  update-Kept env param body (t, k) out kept = answer-Ends KeepsView kept (
      Ends-bind λ old e. Ends-bind λ req _. Ends-bind λ _ _.
        let f = (found-Foreign own v env param t out kept).at old e in
        let P = λ (x : Reply Interface × (Tables × K)). Kept own v x.1.0 in
        let saved = save-Kept req old t f kept in
        Ends-go (
          if-cases P (any (λ i. not (i.id == old.id) && i.name =ₛ old.name) t.interfaces) _ _ kept (
            if-cases P env.write_fails _ _ kept (
              after_update-Kept env (changed req old) _
                (reconcile-Kept env.egress_fails old.id _ _ f.outside saved)))))

  pub trash-Kept :
      (env : Env) (param : String) (s : Tables × K)
      → IsOutsider own env.caller
      → Kept own v s.0
      → Kept own v (trash_interface kernel env param s).1.0
  unfolding trash_interface
  trash-Kept env param (t, k) out kept = answer-Ends KeepsView kept (
      Ends-bind λ i e.
        let f = (found-Foreign own v env param t out kept).at i e in
        let P = λ (x : Reply Interface × (Tables × K)). Kept own v x.1.0 in
        let emptied =
          Kept-mark_peers own v true i.id t (IsOutside-IsForeign own i.id v t kept f.outside)
            kept in
        Ends-go (
          if-cases P env.peers_fail _ _ kept
            (if-cases P env.write_fails _ _ emptied (mark-Kept true i.id _ f.outside emptied))))

  pub restore-Kept :
      (env : Env) (param : String) (s : Tables × K)
      → IsOutsider own env.caller
      → Kept own v s.0
      → Kept own v (restore_interface kernel env param s).1.0
  unfolding restore_interface restore_trashed
  restore-Kept env param (t, k) out kept = answer-Ends KeepsView kept (
      Ends-bind λ i e.
        let f = (unscoped-Foreign own v env param t out kept).at i e in
        let P = λ (x : Reply Interface × (Tables × K)). Kept own v x.1.0 in
        let back = mark-Kept false i.id t f.outside kept in
        let filled =
          Kept-mark_peers own v false i.id _ (IsOutside-IsForeign own i.id v _ back f.outside)
            back in
        Ends-go (
          if-cases P i.trashed _ _
            (if-cases P env.write_fails _ _ kept (
              if-cases P env.peers_fail _ _ back (
                after_restore-Kept env _ _
                  (reconcile-Kept env.egress_fails i.id _ k f.outside filled))))
            kept))

  purge_forwards-Kept :
      (env : Env) (device : String) (id : ℕ) (t : Tables) (k : K)
      → IsOutside v id
      → Kept own v t
      → Kept own v
          (purge_port_forwards kernel.host env.rows_fail device (forwards_on env t id) (t, k)).0
  purge_forwards-Kept env device id t k out kept =
      subst (Kept own v)
        (sym (purge-forwards kernel.host env.rows_fail device (forwards_on env t id) t k))
        (elim (Bool-cases env.forwards_fail) [
          | inl f ↦
              rw (f, if◌then◌else◌)
                (subst (λ (fs : List PortForward). Kept own v (record t { forwards = fs }))
                  (sym (select_all (λ f. true) t.forwards (λ f. refl))) kept)
          | inr f ↦
              rw (f, if◌then◌else◌)
                (Kept-drop_forwards own v env.rows_fail id t
                  (IsOutside-IsForeign own id v t kept out) kept)
        ])

  pub purge-Kept :
      (env : Env) (param : String) (s : Tables × K)
      → IsOutsider own env.caller
      → Kept own v s.0
      → Kept own v (purge_interface kernel env param s).1.0
  unfolding purge_interface
  purge-Kept env param (t, k) out kept = answer-Ends KeepsView kept (
      Ends-bind λ i e.
        let f = (unscoped-Foreign own v env param t out kept).at i e in
        let P = λ (x : Reply Interface × (Tables × K)). Kept own v x.1.0 in
        let cleared = purge_forwards-Kept env i.name i.id t k f.outside kept in
        let emptied =
          Kept-drop_peers own v i.id _ (IsOutside-IsForeign own i.id v _ cleared f.outside)
            cleared in
        Ends-go (
          if-cases P env.peers_fail _ _ cleared (
            if-cases P env.write_fails _ _ emptied (
              Kept-drop_interface own v i.id _ (IsOutside-IsForeign own i.id v _ emptied f.outside)
                emptied))))

  synced-Kept :
      (out : Option String × (Tables × K)) → Kept own v out.1.0 → Kept own v (synced kernel out).1.0
  unfolding synced
  synced-Kept (none, s) kept = kept
  synced-Kept (some e, s) kept = kept

  pub sync-Kept :
      (env : Env) (param : String) (s : Tables × K)
      → IsOutsider own env.caller
      → Kept own v s.0
      → Kept own v (sync_interface kernel env param s).1.0
  unfolding sync_interface
  sync-Kept env param (t, k) out kept = answer-Ends KeepsView kept (
      Ends-bind λ id _. Ends-bind λ i e.
        let outside = (owned-IsOutside own v env.find_fails env.caller t id out kept).at i e in
        Ends-go (synced-Kept _ (reconcile-Kept env.egress_fails id t k outside kept)))
