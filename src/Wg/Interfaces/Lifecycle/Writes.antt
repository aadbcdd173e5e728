-- ===== src/Wg/Interfaces/Lifecycle/Writes.antt =====
-- Each request on interfaces takes a step of the specification.
use vpn_manager.Common.{
  ℕ, suc, ◌≡◌, refl, sym, subst, ap, ◌∙◌, String, Bool, true, false, not, ◌&&◌, List, any, select,
  first, by_key, revise-found, first-live, first-satisfies, arith, ==_iff, if-cases, Option, none,
  some, Bool-cases, inl, inr, if◌then◌else◌, ◌==◌, ◌=ₛ◌,
}
use vpn_manager.Http.{Reply}
use vpn_manager.Http.Attempt.Ends.{Ends, Ends-go, Ends-bind, answer-Ends, found_or-eq-go}
use vpn_manager.Wg.Model.{Interface, Tables, interface_key}
use vpn_manager.Wg.Publish.Loops.{purge_port_forwards}
use vpn_manager.Wg.Sync.{Kernel, reconcile, store_egress}
use vpn_manager.Wg.Sync.Written.{reconcile-keeps}
use vpn_manager.Wg.Interfaces.{
  Env, CreateInterfaceRequest, UpdateInterfaceRequest, find_interface, find_unscoped, is_row,
  changed, forwards_on, save_interface, mark_interface,
}
use vpn_manager.Wg.Interfaces.Requests.{
  create_interface, update_interface, trash_interface, restore_interface, purge_interface,
  sync_interface, after_update, after_restore, save_changed, restore_trashed, synced,
}
use vpn_manager.Wg.Interfaces.Writes.{IsValid}
use vpn_manager.Wg.Interfaces.Foreign.{purge-forwards}
use vpn_manager.Wg.Interfaces.Lifecycle.{
  Phase, absent, active, in_trash, phase_in, phase_of, Move, trashing, restoring, purging,
  purging_active, Step, idle, opening, moving,
}
use vpn_manager.Wg.Interfaces.Lifecycle.Phases.{
  shown, phase_in-revise, phase_in-other, phase_in-first, phase_in-marked, phase_in-dropped,
  phase_in-kept, phase_in-fresh, phase_in-appended, phase_in-new,
}

stays : (t : Tables) → Step t t
stays t = idle refl (λ k. refl)

-- Two tables that show the same phases take the same steps.
Step-alike :
    (t t' t'' : Tables)
    → t''.interface_seq ≡ t'.interface_seq
    → ((k : ℕ) → phase_of t'' k ≡ phase_of t' k)
    → Step t t'
    → Step t t''
Step-alike t t' t'' seq same (idle e h) = idle (seq ∙ e) (λ k. same k ∙ h k)
Step-alike t t' t'' seq same (opening e a b h) =
    opening (seq ∙ e) a (same (suc t.interface_seq) ∙ b) (λ k d. same k ∙ h k d)
Step-alike t t' t'' seq same (moving id e m h) =
    moving id (seq ∙ e) (subst (Move (phase_of t id)) (sym (same id)) m) (λ k d. same k ∙ h k d)

found-row :
    (env : Env) (param : String) (t : Tables)
    → IsValid t
    → Ends
        (λ (i : Interface).
          (first (by_key interface_key i.id) t.interfaces ≡ some i) × (i.trashed ≡ false))
        (find_interface {R = Interface} env t param)
unfolding find_interface
found-row env param t v = Ends-bind λ id _. Ends-bind λ i e. Ends-bind λ _ _.
    let live = found_or-eq-go env.find_fails _ _ _ i e in
    let row = first-live interface_key (λ x. not x.trashed) id t.interfaces v.keyed live in
    let key : i.id ≡ id =
      (==_iff i.id id).0 (first-satisfies (by_key interface_key id) t.interfaces row) in
    let both =
      first-satisfies (λ x. by_key interface_key id x && not x.trashed) t.interfaces live in
    Ends-go
      (ap (λ (n : ℕ). first (by_key interface_key n) t.interfaces) key ∙ row, ground (arith, both))

unscoped-row :
    (env : Env) (param : String) (t : Tables)
    → Ends
        (λ (i : Interface). first (by_key interface_key i.id) t.interfaces ≡ some i)
        (find_unscoped {R = Interface} env t param)
unfolding find_unscoped
unscoped-row env param t = Ends-bind λ id _. Ends-bind λ i e. Ends-bind λ _ _.
    let row : first (by_key interface_key id) t.interfaces ≡ some i =
      some_of env.find_fails (found_or-eq-go false _ _ _ i e) in
    let key : i.id ≡ id =
      (==_iff i.id id).0 (first-satisfies (by_key interface_key id) t.interfaces row) in
    Ends-go (ap (λ (n : ℕ). first (by_key interface_key n) t.interfaces) key ∙ row)
  where
    some_of :
        (b : Bool) {x : Option Interface} {i : Interface}
        → (if b then none else x) ≡ some i
        → x ≡ some i
    some_of true e = cc
    some_of false e = e

module _ {K : Type 0} (kernel : Kernel K) where
  reconcile-Step :
      (fault : Bool) (id : ℕ) (t t' : Tables) (k : K)
      → Step t t'
      → Step t (reconcile kernel fault id (t', k)).1.0
  reconcile-Step fault id t t' k s =
      reconcile-keeps kernel (Step t) fault id t' k s λ iface row name.
        Step-alike t t' (store_egress iface.id name t') refl
          (λ k.
            phase_in-revise iface.id (λ i. record i { egress = name }) t'.interfaces k
              (λ i. (refl, refl)))
          s

  after_update-Step :
      (env : Env) (i : Interface) (t : Tables) (out : Option String × (Tables × K))
      → Step t out.1.0
      → Step t (after_update kernel env i out).1.0
  unfolding after_update
  after_update-Step env i t (none, (t', k)) s = s
  after_update-Step env i t (some e, (t', k)) s = s

  after_restore-Step :
      (env : Env) (i : Interface) (t : Tables) (out : Option String × (Tables × K))
      → Step t out.1.0
      → Step t (after_restore kernel env i out).1.0
  unfolding after_restore
  after_restore-Step env i t (none, (t', k)) s = s
  after_restore-Step env i t (some e, (t', k)) s = s

  abbrev StepsFrom : Tables → Reply Interface × (Tables × K) → Type 0
  StepsFrom t x = Step t x.1.0

  pub create-Step :
      (env : Env) (body : Option CreateInterfaceRequest) (s : Tables × K)
      → IsValid s.0
      → Step s.0 (create_interface kernel env body s).1.0
  unfolding create_interface
  create-Step env body (t, k) v =
      let fresh = phase_in-fresh t.interface_seq t.interfaces v.below in
      answer-Ends (λ (s : Tables × K). Step t s.0) (stays t)
        (Ends-bind λ req _. Ends-bind λ _ _. Ends-bind λ private _. Ends-bind λ public _.
          Ends-bind λ _ free. Ends-bind λ _ _. Ends-go (
            reconcile-Step env.egress_fails (suc t.interface_seq) t _ k (
              opening refl fresh (phase_in-new t.interfaces _ fresh refl)
                (λ j d. phase_in-appended t.interfaces _ j d))))

  pub update-Step :
      (env : Env) (param : String) (body : Option UpdateInterfaceRequest) (s : Tables × K)
      → IsValid s.0
      → Step s.0 (update_interface kernel env param body s).1.0
  unfolding update_interface save_changed
  update-Step env param body (t, k) v =
      answer-Ends (λ (s : Tables × K). Step t s.0) (stays t)
        (Ends-bind λ old e. Ends-bind λ req _. Ends-bind λ _ _.
          let f = (found-row env param t v).at old e in
          let saved : Step t (save_interface (changed req old) t) = idle refl λ j.
            ap (λ (is : List Interface). phase_in is j)
              (revise-found interface_key (changed req) old.id t.interfaces v.keyed f.0)
            ∙ phase_in-revise old.id (changed req) t.interfaces j (λ i. (refl, refl)) in
          Ends-go (
            if-cases (StepsFrom t)
              (any (λ i. not (i.id == old.id) && i.name =ₛ old.name) t.interfaces) _ _ (stays t)
              (if-cases (StepsFrom t) env.write_fails _ _ (stays t) (
                after_update-Step env (changed req old) t _
                  (reconcile-Step env.egress_fails old.id t _ _ saved)))))

  pub trash-Step :
      (env : Env) (param : String) (s : Tables × K)
      → IsValid s.0
      → Step s.0 (trash_interface kernel env param s).1.0
  unfolding trash_interface
  trash-Step env param (t, k) v =
      answer-Ends (λ (s : Tables × K). Step t s.0) (stays t)
        (Ends-bind λ i e.
          let f = (found-row env param t v).at i e in
          let before : phase_of t i.id ≡ active =
            phase_in-first i.id t.interfaces f.0 ∙ rw (f.1, if◌then◌else◌) refl in
          let after = phase_in-marked true i.id t.interfaces f.0 in
          Ends-go (
            if-cases (StepsFrom t) env.peers_fail _ _ (stays t) (
              if-cases (StepsFrom t) env.write_fails _ _ (idle refl (λ j. refl)) (
                moving i.id refl (rw (before, after) trashing)
                  (λ j d. phase_in-other i.id _ t.interfaces j (λ x. refl) d)))))

  restore_trashed-Step :
      (env : Env) (i : Interface) (t : Tables) (k : K)
      → first (by_key interface_key i.id) t.interfaces ≡ some i
      → i.trashed ≡ true
      → Step t (restore_trashed kernel env i (t, k)).1.0
  unfolding restore_trashed
  restore_trashed-Step env i t k f gone =
      let before : phase_of t i.id ≡ in_trash =
        phase_in-first i.id t.interfaces f ∙ rw (gone, if◌then◌else◌) refl in
      let after = phase_in-marked false i.id t.interfaces f in
      let back : Step t (mark_interface false i.id t) =
        moving i.id refl (rw (before, after) restoring)
          (λ j d. phase_in-other i.id _ t.interfaces j (λ x. refl) d) in
      if-cases (StepsFrom t) env.write_fails _ _ (stays t) (
        if-cases (StepsFrom t) env.peers_fail _ _ back (
          after_restore-Step env _ t _ (
            reconcile-Step env.egress_fails i.id t _ k
              (Step-alike t (mark_interface false i.id t) _ refl (λ j. refl) back))))

  pub restore-Step :
      (env : Env) (param : String) (s : Tables × K)
      → Step s.0 (restore_interface kernel env param s).1.0
  unfolding restore_interface
  restore-Step env param (t, k) =
      answer-Ends (λ (s : Tables × K). Step t s.0) (stays t)
        (Ends-bind λ i e.
          let f = (unscoped-row env param t).at i e in
          Ends-go (elim (Bool-cases i.trashed) [
            | inl gone ↦ rw (gone, if◌then◌else◌) (restore_trashed-Step env i t k f gone)
            | inr live ↦ rw (live, if◌then◌else◌) (stays t)
          ]))

  -- purging port forwards changes no interface
  abbrev SameInterfaces : Tables → Tables → Type 0
  SameInterfaces t t' = (t'.interfaces ≡ t.interfaces) × (t'.interface_seq ≡ t.interface_seq)

  purged-rows :
      (env : Env) (device : String) (id : ℕ) (t : Tables) (k : K)
      → SameInterfaces t
          (purge_port_forwards kernel.host env.rows_fail device (forwards_on env t id) (t, k)).0
  purged-rows env device id t k =
      subst (SameInterfaces t)
        (sym (purge-forwards kernel.host env.rows_fail device (forwards_on env t id) t k))
        (refl, refl)

  gone-Move : (p q : Phase) (i : Interface) → p ≡ shown i → q ≡ absent → Move p q
  gone-Move p q i before after = elim (Bool-cases i.trashed) [
    | inl e ↦
        let was : p ≡ in_trash = before ∙ rw (e, if◌then◌else◌) refl in rw (was, after) purging
    | inr e ↦
        let was : p ≡ active = before ∙ rw (e, if◌then◌else◌) refl in rw (was, after) purging_active
  ]

  pub purge-Step :
      (env : Env) (param : String) (s : Tables × K)
      → Step s.0 (purge_interface kernel env param s).1.0
  unfolding purge_interface
  purge-Step env param (t, k) =
      answer-Ends (λ (s : Tables × K). Step t s.0) (stays t)
        (Ends-bind λ i e.
          let f = (unscoped-row env param t).at i e in
          let rows = purged-rows env i.name i.id t k in
          let before = phase_in-first i.id t.interfaces f in
          let left = λ (is : List Interface). select (λ x. not (is_row i.id x)) is in
          Ends-go (
            if-cases (StepsFrom t) env.peers_fail _ _
              (idle rows.1 (λ j. ap (λ (is : List Interface). phase_in is j) rows.0))
              (if-cases (StepsFrom t) env.write_fails _ _
                (idle rows.1 (λ j. ap (λ (is : List Interface). phase_in is j) rows.0))
                (moving i.id rows.1
                  (gone-Move (phase_of t i.id) _ i before (phase_in-dropped i.id _))
                  (λ j d.
                    ap (λ (is : List Interface). phase_in (left is) j) rows.0
                    ∙ phase_in-kept i.id t.interfaces j d)))))

  synced-Step :
      (t : Tables) (out : Option String × (Tables × K))
      → Step t out.1.0
      → Step t (synced kernel out).1.0
  unfolding synced
  synced-Step t (none, s) h = h
  synced-Step t (some e, s) h = h

  pub sync-Step :
      (env : Env) (param : String) (s : Tables × K)
      → Step s.0 (sync_interface kernel env param s).1.0
  unfolding sync_interface
  sync-Step env param (t, k) =
      answer-Ends (λ (s : Tables × K). Step t s.0) (stays t)
        (Ends-bind λ id _.
          Ends-bind
            λ i _. Ends-go (synced-Step t _ (reconcile-Step env.egress_fails id t t k (stays t))))
