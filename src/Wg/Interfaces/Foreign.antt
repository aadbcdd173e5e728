-- ===== src/Wg/Interfaces/Foreign.antt =====
-- The rows that requests on interfaces find, where the caller has none of the interfaces that `own`
-- picks.
use vpn_manager.Common.{
  ℕ, suc, Bool-cases, inl, inr, ◌≤◌, String, Bool, true, false, not, ◌&&◌, ◌≡◌, refl, sym, ◌∙◌, ap,
  List, [], ◌∷◌, All, any, any-first, select, select-select, select_all, select_congr, first-live,
  first-satisfies, first, by_key, arith, if◌then◌else◌, ◌==◌, ==_iff, Option, none, some,
}
use vpn_manager.Http.Attempt.Ends.{Ends, Ends-go, Ends-bind, found_or-eq-go, refuse_if-eq-go}
use vpn_manager.Rbac.Resolve.{Caller}
use vpn_manager.Wg.Firewall.{Host}
use vpn_manager.Wg.Forwards.{PortForward}
use vpn_manager.Wg.Model.{Interface, Tables, interface_key, interface_unscoped}
use vpn_manager.Wg.Ownership.{owns_resource, current_owner_id, get_owned_interface}
use vpn_manager.Wg.Publish.{drop_forward}
use vpn_manager.Wg.Publish.Loops.{purge_port_forwards}
use vpn_manager.Wg.Interfaces.{Env, find_interface, find_unscoped, is_row}
use vpn_manager.Wg.Interfaces.Writes.{View, Kept, IsOutside, IsForeign-IsOutside}

-- A caller who neither has nor gets any of these interfaces.
abbrev pub IsOutsider : (Option ℕ → Bool) → Caller → Type 0
IsOutsider own c =
    ((w : Option ℕ) → owns_resource c w ≡ true → own w ≡ false) × (own (current_owner_id c) ≡ false)

pub fresh_id :
    (p : Interface → Bool) (top : ℕ) (xs : List Interface)
    → All (λ i. i.id ≤ top) xs
    → any (λ i. is_row (suc top) i && p i) xs ≡ false
fresh_id p top [] h = refl
fresh_id p top (x ∷ xs) (low, h) = ground (arith, low, fresh_id p top xs h)

-- the ids of port forwards whose deletion works
abbrev deleted : (ℕ → Bool) → List PortForward → List PortForward
deleted fails pfs = select (λ r. not (fails r.id)) pfs

abbrev without : List PortForward → Tables → Tables
without pfs t = record t { forwards = select (λ f. not (any (λ r. r.id == f.id) pfs)) t.forwards }

without-deleted :
    (fails : ℕ → Bool) (pf : PortForward) (pfs : List PortForward) (t : Tables)
    → without (deleted fails pfs) (if fails pf.id then t else drop_forward pf.id t)
      ≡ without (deleted fails (pf ∷ pfs)) t
without-deleted fails pf pfs t = elim (Bool-cases (fails pf.id)) [
  | inl e ↦ rw (e, if◌then◌else◌) refl
  | inr e ↦
      rw (e, if◌then◌else◌)
        (ap (λ (fs : List PortForward). record t { forwards = fs })
          (select-select (λ f. not (any (λ r. r.id == f.id) (deleted fails pfs)))
              (λ f. not (f.id == pf.id)) t.forwards
            ∙ select_congr _ _ t.forwards (λ f. ground arith)))
]

pub purge-forwards :
    {K : Type 0} (h : Host K) (fails : ℕ → Bool) (device : String) (pfs : List PortForward)
    (t : Tables) (k : K)
    → (purge_port_forwards h fails device pfs (t, k)).0 ≡ without (deleted fails pfs) t
unfolding purge_port_forwards
purge-forwards h fails device [] t k =
    ap (λ (fs : List PortForward). record t { forwards = fs })
      (sym (select_all (λ f. true) t.forwards (λ f. refl)))
purge-forwards h fails device (pf ∷ pfs) t k =
    purge-forwards h fails device pfs _ _ ∙ without-deleted fails pf pfs t

pub purge-all :
    {K : Type 0} (h : Host K) (fails : ℕ → Bool) (device : String) (pfs : List PortForward)
    (t : Tables) (k : K)
    → ((id : ℕ) → fails id ≡ false)
    → (purge_port_forwards h fails device pfs (t, k)).0 ≡ without pfs t
purge-all h fails device pfs t k works =
    purge-forwards h fails device pfs t k
    ∙ ap (λ (rs : List PortForward). without rs t)
        (select_all (λ r. not (fails r.id)) pfs (λ r. ground (arith, works r.id)))

-- The row that a handler found: it is the one with its id, and none of those kept.
pub record Foreign (v : View) (t : Tables) (i : Interface) : Type 0 where
  pub found : first (by_key interface_key i.id) t.interfaces ≡ some i
  pub outside : IsOutside v i.id

module _ (own : Option ℕ → Bool) (v : View) where
  row-Foreign :
      (c : Caller) (t : Tables) (id : ℕ) (i : Interface)
      → IsOutsider own c
      → Kept own v t
      → first (by_key interface_key id) t.interfaces ≡ some i
      → not (owns_resource c i.owner_id) ≡ false
      → Foreign v t i
  row-Foreign c t id i out k row owns =
      let key : i.id ≡ id =
        (==_iff i.id id).0 (first-satisfies (by_key interface_key id) t.interfaces row) in
      let here : first (by_key interface_key i.id) t.interfaces ≡ some i =
        ap (λ (n : ℕ). first (by_key interface_key n) t.interfaces) key ∙ row in
      record {
        found = here;
        outside = IsForeign-IsOutside own i.id v t k (
            any-first interface_key (λ x. own x.owner_id) i.id t.interfaces k.valid.keyed here
            ∙ out.0 i.owner_id (ground (arith, owns)));
      }

  pub found-Foreign :
      (env : Env) (param : String) (t : Tables)
      → IsOutsider own env.caller
      → Kept own v t
      → Ends (Foreign v t) (find_interface {R = Interface} env t param)
  unfolding find_interface
  found-Foreign env param t out k = Ends-bind λ id _. Ends-bind λ i e. Ends-bind λ _ owns. Ends-go (
      row-Foreign env.caller t id i out k
        (first-live interface_key (λ x. not x.trashed) id t.interfaces k.valid.keyed
          (found_or-eq-go env.find_fails _ _ _ i e))
        (refuse_if-eq-go _ _ _ owns))

  pub unscoped-Foreign :
      (env : Env) (param : String) (t : Tables)
      → IsOutsider own env.caller
      → Kept own v t
      → Ends (Foreign v t) (find_unscoped {R = Interface} env t param)
  unfolding find_unscoped
  unscoped-Foreign env param t out k = Ends-bind λ id _. Ends-bind λ i e. Ends-bind λ _ owns.
      let row : (if env.find_fails then none else interface_unscoped t id) ≡ some i =
        found_or-eq-go false _ _ _ i e in
      Ends-go (
        row-Foreign env.caller t id i out k (some_of env.find_fails row)
          (refuse_if-eq-go _ _ _ owns))
    where
      some_of :
          (b : Bool) {x : Option Interface} {i : Interface}
          → (if b then none else x) ≡ some i
          → x ≡ some i
      some_of true e = cc
      some_of false e = e

  pub owned-IsOutside :
      (fault : Bool) (c : Caller) (t : Tables) (id : ℕ)
      → IsOutsider own c
      → Kept own v t
      → Ends (λ _. IsOutside v id) (get_owned_interface {R = Interface} fault c t id)
  unfolding get_owned_interface
  owned-IsOutside fault c t id out k = Ends-bind λ i e. Ends-bind λ _ owns.
      let row =
        first-live interface_key (λ x. not x.trashed) id t.interfaces k.valid.keyed
          (found_or-eq-go fault _ _ _ i e) in
      let key : id ≡ i.id =
        sym ((==_iff i.id id).0 (first-satisfies (by_key interface_key id) t.interfaces row)) in
      let f = row-Foreign c t id i out k row (refuse_if-eq-go _ _ _ owns) in
      Ends-go (ap (λ (n : ℕ). any (is_row n) v.0) key ∙ f.outside)
