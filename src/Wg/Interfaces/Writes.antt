-- ===== src/Wg/Interfaces/Writes.antt =====
-- What the writes of requests on interfaces leave: valid tables, in which what belongs to the
-- interfaces of another owner is as it was.
use vpn_manager.Common.{
  any-part, select-select, not, arith, IsDistinct, IsDistinct-map, IsDistinct-select,
  IsDistinct-insert, =ₛ-comm, ℕ, suc, ◌≤◌, Bool, false, not, ◌&&◌, ◌≡◌, refl, sym, ◌∙◌, ap, List,
  [], ◌∷◌, All, any, any_none, any-select, any_congr, any-keys_of_selected, select, select-revise,
  select-remove, select-insert, revise, IsKeyed, arith, Bool-cases, inl, inr, Option, if◌then◌else◌,
  ◌==◌, ◌=ₛ◌,
}
use vpn_manager.Rbac.Store.Valid.{
  IsKeyed-map, IsKeyed-select, IsKeyed-append, All-map, All-select, All-append, All-weaken,
}
use vpn_manager.Wg.Forwards.{PortForward}
use vpn_manager.Wg.Model.{Interface, Peer, Tables, interface_key, forward_key}
use vpn_manager.Wg.Interfaces.{
  insert_interface, mark_peers, drop_peers, drop_interface, name_taken, is_row, is_on,
}

abbrev pub same_name : Interface → Interface → Bool
same_name x y = x.name =ₛ y.name

-- Ids are unique and within their sequence, and names of interfaces are unique.
pub record IsValid (t : Tables) : Type 0 where
  pub keyed : IsKeyed interface_key t.interfaces
  pub below : All (λ i. i.id ≤ t.interface_seq) t.interfaces
  pub distinct : IsDistinct same_name t.interfaces
  pub forwards_keyed : IsKeyed forward_key t.forwards

-- What owners have: the interfaces of those that `own` picks, and the peers and port forwards of these.
abbrev pub View : Type 0
View = List Interface × List Peer × List PortForward

abbrev pub interfaces_of : (Option ℕ → Bool) → Tables → List Interface
interfaces_of own t = select (λ i. own i.owner_id) t.interfaces

abbrev pub view_over : List Interface → Tables → View
view_over mine t = (
  mine,
  select (λ p. any (is_row p.interface_id) mine) t.peers,
  select (λ f. any (is_row f.interface_id) mine) t.forwards,
)

abbrev pub view_of : (Option ℕ → Bool) → Tables → View
view_of own t = view_over (interfaces_of own t) t

-- A valid table in which the owner has this.
pub record Kept (own : Option ℕ → Bool) (v : View) (t : Tables) : Type 0 where
  pub valid : IsValid t
  pub same : view_of own t ≡ v

-- No interface with this id is the owner's.
abbrev pub IsForeign : (Option ℕ → Bool) → ℕ → Tables → Type 0
IsForeign own id t = any (λ i. is_row id i && own i.owner_id) t.interfaces ≡ false

foreign_id :
    (own : Option ℕ → Bool) (id : ℕ) (t : Tables)
    → IsForeign own id t
    → any (is_row id) (interfaces_of own t) ≡ false
foreign_id own id t h =
    any-select (is_row id) (λ i. own i.owner_id) t.interfaces
    ∙ any_congr (λ i. own i.owner_id && is_row id i) (λ i. is_row id i && own i.owner_id)
        t.interfaces (λ i. ground arith)
    ∙ h

-- No interface with this id is in the view.
abbrev pub IsOutside : View → ℕ → Type 0
IsOutside v id = any (is_row id) v.0 ≡ false

pub IsForeign-IsOutside :
    (own : Option ℕ → Bool) (id : ℕ) (v : View) (t : Tables)
    → Kept own v t
    → IsForeign own id t
    → IsOutside v id
IsForeign-IsOutside own id v t k h =
    ap (λ (w : View). any (is_row id) w.0) (sym k.same) ∙ foreign_id own id t h

pub IsOutside-IsForeign :
    (own : Option ℕ → Bool) (id : ℕ) (v : View) (t : Tables)
    → Kept own v t
    → IsOutside v id
    → IsForeign own id t
IsOutside-IsForeign own id v t k h =
    any_congr (λ i. is_row id i && own i.owner_id) (λ i. own i.owner_id && is_row id i) t.interfaces
      (λ i. ground arith)
    ∙ sym (any-select (is_row id) (λ i. own i.owner_id) t.interfaces)
    ∙ ap (λ (w : View). any (is_row id) w.0) k.same
    ∙ h

-- Nothing on a foreign interface is on one of the owner's.
nothing_on :
    {A : Type 0} (own : Option ℕ → Bool) (id : ℕ) (t : Tables) (parent : A → ℕ) (xs : List A)
    → IsForeign own id t
    → any (λ x. parent x == id && any (is_row (parent x)) (interfaces_of own t)) xs ≡ false
nothing_on own id t parent xs h = any_none _ xs λ x. elim (Bool-cases (parent x == id)) [
  | inr e ↦ ground (arith, e)
  | inl e ↦
      let key : parent x ≡ id = ground arith in
      let gone : any (is_row (parent x)) (interfaces_of own t) ≡ false =
        rw key (foreign_id own id t h) in
      ground (arith, gone)
]

module _ (own : Option ℕ → Bool) (v : View) where
  pub Kept-revise :
      (id : ℕ) (f : Interface → Interface) (t : Tables)
      → ((i : Interface)
          → ((f i).id ≡ i.id) × ((f i).name ≡ i.name) × ((f i).owner_id ≡ i.owner_id))
      → IsForeign own id t
      → Kept own v t
      → Kept own v (record t { interfaces = revise (is_row id) f t.interfaces })
  Kept-revise id f t keeps foreign k = record {
    valid = record {
      keyed =
          IsKeyed-map interface_key (λ i. if is_row id i then f i else i) t.interfaces id_kept
            k.valid.keyed;
      below =
          All-map (λ i. i.id ≤ t.interface_seq) (λ i. if is_row id i then f i else i) t.interfaces
            (λ i h. omega (arith, h, id_kept i)) k.valid.below;
      distinct =
          IsDistinct-map same_name (λ i. if is_row id i then f i else i) t.interfaces
            (λ x y. rw (name_kept x, name_kept y) refl) k.valid.distinct;
      forwards_keyed = k.valid.forwards_keyed;
    };
    same =
        ap (λ (mine : List Interface). view_over mine t)
          (select-revise (λ i. own i.owner_id) (is_row id) f t.interfaces foreign
            (λ i. rw ((keeps i).2) refl))
        ∙ k.same;
  }
    where
      id_kept : (i : Interface) → (if is_row id i then f i else i).id ≡ i.id
      id_kept i = elim (Bool-cases (is_row id i)) [
        | inl e ↦ rw (e, if◌then◌else◌) ((keeps i).0)
        | inr e ↦ rw (e, if◌then◌else◌) refl
      ]

      name_kept : (i : Interface) → (if is_row id i then f i else i).name ≡ i.name
      name_kept i = elim (Bool-cases (is_row id i)) [
        | inl e ↦ rw (e, if◌then◌else◌) ((keeps i).1)
        | inr e ↦ rw (e, if◌then◌else◌) refl
      ]

  -- a change of peers only
  with_peers :
      (rows : List Peer) (t : Tables)
      → select (λ p. any (is_row p.interface_id) (interfaces_of own t)) rows
        ≡ select (λ p. any (is_row p.interface_id) (interfaces_of own t)) t.peers
      → Kept own v t
      → Kept own v (record t { peers = rows })
  with_peers rows t same k = record {
    valid = record {
      keyed = k.valid.keyed;
      below = k.valid.below;
      distinct = k.valid.distinct;
      forwards_keyed = k.valid.forwards_keyed;
    };
    same = ap (λ (ps : List Peer). (interfaces_of own t, ps, (view_of own t).2)) same ∙ k.same;
  }

  pub Kept-mark_peers :
      (gone : Bool) (id : ℕ) (t : Tables)
      → IsForeign own id t
      → Kept own v t
      → Kept own v (mark_peers gone id t)
  Kept-mark_peers gone id t foreign k =
      with_peers _ t
        (select-revise (λ p. any (is_row p.interface_id) (interfaces_of own t)) (is_on id) _ t.peers
          (nothing_on own id t (λ (p : Peer). p.interface_id) t.peers foreign) (λ p. refl))
        k

  pub Kept-drop_peers :
      (id : ℕ) (t : Tables) → IsForeign own id t → Kept own v t → Kept own v (drop_peers id t)
  Kept-drop_peers id t foreign k =
      with_peers _ t
        (select-remove (λ p. any (is_row p.interface_id) (interfaces_of own t)) (is_on id) t.peers
          (nothing_on own id t (λ (p : Peer). p.interface_id) t.peers foreign))
        k

  pub Kept-drop_interface :
      (id : ℕ) (t : Tables) → IsForeign own id t → Kept own v t → Kept own v (drop_interface id t)
  Kept-drop_interface id t foreign k = record {
    valid = record {
      keyed = IsKeyed-select interface_key (λ i. not (is_row id i)) t.interfaces k.valid.keyed;
      below =
          All-select (λ i. i.id ≤ t.interface_seq) (λ i. not (is_row id i)) t.interfaces
            k.valid.below;
      distinct = IsDistinct-select same_name (λ i. not (is_row id i)) t.interfaces k.valid.distinct;
      forwards_keyed = k.valid.forwards_keyed;
    };
    same =
        ap (λ (mine : List Interface). view_over mine t)
          (select-remove (λ i. own i.owner_id) (is_row id) t.interfaces foreign)
        ∙ k.same;
  }

  pub Kept-insert :
      (new : Interface) (t : Tables)
      → new.id ≡ suc t.interface_seq
      → own new.owner_id ≡ false
      → name_taken t new.name ≡ false
      → Kept own v t
      → Kept own v (insert_interface new t)
  Kept-insert new t e other free k = record {
    valid = record {
      keyed =
          IsKeyed-append interface_key t.interfaces new t.interface_seq k.valid.keyed k.valid.below
            e;
      below =
          All-append (λ i. i.id ≤ suc t.interface_seq) t.interfaces (new ∷ [])
            (All-weaken (λ i. i.id ≤ t.interface_seq) (λ i. i.id ≤ suc t.interface_seq) t.interfaces
              (λ i h. omega (arith, h)) k.valid.below)
            (omega (arith, e), tt);
      distinct =
          IsDistinct-insert same_name t.interfaces new (λ x y. =ₛ-comm x.name y.name) free
            k.valid.distinct;
      forwards_keyed = k.valid.forwards_keyed;
    };
    same =
        ap (λ (mine : List Interface). view_over mine t)
          (select-insert (λ i. own i.owner_id) t.interfaces new other)
        ∙ k.same;
  }

  -- removing port forwards with the ids of those on a foreign interface, but for some that stay
  pub Kept-drop_forwards :
      (stays : ℕ → Bool) (id : ℕ) (t : Tables)
      → IsForeign own id t
      → Kept own v t
      → Kept own v (record t {
        forwards =
            select
              (λ f. not (
                any
                  (λ r. r.id == f.id)
                  (select (λ r. not (stays r.id)) (select (λ f. f.interface_id == id) t.forwards))))
              t.forwards;
      })
  Kept-drop_forwards stays id t foreign k =
      let gone : PortForward → Bool = λ f. f.interface_id == id && not (stays f.id) in
      let mine : PortForward → Bool = λ f. any (is_row f.interface_id) (interfaces_of own t) in
      rw (select-select (λ r. not (stays r.id)) (λ f. f.interface_id == id) t.forwards) (record {
        valid = record {
          keyed = k.valid.keyed;
          below = k.valid.below;
          distinct = k.valid.distinct;
          forwards_keyed = IsKeyed-select forward_key _ t.forwards k.valid.forwards_keyed;
        };
        same =
            ap (λ (fs : List PortForward). (interfaces_of own t, (view_of own t).1, fs))
              (select-remove mine _ t.forwards (
                any-keys_of_selected forward_key gone mine t.forwards k.valid.forwards_keyed (
                  any-part (λ f. f.interface_id == id && mine f) (λ f. gone f && mine f) t.forwards
                    (λ f h. ground (arith, h))
                    (nothing_on own id t (λ (f : PortForward). f.interface_id) t.forwards
                      foreign))))
            ∙ k.same;
      })
