-- ===== src/Wg/Publish/Isolation.antt =====
-- Requests on port forwards leave those of other owners as they are.
use vpn_manager.Common.{
  ℕ, suc, ◌≤◌, String, true, false, not, ◌≡◌, ◌≢◌, refl, ◌∙◌, ap, Option, none, some, List, [], ◌∷◌,
  All, first-satisfies, select, by_key, IsKeyed, arith, Bool-cases, if-cases, inl, inr,
  if◌then◌else◌, ◌==◌, ==_iff,
}
use vpn_manager.Http.{Reply}
use vpn_manager.Http.Attempt.Ends.{
  Ends, Ends-go, Ends-bind, answer-Ends, found_or-eq-go, refuse_if-eq-go,
}
use vpn_manager.Rbac.Resolve.{Caller, caller_is_super}
use vpn_manager.Rbac.Store.Valid.{
  IsKeyed-map, IsKeyed-select, IsKeyed-append, All-map, All-select, All-append, All-weaken,
}
use vpn_manager.Wg.Firewall.{Host}
use vpn_manager.Wg.Forwards.{PortForward}
use vpn_manager.Wg.Model.{Tables, forward_key, forward_row}
use vpn_manager.Wg.Ownership.{is_owner, owns_resource, current_owner_id}
use vpn_manager.Wg.Publish.{
  Env, Response, save_forward, drop_forward, insert_forward, CreatePortForwardRequest,
  UpdatePortForwardRequest, find_owned_port_forward, create_port_forward, update_port_forward,
  delete_port_forward, save_update, changed,
}
use vpn_manager.Wg.Publish.Rows.{put, select-append, select-put, select-drop}
use vpn_manager.Wg.Publish.Reserved.{Op, create, update, delete, env_of, apply, serve}

-- the port forwards of an owner
abbrev pub forwards_of : ℕ → Tables → List PortForward
forwards_of o t = select (λ f. is_owner f.owner_id o) t.forwards

-- Ids of port forwards are unique and within their sequence.
pub record IsValid (t : Tables) : Type 0 where
  pub keyed : IsKeyed forward_key t.forwards
  pub below : All (λ f. f.id ≤ t.forward_seq) t.forwards

-- A valid table in which the owner's port forwards are these.
record Kept (o : ℕ) (rows : List PortForward) (t : Tables) : Type 0 where
  valid : IsValid t
  same : forwards_of o t ≡ rows

is_owner-other :
    (owner : Option ℕ) (c o : ℕ) → is_owner owner c ≡ true → c ≢ o → is_owner owner o ≡ false
is_owner-other none c o h d = refl
is_owner-other (some k) c o h d = ground arith

pub current_owner_id-other :
    (c : Caller) (o : ℕ) → c.id ≢ o → is_owner (current_owner_id c) o ≡ false
unfolding current_owner_id
current_owner_id-other c o d = elim (Bool-cases (c.id == 0)) [
  | inl e ↦ rw (e, if◌then◌else◌) refl
  | inr e ↦ rw (e, if◌then◌else◌) (ground arith)
]

-- The row that a handler found: it is the one with its id, and not the owner's.
record Foreign (o : ℕ) (t : Tables) (pf : PortForward) : Type 0 where
  found : forward_row t pf.id ≡ some pf
  owner : is_owner pf.owner_id o ≡ false

abbrev pub IsOutsider : ℕ → Env → Type 0
IsOutsider o env = (caller_is_super env.caller ≡ false) × (env.caller.id ≢ o)

pub owned-other :
    (o : ℕ) (c : Caller) (owner : Option ℕ)
    → caller_is_super c ≡ false
    → c.id ≢ o
    → not (owns_resource c owner) ≡ false
    → is_owner owner o ≡ false
unfolding owns_resource
owned-other o c owner plain d h = is_owner-other owner c.id o (ground (arith, plain)) d

found-Foreign :
    (o : ℕ) (env : Env) (param : String) (t : Tables)
    → IsOutsider o env
    → Ends (λ x. Foreign o t x.0) (find_owned_port_forward {R = Response} env param t)
unfolding find_owned_port_forward
found-Foreign o env param t (plain, d) = Ends-bind λ id _. Ends-bind λ pf e. Ends-bind λ _ owns.
    Ends-bind λ iface _.
      let row : forward_row t id ≡ some pf = found_or-eq-go env.find_fails _ _ _ pf e in
      let key : pf.id ≡ id =
        (==_iff pf.id id).0 (first-satisfies (by_key forward_key id) t.forwards row) in
      Ends-go (record {
        found = ap (forward_row t) key ∙ row;
        owner = owned-other o env.caller pf.owner_id plain d (refuse_if-eq-go _ _ _ owns);
      })

module _ (o : ℕ) (rows : List PortForward) where
  Kept-insert :
      (pf : PortForward) (t : Tables)
      → pf.id ≡ suc t.forward_seq
      → is_owner pf.owner_id o ≡ false
      → Kept o rows t
      → Kept o rows (insert_forward pf t)
  Kept-insert pf t e d k = record {
    valid = record {
      keyed = IsKeyed-append forward_key t.forwards pf t.forward_seq k.valid.keyed k.valid.below e;
      below =
          All-append (λ f. f.id ≤ suc t.forward_seq) t.forwards (pf ∷ [])
            (All-weaken (λ f. f.id ≤ t.forward_seq) (λ f. f.id ≤ suc t.forward_seq) t.forwards
              (λ f h. omega (arith, h)) k.valid.below)
            (omega (arith, e), tt);
    };
    same = select-append (λ f. is_owner f.owner_id o) t.forwards pf d ∙ k.same;
  }

  Kept-save :
      (old new : PortForward) (t : Tables)
      → Foreign o t old
      → new.id ≡ old.id
      → new.owner_id ≡ old.owner_id
      → Kept o rows t
      → Kept o rows (save_forward new t)
  Kept-save old new t f key owner k = record {
    valid = record {
      keyed =
          IsKeyed-map forward_key (put (λ x. true) new) t.forwards (λ x. key_of-put x)
            k.valid.keyed;
      below =
          All-map (λ x. x.id ≤ t.forward_seq) (put (λ x. true) new) t.forwards
            (λ x h. omega (arith, h, key_of-put x)) k.valid.below;
    };
    same =
        select-put (λ x. is_owner x.owner_id o) old new t.forwards k.valid.keyed
          (ap (forward_row t) key ∙ f.found) f.owner
          (ap (λ (i : Option ℕ). is_owner i o) owner ∙ f.owner)
        ∙ k.same;
  }
    where
      key_of-put : (x : PortForward) → (if x.id == new.id then new else x).id ≡ x.id
      key_of-put x = elim (Bool-cases (x.id == new.id)) [
        | inl e ↦ rw (e, if◌then◌else◌) (ground arith)
        | inr e ↦ rw (e, if◌then◌else◌) refl
      ]

  Kept-drop :
      (old : PortForward) (t : Tables)
      → Foreign o t old
      → Kept o rows t
      → Kept o rows (drop_forward old.id t)
  Kept-drop old t f k = record {
    valid = record {
      keyed = IsKeyed-select forward_key (λ x. not (x.id == old.id)) t.forwards k.valid.keyed;
      below =
          All-select (λ x. x.id ≤ t.forward_seq) (λ x. not (x.id == old.id)) t.forwards
            k.valid.below;
    };
    same =
        select-drop (λ x. is_owner x.owner_id o) old old.id t.forwards k.valid.keyed f.found f.owner
        ∙ k.same;
  }

  module _ {K : Type 0} (h : Host K) where
    create-Kept :
        (env : Env) (body : Option CreatePortForwardRequest) (s : Tables × K)
        → IsOutsider o env
        → Kept o rows s.0
        → Kept o rows (create_port_forward h env body s).1.0
    unfolding create_port_forward
    create-Kept env body (t, k) (plain, d) kept =
        answer-Ends (λ (s : Tables × K). Kept o rows s.0) kept
          (Ends-bind λ req _. Ends-bind λ _ _. Ends-bind λ _ _. Ends-bind λ iface _.
            Ends-bind λ peer _. Ends-bind λ _ _. Ends-bind λ _ _. Ends-bind λ egress _.
              Ends-bind λ _ _.
                Ends-bind λ _ _.
                  Ends-go (Kept-insert _ t refl (current_owner_id-other env.caller o d) kept))

    update-Kept :
        (env : Env) (param : String) (body : Option UpdatePortForwardRequest) (s : Tables × K)
        → IsOutsider o env
        → Kept o rows s.0
        → Kept o rows (update_port_forward h env param body s).1.0
    unfolding update_port_forward save_update changed
    update-Kept env param body (t, k) out kept =
        answer-Ends (λ (s : Tables × K). Kept o rows s.0) kept
          (Ends-bind λ found e. Ends-bind λ req _. Ends-bind λ _ _.
            let f = (found-Foreign o env param t out).at found e in
            let P = λ (x : Reply Response × (Tables × K)). Kept o rows x.1.0 in
            let saved = Kept-save found.0 (changed req found.0) t f refl refl kept in
            Ends-go (
              if-cases P env.write_fails _ _ kept
                (if-cases P (changed req found.0).enabled _ _ saved saved)))

    delete-Kept :
        (env : Env) (param : String) (s : Tables × K)
        → IsOutsider o env
        → Kept o rows s.0
        → Kept o rows (delete_port_forward h env param s).1.0
    unfolding delete_port_forward
    delete-Kept env param (t, k) out kept =
        answer-Ends (λ (s : Tables × K). Kept o rows s.0) kept
          (Ends-bind λ found e.
            let f = (found-Foreign o env param t out).at found e in
            let P = λ (x : Reply Response × (Tables × K)). Kept o rows x.1.0 in
            Ends-go (if-cases P env.write_fails _ _ kept (Kept-drop found.0 t f kept)))

    serve-Kept :
        (ops : List Op) (s : Tables × K)
        → All (λ op. IsOutsider o (env_of op)) ops
        → Kept o rows s.0
        → Kept o rows (serve h ops s).0
    unfolding serve apply
    serve-Kept [] s out kept = kept
    serve-Kept (create env body ∷ ops) s (a, out) kept =
        serve-Kept ops _ out (create-Kept env body s a kept)
    serve-Kept (update env param body ∷ ops) s (a, out) kept =
        serve-Kept ops _ out (update-Kept env param body s a kept)
    serve-Kept (delete env param ∷ ops) s (a, out) kept =
        serve-Kept ops _ out (delete-Kept env param s a kept)

-- Requests on port forwards of callers who are neither an owner nor super admins, whatever fails, leave that
-- owner's port forwards as they are, and ids stay unique and within their sequence.
pub serve_keeps_forwards :
    {K : Type 0} (h : Host K) (o : ℕ) (ops : List Op) (s : Tables × K)
    → All (λ op. IsOutsider o (env_of op)) ops
    → IsValid s.0
    → (forwards_of o (serve h ops s).0 ≡ forwards_of o s.0) × IsValid (serve h ops s).0
serve_keeps_forwards h o ops s out valid =
    let kept =
      serve-Kept o (forwards_of o s.0) h ops s out (record { valid = valid; same = refl }) in
    (kept.same, kept.valid)
