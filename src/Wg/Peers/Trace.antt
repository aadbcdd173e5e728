-- ===== src/Wg/Peers/Trace.antt =====
-- Sequences of requests on peers.
use vpn_manager.Common.{
  ℕ, String, true, false, not, ◌≡◌, refl, sym, subst, ap, ◌∙◌, Option, some, List, [], ◌∷◌, first,
  by_key, first-live, first-satisfies, ==_iff, if-cases,
}
use vpn_manager.Http.{Reply}
use vpn_manager.Http.Attempt.{found_or}
use vpn_manager.Http.Attempt.Ends.{
  Ends, Ends-go, Ends-bind, answer-Ends, found_or-eq-go, refuse_if-eq-go,
}
use vpn_manager.Wg.Model.{Peer, Tables, peer_row}
use vpn_manager.Wg.Publish.{interface_name_by_id}
use vpn_manager.Wg.Publish.Loops.{purge_port_forwards}
use vpn_manager.Wg.Interfaces.Foreign.{purge-forwards}
use vpn_manager.Wg.Sync.{Kernel}
use vpn_manager.Wg.Peers.{
  Env, UpdatePeerRequest, find_peer_with_scope, find_peer, find_peer_unscoped, update_peer,
  trash_peer, restore_peer, restore_trashed, purge_peer, changed, forwards_to,
}
use vpn_manager.Wg.Peers.Creation.{Source, CreatePeerRequest, create_peer}
use vpn_manager.Wg.Peers.Unique.{peer_key, IsValid, IsValid-insert, IsValid-put, IsValid-drop}

-- A request on peers.
pub data Op : Type 0 where
  create : Source → String → Option CreatePeerRequest → Op
  update : Env → String → Option UpdatePeerRequest → Op
  trash : Env → String → Op
  restore : Env → String → Op
  purge : Env → String → Op

abbrev IsFound : Tables → Peer → Type 0
IsFound t p = first (by_key peer_key p.id) t.peers ≡ some p

IsFound-row :
    (t : Tables) (id : ℕ) (p : Peer) → first (by_key peer_key id) t.peers ≡ some p → IsFound t p
IsFound-row t id p row =
    let key : p.id ≡ id = (==_iff p.id id).0 (first-satisfies (by_key peer_key id) t.peers row) in
    ap (λ (n : ℕ). first (by_key peer_key n) t.peers) key ∙ row

find_peer-IsFound :
    (env : Env) (t : Tables) (param : String)
    → IsValid t
    → Ends (IsFound t) (find_peer {R = Peer} env t param)
unfolding find_peer find_peer_with_scope
find_peer-IsFound env t param v = Ends-bind λ id _.
    let m =
      found_or {R = Peer} env.find_fails (peer_row t id) "peer not found" "failed to fetch peer" in
    record {
      at = λ p e. IsFound-row t id p (
          first-live peer_key (λ x. not x.trashed) id t.peers v.keyed
            (found_or-eq-go env.find_fails _ _ _ p e));
    }

find_peer_unscoped-IsFound :
    (env : Env) (t : Tables) (param : String)
    → Ends (IsFound t) (find_peer_unscoped {R = Peer} env t param)
unfolding find_peer_unscoped find_peer_with_scope
find_peer_unscoped-IsFound env t param =
    Ends-bind
      λ id _. record { at = λ p e. IsFound-row t id p (found_or-eq-go env.find_fails _ _ _ p e) }

module _ {K : Type 0} (kernel : Kernel K) where
  create-IsValid :
      (src : Source) (param : String) (body : Option CreatePeerRequest) (s : Tables × K)
      → IsValid s.0
      → IsValid (create_peer kernel src param body s).1.0
  unfolding create_peer
  create-IsValid src param body (t, k) v =
      answer-Ends (λ (s : Tables × K). IsValid s.0) v
        (Ends-bind λ id _. Ends-bind λ iface _. Ends-bind λ _ _. Ends-bind λ req _. Ends-bind λ _ _.
          Ends-bind λ keys _. Ends-bind λ _ _. Ends-bind λ _ _. Ends-bind λ psk _. Ends-bind λ ip _.
            Ends-bind λ _ _. Ends-bind λ _ _. Ends-bind λ _ _. Ends-bind λ _ free.
              Ends-bind
                λ _ _. Ends-go (IsValid-insert _ t refl refl (refuse_if-eq-go _ _ _ free) v))

  update-IsValid :
      (env : Env) (param : String) (body : Option UpdatePeerRequest) (s : Tables × K)
      → IsValid s.0
      → IsValid (update_peer kernel env param body s).1.0
  unfolding update_peer
  update-IsValid env param body (t, k) v =
      answer-Ends (λ (s : Tables × K). IsValid s.0) v
        (Ends-bind λ old e. Ends-bind λ _ _. Ends-bind λ req _. Ends-bind λ _ _. Ends-bind λ _ _.
          Ends-bind λ _ _. Ends-go (
            IsValid-put t (changed req) old (λ p. (refl, refl, refl, refl, refl))
              ((find_peer-IsFound env t param v).at old e) v))

  trash-IsValid :
      (env : Env) (param : String) (s : Tables × K)
      → IsValid s.0
      → IsValid (trash_peer kernel env param s).1.0
  unfolding trash_peer
  trash-IsValid env param (t, k) v =
      answer-Ends (λ (s : Tables × K). IsValid s.0) v
        (Ends-bind λ old e. Ends-bind λ _ _.
          let P = λ (x : Reply Peer × (Tables × K)). IsValid x.1.0 in
          Ends-go (
            if-cases P env.write_fails _ _ v (
              IsValid-put t (λ p. record p { trashed = true }) old
                (λ p. (refl, refl, refl, refl, refl)) ((find_peer-IsFound env t param v).at old e)
                v)))

  restore_trashed-IsValid :
      (env : Env) (old : Peer) (t : Tables) (k : K)
      → IsFound t old
      → IsValid t
      → Ends (λ x. IsValid x.1.0) (restore_trashed kernel env old (t, k))
  unfolding restore_trashed
  restore_trashed-IsValid env old t k found v = Ends-bind λ iface _. Ends-bind λ _ _. Ends-go (
      IsValid-put t (λ p. record p { trashed = false }) old (λ p. (refl, refl, refl, refl, refl))
        found v)

  restore-IsValid :
      (env : Env) (param : String) (s : Tables × K)
      → IsValid s.0
      → IsValid (restore_peer kernel env param s).1.0
  unfolding restore_peer
  restore-IsValid env param (t, k) v =
      answer-Ends (λ (s : Tables × K). IsValid s.0) v
        (Ends-bind λ old e. Ends-bind λ _ _.
          if-cases (Ends (λ (x : Reply Peer × (Tables × K)). IsValid x.1.0)) old.trashed _ _
            (restore_trashed-IsValid env old t k ((find_peer_unscoped-IsFound env t param).at old e)
              v)
            (Ends-go v))

  purged-IsValid :
      (env : Env) (device : String) (id : ℕ) (t : Tables) (k : K)
      → IsValid t
      → IsValid
          (purge_port_forwards kernel.host env.rows_fail device (forwards_to env t id) (t, k)).0
  purged-IsValid env device id t k v =
      subst IsValid
        (sym (purge-forwards kernel.host env.rows_fail device (forwards_to env t id) t k))
        (record {
          keyed = v.keyed;
          below = v.below;
          keys = v.keys;
          places = v.places;
          nets = v.nets;
        })

  purge-IsValid :
      (env : Env) (param : String) (s : Tables × K)
      → IsValid s.0
      → IsValid (purge_peer kernel env param s).1.0
  unfolding purge_peer
  purge-IsValid env param (t, k) v =
      answer-Ends (λ (s : Tables × K). IsValid s.0) v
        (Ends-bind λ old e. Ends-bind λ _ _.
          let P = λ (x : Reply Peer × (Tables × K)). IsValid x.1.0 in
          let cleared = purged-IsValid env (interface_name_by_id t old.interface_id) old.id t k v in
          Ends-go (if-cases P env.write_fails _ _ cleared (IsValid-drop _ old.id cleared)))

  unfoldable pub apply : Op → Tables × K → Tables × K
  apply (create src param body) s = (create_peer kernel src param body s).1
  apply (update env param body) s = (update_peer kernel env param body s).1
  apply (trash env param) s = (trash_peer kernel env param s).1
  apply (restore env param) s = (restore_peer kernel env param s).1
  apply (purge env param) s = (purge_peer kernel env param s).1

  unfoldable pub serve : List Op → Tables × K → Tables × K
  unfolding apply
  serve [] s = s
  serve (op ∷ ops) s = serve ops (apply op s)

  -- Whoever requests what and whatever fails, no two peers get the same id, public key or address on one
  -- interface, if none had before, those in the trash included.
  pub serve_keeps_unique : (ops : List Op) (s : Tables × K) → IsValid s.0 → IsValid (serve ops s).0
  unfolding serve apply
  serve_keeps_unique [] s v = v
  serve_keeps_unique (create src param body ∷ ops) s v =
      serve_keeps_unique ops _ (create-IsValid src param body s v)
  serve_keeps_unique (update env param body ∷ ops) s v =
      serve_keeps_unique ops _ (update-IsValid env param body s v)
  serve_keeps_unique (trash env param ∷ ops) s v =
      serve_keeps_unique ops _ (trash-IsValid env param s v)
  serve_keeps_unique (restore env param ∷ ops) s v =
      serve_keeps_unique ops _ (restore-IsValid env param s v)
  serve_keeps_unique (purge env param ∷ ops) s v =
      serve_keeps_unique ops _ (purge-IsValid env param s v)
