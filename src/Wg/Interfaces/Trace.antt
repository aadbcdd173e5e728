-- ===== src/Wg/Interfaces/Trace.antt =====
-- Sequences of requests on interfaces.
use vpn_manager.Common.{ℕ, String, Bool, false, arith, ◌≡◌, ◌≢◌, refl, Option, List, [], ◌∷◌, All}
use vpn_manager.Rbac.Resolve.{Caller, caller_is_super}
use vpn_manager.Wg.Model.{Tables}
use vpn_manager.Wg.Ownership.{is_owner}
use vpn_manager.Wg.Publish.Isolation.{current_owner_id-other, owned-other}
use vpn_manager.Wg.Sync.{Kernel}
use vpn_manager.Wg.Interfaces.{Env, CreateInterfaceRequest, UpdateInterfaceRequest}
use vpn_manager.Wg.Interfaces.Requests.{
  create_interface, update_interface, trash_interface, restore_interface, purge_interface,
  sync_interface,
}
use vpn_manager.Wg.Interfaces.Writes.{IsValid, View, view_of, Kept}
use vpn_manager.Wg.Interfaces.Foreign.{IsOutsider}
use vpn_manager.Wg.Interfaces.Keeps.{
  create-Kept, update-Kept, trash-Kept, restore-Kept, purge-Kept, sync-Kept,
}

-- A request on interfaces.
pub data Op : Type 0 where
  create : Env → Option CreateInterfaceRequest → Op
  update : Env → String → Option UpdateInterfaceRequest → Op
  trash : Env → String → Op
  restore : Env → String → Op
  purge : Env → String → Op
  sync : Env → String → Op

abbrev pub caller_of : Op → Caller
caller_of (create env _) = env.caller
caller_of (update env _ _) = env.caller
caller_of (trash env _) = env.caller
caller_of (restore env _) = env.caller
caller_of (purge env _) = env.caller
caller_of (sync env _) = env.caller

module _ {K : Type 0} (kernel : Kernel K) where
  unfoldable pub apply : Op → Tables × K → Tables × K
  apply (create env body) s = (create_interface kernel env body s).1
  apply (update env param body) s = (update_interface kernel env param body s).1
  apply (trash env param) s = (trash_interface kernel env param s).1
  apply (restore env param) s = (restore_interface kernel env param s).1
  apply (purge env param) s = (purge_interface kernel env param s).1
  apply (sync env param) s = (sync_interface kernel env param s).1

  unfoldable pub serve : List Op → Tables × K → Tables × K
  unfolding apply
  serve [] s = s
  serve (op ∷ ops) s = serve ops (apply op s)

  module _ (own : Option ℕ → Bool) (v : View) where
    apply-Kept :
        (op : Op) (s : Tables × K)
        → IsOutsider own (caller_of op)
        → Kept own v s.0
        → Kept own v (apply op s).0
    unfolding apply
    apply-Kept (create env body) s out k = create-Kept own v kernel env body s out k
    apply-Kept (update env param body) s out k = update-Kept own v kernel env param body s out k
    apply-Kept (trash env param) s out k = trash-Kept own v kernel env param s out k
    apply-Kept (restore env param) s out k = restore-Kept own v kernel env param s out k
    apply-Kept (purge env param) s out k = purge-Kept own v kernel env param s out k
    apply-Kept (sync env param) s out k = sync-Kept own v kernel env param s out k

    serve-Kept :
        (ops : List Op) (s : Tables × K)
        → All (λ op. IsOutsider own (caller_of op)) ops
        → Kept own v s.0
        → Kept own v (serve ops s).0
    unfolding serve
    serve-Kept [] s out k = k
    serve-Kept (op ∷ ops) s (out, outs) k = serve-Kept ops (apply op s) outs (apply-Kept op s out k)

  everyone : (ops : List Op) → All (λ op. IsOutsider (λ _. false) (caller_of op)) ops
  everyone [] = tt
  everyone (op ∷ ops) = ((λ w h. refl, refl), everyone ops)

  -- Whoever requests what and whatever fails, ids and names of interfaces and ids of port forwards stay
  -- unique, if they were.
  pub serve_keeps_IsValid : (ops : List Op) (s : Tables × K) → IsValid s.0 → IsValid (serve ops s).0
  serve_keeps_IsValid ops s valid =
      (serve-Kept (λ _. false) (view_of (λ _. false) s.0) ops s (everyone ops)
        (record { valid = valid; same = refl })).valid

  -- a caller who is neither this user nor a super admin
  abbrev pub IsOther : ℕ → Caller → Type 0
  IsOther o c = (caller_is_super c ≡ false) × (c.id ≢ o)

  others :
      (o : ℕ) (ops : List Op)
      → All (λ op. IsOther o (caller_of op)) ops
      → All (λ op. IsOutsider (λ w. is_owner w o) (caller_of op)) ops
  others o [] h = tt
  others o (op ∷ ops) ((plain, d), h) = (
    (
      λ w owns. owned-other o (caller_of op) w plain d (ground (arith, owns)),
      current_owner_id-other (caller_of op) o d,
    ),
    others o ops h,
  )

  -- Requests on interfaces of callers who are neither an owner nor super admins leave that owner's
  -- interfaces, the peers and the port forwards of these as they are, whatever fails, in tables in which ids and names are
  -- unique.
  pub serve_keeps_view :
      (o : ℕ) (ops : List Op) (s : Tables × K)
      → All (λ op. IsOther o (caller_of op)) ops
      → IsValid s.0
      → view_of (λ w. is_owner w o) (serve ops s).0 ≡ view_of (λ w. is_owner w o) s.0
  serve_keeps_view o ops s out valid =
      (serve-Kept (λ w. is_owner w o) _ ops s (others o ops out)
        (record { valid = valid; same = refl })).same
