-- ===== src/Wg/Interfaces/Purged.antt =====
-- What purging and restoring an interface leave.
use vpn_manager.Common.{
  ℕ, String, Bool, true, false, ◌&&◌, ◌≡◌, refl, sym, subst, ◌∙◌, ap, any, select, selected_gone,
  any-removed, All, All-revise, if◌then◌else◌, ◌==◌, Option, none, some, arith,
}
use vpn_manager.Rbac.Store.Valid.{All-map}
use vpn_manager.Http.Attempt.{go, ◌>>=◌, answer}
use vpn_manager.Wg.Forwards.{PortForward}
use vpn_manager.Wg.Model.{Interface, Tables, forward_key}
use vpn_manager.Wg.Sync.{Kernel}
use vpn_manager.Wg.Sync.Written.{reconcile-keeps}
use vpn_manager.Wg.Interfaces.{Env, find_unscoped, is_row, is_on, mark_interface, mark_peers}
use vpn_manager.Wg.Interfaces.Foreign.{purge-all}
use vpn_manager.Wg.Interfaces.Requests.{
  purge_interface, restore_interface, restore_trashed, after_restore,
}

abbrev pub is_forward_on : ℕ → PortForward → Bool
is_forward_on id f = f.interface_id == id

-- Purging an interface that the caller may purge, when no query fails, leaves neither the interface
-- nor a peer nor a port forward of it in the tables.
pub purge_interface-gone :
    {K : Type 0} (kernel : Kernel K) (env : Env) (param : String) (t : Tables) (k : K)
    (i : Interface)
    → find_unscoped {R = Interface} env t param ≡ go i
    → env.write_fails ≡ false
    → env.peers_fail ≡ false
    → env.forwards_fail ≡ false
    → ((id : ℕ) → env.rows_fail id ≡ false)
    → (any (is_row i.id) (purge_interface kernel env param (t, k)).1.0.interfaces ≡ false)
      × (any (is_on i.id) (purge_interface kernel env param (t, k)).1.0.peers ≡ false)
      × (any (is_forward_on i.id) (purge_interface kernel env param (t, k)).1.0.forwards ≡ false)
unfolding purge_interface ◌>>=◌ answer
purge_interface-gone kernel env param t k i found works peers reads deletes =
    rw (found, works, peers, reads, if◌then◌else◌)
      (
        any-removed (is_row i.id) _,
        any-removed (is_on i.id) _,
        ap (λ (s : Tables). any (is_forward_on i.id) s.forwards)
              (purge-all kernel.host env.rows_fail i.name (select (is_forward_on i.id) t.forwards) t
                k deletes)
            ∙ selected_gone forward_key (is_forward_on i.id) t.forwards,
      )

-- The interface and all its peers are out of the trash.
pub record IsLive (id : ℕ) (t : Tables) : Type 0 where
  pub rows : All (λ i. (is_row id i && i.trashed) ≡ false) t.interfaces
  pub peers : All (λ p. (is_on id p && p.trashed) ≡ false) t.peers

after_restore-tables :
    {K : Type 0} (kernel : Kernel K) (env : Env) (i : Interface)
    (out : Option String × (Tables × K))
    → (after_restore kernel env i out).1.0 ≡ out.1.0
unfolding after_restore
after_restore-tables kernel env i (none, (t, k)) = refl
after_restore-tables kernel env i (some e, (t, k)) = refl

marked-IsLive : (id : ℕ) (t : Tables) → IsLive id (mark_peers false id (mark_interface false id t))
marked-IsLive id t = record {
  rows =
      All-revise (λ i. (is_row id i && i.trashed) ≡ false) (is_row id) _ t.interfaces
        (λ i h. ground arith) (λ i h. ground arith);
  peers =
      All-revise (λ p. (is_on id p && p.trashed) ≡ false) (is_on id) _ t.peers (λ p h. ground arith)
        (λ p h. ground arith);
}

-- Restoring an interface from the trash, when its two updates succeed, takes the interface and every
-- one of its peers out of the trash, those that were trashed before the interface included, whatever the kernel answers.
pub restore_interface-IsLive :
    {K : Type 0} (kernel : Kernel K) (env : Env) (param : String) (t : Tables) (k : K)
    (i : Interface)
    → find_unscoped {R = Interface} env t param ≡ go i
    → i.trashed ≡ true
    → env.write_fails ≡ false
    → env.peers_fail ≡ false
    → IsLive i.id (restore_interface kernel env param (t, k)).1.0
unfolding restore_interface restore_trashed ◌>>=◌ answer
restore_interface-IsLive kernel env param t k i found gone works peers =
    rw (found, gone, works, peers, if◌then◌else◌)
      (subst (IsLive i.id) (sym (after_restore-tables kernel env _ _)) (
        reconcile-keeps kernel (IsLive i.id) env.egress_fails i.id _ k (marked-IsLive i.id t)
          (λ iface row name. record {
            rows =
                All-map (λ x. (is_row i.id x && x.trashed) ≡ false)
                  (λ x. if x.id == iface.id then record x { egress = name } else x) _
                  (λ x h. ground (arith, h)) (marked-IsLive i.id t).rows;
            peers = (marked-IsLive i.id t).peers;
          })))
