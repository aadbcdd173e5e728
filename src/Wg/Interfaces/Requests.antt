-- ===== src/Wg/Interfaces/Requests.antt =====
-- `InterfaceHandler` of backend/handlers/interface_handler.go: the requests that change an interface or
-- apply it to the kernel.
use vpn_manager.Common.{
  String, true, false, not, ◌&&◌, Option, none, some, any, ◌==◌, ◌=ₛ◌, if◌then◌else◌,
}
use vpn_manager.Text.{◌⧺◌}
use vpn_manager.Http.{
  Reply, reply_ok, reply_ok_warn, reply_created, reply_created_warn, reply_no_data,
  reply_no_data_warn, reply_error,
}
use vpn_manager.Http.Attempt.{go, ◌>>=◌, ◌>>◌, refuse_if, bind_json, validated, answer}
use vpn_manager.Rbac.Resolve.{parse_id}
use vpn_manager.Wg.Firewall.{teardown_nat}
use vpn_manager.Wg.Model.{Interface, Tables}
use vpn_manager.Wg.Ownership.{current_owner_id, get_owned_interface}
use vpn_manager.Wg.Publish.Loops.{
  remove_port_forward_rules, purge_port_forwards, reapply_port_forwards,
}
use vpn_manager.Wg.Sync.{Kernel, remove_link, reconcile}
use vpn_manager.Wg.Interfaces.{
  Env, CreateInterfaceRequest, UpdateInterfaceRequest, find_interface, find_unscoped, name_taken,
  conflict_message, insert_interface, save_interface, mark_interface, mark_peers, drop_peers,
  drop_interface, forwards_on, private_key_of, public_key_of, new_interface, changed,
}

created : Interface → Option String → Reply Interface
created i none = reply_created "interface created" i
created i (some e) = reply_created_warn "interface created" i ("not applied to kernel: " ⧺ e)

-- `NoData`, or `NoDataWarn` after a failed removal of the device
removed : String → Option String → Reply Interface
removed message none = reply_no_data 200 message
removed message (some e) = reply_no_data_warn message ("device cleanup failed: " ⧺ e)

module _ {K : Type 0} (kernel : Kernel K) where
  -- `InterfaceHandler.Create`
  unfoldable pub create_interface :
      Env → Option CreateInterfaceRequest → Tables × K → Reply Interface × (Tables × K)
  unfolding private_key_of public_key_of conflict_message current_owner_id reconcile created
  create_interface env body (t, k) =
      answer (t, k)
        do
          req ← bind_json body
          validated (env.check_create req)
          private ← private_key_of env req
          public ← public_key_of (env.public_key_from_private private)
          let iface = new_interface env t req private public
          refuse_if (name_taken t iface.name) 409 (conflict_message env t req.name)
          refuse_if env.write_fails 500 "failed to create interface"
          let out = reconcile kernel env.egress_fails iface.id (insert_interface iface t, k)
          go (created iface out.0, out.1)

  unfoldable pub after_update :
      Env → Interface → Option String × (Tables × K) → Reply Interface × (Tables × K)
  unfolding reapply_port_forwards remove_port_forward_rules
  after_update env i (some e, s) =
      (reply_ok_warn "interface updated" i ("not applied to kernel: " ⧺ e), s)
  after_update env i (none, (t, k)) =
      let pfs = forwards_on env t i.id in
      (
        reply_ok "interface updated" i,
        (
          t,
          if i.enabled
              then reapply_port_forwards kernel.host i.name pfs k
              else remove_port_forward_rules kernel.host i.name pfs k,
        ),
      )

  unfoldable pub save_changed :
      Env → Interface → Interface → Tables × K → Reply Interface × (Tables × K)
  unfolding teardown_nat reconcile after_update
  save_changed env old new (t, k) =
      let torn = teardown_nat kernel.host old.address old.name old.egress k in
      let saved = save_interface new t in
      if any (λ i. not (i.id == new.id) && i.name =ₛ new.name) t.interfaces
      then (reply_error 409 "interface name already in use", (t, torn.1))
      else if env.write_fails
      then (reply_error 500 "failed to update interface", (t, torn.1))
      else after_update env new (reconcile kernel env.egress_fails new.id (saved, torn.1))

  -- `InterfaceHandler.Update`
  unfoldable pub update_interface :
      Env → String → Option UpdateInterfaceRequest → Tables × K → Reply Interface × (Tables × K)
  unfolding find_interface save_changed
  update_interface env param body (t, k) =
      answer (t, k)
        do
          old ← find_interface env t param
          req ← bind_json body
          validated (env.check_update req)
          go (save_changed env old (changed req old) (t, k))

  -- `InterfaceHandler.Delete`
  unfoldable pub trash_interface : Env → String → Tables × K → Reply Interface × (Tables × K)
  unfolding find_interface remove_port_forward_rules teardown_nat remove_link removed
  trash_interface env param (t, k) =
      answer (t, k)
        do
          i ← find_interface env t param
          let cleared = remove_port_forward_rules kernel.host i.name (forwards_on env t i.id) k
          let torn = teardown_nat kernel.host i.address i.name i.egress cleared
          let out = remove_link kernel i.name torn.1
          let emptied = mark_peers true i.id t
          go (
              if env.peers_fail
              then (reply_error 500 "failed to move interface peers to trash", (t, out.1))
              else if env.write_fails
              then (reply_error 500 "failed to move interface to trash", (emptied, out.1))
              else (
                removed "interface moved to trash" out.0,
                (mark_interface true i.id emptied, out.1),
              ))

  unfoldable pub after_restore :
      Env → Interface → Option String × (Tables × K) → Reply Interface × (Tables × K)
  unfolding reapply_port_forwards
  after_restore env i (some e, s) =
      (reply_ok_warn "interface restored" i ("not applied to kernel: " ⧺ e), s)
  after_restore env i (none, (t, k)) = (
    reply_ok "interface restored" i,
    (t, reapply_port_forwards kernel.host i.name (forwards_on env t i.id) k),
  )

  unfoldable pub restore_trashed : Env → Interface → Tables × K → Reply Interface × (Tables × K)
  unfolding reconcile after_restore
  restore_trashed env i (t, k) =
      let live = record i { trashed = false } in
      let back = mark_interface false i.id t in
      let filled = mark_peers false i.id back in
      if env.write_fails
      then (reply_error 500 "failed to restore interface", (t, k))
      else if env.peers_fail
      then (
        reply_ok_warn "interface restored" live "peers were not restored: update failed",
        (back, k),
      )
      else after_restore env live (reconcile kernel env.egress_fails i.id (filled, k))

  -- `InterfaceHandler.Restore`
  unfoldable pub restore_interface : Env → String → Tables × K → Reply Interface × (Tables × K)
  unfolding find_unscoped restore_trashed
  restore_interface env param (t, k) =
      answer (t, k)
        do
          i ← find_unscoped env t param
          go (
              if i.trashed
              then restore_trashed env i (t, k)
              else (reply_ok "interface already active" i, (t, k)))

  -- `InterfaceHandler.Purge`
  unfoldable pub purge_interface : Env → String → Tables × K → Reply Interface × (Tables × K)
  unfolding find_unscoped purge_port_forwards teardown_nat remove_link removed
  purge_interface env param (t, k) =
      answer (t, k)
        do
          i ← find_unscoped env t param
          let cleared =
              purge_port_forwards kernel.host env.rows_fail i.name (forwards_on env t i.id) (t, k)
          let torn = teardown_nat kernel.host i.address i.name i.egress cleared.1
          let out = remove_link kernel i.name torn.1
          let emptied = drop_peers i.id cleared.0
          go (
              if env.peers_fail
              then (
                reply_error 500 "failed to permanently delete interface peers",
                (cleared.0, out.1),
              )
              else if env.write_fails
              then (reply_error 500 "failed to permanently delete interface", (emptied, out.1))
              else (
                removed "interface permanently deleted" out.0,
                (drop_interface i.id emptied, out.1),
              ))

  unfoldable pub synced : Option String × (Tables × K) → Reply Interface × (Tables × K)
  synced (some e, s) = (reply_error 500 ("sync failed: " ⧺ e), s)
  synced (none, s) = (reply_no_data 200 "interface applied to kernel", s)

  -- `InterfaceHandler.Sync`
  unfoldable pub sync_interface : Env → String → Tables × K → Reply Interface × (Tables × K)
  unfolding get_owned_interface parse_id reconcile synced
  sync_interface env param (t, k) =
      answer (t, k)
        do
          id ← parse_id param
          _ ← get_owned_interface env.find_fails env.caller t id
          go (synced (reconcile kernel env.egress_fails id (t, k)))
