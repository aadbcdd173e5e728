-- ===== src/Rbac/Trace/Escalation.antt =====
-- Requests of callers who are no super admins make nobody one.
use vpn_manager.Common.{ℕ, ◌≡◌, true, false, List, [], ◌∷◌, All}
use vpn_manager.Rbac.Store.{Db, super_at}
use vpn_manager.Rbac.Store.Super.{AddsNoSuper}
use vpn_manager.Rbac.Resolve.{caller_is_super}
use vpn_manager.Rbac.Users.Escalation.{
  create_user-AddsNoSuper, update_user-AddsNoSuper, delete_user-AddsNoSuper,
  set_user_roles-AddsNoSuper, set_user_permissions-AddsNoSuper,
}
use vpn_manager.Rbac.Roles.Effects.{
  create_role-AddsNoSuper, update_role-AddsNoSuper, delete_role-AddsNoSuper,
  set_role_permissions-AddsNoSuper,
}
use vpn_manager.Rbac.Trace.{
  Op, create_user, update_user, delete_user, set_user_roles, set_user_permissions, create_role,
  update_role, delete_role, set_role_permissions, apply, serve, caller_of,
}

abbrev pub IsMortal : Op → Type 0
IsMortal op = caller_is_super (caller_of op) ≡ false

apply-AddsNoSuper : (op : Op) (db : Db) → IsMortal op → AddsNoSuper db (apply op db)
unfolding apply
apply-AddsNoSuper (create_user env body) db m = create_user-AddsNoSuper env db m body
apply-AddsNoSuper (update_user env param body) db m = update_user-AddsNoSuper env db m param body
apply-AddsNoSuper (delete_user env param) db m = delete_user-AddsNoSuper env db m param
apply-AddsNoSuper (set_user_roles env param body) db m =
    set_user_roles-AddsNoSuper env db m param body
apply-AddsNoSuper (set_user_permissions env param body) db m =
    set_user_permissions-AddsNoSuper env db m param body
apply-AddsNoSuper (create_role env body) db m = create_role-AddsNoSuper env db m body
apply-AddsNoSuper (update_role env param body) db m = update_role-AddsNoSuper env db param body
apply-AddsNoSuper (delete_role env param) db m = delete_role-AddsNoSuper env db param
apply-AddsNoSuper (set_role_permissions env param body) db m =
    set_role_permissions-AddsNoSuper env db m param body

-- After any sequence of requests to the user and role handlers whose callers are no super admins,
-- whatever fails in it, every user id that is a super admin was one at the start.
pub serve-AddsNoSuper :
    (ops : List Op) (db : Db) (k : ℕ)
    → All IsMortal ops
    → super_at (serve ops db) k ≡ true
    → super_at db k ≡ true
unfolding serve
serve-AddsNoSuper [] db k m h = h
serve-AddsNoSuper (op ∷ ops) db k (m, ms) h =
    apply-AddsNoSuper op db m k (serve-AddsNoSuper ops (apply op db) k ms h)
