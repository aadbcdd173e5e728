-- ===== src/Rbac/Trace/LastAdmin.antt =====
-- Requests after which an active super admin is left, and the requests that can remove the last.
use vpn_manager.Common.{
  ℕ, ◌≡◌, ◌∙◌, true, ◌&&◌, List, [], ◌∷◌, ◌++◌, All, arith, any, any-append, any-map, any_mono,
  ◌==◌, if◌then◌else◌, Bool-cases, inl, inr,
}
use vpn_manager.Http.Attempt.Ends.{Ends-go, Ends-bind, answer-Ends}
use vpn_manager.Rbac.Store.{Db, RoleRow, IsValid, has_active_super, is_super_row, is_in, set_role}
use vpn_manager.Rbac.Store.Super.{is_super_row-eq, holds_wild, role_wild}
use vpn_manager.Rbac.Users.LastAdmin.{delete_user-keeps, update_user-keeps}
use vpn_manager.Rbac.Users.Grants.{
  create_user-keeps, set_user_roles-keeps, set_user_permissions-keeps,
}
use vpn_manager.Rbac.Roles
use vpn_manager.Rbac.Trace.{
  Op, create_user, update_user, delete_user, set_user_roles, set_user_permissions, create_role,
  update_role, delete_role, set_role_permissions, apply, serve,
}
use vpn_manager.Rbac.Trace.Valid.{apply-IsValid}

-- All requests but those that take the wildcard from a role.
abbrev pub KeepsRoles : Op → Type 0
KeepsRoles (delete_role env param) = ⊥
KeepsRoles (set_role_permissions env param body) = ⊥
KeepsRoles _ = Unit

roles_mono :
    (db : Db) (roles : List RoleRow) (seq : ℕ)
    → ((ids : List ℕ)
        → holds_wild db ids ≡ true
        → any (λ r. is_in ids r.id && role_wild db r) roles ≡ true)
    → has_active_super db ≡ true
    → has_active_super (record db { roles = roles; role_seq = seq }) ≡ true
roles_mono db roles seq more h =
    let db' : Db = record db { roles = roles; role_seq = seq } in
    any_mono (λ u. u.active && is_super_row db u) (λ u. u.active && is_super_row db' u) db.users
      (λ u e. ground (arith, is_super_row-eq db u, is_super_row-eq db' u, more u.role_ids)) h

update_role_keeps :
    (db : Db) (k : ℕ) (req : Roles.UpdateRoleRequest)
    → has_active_super db ≡ true
    → has_active_super (set_role k (Roles.write_role req) db) ≡ true
update_role_keeps db k req h =
    roles_mono db _ db.role_seq
      (λ ids e.
        any-map (λ r. is_in ids r.id && role_wild db r)
          (λ r. if r.id == k then Roles.write_role req r else r) db.roles
        ∙ any_mono (λ r. is_in ids r.id && role_wild db r)
            (λ r.
              let v : RoleRow = if r.id == k then Roles.write_role req r else r in
              is_in ids v.id && role_wild db v)
            db.roles
            (λ r w. elim (Bool-cases (r.id == k)) [
              | inl own ↦ rw (own, if◌then◌else◌) w
              | inr other ↦ rw (other, if◌then◌else◌) w
            ])
            e)
      h

apply_keeps :
    (op : Op) (db : Db)
    → KeepsRoles op
    → IsValid db
    → has_active_super db ≡ true
    → has_active_super (apply op db) ≡ true
unfolding apply Roles.create_role Roles.update_role Roles.new_role
apply_keeps (create_user env body) db _ v h = create_user-keeps env db v h body
apply_keeps (update_user env param body) db _ v h = update_user-keeps env db v h param body
apply_keeps (delete_user env param) db _ v h = delete_user-keeps env db v h param
apply_keeps (set_user_roles env param body) db _ v h = set_user_roles-keeps env db v h param body
apply_keeps (set_user_permissions env param body) db _ v h =
    set_user_permissions-keeps env db v h param body
apply_keeps (create_role env body) db _ v h =
    answer-Ends (λ d. has_active_super d ≡ true) h
      (Ends-bind λ req _. Ends-bind λ _ _. Ends-bind λ perms _. Ends-bind λ _ _. Ends-bind λ _ _.
        let row = Roles.new_role db req perms in
        Ends-go (
          roles_mono db (db.roles ++ row ∷ []) row.id
            (λ ids e.
              any-append (λ r. is_in ids r.id && role_wild db r) db.roles (row ∷ [])
              ∙ ground (arith, e))
            h))
apply_keeps (update_role env param body) db _ v h =
    answer-Ends (λ d. has_active_super d ≡ true) h
      (Ends-bind λ role _. Ends-bind λ req _. Ends-bind λ _ _.
        Ends-bind
          λ _ _. Ends-bind λ _ _. Ends-bind λ _ _. Ends-go (update_role_keeps db role.id req h))
apply_keeps (delete_role env param) db k v h = absurd k
apply_keeps (set_role_permissions env param body) db k v h = absurd k

-- From well-formed tables with an active super admin, any sequence of requests that deletes no role
-- and replaces no role's permissions leaves an active super admin, whatever fails in it.
pub serve_keeps_super :
    (ops : List Op) (db : Db)
    → All KeepsRoles ops
    → IsValid db
    → has_active_super db ≡ true
    → has_active_super (serve ops db) ≡ true
unfolding serve
serve_keeps_super [] db k v h = h
serve_keeps_super (op ∷ ops) db (k, ks) v h =
    serve_keeps_super ops (apply op db) ks (apply-IsValid op db v) (apply_keeps op db k v h)
