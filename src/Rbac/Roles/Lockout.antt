-- ===== src/Rbac/Roles/Lockout.antt =====
-- Deleting a role can remove the last active super admin: only the role named "super-admin" is
-- protected, and any role may carry the wildcard.
use vpn_manager.Common.{
  ℕ, ◌≡◌, ◌≢◌, ◌∙◌, Bool, true, false, not, ◌&&◌, ◌||◌, String, List, arith, any, any-map,
  any-select, any_mono, Bool-cases, inl, inr, =ₛ_iff, select, ◌==◌, sym,
}
use vpn_manager.Http.{reply_no_data}
use vpn_manager.Http.Attempt.{go, ◌>>=◌, answer}
use vpn_manager.Rbac.Model.{Role, wildcard, grants}
use vpn_manager.Rbac.Store.{
  Db, UserRow, has_active_super, is_super_row, is_in, drop_role, without_role, load_permissions,
}
use vpn_manager.Rbac.Store.Super.{is_super_row-eq, role_wild, holds_wild}
use vpn_manager.Rbac.Resolve.{find_role_by_param, protect_super_admin_role, super_admin_role}
use vpn_manager.Rbac.Roles.{Env, delete_role}

-- A user who is a super admin by a grant other than the role with id `k`.
abbrev pub super_without : Db → ℕ → UserRow → Bool
super_without db k u =
    any (λ r. not (r.id == k) && (is_in u.role_ids r.id && role_wild db r)) db.roles
    || grants wildcard (load_permissions db u.permission_ids)

still_in :
    (ids : List ℕ) (k j : ℕ) → is_in (select (λ i. not (i == k)) ids) j ≡ true → is_in ids j ≡ true
still_in ids k j h =
    any_mono (λ i. not (i == k) && i == j) (λ i. i == j) ids (λ i e. ground (arith, e))
      (sym (any-select (λ i. i == j) (λ i. not (i == k)) ids) ∙ h)

holds_other :
    (db : Db) (k : ℕ) (ids : List ℕ)
    → holds_wild (drop_role k db) (select (λ i. not (i == k)) ids) ≡ true
    → any (λ r. not (r.id == k) && (is_in ids r.id && role_wild db r)) db.roles ≡ true
holds_other db k ids h =
    any_mono
      (λ r. not (r.id == k) && (is_in (select (λ i. not (i == k)) ids) r.id && role_wild db r))
      (λ r. not (r.id == k) && (is_in ids r.id && role_wild db r)) db.roles
      (λ r e. ground (arith, still_in ids k r.id))
      (sym (
          any-select (λ r. is_in (select (λ i. not (i == k)) ids) r.id && role_wild db r)
            (λ r. not (r.id == k)) db.roles)
        ∙ h)

survivor_has_other :
    (db : Db) (k : ℕ) (u : UserRow)
    → is_super_row (drop_role k db) (without_role k u) ≡ true
    → super_without db k u ≡ true
survivor_has_other db k u h =
    ground (arith, is_super_row-eq (drop_role k db) (without_role k u), holds_other db k u.role_ids)

nobody_left :
    (db : Db) (k : ℕ)
    → any (λ u. u.active && super_without db k u) db.users ≡ false
    → has_active_super (drop_role k db) ≡ false
nobody_left db k h = elim (Bool-cases (has_active_super (drop_role k db))) [
  | inl left ↦
      let some_other : any (λ u. u.active && super_without db k u) db.users ≡ true =
        any_mono (λ u. u.active && is_super_row (drop_role k db) (without_role k u))
          (λ u. u.active && super_without db k u) db.users
          (λ u e. ground (arith, survivor_has_other db k u))
          (sym
              (any-map (λ u. u.active && is_super_row (drop_role k db) u) (without_role k) db.users)
            ∙ left) in
      cc (some_other, h)
  | inr gone ↦ gone
]

-- If a request for an existing role whose name is not "super-admin" meets no database fault, and no
-- active user is a super admin by a grant other than that role, then the request answers 200 and
-- leaves no active super admin.
pub delete_role_locks_out :
    (env : Env) (param : String) (db : Db) (role : Role)
    → find_role_by_param env.faults param db ≡ go role
    → role.name ≢ super_admin_role
    → env.faults.write ≡ false
    → any (λ u. u.active && super_without db role.id u) db.users ≡ false
    → ((delete_role env param db).0 ≡ reply_no_data 200 "role deleted")
      × (has_active_super (delete_role env param db).1 ≡ false)
unfolding delete_role protect_super_admin_role ◌>>=◌ answer
delete_role_locks_out env param db role found unprotected works alone =
    rw found (ground (arith, =ₛ_iff role.name super_admin_role, nobody_left db role.id alone))
