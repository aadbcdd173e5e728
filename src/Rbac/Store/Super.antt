-- ===== src/Rbac/Store/Super.antt =====
-- When the user of a row is a super admin, in terms of the tables.
use vpn_manager.Common.{
  ℕ, ◌≡◌, ◌∙◌, sym, Bool, true, not, ◌&&◌, ◌||◌, List, arith, any, any-map, any-select, any_mono,
  select, ◌==◌, by_key, if◌then◌else◌, Bool-cases, inl, inr,
}
use vpn_manager.Rbac.Model.{Role, wildcard, grants, roles_grant}
use vpn_manager.Rbac.Model.Laws.{is_super_admin-eq}
use vpn_manager.Rbac.Store.{
  Db, RoleRow, UserRow, is_in, load_role, load_roles, load_user, load_permissions, is_super_row,
  super_at, set_user, drop_user, user_key,
}

-- The role of a row carries the wildcard.
abbrev pub role_wild : Db → RoleRow → Bool
role_wild db r = grants wildcard (load_permissions db r.permission_ids)

-- Some role among those with the given ids carries it.
abbrev pub holds_wild : Db → List ℕ → Bool
holds_wild db ids = any (λ r. is_in ids r.id && role_wild db r) db.roles

pub roles_grant-load :
    (db : Db) (ids : List ℕ) → roles_grant wildcard (load_roles db ids) ≡ holds_wild db ids
roles_grant-load db ids =
    any-map (λ (r : Role). grants wildcard r.permissions) (load_role db)
      (select (λ r. is_in ids r.id) db.roles)
    ∙ any-select (role_wild db) (λ r. is_in ids r.id) db.roles

pub is_super_row-eq :
    (db : Db) (u : UserRow)
    → is_super_row db u
      ≡ (holds_wild db u.role_ids || grants wildcard (load_permissions db u.permission_ids))
is_super_row-eq db u =
    ground (arith, is_super_admin-eq (load_user db u), roles_grant-load db u.role_ids)

-- No user is a super admin after a change who was not one before.
abbrev pub AddsNoSuper : Db → Db → Type 0
AddsNoSuper db db' = (k : ℕ) → super_at db' k ≡ true → super_at db k ≡ true

pub AddsNoSuper-set_user :
    (db : Db) (k : ℕ) (f : UserRow → UserRow)
    → ((u : UserRow) → (f u).id ≡ u.id)
    → ((u : UserRow) → is_super_row db (f u) ≡ true → is_super_row db u ≡ true)
    → AddsNoSuper db (set_user k f db)
AddsNoSuper-set_user db k f same weaker j h =
    any_mono
      (λ u.
        let v : UserRow = if u.id == k then f u else u in by_key user_key j v && is_super_row db v)
      (λ u. by_key user_key j u && is_super_row db u) db.users
      (λ u e. elim (Bool-cases (u.id == k)) [
        | inl own ↦
            let e' : (by_key user_key j (f u) && is_super_row db (f u)) ≡ true =
              rw (own, if◌then◌else◌) at e in
            ground (arith, same u, weaker u)
        | inr other ↦ rw (other, if◌then◌else◌) at e
      ])
      (sym (
          any-map (λ u. by_key user_key j u && is_super_row db u)
            (λ u. if u.id == k then f u else u) db.users)
        ∙ h)

pub AddsNoSuper-drop_user : (db : Db) (k : ℕ) → AddsNoSuper db (drop_user k db)
AddsNoSuper-drop_user db k j h =
    any_mono (λ u. not (u.id == k) && (by_key user_key j u && is_super_row db u))
      (λ u. by_key user_key j u && is_super_row db u) db.users (λ u e. ground (arith, e))
      (sym (
          any-select (λ u. by_key user_key j u && is_super_row db u) (λ u. not (u.id == k))
            db.users)
        ∙ h)

-- A change of the roles alone: every row that is a super admin after it was one before.
pub AddsNoSuper-roles :
    (db : Db) (roles : List RoleRow) (seq : ℕ)
    → ((ids : List ℕ)
        → any (λ r. is_in ids r.id && role_wild db r) roles ≡ true
        → holds_wild db ids ≡ true)
    → AddsNoSuper db (record db { roles = roles; role_seq = seq })
AddsNoSuper-roles db roles seq weaker j h =
    let db' : Db = record db { roles = roles; role_seq = seq } in
    any_mono (λ u. by_key user_key j u && is_super_row db' u)
      (λ u. by_key user_key j u && is_super_row db u) db.users
      (λ u e. ground (arith, is_super_row-eq db u, is_super_row-eq db' u, weaker u.role_ids)) h
