-- ===== src/Rbac/Users/Guard.antt =====
-- Why the user handlers never remove the last active super admin: what the guard has found, and
-- which writes keep a super admin.
use vpn_manager.Common.{
  ℕ, ◌≡◌, ◌∙◌, sym, Bool, true, false, not, ◌&&◌, some, arith, any, any_split, any_mono, any-map,
  any-select, any-first, select, by_key, Bool-cases, ◌==◌, inl, inr, if◌then◌else◌, ◌⊎◌,
}
use vpn_manager.Http.Attempt.{go, ◌>>=◌}
use vpn_manager.Rbac.Model.{User, is_super_admin}
use vpn_manager.Rbac.Store.{
  Db, UserRow, user_key, user_row, load_user, set_user, drop_user, is_super_row, has_active_super,
  IsValid,
}
use vpn_manager.Rbac.Resolve.{Faults, guard_last_super_admin}

-- an active super admin with another id
abbrev pub other_super : Db → ℕ → Bool
other_super db k = any (λ u. not (by_key user_key k u) && (u.active && is_super_row db u)) db.users

-- If the user with an id is no active super admin, then another one is.
pub other_super_of_row :
    (db : Db) (k : ℕ) (row : UserRow)
    → IsValid db
    → user_row db k ≡ some row
    → has_active_super db ≡ true
    → (row.active && is_super_row db row) ≡ false
    → other_super db k ≡ true
other_super_of_row db k row valid found some_super weak =
    any_split (λ u. u.active && is_super_row db u) (by_key user_key k) db.users some_super
      (any-first user_key (λ u. u.active && is_super_row db u) k db.users valid.users found ∙ weak)

others_are_other :
    (db : Db) (k : ℕ)
    → any
        (λ u. is_super_admin (load_user db u))
        (select (λ u. u.active && not (u.id == k)) db.users)
      ≡ true
    → other_super db k ≡ true
others_are_other db k h =
    any_mono (λ u. (u.active && not (u.id == k)) && is_super_row db u)
      (λ u. not (by_key user_key k u) && (u.active && is_super_row db u)) db.users
      (λ u e. ground (arith, e))
      (sym (any-select (is_super_row db) (λ u. u.active && not (u.id == k)) db.users) ∙ h)

-- The guard lets a change through only if the user is no super admin, stays one, or another
-- active super admin is left.
pub guard_sound :
    (f : Faults) (db : Db) (user : User) (still : Bool)
    → guard_last_super_admin f db user still ≡ go tt
    → (is_super_admin user ≡ false) ⊎ (still ≡ true) ⊎ (other_super db user.id ≡ true)
unfolding guard_last_super_admin ◌>>=◌
guard_sound f db user still h = ground (arith, others_are_other db user.id)

-- Deleting a user, or writing its row, leaves the other super admins.
pub drop_user_keeps :
    (db : Db) (k : ℕ) → other_super db k ≡ true → has_active_super (drop_user k db) ≡ true
drop_user_keeps db k h =
    any-select (λ u. u.active && is_super_row db u) (λ u. not (u.id == k)) db.users ∙ h

module _ (db : Db) (k : ℕ) (f : UserRow → UserRow) where
  after : UserRow → Bool
  after u = let v : UserRow = if u.id == k then f u else u in v.active && is_super_row db v

  set_user-after : has_active_super (set_user k f db) ≡ any after db.users
  unfolding after
  set_user-after =
      any-map (λ u. u.active && is_super_row db u) (λ u. if u.id == k then f u else u) db.users

  pub set_user_keeps_other : other_super db k ≡ true → has_active_super (set_user k f db) ≡ true
  unfolding after
  set_user_keeps_other h =
      set_user-after
      ∙ any_mono (λ u. not (by_key user_key k u) && (u.active && is_super_row db u)) after db.users
          (λ u e. ground (arith, e)) h

  -- A write that keeps the row of an active super admin one keeps some active super admin.
  pub set_user_keeps :
      (row : UserRow)
      → IsValid db
      → user_row db k ≡ some row
      → has_active_super db ≡ true
      → ((row.active && is_super_row db row) ≡ true
          → ((f row).active && is_super_row db (f row)) ≡ true)
      → has_active_super (set_user k f db) ≡ true
  unfolding after
  set_user_keeps row valid found h same = elim (Bool-cases (row.active && is_super_row db row)) [
    | inl strong ↦
        set_user-after
        ∙ any_mono (λ u. by_key user_key k u && ((f u).active && is_super_row db (f u))) after
            db.users (λ u e. ground (arith, e))
            (any-first user_key (λ u. (f u).active && is_super_row db (f u)) k db.users valid.users
                found
              ∙ same strong)
    | inr weak ↦ set_user_keeps_other (other_super_of_row db k row valid found h weak)
  ]
