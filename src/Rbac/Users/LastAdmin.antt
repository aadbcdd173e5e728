-- ===== src/Rbac/Users/LastAdmin.antt =====
-- No operation on users removes the last active super admin.
use vpn_manager.Common.{
  ◌≡◌, refl, sym, subst, ap, Bool, true, false, Option, some, arith, first-satisfies, Bool-cases,
  String, ==_iff, inl, inr, ◌⊎◌,
}
use vpn_manager.Http.Attempt.{go}
use vpn_manager.Http.Attempt.Ends.{found_or-eq-go, Ends, Ends-go, Ends-bind, answer-Ends}
use vpn_manager.Rbac.Model.{User, is_super_admin}
use vpn_manager.Rbac.Model.Laws.{is_super_admin-eq}
use vpn_manager.Rbac.Store.{Db, UserRow, user_row, load_user, has_active_super, IsValid, set_user}
use vpn_manager.Rbac.Resolve.{Faults, find_user_by_param, guard_last_super_admin}
use vpn_manager.Rbac.Users.{
  Env, UpdateUserRequest, is_disabling, write_user, delete_user, update_user,
}
use vpn_manager.Rbac.Users.Guard.{
  other_super, other_super_of_row, guard_sound, drop_user_keeps, set_user_keeps_other,
  set_user_keeps,
}

-- The user that a handler works on is a row of the table, under its own id.
pub record IsLoaded (db : Db) (user : User) : Type 0 where
  pub row : UserRow
  pub loaded : user ≡ load_user db row
  pub found : user_row db user.id ≡ some row

pub find_user-Ends :
    (f : Faults) (text : String) (db : Db) → Ends (IsLoaded db) (find_user_by_param f text db)
unfolding find_user_by_param
find_user-Ends f text db = Ends-bind λ id _. Ends-bind λ row e.
    let found : user_row db id ≡ some row = found_or-eq-go f.find _ _ _ row e in
    let own : row.id ≡ id = (==_iff row.id id).0 (first-satisfies _ db.users found) in
    Ends-go (record {
      row = row;
      loaded = refl;
      found = subst (λ k. user_row db k ≡ some row) (sym own) found;
    })

-- After the guard the target stays a super admin, or another active one is left.
pub survivors :
    (f : Faults) (db : Db) (user : User) (still : Bool)
    → IsValid db
    → has_active_super db ≡ true
    → (l : IsLoaded db user) → guard_last_super_admin f db user still ≡ go tt
    → (still ≡ true) ⊎ (other_super db user.id ≡ true)
survivors f db user still valid h l e = elim (guard_sound f db user still e) [
  | inl weak ↦
      let weak' : is_super_admin (load_user db l.row) ≡ false = rw (← l.loaded) weak in
      inr (other_super_of_row db user.id l.row valid l.found h (ground arith))
  | inr (inl kept) ↦ inl kept
  | inr (inr other) ↦ inr other
]

survivors_false :
    (f : Faults) (db : Db) (user : User)
    → IsValid db
    → has_active_super db ≡ true
    → IsLoaded db user
    → guard_last_super_admin f db user false ≡ go tt
    → other_super db user.id ≡ true
survivors_false f db user valid h l e = elim (survivors f db user false valid h l e) [
  | inl absurdity ↦ cc
  | inr other ↦ other
]

module _ (env : Env) (db : Db) (valid : IsValid db) (h : has_active_super db ≡ true) where
  pub delete_user-keeps : (param : String) → has_active_super (delete_user env param db).1 ≡ true
  unfolding delete_user
  delete_user-keeps param =
      answer-Ends (λ d. has_active_super d ≡ true) h
        (Ends-bind λ user found. Ends-bind λ _ _. Ends-bind λ _ guarded. Ends-bind λ _ _.
          let l = (find_user-Ends env.faults param db).at user found in
          Ends-go
            (drop_user_keeps db user.id (survivors_false env.faults db user valid h l guarded)))

  -- What an update keeps when it does not disable the account.
  update_keeps_active :
      (user : User) (l : IsLoaded db user) (req : UpdateUserRequest) (hash : String)
      → is_disabling req ≡ false
      → has_active_super (set_user user.id (write_user req user hash) db) ≡ true
  unfolding write_user
  update_keeps_active user l req hash stays =
      set_user_keeps db user.id (write_user req user hash) l.row valid l.found h (λ e. ground (
        arith,
        ap (λ (u : User). u.active) l.loaded,
        is_super_admin-eq (load_user db l.row),
        is_super_admin-eq (load_user db (write_user req user hash l.row)),
      ))

  pub update_user-keeps :
      (param : String) (body : Option UpdateUserRequest)
      → has_active_super (update_user env param body db).1 ≡ true
  unfolding update_user
  update_user-keeps param body =
      answer-Ends (λ d. has_active_super d ≡ true) h
        (Ends-bind λ user found. Ends-bind λ req _. Ends-bind λ _ _. Ends-bind λ _ _.
          Ends-bind λ _ guarded. Ends-bind λ hash _. Ends-bind λ _ _.
            let l = (find_user-Ends env.faults param db).at user found in
            Ends-go (elim (Bool-cases (is_disabling req)) [
              | inl off ↦
                  set_user_keeps_other db user.id (write_user req user hash)
                    (survivors_false env.faults db user valid h l (rw off at guarded))
              | inr on ↦ update_keeps_active user l req hash on
            ]))
