-- ===== src/Rbac/Store/Writes.antt =====
-- Every write of the handlers keeps the tables well formed.
use vpn_manager.Common.{ℕ, suc, ◌≤◌, ◌≡◌, refl, [], ◌∷◌, ◌++◌, arith}
use vpn_manager.Rbac.Store.{
  Db, UserRow, RoleRow, IsValid, user_key, role_key, set_user, set_role, drop_user, drop_role,
  without_role,
}
use vpn_manager.Rbac.Store.Valid.{
  IsKeyed-map, IsKeyed-select, IsKeyed-append, All-map, All-select, All-append, All-weaken,
}

pub set_user-IsValid :
    (db : Db) (k : ℕ) (f : UserRow → UserRow)
    → ((u : UserRow) → (f u).id ≡ u.id)
    → IsValid db
    → IsValid (set_user k f db)
set_user-IsValid db k f same v = record {
  users = IsKeyed-map user_key _ db.users (λ u. ground (arith, same u)) v.users;
  roles = v.roles;
  users_below =
      All-map (λ u. u.id ≤ db.user_seq) _ db.users (λ u p. ground (arith, same u)) v.users_below;
  roles_below = v.roles_below;
}

pub set_role-IsValid :
    (db : Db) (k : ℕ) (f : RoleRow → RoleRow)
    → ((r : RoleRow) → (f r).id ≡ r.id)
    → IsValid db
    → IsValid (set_role k f db)
set_role-IsValid db k f same v = record {
  users = v.users;
  roles = IsKeyed-map role_key _ db.roles (λ r. ground (arith, same r)) v.roles;
  users_below = v.users_below;
  roles_below =
      All-map (λ r. r.id ≤ db.role_seq) _ db.roles (λ r p. ground (arith, same r)) v.roles_below;
}

pub drop_user-IsValid : (db : Db) (k : ℕ) → IsValid db → IsValid (drop_user k db)
drop_user-IsValid db k v = record {
  users = IsKeyed-select user_key _ db.users v.users;
  roles = v.roles;
  users_below = All-select (λ u. u.id ≤ db.user_seq) _ db.users v.users_below;
  roles_below = v.roles_below;
}

pub drop_role-IsValid : (db : Db) (k : ℕ) → IsValid db → IsValid (drop_role k db)
drop_role-IsValid db k v = record {
  users = IsKeyed-map user_key (without_role k) db.users (λ u. refl) v.users;
  roles = IsKeyed-select role_key _ db.roles v.roles;
  users_below =
      All-map (λ u. u.id ≤ db.user_seq) (without_role k) db.users (λ u p. p) v.users_below;
  roles_below = All-select (λ r. r.id ≤ db.role_seq) _ db.roles v.roles_below;
}

pub add_user-IsValid :
    (db : Db) (row : UserRow)
    → row.id ≡ suc db.user_seq
    → IsValid db
    → IsValid (record db { users = db.users ++ row ∷ []; user_seq = row.id })
add_user-IsValid db row e v = record {
  users = IsKeyed-append user_key db.users row db.user_seq v.users v.users_below e;
  roles = v.roles;
  users_below =
      All-append (λ u. u.id ≤ row.id) db.users (row ∷ [])
        (All-weaken (λ u. u.id ≤ db.user_seq) (λ u. u.id ≤ row.id) db.users (λ u p. omega arith)
          v.users_below)
        (omega arith, tt);
  roles_below = v.roles_below;
}

pub add_role-IsValid :
    (db : Db) (row : RoleRow)
    → row.id ≡ suc db.role_seq
    → IsValid db
    → IsValid (record db { roles = db.roles ++ row ∷ []; role_seq = row.id })
add_role-IsValid db row e v = record {
  users = v.users;
  roles = IsKeyed-append role_key db.roles row db.role_seq v.roles v.roles_below e;
  users_below = v.users_below;
  roles_below =
      All-append (λ r. r.id ≤ row.id) db.roles (row ∷ [])
        (All-weaken (λ r. r.id ≤ db.role_seq) (λ r. r.id ≤ row.id) db.roles (λ r p. omega arith)
          v.roles_below)
        (omega arith, tt);
}
