-- ===== src/Rbac/Trace/Valid.antt =====
-- Every request keeps the tables well formed.
use vpn_manager.Common.{refl}
use vpn_manager.Http.Attempt.Ends.{Ends-go, Ends-bind, answer-Ends}
use vpn_manager.Rbac.Store.{Db, IsValid}
use vpn_manager.Rbac.Store.Writes.{
  set_user-IsValid, set_role-IsValid, drop_user-IsValid, drop_role-IsValid, add_user-IsValid,
  add_role-IsValid,
}
use vpn_manager.Rbac.Users
use vpn_manager.Rbac.Roles
use vpn_manager.Rbac.Trace.{
  Op, create_user, update_user, delete_user, set_user_roles, set_user_permissions, create_role,
  update_role, delete_role, set_role_permissions, apply,
}

pub apply-IsValid : (op : Op) (db : Db) → IsValid db → IsValid (apply op db)
unfolding apply Users.create_user Users.update_user Users.delete_user Users.set_user_roles
    Users.set_user_permissions Roles.create_role Roles.update_role Roles.delete_role
    Roles.set_role_permissions
apply-IsValid (create_user env body) db v = answer-Ends IsValid v (
    Ends-bind λ req _. Ends-bind λ _ _. Ends-bind λ roles _. Ends-bind λ perms _.
      Ends-bind λ hash _. Ends-bind λ _ _. Ends-bind λ _ _. Ends-go (add_user-IsValid db _ refl v))
apply-IsValid (update_user env param body) db v = answer-Ends IsValid v (
    Ends-bind λ user _. Ends-bind λ req _. Ends-bind λ _ _. Ends-bind λ _ _. Ends-bind λ _ _.
      Ends-bind λ hash _. Ends-bind λ _ _. Ends-go (set_user-IsValid db user.id _ (λ u. refl) v))
apply-IsValid (delete_user env param) db v = answer-Ends IsValid v (
    Ends-bind λ user _.
      Ends-bind λ _ _. Ends-bind λ _ _. Ends-bind λ _ _. Ends-go (drop_user-IsValid db user.id v))
apply-IsValid (set_user_roles env param body) db v = answer-Ends IsValid v (
    Ends-bind λ user _. Ends-bind λ ids _. Ends-bind λ roles _.
      Ends-bind λ _ _. Ends-bind λ _ _. Ends-go (set_user-IsValid db user.id _ (λ u. refl) v))
apply-IsValid (set_user_permissions env param body) db v = answer-Ends IsValid v (
    Ends-bind λ user _. Ends-bind λ ids _. Ends-bind λ perms _.
      Ends-bind λ _ _. Ends-bind λ _ _. Ends-go (set_user-IsValid db user.id _ (λ u. refl) v))
apply-IsValid (create_role env body) db v = answer-Ends IsValid v (
    Ends-bind λ req _. Ends-bind λ _ _.
      Ends-bind λ perms _. Ends-bind λ _ _. Ends-bind λ _ _. Ends-go (add_role-IsValid db _ refl v))
apply-IsValid (update_role env param body) db v = answer-Ends IsValid v (
    Ends-bind λ role _. Ends-bind λ req _. Ends-bind λ _ _. Ends-bind λ _ _.
      Ends-bind λ _ _. Ends-bind λ _ _. Ends-go (set_role-IsValid db role.id _ (λ r. refl) v))
apply-IsValid (delete_role env param) db v =
    answer-Ends IsValid v (
      Ends-bind
        λ role _. Ends-bind λ _ _. Ends-bind λ _ _. Ends-go (drop_role-IsValid db role.id v))
apply-IsValid (set_role_permissions env param body) db v = answer-Ends IsValid v (
    Ends-bind λ role _. Ends-bind λ _ _. Ends-bind λ ids _.
      Ends-bind λ perms _. Ends-bind λ _ _. Ends-go (set_role-IsValid db role.id _ (λ r. refl) v))
