-- ===== src/Auth/Middleware/Laws.antt =====
-- Who passes the guards of a route.
use vpn_manager.Common.{
  ℕ, String, Bool, true, false, not, ◌||◌, ◌≡◌, refl, sym, subst, Option, none, some, arith,
}
use vpn_manager.Text.{trim_space, has_prefix, drop_chars}
use vpn_manager.Http.Attempt.{◌>>=◌, go}
use vpn_manager.Http.Attempt.Ends.{Ends, Ends-go, Ends-bind, refuse_if-eq-go}
use vpn_manager.Rbac.Model.{has_key, wildcard, has_permission}
use vpn_manager.Rbac.Store.{Db, UserRow, load_user, user_row}
use vpn_manager.Auth.Token.{Codec, Service, Validation, accepted, rejected, validate}
use vpn_manager.Auth.Middleware.{
  Session, session_of, bearer_user, known_user, authenticate, require_permission, guard_route,
}

module _ (codec : Codec) (service : Service) (db : Db) where
  -- The header carries a token that is accepted as an active user's, and the session is that user's.
  pub record Authenticated (authorization : String) (now : ℕ) (s : Session) : Type 0 where
    pub id : ℕ
    pub row : UserRow
    pub bearer : has_prefix (trim_space authorization) "Bearer " ≡ true
    pub token :
        validate codec service (trim_space (drop_chars 7 (trim_space authorization))) now
        ≡ accepted id
    pub known : user_row db id ≡ some row
    pub active : row.active ≡ true
    pub session : session_of (load_user db row) ≡ s

  bearer_user-eq-go :
      {R : Type 0} (v : Validation) (id : ℕ) → bearer_user {R = R} v ≡ go id → v ≡ accepted id
  unfolding bearer_user
  bearer_user-eq-go (rejected e) id h = cc
  bearer_user-eq-go (accepted k) id h = cc

  known_user-eq-go :
      {R : Type 0} (fault : Bool) (o : Option UserRow) (row : UserRow)
      → known_user {R = R} fault o ≡ go row
      → o ≡ some row
  unfolding known_user
  known_user-eq-go true o row h = cc
  known_user-eq-go false none row h = cc
  known_user-eq-go false (some u) row h = cc

  not-false : (b : Bool) → not b ≡ false → b ≡ true
  not-false b h = ground arith

  authenticate-Ends :
      {R : Type 0} (fault : Bool) (authorization : String) (now : ℕ)
      → Ends
          (Authenticated authorization now)
          (authenticate {R = R} codec service fault authorization now db)
  unfolding authenticate
  authenticate-Ends fault authorization now = Ends-bind λ _ b. Ends-bind λ id v. Ends-bind λ row k.
      Ends-bind λ _ a. Ends-go (record {
        id = id;
        row = row;
        bearer = not-false _ (refuse_if-eq-go _ _ _ b);
        token = bearer_user-eq-go _ id v;
        known = known_user-eq-go fault _ row k;
        active = not-false _ (refuse_if-eq-go _ _ _ a);
        session = refl;
      })

  -- Who is authenticated, as a user who has the permission.
  pub record Entitled (authorization : String) (now : ℕ) (perm : String) (s : Session)
      : Type 0 where
    pub authenticated : Authenticated authorization now s
    pub permitted : has_permission (load_user db authenticated.row) perm ≡ true

  guard_route-Ends :
      {R : Type 0} (fault : Bool) (authorization : String) (now : ℕ) (perm : String)
      → Ends
          (Entitled authorization now perm)
          (guard_route {R = R} codec service fault authorization now db perm)
  unfolding guard_route require_permission has_permission
  guard_route-Ends fault authorization now perm = Ends-bind λ s a. Ends-bind λ _ p.
      let who = (authenticate-Ends fault authorization now).at s a in
      Ends-go (record {
        authenticated = who;
        permitted =
            subst
              (λ (x : Session).
                (has_key x.permissions wildcard || has_key x.permissions perm) ≡ true)
              (sym who.session) (not-false _ (refuse_if-eq-go _ _ _ p));
      })

  -- Who passes a route's guards sent a token that the service accepts as the id of an active user, whose
  -- session it gets, and the user has the route's permission.
  pub guard_route_sound :
      {R : Type 0} (fault : Bool) (authorization : String) (now : ℕ) (perm : String) (s : Session)
      → guard_route {R = R} codec service fault authorization now db perm ≡ go s
      → Entitled authorization now perm s
  guard_route_sound {R} fault authorization now perm s passed =
      (guard_route-Ends {R = R} fault authorization now perm).at s passed

  -- an accepted token of an active user
  pub authenticate_admits :
      {R : Type 0} (authorization : String) (now : ℕ) (id : ℕ) (row : UserRow)
      → has_prefix (trim_space authorization) "Bearer " ≡ true
      → validate codec service (trim_space (drop_chars 7 (trim_space authorization))) now
        ≡ accepted id
      → user_row db id ≡ some row
      → row.active ≡ true
      → authenticate {R = R} codec service false authorization now db
        ≡ go (session_of (load_user db row))
  unfolding authenticate ◌>>=◌ bearer_user known_user
  authenticate_admits authorization now id row bearer token known active =
      rw (bearer, token, known, active) refl
