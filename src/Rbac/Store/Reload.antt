-- ===== src/Rbac/Store/Reload.antt =====
-- Writing the ids of the rows that a query by id found, and loading by those ids again, gives rows
-- that the query had found, and all of them.
use vpn_manager.Common.{
  ℕ, ◌≡◌, refl, ◌∙◌, sym, ap, Bool, true, false, ◌&&◌, List, [], ◌∷◌, map, arith, any, any-map,
  any-select, any_mono, any_self, any_none, Bool-cases, inl, inr, String, select, ◌==◌, ==_iff,
}
use vpn_manager.Rbac.Store.{Db, RoleRow, is_in, load_role, load_roles, role_key}
use vpn_manager.Rbac.Model.{Permission, Role, grants, roles_grant}

module _ {A : Type 0} (key : A → ℕ) (ids : List ℕ) (rows : List A) where
  abbrev hits : List A
  hits = select (λ x. is_in ids (key x)) rows

  is_in-hits : (k : ℕ) → is_in (map key hits) k ≡ any (λ x. is_in ids (key x) && key x == k) rows
  is_in-hits k =
      any-map (λ i. i == k) key hits ∙ any-select (λ x. key x == k) (λ x. is_in ids (key x)) rows

  in_same : (j k : ℕ) → (j == k) ≡ true → is_in ids j ≡ is_in ids k
  in_same j k e = ap (is_in ids) ((==_iff j k).0 e)

  pub is_in_of_hits : (k : ℕ) → is_in (map key hits) k ≡ true → is_in ids k ≡ true
  is_in_of_hits k h = elim (Bool-cases (is_in ids k)) [
    | inl known ↦ known
    | inr unknown ↦
        let nowhere : any (λ x. is_in ids (key x) && key x == k) rows ≡ false =
          any_none (λ x. is_in ids (key x) && key x == k) rows
            (λ x. ground (arith, in_same (key x) k)) in
        cc (h, is_in-hits k, nowhere)
  ]

  in_hits :
      (x : A)
      → any (λ y. key y == key x) rows ≡ true
      → is_in ids (key x) ≡ true
      → is_in (map key hits) (key x) ≡ true
  in_hits x e i =
      is_in-hits (key x)
      ∙ any_mono (λ y. key y == key x) (λ y. is_in ids (key y) && key y == key x) rows
          (λ y same. ground (arith, in_same (key y) (key x))) e

  pub hits_reload :
      (p : A → Bool)
      → any p hits ≡ true
      → any p (select (λ x. is_in (map key hits) (key x)) rows) ≡ true
  hits_reload p h =
      any-select p (λ x. is_in (map key hits) (key x)) rows
      ∙ any_mono (λ x. any (λ y. key y == key x) rows && (is_in ids (key x) && p x))
          (λ x. is_in (map key hits) (key x) && p x) rows (λ x e. ground (arith, in_hits x))
          (any_self (λ x. is_in ids (key x) && p x) (λ x y. key y == key x) rows (λ x. ground arith)
            (sym (any-select p (λ x. is_in ids (key x)) rows) ∙ h))

  -- The other way round: only rows that the query had found come back.
  pub hits_found :
      (p : A → Bool)
      → any p (select (λ x. is_in (map key hits) (key x)) rows) ≡ true
      → any p hits ≡ true
  hits_found p h =
      any-select p (λ x. is_in ids (key x)) rows
      ∙ any_mono (λ x. is_in (map key hits) (key x) && p x) (λ x. is_in ids (key x) && p x) rows
          (λ x e. ground (arith, is_in_of_hits (key x)))
          (sym (any-select p (λ x. is_in (map key hits) (key x)) rows) ∙ h)

-- For the tables: permissions, and roles with their permissions.
abbrev pub permission_key : Permission → ℕ
permission_key p = p.id

role_ids-load :
    (db : Db) (rows : List RoleRow)
    → map (λ (r : Role). r.id) (map (load_role db) rows) ≡ map role_key rows
role_ids-load db [] = refl
role_ids-load db (r ∷ rs) = rw (role_ids-load db rs)

module _ (db : Db) (name : String) (ids : List ℕ) where
  abbrev stored : List ℕ
  stored = map (λ (r : Role). r.id) (load_roles db ids)

  abbrev row_grants : RoleRow → Bool
  row_grants r = grants name (load_role db r).permissions

  stored-eq : stored ≡ map role_key (select (λ r. is_in ids (role_key r)) db.roles)
  stored-eq = role_ids-load db (select (λ r. is_in ids (role_key r)) db.roles)

  grant-load :
      (ks : List ℕ)
      → roles_grant name (load_roles db ks)
        ≡ any row_grants (select (λ r. is_in ks (role_key r)) db.roles)
  grant-load ks =
      any-map (λ (r : Role). grants name r.permissions) (load_role db)
        (select (λ r. is_in ks (role_key r)) db.roles)

  pub roles_reload :
      roles_grant name (load_roles db ids) ≡ true → roles_grant name (load_roles db stored) ≡ true
  roles_reload h =
      grant-load stored
      ∙ rw stored-eq (hits_reload role_key ids db.roles row_grants (sym (grant-load ids) ∙ h))

  pub roles_found :
      roles_grant name (load_roles db stored) ≡ true → roles_grant name (load_roles db ids) ≡ true
  roles_found h =
      grant-load ids
      ∙ hits_found role_key ids db.roles row_grants (rw stored-eq at (sym (grant-load stored) ∙ h))
