-- ===== src/Wg/Ownership/Hidden.antt =====
-- A row that belongs to someone else cannot be told from a missing one.
use vpn_manager.Common.{
  ℕ, Bool, true, false, not, ◌&&◌, ◌≡◌, refl, Option, none, some, List, [], ◌∷◌, select, first,
  by_key, IsKeyed, any, arith, Bool-cases, Option-cases, inl, inr, if◌then◌else◌, ◌==◌,
}
use vpn_manager.Http.Attempt.{◌>>=◌}
use vpn_manager.Rbac.Resolve.{Caller, caller_is_super}
use vpn_manager.Wg.Model.{Tables, interface_key, interface_row}
use vpn_manager.Wg.Ownership.{is_owner, owns_resource, scope_interfaces, get_owned_interface}

-- the tables as the caller may see them
abbrev pub visible_interfaces : Caller → Tables → Tables
visible_interfaces c t = record t { interfaces = scope_interfaces c t.interfaces }

abbrev kept_if : {A : Type 0} → (A → Bool) → Option A → Option A
kept_if own none = none
kept_if own (some x) = if own x then some x else none

module _ {A : Type 0} (key : A → ℕ) (own live : A → Bool) (k : ℕ) where
  abbrev wanted : A → Bool
  wanted x = by_key key k x && live x

  first-select-none :
      (xs : List A) → any (by_key key k) xs ≡ false → first wanted (select own xs) ≡ none
  first-select-none [] h = refl
  first-select-none (x ∷ xs) h = ground (arith, first-select-none xs)

  first-select :
      (xs : List A) → IsKeyed key xs → first wanted (select own xs) ≡ kept_if own (first wanted xs)
  first-select [] u = refl
  first-select (x ∷ xs) (fresh, u) = elim (Bool-cases (key x == k)) [
    | inr e ↦ ground (arith, e, first-select xs u)
    | inl e ↦
        let same : key x ≡ k = ground arith in
        let rest = first-select-none xs (rw (← same) fresh) in
        ground (arith, e, rest, first-select xs u)
  ]

-- A request by id for an interface is answered as if the interfaces that the caller does not own were
-- not in the tables, where ids are unique.
pub get_owned_interface_hidden :
    {R : Type 0} (fault : Bool) (c : Caller) (t : Tables) (id : ℕ)
    → IsKeyed interface_key t.interfaces
    → get_owned_interface {R = R} fault c t id
      ≡ get_owned_interface fault c (visible_interfaces c t) id
unfolding get_owned_interface owns_resource scope_interfaces ◌>>=◌
get_owned_interface_hidden true c t id u = refl
get_owned_interface_hidden false c t id u = elim (Bool-cases (caller_is_super c)) [
  | inl super ↦ rw (super, if◌then◌else◌) refl
  | inr plain ↦
      let found =
        first-select interface_key (λ i. is_owner i.owner_id c.id) (λ i. not i.trashed) id
          t.interfaces u in
      elim (Option-cases (interface_row t id)) [
        | inl e ↦ rw (plain, if◌then◌else◌, found, e) refl
        | inr (x, e) ↦ elim (Bool-cases (is_owner x.owner_id c.id)) [
          | inl o ↦ rw (plain, if◌then◌else◌, found, e, o) (rw o refl)
          | inr o ↦ rw (plain, if◌then◌else◌, found, e, o) refl
        ]
      ]
]
