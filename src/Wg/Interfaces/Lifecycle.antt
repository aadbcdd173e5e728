-- ===== src/Wg/Interfaces/Lifecycle.antt =====
-- The life of an interface: it is opened under the next id, and is active or in the trash until it is
-- purged.
pub mod Phases
pub mod Writes
pub mod Refines
use vpn_manager.Common.{ℕ, suc, ◌≤◌, ◌≡◌, ◌≢◌, List, [], ◌∷◌, by_key, if◌then◌else◌}
use vpn_manager.Wg.Model.{Interface, Tables, interface_key}

pub data Phase : Type 0 where
  absent active in_trash : Phase

abbrev pub phase_in : List Interface → ℕ → Phase
phase_in [] k = absent
phase_in (x ∷ xs) k =
    let rest = phase_in xs k in
    if by_key interface_key k x then (if x.trashed then in_trash else active) else rest

abbrev pub phase_of : Tables → ℕ → Phase
phase_of t k = phase_in t.interfaces k

-- the moves of one interface
pub data Move : Phase → Phase → Type 0 where
  trashing : Move active in_trash
  restoring : Move in_trash active
  purging : Move in_trash absent
  purging_active : Move active absent

-- A step of the specification: nothing happens, the next id is given out, or one interface moves.
pub data Step (t t' : Tables) : Type 0 where
  idle : t'.interface_seq ≡ t.interface_seq → ((k : ℕ) → phase_of t' k ≡ phase_of t k) → Step t t'
  opening :
      t'.interface_seq ≡ suc t.interface_seq
      → phase_of t (suc t.interface_seq) ≡ absent
      → phase_of t' (suc t.interface_seq) ≡ active
      → ((k : ℕ) → k ≢ suc t.interface_seq → phase_of t' k ≡ phase_of t k)
      → Step t t'
  moving :
      (id : ℕ)
      → t'.interface_seq ≡ t.interface_seq
      → Move (phase_of t id) (phase_of t' id)
      → ((k : ℕ) → k ≢ id → phase_of t' k ≡ phase_of t k)
      → Step t t'

-- any number of steps
pub data Steps : Tables → Tables → Type 0 where
  none_left : (t : Tables) → Steps t t
  then_step : (t t' t'' : Tables) → Step t t' → Steps t' t'' → Steps t t''
