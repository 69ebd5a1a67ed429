-- ===== src/Enums/Added.antt =====
-- How an addition to the sets of server/enums.c ends.
use pand_ablocks_server.Prelude.{
  ℕ, ◌<◌, ◌≡◌, refl, arith, List, none, some, ◌==◌, if◌then◌else◌, length, ◌⊎◌,
}
use pand_ablocks_server.Enums.{
  Enumeration, NameTable, same_name, value_at, linear_search, enum_name_to_index,
  create_dynamic_enumeration, AddResult, added, repeated_index, repeated_name,
}
use pand_ablocks_server.Enums.Search.{Sorted, find_name}
use pand_ablocks_server.Enums.Adding.{Named}

module _ {T : Type 0} (table : NameTable T) where
  -- A set that has been built by additions.
  pub record IsWellFormed (e : Enumeration T) : Type 0 where
    pub dynamic : 0 < e.set_capacity
    pub sorted : Sorted e.enums
    pub named : Named e.enums
    pub agrees : (n : List ℕ) → enum_name_to_index table e n ≡ linear_search e.enums n

  -- The same entries, and well-formed.
  pub record IsPrepared (e e' : Enumeration T) : Type 0 where
    pub same : e'.enums ≡ e.enums
    pub well : IsWellFormed e'

  -- What a successful addition comes to: both the value and the name are new, the lookups change at
  -- these alone, and the set is well-formed again.
  pub record IsAdded (e : Enumeration T) (name : List ℕ) (value : ℕ) (e' : Enumeration T)
      : Type 0 where
    pub new_name : enum_name_to_index table e name ≡ none
    pub new_value : find_name e.enums value ≡ none
    pub well : IsWellFormed e'
    pub by_name :
        (n : List ℕ)
        → enum_name_to_index table e' n
          ≡ (if same_name name n then some value else enum_name_to_index table e n)
    pub by_value :
        (v : ℕ) → find_name e'.enums v ≡ (if value == v then some name else find_name e.enums v)

  -- The three ways in which an addition ends. Where it fails the entries are as they were, but there
  -- may be more room, or a table.
  abbrev pub AddCases : Enumeration T → List ℕ → ℕ → AddResult (Enumeration T) → Type 0
  AddCases e name value r =
      ((i : ℕ) × (e' : Enumeration T) × (i < length e.enums)
        × (value_at e.enums i ≡ value)
        × (r ≡ repeated_index e')
        × IsPrepared e e')
      ⊎ (((v : ℕ) × (e' : Enumeration T) × (enum_name_to_index table e name ≡ some v)
            × (r ≡ repeated_name e')
            × IsPrepared e e')
          ⊎ ((e' : Enumeration T) × (r ≡ added e') × IsAdded e name value e'))

  -- A new enumeration.
  pub create_dynamic-IsWellFormed : IsWellFormed (create_dynamic_enumeration table)
  unfolding enum_name_to_index linear_search
  create_dynamic-IsWellFormed = record {
    dynamic = omega arith;
    sorted = tt;
    named = tt;
    agrees = λ n. refl;
  }
