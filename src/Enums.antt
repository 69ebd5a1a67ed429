-- ===== src/Enums.antt =====
-- server/enums.c: sets of named values, sorted by value. The set is a list, whose length is `count`;
-- a name is absent in some static sets. The table from names to values (server/hashtable.h) is an
-- interface.
pub mod Search
pub mod Adding
pub mod Added
mod Tests
use pand_ablocks_server.Prelude.{
  ℕ, zero, suc, ◌+◌, ◌*◌, ◌/◌, ◌≡◌, ◌≢◌, Bool, true, false, ◌&&◌, ◌||◌, not, List, [], ◌∷◌, ◌++◌,
  Option, none, some, ltb, leb, ◌==◌, if◌then◌else◌, length, get_or, take, drop,
}

abbrev pub hash_table_threshold : ℕ
hash_table_threshold = 4

abbrev pub initial_capacity : ℕ
initial_capacity = 4

-- `strcmp(a, b) == 0`.
unfoldable pub same_name : List ℕ → List ℕ → Bool
same_name [] [] = true
same_name [] (b ∷ t) = false
same_name (a ∷ s) [] = false
same_name (a ∷ s) (b ∷ t) = a == b && same_name s t

pub record Entry : Type 0 where
  pub name : Option (List ℕ)
  pub value : ℕ

-- What the code uses of a table with keys that are not copied, and what it relies on.
pub record NameTable (T : Type 0) : Type 0 where
  pub create : T
  pub insert : T → List ℕ → ℕ → T
  pub lookup : T → List ℕ → Option ℕ
  pub lookup-create : (k : List ℕ) → lookup create k ≡ none
  pub lookup-insert_self : (t : T) (k : List ℕ) (v : ℕ) → lookup (insert t k v) k ≡ some v
  pub lookup-insert_ne :
      (t : T) (k l : List ℕ) (v : ℕ) → k ≢ l → lookup (insert t k v) l ≡ lookup t l

-- `struct enumeration`; a capacity of 0 is a static enumeration.
pub record Enumeration (T : Type 0) : Type 0 where
  pub set_capacity : ℕ
  pub enums : List Entry
  pub map : Option T

abbrev pub value_at : List Entry → ℕ → ℕ
value_at es i = (get_or es i (record { name = none; value = 0 })).value

-- The loop, on fuel.
unfoldable pub search_loop : List Entry → ℕ → ℕ → ℕ → ℕ → Option ℕ
search_loop es value zero left right = none
search_loop es value (suc fuel) left right =
    let centre = (left + right) / 2 in
    let lower = search_loop es value fuel left centre in
    let upper = search_loop es value fuel (centre + 1) right in
    if ltb left right then if leb value (value_at es centre) then lower else upper else some left

unfoldable pub binary_search : List Entry → ℕ → Option ℕ
binary_search es value = search_loop es value (suc (length es)) 0 (length es)

-- The outer option is the fuel, the inner one is NULL.
unfoldable pub enum_index_to_name : List Entry → ℕ → Option (Option (List ℕ))
enum_index_to_name es value = elim (binary_search es value) [
  | none ↦ none
  | some ix ↦ some (
      if ltb ix (length es) && value_at es ix == value
      then (get_or es ix (record { name = none; value = 0 })).name
      else none)
]

unfoldable pub is_named : Entry → List ℕ → Bool
is_named entry name = elim entry.name [ none ↦ false | some n ↦ same_name n name ]

unfoldable pub linear_search : List Entry → List ℕ → Option ℕ
linear_search [] name = none
linear_search (entry ∷ es) name =
    let rest = linear_search es name in if is_named entry name then some entry.value else rest

-- The check of the entries after one with the value `value`.
unfoldable pub ascends_from : ℕ → List Entry → Bool
ascends_from value [] = true
ascends_from value (entry ∷ es) =
    if leb entry.value value then false else ascends_from entry.value es

unfoldable pub check_sorted_enum_set : List Entry → Bool
check_sorted_enum_set [] = true
check_sorted_enum_set (entry ∷ es) = ascends_from entry.value es

-- How adding an entry ends, with the enumeration then. An assertion that fails is `aborted`.
pub data AddResult (E : Type 0) : Type 0 where
  added repeated_index repeated_name : E → AddResult E
  aborted : AddResult E

module _ {T : Type 0} (table : NameTable T) where
  unfoldable pub enum_name_to_index : Enumeration T → List ℕ → Option ℕ
  enum_name_to_index e name = elim e.map [
    | some t ↦ table.lookup t name
    | none ↦ linear_search e.enums name
  ]

  -- An insertion whose key must be new.
  unfoldable pub insert_new : Option T → List ℕ → ℕ → Option T
  insert_new none name value = none
  insert_new (some t) name value = elim (table.lookup t name) [
    | some _ ↦ none
    | none ↦ some (table.insert t name value)
  ]

  -- The loop; a missing name cannot be a key.
  unfoldable pub insert_entries : Option T → List Entry → Option T
  insert_entries t [] = t
  insert_entries t (entry ∷ es) = elim entry.name [
    | none ↦ none
    | some name ↦ insert_entries (insert_new t name entry.value) es
  ]

  unfoldable pub create_hash_table : List Entry → Option T
  create_hash_table es = insert_entries (some table.create) es

  unfoldable pub create_static_enumeration : List Entry → Option (Enumeration T)
  create_static_enumeration es =
      if check_sorted_enum_set es
      then if ltb hash_table_threshold (length es)
        then elim (create_hash_table es) [
          | none ↦ none
          | some t ↦ some (record { set_capacity = 0; enums = es; map = some t })
        ]
        else some (record { set_capacity = 0; enums = es; map = none })
      else none

  abbrev pub create_dynamic_enumeration : Enumeration T
  create_dynamic_enumeration = record { set_capacity = initial_capacity; enums = []; map = none }

  unfoldable pub insert_new_enum : Enumeration T → List ℕ → ℕ → ℕ → AddResult (Enumeration T)
  insert_new_enum e name value ix =
      let es = take ix e.enums ++ (record { name = some name; value = value } ∷ drop ix e.enums) in
      elim e.map [
        | none ↦ added (record e { enums = es })
        | some t ↦ elim (insert_new (some t) name value) [
          | none ↦ aborted
          | some t' ↦ added (record e { enums = es; map = some t' })
        ]
      ]

  -- More room if the set is full.
  unfoldable pub grow : Enumeration T → Enumeration T
  grow e =
      if leb e.set_capacity (length e.enums)
      then record e { set_capacity = e.set_capacity * 2 }
      else e

  -- A table once there are enough entries.
  unfoldable pub add_table : Enumeration T → Option (Enumeration T)
  add_table e = elim e.map [
    | some _ ↦ some e
    | none ↦
        if leb hash_table_threshold (length e.enums)
        then elim (create_hash_table e.enums) [
          | none ↦ none
          | some t ↦ some (record e { map = some t })
        ]
        else some e
  ]

  unfoldable pub insert_checked : Enumeration T → List ℕ → ℕ → ℕ → AddResult (Enumeration T)
  insert_checked e name value ix =
      if ix == length e.enums || ltb value (value_at e.enums ix)
      then elim (enum_name_to_index e name) [
        | some _ ↦ repeated_name e
        | none ↦ insert_new_enum e name value ix
      ]
      else repeated_index e

  unfoldable pub add_enumeration : Enumeration T → List ℕ → ℕ → AddResult (Enumeration T)
  add_enumeration e name value =
      if e.set_capacity == 0 then aborted else elim (add_table (grow e)) [
        | none ↦ aborted
        | some e' ↦ elim (binary_search e'.enums value) [
          | none ↦ aborted
          | some ix ↦ insert_checked e' name value ix
        ]
      ]
