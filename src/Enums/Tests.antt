-- ===== src/Enums/Tests.antt =====
-- Runs of server/enums.c, and its theorems at them, with a list as the table of names.
use pand_ablocks_server.Prelude.{
  ℕ, ◌≡◌, ◌≢◌, refl, arith, List, [], ◌∷◌, Option, none, some, if◌then◌else◌, Bool-cases, inl, inr,
}
use pand_ablocks_server.Enums.{
  Entry, NameTable, same_name, search_loop, binary_search, enum_index_to_name, is_named,
  linear_search, ascends_from, check_sorted_enum_set, enum_name_to_index, insert_new,
  insert_entries, create_hash_table, create_static_enumeration, insert_new_enum, grow, add_table,
  insert_checked, add_enumeration, added,
}
use pand_ablocks_server.Enums.Search.{
  Sorted, IsLowerBound, find_name, binary_search-IsLowerBound, enum_index_to_name-find,
}
use pand_ablocks_server.Enums.Adding.{entry_of, same_name_eq, same_name_refl}

program : Unit {0}
unfolding same_name search_loop binary_search enum_index_to_name is_named linear_search ascends_from
    check_sorted_enum_set enum_name_to_index insert_new insert_entries create_hash_table
    create_static_enumeration insert_new_enum grow add_table insert_checked add_enumeration
    find_name
program = tt

abbrev Pairs : Type 0
Pairs = List (List ℕ × ℕ)

unfoldable find_pair : Pairs → List ℕ → Option ℕ
find_pair [] k = none
find_pair ((l, v) ∷ t) k = if same_name l k then some v else find_pair t k

find_pair_self : (t : Pairs) (k : List ℕ) (v : ℕ) → find_pair ((k, v) ∷ t) k ≡ some v
unfolding find_pair
find_pair_self t k v = rw (same_name_refl k) refl

find_pair_ne : (t : Pairs) (k l : List ℕ) (v : ℕ) → k ≢ l → find_pair ((k, v) ∷ t) l ≡ find_pair t l
unfolding find_pair
find_pair_ne t k l v h = elim (Bool-cases (same_name k l)) [
  | inl q ↦ absurd (h (same_name_eq k l q))
  | inr q ↦ rw q refl
]

find_pair_empty : (k : List ℕ) → find_pair [] k ≡ none
unfolding find_pair
find_pair_empty k = refl

abbrev pairs : NameTable Pairs
pairs = record {
  create = [];
  insert = λ t k v. (k, v) ∷ t;
  lookup = find_pair;
  lookup-create = find_pair_empty;
  lookup-insert_self = find_pair_self;
  lookup-insert_ne = find_pair_ne;
}

abbrev three : List Entry
three = entry_of (b'a' ∷ []) 1 ∷ entry_of (b'b' ∷ []) 4 ∷ entry_of (b'c' ∷ []) 9 ∷ []

searches :
    (binary_search three 0 ≡ some 0)
    × (binary_search three 4 ≡ some 1)
    × (binary_search three 5 ≡ some 2)
    × (binary_search three 10 ≡ some 3)
    × (enum_index_to_name three 9 ≡ some (some (b'c' ∷ [])))
    × (enum_index_to_name three 5 ≡ some none)
unfolding program
searches = (refl, refl, refl, refl, refl, refl)

three-Sorted : Sorted three
three-Sorted = ((omega arith, (omega arith, tt)), ((omega arith, tt), (tt, tt)))

binary_search-IsLowerBound_example :
    (ix : ℕ) × (binary_search three 5 ≡ some ix) × IsLowerBound three 5 ix
binary_search-IsLowerBound_example = binary_search-IsLowerBound three 5 three-Sorted

enum_index_to_name-find_example : enum_index_to_name three 9 ≡ some (find_name three 9)
enum_index_to_name-find_example = enum_index_to_name-find three 9 three-Sorted

-- A set of entries that were added out of order.
adds :
    add_enumeration pairs (record { set_capacity = 4; enums = three; map = none }) (b'd' ∷ []) 2
    ≡ added (record {
      set_capacity = 4;
      enums =
          entry_of (b'a' ∷ []) 1
          ∷ entry_of (b'd' ∷ []) 2
          ∷ entry_of (b'b' ∷ []) 4
          ∷ entry_of (b'c' ∷ []) 9
          ∷ [];
      map = none;
    })
unfolding program
adds = refl
