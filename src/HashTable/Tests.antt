-- ===== src/HashTable/Tests.antt =====
-- server/hashtable.c: the hash table on small inputs, with keys that are their own hashes.
use pand_ablocks_server.Prelude.{
  ℕ, zero, suc, ◌+◌, ◌%◌, ◌^◌, ◌≤◌, ◌<◌, ◌≡◌, ◌≢◌, ◌⊎◌, refl, ap, arith, true, false, [], ◌∷◌,
  Option, none, some, ◌==◌, ==_iff, get_or-replicate, sym, ◌∙◌,
}
use native.Mathlib.Nat.{mod-lt}
use pand_ablocks_server.HashTable.{
  unused, deleted, used, Table, slot_at, hash_table_create, hash_table_lookup, hash_table_insert,
  hash_table_delete, hash_table_walk, hash_table_count, hash_table_resize, compute_hash, lookup,
  lookup_from, at_slot, or_slot, slot_value, fill_slot,
}
use pand_ablocks_server.HashTable.Counts.{count, is_used, is_taken, is_deleted, bit}
use pand_ablocks_server.HashTable.Invariant.{Placed, IsValid}
use pand_ablocks_server.HashTable.Contents.{lookup-total, count-used, hash_table_create-IsValid}
use pand_ablocks_server.HashTable.Deletion.{hash_table_delete_lem}
use pand_ablocks_server.HashTable.Insertion.{hash_table_insert_lem, hash_table_resize_lem}
use pand_ablocks_server.HashTable.Walk.{hash_table_walk_lem}

abbrev hash_number : ℕ → ℕ
hash_number n = n % 256

hash_small : (n : ℕ) → hash_number n < 2 ^ 8
hash_small n = mod-lt n (omega arith)

same_number : (n : ℕ) → (n == n) ≡ true
same_number n = (==_iff n n).1 refl

equal_numbers : (n m : ℕ) → (n == m) ≡ true → n ≡ m
equal_numbers n m h = ground arith

-- The key 11 with the value 9, and a deleted slot where its lookup starts.
abbrev one_entry : Table ℕ ℕ
one_entry = record {
  entries = 2;
  deleted_count = 1;
  size_mask = 7;
  slots = used 11 11 9 ∷ unused ∷ unused ∷ deleted ∷ unused ∷ unused ∷ unused ∷ unused ∷ [];
}

-- Its lookup goes past the deleted slot to the first slot.
hash_11_test : compute_hash 8 hash_number 11 ≡ 11
unfolding compute_hash
hash_11_test = refl

lookup_11_test : lookup {V = ℕ} 8 hash_number ◌==◌ one_entry.slots 7 11 11 ≡ some (true, 0)
unfolding lookup lookup_from at_slot slot_at
lookup_11_test = refl

first_key :
    (key h : ℕ)
    → h ≡ 11
    → key ≡ 11
    → (h ≡ compute_hash 8 hash_number key)
      × (lookup {V = ℕ} 8 hash_number ◌==◌ one_entry.slots 7 key h ≡ some (true, 0))
first_key key h eh ek = (
  eh ∙ sym hash_11_test ∙ ap (compute_hash 8 hash_number) (sym ek),
  ap (λ t. lookup 8 hash_number ◌==◌ one_entry.slots 7 key t) eh
      ∙ ap (λ t. lookup 8 hash_number ◌==◌ one_entry.slots 7 t 11) ek
      ∙ lookup_11_test,
)

one_entry-Placed : Placed 8 3 hash_number ◌==◌ one_entry.slots
unfolding Placed slot_at
one_entry-Placed zero h key v e =
    let eh : 11 ≡ h = cc e in let ek : 11 ≡ key = cc e in first_key key h (sym eh) (sym ek)
one_entry-Placed (suc zero) h key v e = absurd (cc e)
one_entry-Placed (suc (suc zero)) h key v e = absurd (cc e)
one_entry-Placed (suc (suc (suc zero))) h key v e = absurd (cc e)
one_entry-Placed (suc (suc (suc (suc j)))) h key v e =
    absurd (cc (sym (get_or-replicate 4 j unused) ∙ e))

one_entry-IsValid : IsValid 8 3 hash_number ◌==◌ one_entry
unfolding IsValid count is_taken is_deleted bit
one_entry-IsValid = (refl, refl, refl, refl, omega arith, one_entry-Placed)

create_test :
    hash_table_insert {V = ℕ} 8 hash_number ◌==◌ hash_table_create 7 1
    ≡ some (
      none,
      record {
        entries = 1;
        deleted_count = 0;
        size_mask = 7;
        slots = unused ∷ unused ∷ unused ∷ unused ∷ unused ∷ unused ∷ unused ∷ used 7 7 1 ∷ [];
      },
    )
unfolding hash_table_insert hash_table_create lookup lookup_from at_slot compute_hash slot_at
    slot_value or_slot fill_slot
create_test = refl

-- The deleted slot where the lookup starts takes the key 3.
insert_deleted_test :
    hash_table_insert 8 hash_number ◌==◌ one_entry 3 5
    ≡ some (
      none,
      record one_entry {
        deleted_count = 0;
        slots =
            used 11 11 9 ∷ unused ∷ unused ∷ used 3 3 5 ∷ unused ∷ unused ∷ unused ∷ unused ∷ [];
      },
    )
unfolding hash_table_insert lookup lookup_from at_slot compute_hash slot_at slot_value or_slot
    fill_slot
insert_deleted_test = refl

-- A hash that is reserved for unused slots.
reserved_test : compute_hash 8 hash_number 256 ≡ 254
unfolding compute_hash
reserved_test = refl

hash_table_create-IsValid_example :
    IsValid {V = ℕ} 8 3 hash_number ◌==◌ hash_table_create
    × ((key : ℕ) → hash_table_lookup {V = ℕ} 8 hash_number ◌==◌ hash_table_create key ≡ some none)
hash_table_create-IsValid_example =
    hash_table_create-IsValid ℕ ℕ 8 hash_number ◌==◌ (omega arith) hash_small equal_numbers

lookup-total_example :
    ((j h : ℕ) × (v : ℕ) × (slot_at one_entry.slots j ≡ used h 11 v)
      × (hash_table_lookup 8 hash_number ◌==◌ one_entry 11 ≡ some (some v)))
    ⊎ (((j h : ℕ) (v : ℕ) → slot_at one_entry.slots j ≢ used h 11 v)
        × (hash_table_lookup 8 hash_number ◌==◌ one_entry 11 ≡ some none))
lookup-total_example =
    lookup-total 8 3 hash_number ◌==◌ one_entry 11 (omega arith) hash_small equal_numbers
      one_entry-IsValid

count-used_example : hash_table_count one_entry ≡ count is_used one_entry.slots
count-used_example = count-used 8 3 hash_number ◌==◌ one_entry one_entry-IsValid

hash_table_delete_lem_example :
    (old_value : Option ℕ) × (table' : Table ℕ ℕ) × (hash_table_delete 8 hash_number ◌==◌ one_entry
        11
      ≡ some (old_value, table'))
    × IsValid 8 3 hash_number ◌==◌ table'
    × (hash_table_lookup 8 hash_number ◌==◌ one_entry 11 ≡ some old_value)
    × (hash_table_lookup 8 hash_number ◌==◌ table' 11 ≡ some none)
    × ((key' : ℕ)
        → key' ≢ 11
        → hash_table_lookup 8 hash_number ◌==◌ table' key'
          ≡ hash_table_lookup 8 hash_number ◌==◌ one_entry key')
hash_table_delete_lem_example =
    hash_table_delete_lem 8 3 hash_number ◌==◌ one_entry 11 (omega arith) hash_small equal_numbers
      one_entry-IsValid

hash_table_insert_lem_example :
    (k' : ℕ) × (old_value : Option ℕ) × (table' : Table ℕ ℕ) × (hash_table_insert 8 hash_number ◌==◌
        one_entry 3 5
      ≡ some (old_value, table'))
    × IsValid 8 k' hash_number ◌==◌ table'
    × (hash_table_lookup 8 hash_number ◌==◌ one_entry 3 ≡ some old_value)
    × (hash_table_lookup 8 hash_number ◌==◌ table' 3 ≡ some (some 5))
    × ((key' : ℕ)
        → key' ≢ 3
        → hash_table_lookup 8 hash_number ◌==◌ table' key'
          ≡ hash_table_lookup 8 hash_number ◌==◌ one_entry key')
hash_table_insert_lem_example =
    hash_table_insert_lem 8 3 hash_number ◌==◌ one_entry 3 5 (omega arith) (omega arith) hash_small
      same_number equal_numbers one_entry-IsValid

hash_table_resize_lem_example :
    (k' : ℕ) × (table' : Table ℕ ℕ) × (hash_table_resize 8 hash_number ◌==◌ one_entry 20
      ≡ some table')
    × (20 ≤ 2 ^ k')
    × IsValid 8 k' hash_number ◌==◌ table'
    × ((key : ℕ)
        → hash_table_lookup 8 hash_number ◌==◌ table' key
          ≡ hash_table_lookup 8 hash_number ◌==◌ one_entry key)
hash_table_resize_lem_example =
    hash_table_resize_lem 8 3 hash_number ◌==◌ one_entry 20 5 (omega arith) (omega arith)
      (omega arith) (omega arith) (omega arith) hash_small same_number equal_numbers
      one_entry-IsValid

hash_table_walk_lem_example :
    ((hash_table_walk one_entry 0 ≡ none)
      × ((j : ℕ) → 0 ≤ j → is_used (slot_at one_entry.slots j) ≡ false))
    ⊎ ((next h : ℕ) × (key : ℕ) × (v : ℕ) × (hash_table_walk one_entry 0 ≡ some (key, v, next + 1))
        × (0 ≤ next)
        × (slot_at one_entry.slots next ≡ used h key v)
        × ((j : ℕ) → 0 ≤ j → j < next → is_used (slot_at one_entry.slots j) ≡ false))
hash_table_walk_lem_example = hash_table_walk_lem one_entry 0
