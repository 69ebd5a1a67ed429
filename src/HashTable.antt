-- ===== src/HashTable.antt =====
-- server/hashtable.c: the hash table with open addressing. The keys, their hash and their comparison
-- are those of `struct hash_table_ops`; `long unsigned int` and `size_t` have `w` bits. A slot that is
-- not in use has no key and value. The lifetime of keys is left out. `none` is fuel that ran out.
pub mod Cycle
pub mod Probing
pub mod Searching
pub mod Filling
pub mod Counts
pub mod Invariant
pub mod Changes
pub mod Moving
pub mod Resizing
pub mod Contents
pub mod Deletion
pub mod Insertion
pub mod Walk
mod Tests
use pand_ablocks_server.Prelude.{
  ℕ, zero, suc, ◌+◌, ◌-◌, ◌*◌, ◌/◌, ◌%◌, ◌^◌, Bool, true, false, ◌&&◌, ◌||◌, List, [], ◌∷◌, Option,
  none, some, leb, ltb, ◌==◌, if◌then◌else◌, length, get_or, set, replicate, bit_and, drop,
}

abbrev pub initial_size : ℕ
initial_size = 8

-- `struct table_entry`, by its hash.
pub data Slot (K V : Type 0) : Type 0 where
  unused deleted : Slot K V
  used : ℕ → K → V → Slot K V

pub record Table (K V : Type 0) : Type 0 where
  pub entries : ℕ
  pub deleted_count : ℕ
  pub size_mask : ℕ
  pub slots : List (Slot K V)

-- The deleted slot that was met first.
unfoldable pub or_slot : Option ℕ → ℕ → ℕ
or_slot none i = i
or_slot (some first) i = first

module _ {K V : Type 0} where
  unfoldable pub slot_at : List (Slot K V) → ℕ → Slot K V
  slot_at slots i = get_or slots i unused

  unfoldable pub slot_value : Slot K V → Option V
  slot_value unused = none
  slot_value deleted = none
  slot_value (used hash key value) = some value

  unfoldable pub hash_table_create : Table K V
  hash_table_create = record {
    entries = 0;
    deleted_count = 0;
    size_mask = initial_size - 1;
    slots = replicate initial_size unused;
  }

  unfoldable pub hash_table_count : Table K V → ℕ
  hash_table_count table = table.entries - table.deleted_count

  -- The loop of `hash_table_walk` over the slots from index `ix` on: the key, the value and the next
  -- index.
  unfoldable pub walk_slots : List (Slot K V) → ℕ → Option (K × V × ℕ)
  walk_slots [] ix = none
  walk_slots (unused ∷ slots) ix = walk_slots slots (ix + 1)
  walk_slots (deleted ∷ slots) ix = walk_slots slots (ix + 1)
  walk_slots (used hash key value ∷ slots) ix = some (key, value, ix + 1)

  unfoldable pub hash_table_walk : Table K V → ℕ → Option (K × V × ℕ)
  hash_table_walk table ix = walk_slots (drop ix table.slots) ix

module _ (w : ℕ) where
  -- The loop that doubles the size, on fuel.
  unfoldable pub double_size : ℕ → ℕ → ℕ → ℕ
  double_size zero min_size size = size
  double_size (suc fuel) min_size size =
      let rest = double_size fuel min_size (size * 2 % 2 ^ w) in
      if ltb size min_size then rest else size

  unfoldable pub new_size_for : ℕ → ℕ → ℕ
  new_size_for entries min_size =
      let min = if ltb min_size (2 * entries % 2 ^ w) then 2 * entries % 2 ^ w else min_size in
      double_size w min initial_size

module _ {K : Type 0} (w : ℕ) (hash_of : K → ℕ) where
  unfoldable pub compute_hash : K → ℕ
  compute_hash key =
      let hash = hash_of key in if hash == 0 || hash == 2 ^ w - 1 then 2 ^ w - 2 else hash

module _ {K V : Type 0} (w : ℕ) (hash_of : K → ℕ) (compare : K → K → Bool) where
  -- One round of the loop, with what it gives if it goes on past a key and past a deleted slot.
  unfoldable pub at_slot :
      Slot K V → K → ℕ → ℕ → Option ℕ → Option (Bool × ℕ) → Option (Bool × ℕ) → Option (Bool × ℕ)
  at_slot unused key hash i first past_key past_deleted = some (false, or_slot first i)
  at_slot deleted key hash i first past_key past_deleted = past_deleted
  at_slot (used h k v) key hash i first past_key past_deleted =
      if h == hash && compare key k then some (true, i) else past_key

  -- The loop, at `ix` and `perturb`, with the first deleted slot so far: whether the key is found, and
  -- the index of the slot.
  unfoldable pub lookup_from :
      List (Slot K V) → ℕ → K → ℕ → ℕ → ℕ → ℕ → Option ℕ → Option (Bool × ℕ)
  lookup_from slots mask key hash zero ix perturb first = none
  lookup_from slots mask key hash (suc fuel) ix perturb first =
      let i = bit_and ix mask in
      let perturb' = perturb / 2 ^ 5 in
      let ix' = (1 + 5 * ix + perturb') % 2 ^ w in
      at_slot (slot_at slots i) key hash i first
        (lookup_from slots mask key hash fuel ix' perturb' first)
        (lookup_from slots mask key hash fuel ix' perturb' (some (or_slot first i)))

  unfoldable pub lookup : List (Slot K V) → ℕ → K → ℕ → Option (Bool × ℕ)
  lookup slots mask key hash =
      lookup_from slots mask key hash (w + length slots) (hash % 2 ^ w) hash none

  -- The value, which is there if the key is found.
  unfoldable pub hash_table_lookup : Table K V → K → Option (Option V)
  hash_table_lookup table key =
      elim (lookup table.slots table.size_mask key (compute_hash w hash_of key)) [
        | none ↦ none
        | some (found, i) ↦ some (slot_value (slot_at table.slots i))
      ]

  -- One old slot in the new table.
  unfoldable pub move_slot : ℕ → Slot K V → List (Slot K V) → Option (List (Slot K V))
  move_slot mask unused slots = some slots
  move_slot mask deleted slots = some slots
  move_slot mask (used hash key value) slots = elim (lookup slots mask key hash) [
    | none ↦ none
    | some (found, i) ↦ some (set slots i (used hash key value))
  ]

  unfoldable pub move_slots : ℕ → List (Slot K V) → List (Slot K V) → Option (List (Slot K V))
  move_slots mask [] slots = some slots
  move_slots mask (slot ∷ old) slots = elim (move_slot mask slot slots) [
    | none ↦ none
    | some slots' ↦ move_slots mask old slots'
  ]

  unfoldable pub resize_table : Table K V → ℕ → Option (Table K V)
  resize_table table min_size =
      let entries = table.entries - table.deleted_count in
      let new_size = new_size_for w entries min_size in
      elim (move_slots (new_size - 1) table.slots (replicate new_size unused)) [
        | none ↦ none
        | some slots ↦ some (record {
          entries = entries;
          deleted_count = 0;
          size_mask = new_size - 1;
          slots = slots;
        })
      ]

  unfoldable pub hash_table_resize : Table K V → ℕ → Option (Table K V)
  hash_table_resize table min_size = resize_table table min_size

  -- The slot that is found takes the key and the value, and the counts change with it.
  unfoldable pub fill_slot : Table K V → ℕ → K → ℕ → V → Table K V
  fill_slot table i key hash value =
      let slots = set table.slots i (used hash key value) in
      elim (slot_at table.slots i) [
        | unused ↦ record table { entries = (table.entries + 1) % 2 ^ w; slots = slots }
        | deleted ↦ record table { deleted_count = table.deleted_count - 1; slots = slots }
        | used h k v ↦ record table { slots = slots }
      ]

  -- The old value, and the table then.
  unfoldable pub hash_table_insert : Table K V → K → V → Option (Option V × Table K V)
  hash_table_insert table key value =
      let hash = compute_hash w hash_of key in
      elim (lookup table.slots table.size_mask key hash) [
        | none ↦ none
        | some (found, i) ↦
            let filled = fill_slot table i key hash value in
            let old_value = slot_value (slot_at table.slots i) in
            let resized = resize_table filled 0 in
            if leb (2 * filled.size_mask % 2 ^ w) (3 * filled.entries % 2 ^ w)
            then elim resized [ none ↦ none | some table' ↦ some (old_value, table') ]
            else some (old_value, filled)
      ]

  unfoldable pub hash_table_delete : Table K V → K → Option (Option V × Table K V)
  hash_table_delete table key =
      elim (lookup table.slots table.size_mask key (compute_hash w hash_of key)) [
        | none ↦ none
        | some (found, i) ↦
            let old_value = slot_value (slot_at table.slots i) in
            some (
              old_value,
              if found
                  then record table {
                    slots = set table.slots i deleted;
                    deleted_count = (table.deleted_count + 1) % 2 ^ w;
                  }
                  else table,
            )
      ]
