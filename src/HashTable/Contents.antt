-- ===== src/HashTable/Contents.antt =====
-- server/hashtable.c: the table as a map from keys to values.
use pand_ablocks_server.Prelude.{
  ℕ, ◌+◌, ◌^◌, ◌≤◌, ◌<◌, ◌≡◌, ◌≢◌, ◌⊎◌, inl, inr, refl, sym, ap, ◌∙◌, arith, Bool, true, List, none,
  some, length, set, get_or, get_or-set_self, get_or-replicate, get_or-set_ne,
}
use native.Mathlib.Decide.{ℕ_discrete}
use pand_ablocks_server.HashTable.{
  initial_size, Slot, unused, used, Table, slot_at, hash_table_lookup, hash_table_count,
  hash_table_create,
}
use pand_ablocks_server.HashTable.Counts.{count, count_split, is_used, is_deleted, is_taken, bit}
use pand_ablocks_server.HashTable.Invariant.{
  Placed, IsValid, lookup_held, lookup_absent, lookup_cases,
}
use pand_ablocks_server.HashTable.Moving.{Held}

-- A key that neither the old nor the new slot at `i` has stays where it is.
module _ {K V : Type 0} (slots : List (Slot K V)) (i : ℕ) (s : Slot K V) (key : K) where
  pub Held-set :
      ((h : ℕ) (v : V) → slot_at slots i ≢ used h key v)
      → (v : V) → Held slots key v
      → Held (set slots i s) key v
  unfolding Held slot_at
  Held-set old v (j, h, e) =
      let ne : i ≢ j = λ x. old h v (ap (λ t. get_or slots t unused) x ∙ e) in
      (j, h, get_or-set_ne slots i j s unused ne ∙ e)

  pub Held-set_before :
      i < length slots
      → ((h : ℕ) (v : V) → s ≢ used h key v)
      → (v : V) → Held (set slots i s) key v
      → Held slots key v
  unfolding Held slot_at
  Held-set_before inside new v (j, h, e) = elim (ℕ_discrete i j) [
    | yes ij ↦
        let at_i =
          sym (get_or-set_self slots i s unused inside)
          ∙ ap (λ t. get_or (set slots i s) t unused) ij
          ∙ e in
        absurd (new h v at_i)
    | no ne ↦ (j, h, sym (get_or-set_ne slots i j s unused ne) ∙ e)
  ]

-- Tables of any sizes that hold the same for a key give the same.
pub lookup-same :
    {K V : Type 0} (w k k' : ℕ) (hash_of : K → ℕ) (compare : K → K → Bool)
    (table table' : Table K V) (key : K)
    → k + 2 ≤ w
    → k' + 2 ≤ w
    → ((key' : K) → hash_of key' < 2 ^ w)
    → ((key' key'' : K) → compare key' key'' ≡ true → key' ≡ key'')
    → IsValid w k hash_of compare table
    → IsValid w k' hash_of compare table'
    → ((v : V) → Held table.slots key v → Held table'.slots key v)
    → ((v : V) → Held table'.slots key v → Held table.slots key v)
    → hash_table_lookup w hash_of compare table' key ≡ hash_table_lookup w hash_of compare table key
unfolding Held
lookup-same w k k' hash_of compare table table' key fits fits' small sound valid valid' to back =
    elim (lookup_cases w k hash_of compare fits small sound table valid key) [
      | inl (j, h, v, e, f) ↦
          let (j', h', e') = to v (j, h, e) in
          lookup_held w k' hash_of compare fits' small sound table' valid' j' h' key v e' ∙ sym f
      | inr (n, f) ↦
          lookup_absent w k' hash_of compare fits' small sound table' valid' key
            (λ j h v e. let (j', h', e') = back v (j, h, e) in n j' h' v e')
          ∙ sym f
    ]

module _ {K V : Type 0} (w k : ℕ) (hash_of : K → ℕ) (compare : K → K → Bool) where
  -- A lookup in a well-formed table of 2^k slots ends: with the value of the slot that holds the
  -- key, or with nothing when no slot holds it. Hashes are below 2^w for a long of w bits, keys
  -- that compare as equal are equal, and k + 2 is at most w.
  pub lookup-total :
      (table : Table K V) (key : K)
      → k + 2 ≤ w
      → ((key' : K) → hash_of key' < 2 ^ w)
      → ((key' key'' : K) → compare key' key'' ≡ true → key' ≡ key'')
      → IsValid w k hash_of compare table
      → ((j h : ℕ) × (v : V) × (slot_at table.slots j ≡ used h key v)
          × (hash_table_lookup w hash_of compare table key ≡ some (some v)))
        ⊎ (((j h : ℕ) (v : V) → slot_at table.slots j ≢ used h key v)
            × (hash_table_lookup w hash_of compare table key ≡ some none))
  lookup-total table key fits small sound valid =
      lookup_cases w k hash_of compare fits small sound table valid key

  -- The count of a well-formed table is the number of slots that hold a key.
  pub count-used :
      (table : Table K V)
      → IsValid w k hash_of compare table
      → hash_table_count table ≡ count is_used table.slots
  unfolding IsValid hash_table_count
  count-used table (len, mask, entries, dead, load, placed) =
      let split = count_split table.slots in omega arith

module _ (K V : Type 0) (w : ℕ) (hash_of : K → ℕ) (compare : K → K → Bool) where
  create_slots : (j : ℕ) → slot_at {K = K} {V = V} hash_table_create.slots j ≡ unused
  unfolding slot_at hash_table_create
  create_slots j = get_or-replicate initial_size j unused

  pub create-IsValid : IsValid {V = V} w 3 hash_of compare hash_table_create
  unfolding IsValid Placed hash_table_create count is_taken is_deleted bit
  create-IsValid =
      (refl, refl, refl, refl, omega arith, λ j h key v e. absurd (cc (sym (create_slots j) ∙ e)))

  -- A new table is well formed, with 2^3 slots, and a lookup for any key gives nothing. Hashes are
  -- below 2^w for a long of w bits with w at least 5, and keys that compare as equal are equal.
  pub hash_table_create-IsValid :
      5 ≤ w
      → ((key : K) → hash_of key < 2 ^ w)
      → ((key key' : K) → compare key key' ≡ true → key ≡ key')
      → IsValid {V = V} w 3 hash_of compare hash_table_create
        × ((key : K)
            → hash_table_lookup {V = V} w hash_of compare hash_table_create key ≡ some none)
  hash_table_create-IsValid fits small sound = (
    create-IsValid,
    λ key.
        lookup_absent w 3 hash_of compare (omega arith) small sound hash_table_create create-IsValid
          key (λ j h v e. cc (sym (create_slots j) ∙ e)),
  )
