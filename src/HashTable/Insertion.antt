-- ===== src/HashTable/Insertion.antt =====
-- server/hashtable.c: `hash_table_insert` and `hash_table_resize` on the table as a map.
use pand_ablocks_server.Prelude.{
  ℕ, suc, ◌+◌, ◌*◌, ◌%◌, ◌^◌, ◌≤◌, ◌<◌, ◌≡◌, ◌≢◌, inl, inr, refl, sym, ap, ◌∙◌, arith, Bool, true,
  false, Option, some, length, set, leb, Bool-cases, get_or-set_self,
}
use native.Mathlib.Nat.{pow-suc, mod-eq_of_lt, pow-le-pow_right, one-le-pow}
use pand_ablocks_server.HashTable.{
  unused, used, Table, slot_at, slot_value, compute_hash, lookup, hash_table_lookup, fill_slot,
  hash_table_insert, hash_table_resize, resize_table,
}
use pand_ablocks_server.HashTable.Counts.{count, count_le, is_used, is_taken}
use pand_ablocks_server.HashTable.Invariant.{
  IsOrdered, IsValid, lookup_some, lookup_held, lookup_found, lookup_new,
}
use pand_ablocks_server.HashTable.Changes.{fill_slot_slots, fill_slot-IsOrdered}
use pand_ablocks_server.HashTable.Moving.{Held}
use pand_ablocks_server.HashTable.Resizing.{resize_table_lem}
use pand_ablocks_server.HashTable.Contents.{Held-set, Held-set_before, lookup-same}

module _ {K V : Type 0} (w : ℕ) (hash_of : K → ℕ) (compare : K → K → Bool) (table : Table K V)
    (key : K) (found : Bool) (i : ℕ) where
  lookup_value :
      lookup w hash_of compare table.slots table.size_mask key (compute_hash w hash_of key)
        ≡ some (found, i)
      → hash_table_lookup w hash_of compare table key ≡ some (slot_value (slot_at table.slots i))
  unfolding hash_table_lookup
  lookup_value e = rw (hash_table_lookup, e) refl

  insert_plain :
      (v : V)
      → lookup w hash_of compare table.slots table.size_mask key (compute_hash w hash_of key)
        ≡ some (found, i)
      → leb
          (2
            * (fill_slot w hash_of compare table i key (compute_hash w hash_of key) v).size_mask
            % 2 ^ w)
          (3
            * (fill_slot w hash_of compare table i key (compute_hash w hash_of key) v).entries
            % 2 ^ w)
        ≡ false
      → hash_table_insert w hash_of compare table key v
        ≡ some (
          slot_value (slot_at table.slots i),
          fill_slot w hash_of compare table i key (compute_hash w hash_of key) v,
        )
  unfolding hash_table_insert
  insert_plain v e room = rw (hash_table_insert, e, room) refl

  insert_resized :
      (table' : Table K V) (v : V)
      → lookup w hash_of compare table.slots table.size_mask key (compute_hash w hash_of key)
        ≡ some (found, i)
      → leb
          (2
            * (fill_slot w hash_of compare table i key (compute_hash w hash_of key) v).size_mask
            % 2 ^ w)
          (3
            * (fill_slot w hash_of compare table i key (compute_hash w hash_of key) v).entries
            % 2 ^ w)
        ≡ true
      → resize_table w hash_of compare
          (fill_slot w hash_of compare table i key (compute_hash w hash_of key) v)
          0
        ≡ some table'
      → hash_table_insert w hash_of compare table key v
        ≡ some (slot_value (slot_at table.slots i), table')
  unfolding hash_table_insert
  insert_resized table' v e full moved = rw (hash_table_insert, e, full, moved) refl

module _ {K V : Type 0} (w k : ℕ) (hash_of : K → ℕ) (compare : K → K → Bool) where
  few_used :
      (table : Table K V)
      → IsOrdered w k hash_of compare table
      → 2 * count is_used table.slots ≤ 2 ^ (k + 1)
  unfolding IsOrdered
  few_used table (len, mask, entries, dead, placed) =
      let le = count_le is_used table.slots in
      let p = pow-suc 2 k in let e : k + 1 ≡ suc k = omega arith in rw e (omega arith)

  -- Without a need to resize.
  not_full :
      (table : Table K V)
      → k + 3 ≤ w
      → IsOrdered w k hash_of compare table
      → leb (2 * table.size_mask % 2 ^ w) (3 * table.entries % 2 ^ w) ≡ false
      → IsValid w k hash_of compare table
  unfolding IsOrdered IsValid
  not_full table fits (len, mask, entries, dead, placed) room =
      let le = count_le is_taken table.slots in
      let up = pow-le-pow_right {n = 2} (omega arith) {i = suc (suc k)} {j = w} (omega arith) in
      let p = pow-suc 2 k in
      let q = pow-suc 2 (suc k) in
      let pos = one-le-pow k 2 (omega arith) in
      let a : 2 * table.size_mask % 2 ^ w ≡ 2 * table.size_mask = mod-eq_of_lt (omega arith) in
      let b : 3 * table.entries % 2 ^ w ≡ 3 * table.entries = mod-eq_of_lt (omega arith) in
      let room' = rw (a, b) at room in (len, mask, entries, dead, ground arith, placed)

  -- A change of the size of a well-formed table of 2^k slots to a size of at most 2^m slots
  -- returns, and the new table has at least so many slots, is well formed, and gives the same for
  -- every key. Hashes are below 2^w for a long of w bits, a key compares as equal to itself and to
  -- no other, k + 1 is at most m, k + 3 and m + 2 are at most w, and w is at least 5.
  pub hash_table_resize_lem :
      (table : Table K V) (min_size m : ℕ)
      → k + 3 ≤ w
      → 5 ≤ w
      → m + 2 ≤ w
      → k + 1 ≤ m
      → min_size ≤ 2 ^ m
      → ((key : K) → hash_of key < 2 ^ w)
      → ((key : K) → compare key key ≡ true)
      → ((key key' : K) → compare key key' ≡ true → key ≡ key')
      → IsValid w k hash_of compare table
      → (k' : ℕ) × (table' : Table K V) × (hash_table_resize w hash_of compare table min_size
          ≡ some table')
        × (min_size ≤ 2 ^ k')
        × IsValid w k' hash_of compare table'
        × ((key : K)
            → hash_table_lookup w hash_of compare table' key
              ≡ hash_table_lookup w hash_of compare table key)
  unfolding IsValid IsOrdered hash_table_resize
  hash_table_resize_lem table min_size m fits wide fits_m above least small same sound valid =
      let (len, mask, entries, dead, load, placed) = valid in
      let ordered : IsOrdered w k hash_of compare table = (len, mask, entries, dead, placed) in
      let up = pow-le-pow_right {n = 2} (omega arith) {i = k + 1} {j = m} above in
      let few = few_used table ordered in
      let (b, table', e, fits', reach, valid', to, back) =
        resize_table_lem w k hash_of compare small same sound table min_size m wide fits_m least
          (omega arith) ordered in
      (
        b,
        table',
        e,
        reach,
        valid',
        λ key.
            lookup-same w k b hash_of compare table table' key (omega arith) fits' small sound valid
              valid' (to key) (back key),
      )

module _ {K V : Type 0} (w k : ℕ) (hash_of : K → ℕ) (compare : K → K → Bool) (fits : k + 2 ≤ w)
    (hash_small : (key : K) → hash_of key < 2 ^ w)
    (compare_sound : (key key' : K) → compare key key' ≡ true → key ≡ key') (table : Table K V)
    (valid : IsValid w k hash_of compare table) where
  -- The slot that a lookup gives has no other key.
  slot_of_key :
      (key key' : K) (found : Bool) (i : ℕ)
      → lookup w hash_of compare table.slots table.size_mask key (compute_hash w hash_of key)
        ≡ some (found, i)
      → key' ≢ key
      → (h : ℕ) (v : V) → slot_at table.slots i ≢ used h key' v
  slot_of_key key key' found i e ne h v at_i = elim (Bool-cases found) [
    | inl t ↦
        let (v0, at_i') =
          lookup_found w k hash_of compare fits hash_small compare_sound table valid key i
            (e ∙ ap (λ b. some (b, i)) t) in
        let x = sym at_i ∙ at_i' in ne (cc x)
    | inr t ↦
        let (free, n) =
          lookup_new w k hash_of compare fits hash_small compare_sound table valid key i
            (e ∙ ap (λ b. some (b, i)) t) in
        elim free [ inl x ↦ cc (sym at_i ∙ x) | inr x ↦ cc (sym at_i ∙ x) ]
  ]

  -- What is found in a table that holds what the filled one holds.
  inserted :
      (key : K) (v : V) (found : Bool) (i k' : ℕ) (table' : Table K V)
      → k' + 2 ≤ w
      → i < 2 ^ k
      → lookup w hash_of compare table.slots table.size_mask key (compute_hash w hash_of key)
        ≡ some (found, i)
      → IsValid w k' hash_of compare table'
      → ((key' : K) (v' : V)
          → Held (set table.slots i (used (compute_hash w hash_of key) key v)) key' v'
          → Held table'.slots key' v')
      → ((key' : K) (v' : V)
          → Held table'.slots key' v'
          → Held (set table.slots i (used (compute_hash w hash_of key) key v)) key' v')
      → (hash_table_lookup w hash_of compare table' key ≡ some (some v))
        × ((key' : K)
            → key' ≢ key
            → hash_table_lookup w hash_of compare table' key'
              ≡ hash_table_lookup w hash_of compare table key')
  unfolding IsValid Held slot_at
  inserted key v found i k' table' fits' lt e valid' to back =
      let (len, mask, entries, dead, load, placed) = valid in
      let hash = compute_hash w hash_of key in
      let inside : i < length table.slots = rw len lt in
      let (j, h, at_j) =
        to key v (i, hash, get_or-set_self table.slots i (used hash key v) unused inside) in
      (
        lookup_held w k' hash_of compare fits' hash_small compare_sound table' valid' j h key v
            at_j,
        λ key' ne.
            lookup-same w k k' hash_of compare table table' key' fits fits' hash_small compare_sound
              valid valid'
              (λ v' held. to key' v' (
                Held-set table.slots i (used hash key v) key' (slot_of_key key key' found i e ne) v'
                  held))
              (λ v' held.
                Held-set_before table.slots i (used hash key v) key' inside
                  (λ h' v'' x. ne (sym (cc x))) v' (back key' v' held)),
      )

module _ {K V : Type 0} (w k : ℕ) (hash_of : K → ℕ) (compare : K → K → Bool) where
  -- An insertion into a well-formed table of 2^k slots returns: it gives the value that a lookup
  -- for the key gave before, the new table is well formed, a lookup for the key gives the new
  -- value there, and a lookup for any other key gives what it gave before, whether a deleted slot
  -- is taken, an entry is updated or the table is resized. Hashes are below 2^w for a long of w
  -- bits, a key compares as equal to itself and to no other, k + 3 is at most w, and w is at least
  -- 5.
  pub hash_table_insert_lem :
      (table : Table K V) (key : K) (v : V)
      → k + 3 ≤ w
      → 5 ≤ w
      → ((key' : K) → hash_of key' < 2 ^ w)
      → ((key' : K) → compare key' key' ≡ true)
      → ((key' key'' : K) → compare key' key'' ≡ true → key' ≡ key'')
      → IsValid w k hash_of compare table
      → (k' : ℕ) × (old_value : Option V) × (table' : Table K V) × (hash_table_insert w hash_of
            compare table key v
          ≡ some (old_value, table'))
        × IsValid w k' hash_of compare table'
        × (hash_table_lookup w hash_of compare table key ≡ some old_value)
        × (hash_table_lookup w hash_of compare table' key ≡ some (some v))
        × ((key' : K)
            → key' ≢ key
            → hash_table_lookup w hash_of compare table' key'
              ≡ hash_table_lookup w hash_of compare table key')
  hash_table_insert_lem table key v fits wide small same sound valid =
      let (found, i, e, lt) =
        lookup_some w k hash_of compare (omega arith) small sound table valid key in
      let hash = compute_hash w hash_of key in
      let filled = fill_slot w hash_of compare table i key hash v in
      let ordered =
        fill_slot-IsOrdered w k hash_of compare table key v found i (omega arith) same sound lt e
          valid in
      let slots' = fill_slot_slots w hash_of compare table key v i hash in
      let old = lookup_value w hash_of compare table key found i e in
      elim (Bool-cases (leb (2 * filled.size_mask % 2 ^ w) (3 * filled.entries % 2 ^ w))) [
        | inl t ↦
            let (b, table', f, fits', reach, valid', to, back) =
              resize_table_lem w k hash_of compare small same sound filled 0 (k + 1) wide
                (omega arith) (omega arith) (few_used w k hash_of compare filled ordered) ordered in
            let (got, others) =
              inserted w k hash_of compare (omega arith) small sound table valid key v found i b
                table' fits' lt e valid' (λ key' v' held. to key' v' (rw slots' held))
                (λ key' v' held. rw slots' at (back key' v' held)) in
            (
              b,
              slot_value (slot_at table.slots i),
              table',
              insert_resized w hash_of compare table key found i table' v e t f,
              valid',
              old,
              got,
              others,
            )
        | inr t ↦
            let valid' = not_full w k hash_of compare filled fits ordered t in
            let (got, others) =
              inserted w k hash_of compare (omega arith) small sound table valid key v found i k
                filled (omega arith) lt e valid' (λ key' v' held. rw slots' held)
                (λ key' v' held. rw slots' at held) in
            (
              k,
              slot_value (slot_at table.slots i),
              filled,
              insert_plain w hash_of compare table key found i v e t,
              valid',
              old,
              got,
              others,
            )
      ]
