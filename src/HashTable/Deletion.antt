-- ===== src/HashTable/Deletion.antt =====
-- server/hashtable.c: `hash_table_delete` on the table as a map.
use pand_ablocks_server.Prelude.{
  ℕ, ◌+◌, ◌%◌, ◌^◌, ◌≤◌, ◌<◌, ◌≡◌, ◌≢◌, inl, inr, refl, sym, ap, ◌∙◌, arith, Bool, true, false,
  Option, none, some, length, set, get_or, Bool-cases, get_or-set_self, get_or-set_ne, length-set,
}
use native.Mathlib.Decide.{ℕ_discrete}
use pand_ablocks_server.HashTable.{
  unused, deleted, used, Table, slot_at, slot_value, compute_hash, lookup, hash_table_lookup,
  hash_table_delete,
}
use pand_ablocks_server.HashTable.Counts.{count-set, count_split, is_deleted, is_taken, bit}
use pand_ablocks_server.HashTable.Invariant.{
  Placed, IsValid, lookup_some, lookup_held, lookup_absent, lookup_found, lookup_new,
}
use native.Mathlib.Nat.{mod-eq_of_lt}
use pand_ablocks_server.HashTable.Moving.{AreDistinct}
use pand_ablocks_server.HashTable.Contents.{Held-set, Held-set_before, lookup-same}
use pand_ablocks_server.HashTable.Resizing.{distinct_keys}
use pand_ablocks_server.HashTable.Changes.{pow_le, set_deleted-Placed}

module _ {K V : Type 0} (w k : ℕ) (hash_of : K → ℕ) (compare : K → K → Bool) where
  unfoldable erased : Table K V → ℕ → Table K V
  erased table i = record table {
    slots = set table.slots i deleted;
    deleted_count = (table.deleted_count + 1) % 2 ^ w;
  }

  delete_found :
      (table : Table K V) (key : K) (i h : ℕ) (v : V)
      → lookup w hash_of compare table.slots table.size_mask key (compute_hash w hash_of key)
        ≡ some (true, i)
      → slot_at table.slots i ≡ used h key v
      → hash_table_delete w hash_of compare table key ≡ some (some v, erased table i)
  unfolding hash_table_delete erased slot_value
  delete_found table key i h v e at_i =
      rw (hash_table_delete, e) (ap (λ s. some (slot_value s, erased table i)) at_i)

  delete_missing :
      (table : Table K V) (key : K) (i : ℕ)
      → lookup w hash_of compare table.slots table.size_mask key (compute_hash w hash_of key)
        ≡ some (false, i)
      → slot_value (slot_at table.slots i) ≡ none
      → hash_table_delete w hash_of compare table key ≡ some (none, table)
  unfolding hash_table_delete
  delete_missing table key i e empty = rw (hash_table_delete, e) (ap (λ v. some (v, table)) empty)

  deleted_lem :
      (table : Table K V) (i : ℕ) (key : K) (h : ℕ) (v : V)
      → k + 2 ≤ w
      → i < 2 ^ k
      → slot_at table.slots i ≡ used h key v
      → IsValid w k hash_of compare table
      → IsValid w k hash_of compare (erased table i)
  unfolding IsValid is_taken is_deleted bit erased
  deleted_lem table i key h v fits small at_i (len, mask, entries, dead, load, placed) =
      let taken = count-set is_taken table.slots i deleted (rw len small) in
      let gone = count-set is_deleted table.slots i deleted (rw len small) in
      let taken' = rw at_i at taken in
      let gone' = rw at_i at gone in
      let split = count_split table.slots in
      let load' = rw mask at load in
      let below = pow_le k w fits in
      let plain : (table.deleted_count + 1) % 2 ^ w ≡ table.deleted_count + 1 =
        mod-eq_of_lt (omega arith) in
      (
        length-set table.slots i deleted ∙ len,
        mask,
        omega arith,
        omega arith,
        load,
        set_deleted-Placed w k hash_of compare table.slots i len small placed,
      )

  erased_absent :
      (table : Table K V) (i h : ℕ) (key : K) (v : V)
      → length table.slots ≡ 2 ^ k
      → i < 2 ^ k
      → slot_at table.slots i ≡ used h key v
      → Placed w k hash_of compare table.slots
      → (j h' : ℕ) (v' : V) → slot_at (set table.slots i deleted) j ≢ used h' key v'
  unfolding slot_at AreDistinct
  erased_absent table i h key v len small at_i placed j h' v' at_j = elim (ℕ_discrete i j) [
    | yes ij ↦
        let gone = get_or-set_self table.slots i deleted unused (rw len small) in
        cc (sym gone ∙ ap (λ t. get_or (set table.slots i deleted) t unused) ij ∙ at_j)
    | no ne ↦
        let at_j' = sym (get_or-set_ne table.slots i j deleted unused ne) ∙ at_j in
        ne (distinct_keys w k hash_of compare table.slots placed i j h h' key v v' at_i at_j')
  ]

  -- A deletion from a well-formed table of 2^k slots returns: it gives the value that a lookup for
  -- the key gave before, the new table is well formed, a lookup for the key gives nothing there,
  -- and a lookup for any other key gives what it gave before. Hashes are below 2^w for a long of w
  -- bits, keys that compare as equal are equal, and k + 2 is at most w.
  pub hash_table_delete_lem :
      (table : Table K V) (key : K)
      → k + 2 ≤ w
      → ((key' : K) → hash_of key' < 2 ^ w)
      → ((key' key'' : K) → compare key' key'' ≡ true → key' ≡ key'')
      → IsValid w k hash_of compare table
      → (old_value : Option V) × (table' : Table K V) × (hash_table_delete w hash_of compare table
            key
          ≡ some (old_value, table'))
        × IsValid w k hash_of compare table'
        × (hash_table_lookup w hash_of compare table key ≡ some old_value)
        × (hash_table_lookup w hash_of compare table' key ≡ some none)
        × ((key' : K)
            → key' ≢ key
            → hash_table_lookup w hash_of compare table' key'
              ≡ hash_table_lookup w hash_of compare table key')
  unfolding IsValid slot_value erased
  hash_table_delete_lem table key fits small sound valid =
      let (len, mask, entries, dead, load, placed) = valid in
      let (found, i, e, lt) = lookup_some w k hash_of compare fits small sound table valid key in
      elim (Bool-cases found) [
        | inl t ↦
            let e' = e ∙ ap (λ b. some (b, i)) t in
            let (v, at_i) =
              lookup_found w k hash_of compare fits small sound table valid key i e' in
            let hash = compute_hash w hash_of key in
            let valid' = deleted_lem table i key hash v fits lt at_i valid in
            (
              some v,
              erased table i,
              delete_found table key i hash v e' at_i,
              valid',
              lookup_held w k hash_of compare fits small sound table valid i hash key v at_i,
              lookup_absent w k hash_of compare fits small sound (erased table i) valid' key
                  (λ j h v' at_j. erased_absent table i hash key v len lt at_i placed j h v' at_j),
              λ key' ne.
                  lookup-same w k k hash_of compare table (erased table i) key' fits fits small
                    sound valid valid'
                    (Held-set table.slots i deleted key' (λ h v' x. ne (sym (cc (sym at_i ∙ x)))))
                    (Held-set_before table.slots i deleted key' (rw len lt) (λ h v' x. cc x)),
            )
        | inr t ↦
            let e' = e ∙ ap (λ b. some (b, i)) t in
            let (free, n) = lookup_new w k hash_of compare fits small sound table valid key i e' in
            let missing = lookup_absent w k hash_of compare fits small sound table valid key n in
            (
              none,
              table,
              delete_missing table key i e'
                  (elim free [ inl x ↦ ap slot_value x | inr x ↦ ap slot_value x ]),
              valid,
              missing,
              missing,
              λ key' ne. refl,
            )
      ]
