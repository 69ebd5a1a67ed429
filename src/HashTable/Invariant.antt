-- ===== src/HashTable/Invariant.antt =====
-- server/hashtable.c: the table with every key where a lookup finds it.
use pand_ablocks_server.Prelude.{
  ℕ, ◌+◌, ◌-◌, ◌*◌, ◌%◌, ◌^◌, ◌≤◌, ◌<◌, ◌≡◌, ◌≢◌, ◌⊎◌, inl, inr, sym, ap, ◌∙◌, arith, Bool, true,
  false, List, none, some, ◌||◌, ◌==◌, length, Bool-cases,
}
use native.Mathlib.Nat.{one-le-pow}
use pand_ablocks_server.HashTable.{
  Slot, unused, deleted, used, Table, slot_at, slot_value, compute_hash, lookup, hash_table_lookup,
}
use pand_ablocks_server.HashTable.Probing.{probes, probes-Meets, probes-lt}
use pand_ablocks_server.HashTable.Searching.{
  search, lookup_from-search, Matches, search_ends, search-Matches, search_free, search_within,
}
use pand_ablocks_server.HashTable.Counts.{count, is_taken, is_deleted, spare}

-- The slots that a lookup visits.
unfoldable pub path : ℕ → ℕ → ℕ → List ℕ
path w k hash = probes w (2 ^ k - 1) (w + 2 ^ k) (hash % 2 ^ w) hash

module _ {K : Type 0} (w : ℕ) (hash_of : K → ℕ) where
  pub compute_hash_lt : (key : K) → 2 ≤ w → hash_of key < 2 ^ w → compute_hash w hash_of key < 2 ^ w
  unfolding compute_hash
  compute_hash_lt key h small =
      let pos : 0 < 2 ^ w = one-le-pow w 2 (omega arith) in
      let hash = hash_of key in
      elim (Bool-cases (hash == 0 || hash == 2 ^ w - 1)) [
        | inl t ↦ rw t (omega arith)
        | inr t ↦ rw t small
      ]

module _ {K V : Type 0} (w k : ℕ) (hash_of : K → ℕ) (compare : K → K → Bool) where
  -- Each slot in use has the hash of its key, and a lookup for the key ends at it.
  unfoldable pub Placed : List (Slot K V) → Type 0
  Placed slots =
      (j h : ℕ) (key : K) (v : V)
      → slot_at slots j ≡ used h key v
      → (h ≡ compute_hash w hash_of key)
        × (lookup w hash_of compare slots (2 ^ k - 1) key h ≡ some (true, j))

  -- A table of `2 ^ k` slots, however full.
  unfoldable pub IsOrdered : Table K V → Type 0
  IsOrdered table =
      (length table.slots ≡ 2 ^ k)
      × (table.size_mask ≡ 2 ^ k - 1)
      × (table.entries ≡ count is_taken table.slots)
      × (table.deleted_count ≡ count is_deleted table.slots)
      × Placed table.slots

  -- A table of `2 ^ k` slots that is not over-full.
  unfoldable pub IsValid : Table K V → Type 0
  IsValid table =
      (length table.slots ≡ 2 ^ k)
      × (table.size_mask ≡ 2 ^ k - 1)
      × (table.entries ≡ count is_taken table.slots)
      × (table.deleted_count ≡ count is_deleted table.slots)
      × (3 * table.entries < 2 * table.size_mask)
      × Placed table.slots

  pub lookup-search :
      (slots : List (Slot K V)) (key : K) (hash : ℕ)
      → length slots ≡ 2 ^ k
      → lookup w hash_of compare slots (2 ^ k - 1) key hash
        ≡ search w hash_of compare slots key hash (path w k hash) none
  unfolding lookup path
  lookup-search slots key hash h = rw h (
      lookup_from-search w hash_of compare slots (2 ^ k - 1) key hash (w + 2 ^ k) (hash % 2 ^ w)
        hash none)

  -- A lookup ends at a slot of the table: at the key, or at a slot that is free.
  pub lookup_ends :
      (slots : List (Slot K V)) (key : K) (hash : ℕ)
      → k ≤ w
      → hash < 2 ^ w
      → length slots ≡ 2 ^ k
      → count is_taken slots < 2 ^ k
      → (found : Bool) × (i : ℕ) × (lookup w hash_of compare slots (2 ^ k - 1) key hash
          ≡ some (found, i))
        × (i < 2 ^ k)
  unfolding path
  lookup_ends slots key hash fits small len room =
      let (j, lt, free) = spare slots (rw len room) in
      let met = probes-Meets w k fits w (hash % 2 ^ w) hash j small (omega arith) in
      let ((found, i), e) =
        search_ends w hash_of compare slots key hash j (path w k hash) none met free in
      let inside =
        search_within w hash_of compare (2 ^ k) slots key hash i found (path w k hash) none
          (probes-lt w k fits (w + 2 ^ k) (hash % 2 ^ w) hash) (λ x n. absurd (cc n)) e in
      (found, i, lookup-search slots key hash len ∙ e, inside)

-- The keys that a table finds. Keys that compare as equal are equal.
module _ {K V : Type 0} (w k : ℕ) (hash_of : K → ℕ) (compare : K → K → Bool) (fits : k + 2 ≤ w)
    (hash_small : (key : K) → hash_of key < 2 ^ w)
    (compare_sound : (key key' : K) → compare key key' ≡ true → key ≡ key') (table : Table K V)
    (valid : IsValid w k hash_of compare table) where
  room : count is_taken table.slots < 2 ^ k
  unfolding IsValid
  room =
      let (len, mask, entries, n, load, placed) = valid in
      let load' = rw (entries, mask) at load in omega arith

  pub lookup_some :
      (key : K)
      → (found : Bool) × (i : ℕ) × (lookup w hash_of compare table.slots table.size_mask key
            (compute_hash w hash_of key)
          ≡ some (found, i))
        × (i < 2 ^ k)
  unfolding IsValid
  lookup_some key =
      let (len, mask, entries, n, load, placed) = valid in
      let (found, i, e, lt) =
        lookup_ends w k hash_of compare table.slots key (compute_hash w hash_of key) (omega arith)
          (compute_hash_lt w hash_of key (omega arith) (hash_small key)) len room in
      (found, i, rw mask e, lt)

  placed_at :
      (j h : ℕ) (key : K) (v : V)
      → slot_at table.slots j ≡ used h key v
      → lookup w hash_of compare table.slots table.size_mask key (compute_hash w hash_of key)
        ≡ some (true, j)
  unfolding IsValid Placed
  placed_at j h key v e =
      let (len, mask, entries, n, load, placed) = valid in
      let (eh, el) = placed j h key v e in rw mask (rw eh at el)

  -- A key in a slot is found with its value.
  pub lookup_held :
      (j h : ℕ) (key : K) (v : V)
      → slot_at table.slots j ≡ used h key v
      → hash_table_lookup w hash_of compare table key ≡ some (some v)
  unfolding hash_table_lookup slot_value
  lookup_held j h key v e =
      let el = placed_at j h key v e in rw (hash_table_lookup, el) (ap (λ s. some (slot_value s)) e)

  -- What is found, and where.
  pub lookup_found :
      (key : K) (i : ℕ)
      → lookup w hash_of compare table.slots table.size_mask key (compute_hash w hash_of key)
        ≡ some (true, i)
      → (v : V) × (slot_at table.slots i ≡ used (compute_hash w hash_of key) key v)
  unfolding IsValid Matches
  lookup_found key i e =
      let (len, mask, entries, n, load, placed) = valid in
      let hash = compute_hash w hash_of key in
      let (key', v, es, c) =
        search-Matches w hash_of compare table.slots key hash i (path w k hash) none
          (sym (lookup-search w k hash_of compare table.slots key hash len) ∙ rw mask at e) in
      let same = compare_sound key key' c in (v, es ∙ ap (λ t. used hash t v) (sym same))

  -- Where a new key goes no key stands.
  pub lookup_new :
      (key : K) (i : ℕ)
      → lookup w hash_of compare table.slots table.size_mask key (compute_hash w hash_of key)
        ≡ some (false, i)
      → ((slot_at table.slots i ≡ unused) ⊎ (slot_at table.slots i ≡ deleted))
        × ((j h : ℕ) (v : V) → slot_at table.slots j ≢ used h key v)
  unfolding IsValid
  lookup_new key i e =
      let (len, mask, entries, n, load, placed) = valid in
      let hash = compute_hash w hash_of key in
      let found =
        search_free w hash_of compare table.slots key hash i (path w k hash) none
          (sym (lookup-search w k hash_of compare table.slots key hash len) ∙ rw mask at e) in
      (
        elim found [ inl x ↦ absurd (cc x) | inr free ↦ free ],
        λ j h v es. cc (e, placed_at j h key v es),
      )

  -- A key in no slot is not found.
  pub lookup_absent :
      (key : K)
      → ((j h : ℕ) (v : V) → slot_at table.slots j ≢ used h key v)
      → hash_table_lookup w hash_of compare table key ≡ some none
  unfolding hash_table_lookup slot_value
  lookup_absent key none_holds =
      let (found, i, e, lt) = lookup_some key in
      elim (Bool-cases found) [
        | inl t ↦
            let (v, es) = lookup_found key i (e ∙ ap (λ b. some (b, i)) t) in
            absurd (none_holds i (compute_hash w hash_of key) v es)
        | inr t ↦
            let (free, n) = lookup_new key i (e ∙ ap (λ b. some (b, i)) t) in
            rw (hash_table_lookup, e)
              (elim free [
                | inl es ↦ ap (λ s. some (slot_value s)) es
                | inr es ↦ ap (λ s. some (slot_value s)) es
              ])
      ]

  -- Either of the two.
  pub lookup_cases :
      (key : K)
      → ((j h : ℕ) × (v : V) × (slot_at table.slots j ≡ used h key v)
          × (hash_table_lookup w hash_of compare table key ≡ some (some v)))
        ⊎ (((j h : ℕ) (v : V) → slot_at table.slots j ≢ used h key v)
            × (hash_table_lookup w hash_of compare table key ≡ some none))
  lookup_cases key =
      let (found, i, e, lt) = lookup_some key in
      elim (Bool-cases found) [
        | inl t ↦
            let (v, es) = lookup_found key i (e ∙ ap (λ b. some (b, i)) t) in
            inl (
              i,
              compute_hash w hash_of key,
              v,
              es,
              lookup_held i (compute_hash w hash_of key) key v es,
            )
        | inr t ↦
            let (free, n) = lookup_new key i (e ∙ ap (λ b. some (b, i)) t) in
            inr (n, lookup_absent key n)
      ]
