-- ===== src/HashTable/Resizing.antt =====
-- server/hashtable.c: `resize_table`, its new size and the table that it makes.
use pand_ablocks_server.Prelude.{
  ℕ, zero, suc, ◌+◌, ◌-◌, ◌*◌, ◌%◌, ◌^◌, ◌≤◌, ◌<◌, ◌≡◌, ◌⊎◌, inl, inr, refl, sym, ap, ◌∙◌, arith,
  Bool, true, List, some, ltb, replicate, Bool-cases, length-replicate, get_or-replicate,
}
use native.Mathlib.Nat.{pow-suc, mod-eq_of_lt, pow-le-pow_right, one-le-pow}
use pand_ablocks_server.HashTable.{
  Slot, unused, Table, slot_at, lookup, double_size, new_size_for, move_slots, resize_table,
}
use pand_ablocks_server.HashTable.Counts.{count, is_taken, is_deleted, is_used, bit, count_split}
use pand_ablocks_server.HashTable.Invariant.{Placed, IsOrdered, IsValid}
use pand_ablocks_server.HashTable.Moving.{Held, AreDistinct, IsReady, Moved, move_slots_lem}

-- From `2 ^ a` on the first power of two that is large enough, if one of at most `2 ^ m` is.
double_size_lem :
    (w fuel a m min_size : ℕ)
    → m ≤ a + fuel
    → m < w
    → min_size ≤ 2 ^ m
    → (b : ℕ) × (double_size w fuel min_size (2 ^ a) ≡ 2 ^ b)
      × (a ≤ b)
      × ((b ≤ a) ⊎ (b ≤ m))
      × (min_size ≤ 2 ^ b)
unfolding double_size
double_size_lem w zero a m min_size enough fits small =
    let up = pow-le-pow_right {n = 2} (omega arith) {i = m} {j = a} (omega arith) in
    (a, refl, omega arith, inl (omega arith), omega arith)
double_size_lem w (suc fuel) a m min_size enough fits small =
    elim (Bool-cases (ltb (2 ^ a) min_size)) [
      | inl t ↦
          let more : a < m = elim (Bool-cases (ltb a m)) [
            | inl x ↦ ground arith
            | inr x ↦
                let le : m ≤ a = ground arith in
                let up = pow-le-pow_right {n = 2} (omega arith) le in
                let lt : 2 ^ a < min_size = ground arith in absurd (omega arith)
          ] in
          let up = pow-le-pow_right {n = 2} (omega arith) {i = suc a} {j = m} (omega arith) in
          let top = pow-le-pow_right {n = 2} (omega arith) {i = suc m} {j = w} (omega arith) in
          let pa = pow-suc 2 a in
          let pm = pow-suc 2 m in
          let pos = one-le-pow m 2 (omega arith) in
          let twice : 2 ^ a * 2 % 2 ^ w ≡ 2 ^ suc a = mod-eq_of_lt (omega arith) ∙ omega arith in
          let (b, e, le, upper, reach) =
            double_size_lem w fuel (suc a) m min_size (omega arith) fits small in
          (
            b,
            rw (double_size, t, twice) e,
            omega arith,
            inr (elim upper [ inl x ↦ omega arith | inr x ↦ x ]),
            reach,
          )
      | inr t ↦ (a, rw (double_size, t) refl, omega arith, inl (omega arith), ground arith)
    ]

new_size_for_lem :
    (w n m min_size : ℕ)
    → m < w
    → 2 * n ≤ 2 ^ m
    → min_size ≤ 2 ^ m
    → (b : ℕ) × (new_size_for w n min_size ≡ 2 ^ b)
      × (3 ≤ b)
      × ((b ≤ 3) ⊎ (b ≤ m))
      × (min_size ≤ 2 ^ b)
      × (2 * n ≤ 2 ^ b)
unfolding new_size_for
new_size_for_lem w n m min_size fits few small =
    let top = pow-le-pow_right {n = 2} (omega arith) {i = suc m} {j = w} (omega arith) in
    let p = pow-suc 2 m in
    let pos = one-le-pow m 2 (omega arith) in
    let plain : 2 * n % 2 ^ w ≡ 2 * n = mod-eq_of_lt (omega arith) in
    elim (Bool-cases (ltb min_size (2 * n))) [
      | inl t ↦
          let (b, e, le, upper, reach) = double_size_lem w w 3 m (2 * n) (omega arith) fits few in
          (b, rw (new_size_for, plain, t) e, le, upper, ground arith, reach)
      | inr t ↦
          let (b, e, le, upper, reach) =
            double_size_lem w w 3 m min_size (omega arith) fits small in
          (b, rw (new_size_for, plain, t) e, le, upper, reach, ground arith)
    ]

count_replicate :
    (K V : Type 0) (n : ℕ)
    → (count {K = K} {V = V} is_taken (replicate n unused) ≡ 0)
      × (count {K = K} {V = V} is_deleted (replicate n unused) ≡ 0)
unfolding count is_taken is_deleted bit
count_replicate K V zero = (refl, refl)
count_replicate K V (suc n) = let (a, b) = count_replicate K V n in (omega arith, omega arith)

module _ {K V : Type 0} (w k : ℕ) (hash_of : K → ℕ) (compare : K → K → Bool) where
  pub distinct_keys :
      (slots : List (Slot K V)) → Placed w k hash_of compare slots → AreDistinct slots
  unfolding Placed AreDistinct
  distinct_keys slots placed i j h h' key v v' a b =
      let (eh, e) = placed i h key v a in
      let (eh', e') = placed j h' key v' b in
      let e'' = ap (λ t. lookup w hash_of compare slots (2 ^ k - 1) key t) (eh' ∙ sym eh) in
      let same : some (true, i) ≡ some (true, j) = sym e ∙ sym e'' ∙ e' in cc same

  -- The old slots, and new ones of any size that is large enough.
  IsReady-replicate :
      (slots : List (Slot K V)) (b : ℕ)
      → Placed w k hash_of compare slots
      → count is_used slots < 2 ^ b
      → IsReady w b hash_of compare slots (replicate (2 ^ b) unused)
  unfolding IsReady Placed Held slot_at
  IsReady-replicate slots b placed room =
      let (taken, gone) = count_replicate K V (2 ^ b) in
      (
        (λ j h key v e. (placed j h key v e).0),
        distinct_keys slots placed,
        (λ key v v' held held'.
            let (j, h, e) = held' in cc (sym (get_or-replicate (2 ^ b) j unused) ∙ e)),
        length-replicate (2 ^ b) unused,
        (λ j h key v e. absurd (cc (sym (get_or-replicate (2 ^ b) j unused) ∙ e))),
        omega arith,
        gone,
      )

abbrev resized : {K V : Type 0} → ℕ → ℕ → List (Slot K V) → Table K V
resized entries size slots = record {
  entries = entries;
  deleted_count = 0;
  size_mask = size - 1;
  slots = slots;
}

resize_step :
    {K V : Type 0} (w : ℕ) (hash_of : K → ℕ) (compare : K → K → Bool) (table : Table K V)
    (min_size size : ℕ) (moved : List (Slot K V))
    → new_size_for w (table.entries - table.deleted_count) min_size ≡ size
    → move_slots w hash_of compare (size - 1) table.slots (replicate size unused) ≡ some moved
    → resize_table w hash_of compare table min_size
      ≡ some (resized (table.entries - table.deleted_count) size moved)
unfolding resize_table
resize_step w hash_of compare table min_size size moved e f =
    rw (resize_table, e, f)
      (ap (λ n. some (resized (table.entries - table.deleted_count) n moved)) e)

-- The new table has the same keys and values, no deleted slots, and room.
module _ {K V : Type 0} (w k : ℕ) (hash_of : K → ℕ) (compare : K → K → Bool)
    (hash_small : (key : K) → hash_of key < 2 ^ w) (same : (key : K) → compare key key ≡ true)
    (compare_sound : (key key' : K) → compare key key' ≡ true → key ≡ key') where
  pub resize_table_lem :
      (table : Table K V) (min_size m : ℕ)
      → 5 ≤ w
      → m + 2 ≤ w
      → min_size ≤ 2 ^ m
      → 2 * count is_used table.slots ≤ 2 ^ m
      → IsOrdered w k hash_of compare table
      → (b : ℕ) × (table' : Table K V) × (resize_table w hash_of compare table min_size
          ≡ some table')
        × (b + 2 ≤ w)
        × (min_size ≤ 2 ^ b)
        × IsValid w b hash_of compare table'
        × ((key : K) (v : V) → Held table.slots key v → Held table'.slots key v)
        × ((key : K) (v : V) → Held table'.slots key v → Held table.slots key v)
  unfolding IsOrdered IsValid Moved Held slot_at
  resize_table_lem table min_size m wide fits small few (len, mask, entries, dead, placed) =
      let split = count_split table.slots in
      let n : table.entries - table.deleted_count ≡ count is_used table.slots = omega arith in
      let (b, e, least, upper, reach, half) =
        new_size_for_lem w (table.entries - table.deleted_count) m min_size (omega arith)
          (omega arith) small in
      let eight = pow-le-pow_right {n = 2} (omega arith) {i = 3} {j = b} least in
      let room : count is_used table.slots < 2 ^ b = omega arith in
      let fits' : b + 2 ≤ w = elim upper [ inl x ↦ omega arith | inr x ↦ omega arith ] in
      let (moved, f, (len', placed', taken', dead', back, keep, new)) =
        move_slots_lem w b hash_of compare fits' hash_small same compare_sound table.slots
          (replicate (2 ^ b) unused)
          (IsReady-replicate w k hash_of compare table.slots b placed room) in
      let (taken0, dead0) = count_replicate K V (2 ^ b) in
      (
        b,
        resized (table.entries - table.deleted_count) (2 ^ b) moved,
        resize_step w hash_of compare table min_size (2 ^ b) moved e f,
        fits',
        reach,
        (len', refl {a = 2 ^ b - 1}, omega arith, sym dead', omega arith, placed'),
        new,
        (λ key v held. elim (back key v held) [
          | inl (j, h, x) ↦ absurd (cc (sym (get_or-replicate {A = Slot K V} (2 ^ b) j unused) ∙ x))
          | inr x ↦ x
        ]),
      )
