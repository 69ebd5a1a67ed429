-- ===== src/HashTable/Changes.antt =====
-- server/hashtable.c: an insertion into a slot and a deletion keep the table in order, and change what
-- a lookup finds for their key only.
use pand_ablocks_server.Prelude.{
  ℕ, zero, suc, ◌+◌, ◌-◌, ◌^◌, ◌≤◌, ◌<◌, ◌≡◌, ◌≢◌, inl, inr, refl, sym, ap, ◌∙◌, arith, Bool, true,
  List, none, some, length, set, Bool-cases, get_or-set_self, get_or-set_ne, length-set,
}
use native.Mathlib.Decide.{ℕ_discrete}
use native.Mathlib.Nat.{one-le-pow, pow-suc, mod-eq_of_lt}
use pand_ablocks_server.HashTable.{
  Slot, unused, deleted, used, Table, slot_at, compute_hash, lookup, fill_slot,
}
use pand_ablocks_server.HashTable.Searching.{Slot-cases, search, Matches}
use pand_ablocks_server.HashTable.Filling.{search_kept, search_filled, search_updated}
use pand_ablocks_server.HashTable.Counts.{count, count-set, is_taken, is_deleted, bit}
use pand_ablocks_server.HashTable.Invariant.{Placed, IsOrdered, IsValid, path, lookup-search}

pub pow_le : (k w : ℕ) → k + 2 ≤ w → 2 ^ k ≤ 2 ^ w
pow_le k zero h = absurd (omega arith)
pow_le zero (suc w) h = one-le-pow (suc w) 2 (omega arith)
pow_le (suc k) (suc w) h =
    let a = pow-suc 2 k in let b = pow-suc 2 w in let r = pow_le k w (omega arith) in omega arith

module _ {K V : Type 0} (w k : ℕ) (hash_of : K → ℕ) (compare : K → K → Bool) where
  -- The keys of the other slots keep their places.
  others_Placed :
      (slots : List (Slot K V)) (i : ℕ) (s : Slot K V)
      → length slots ≡ 2 ^ k
      → i < 2 ^ k
      → s ≢ unused
      → ((j h : ℕ) (key : K) (v : V)
          → i ≢ j
          → slot_at slots j ≡ used h key v
          → Matches w hash_of compare key h s
          → ⊥)
      → Placed w k hash_of compare slots
      → (j h : ℕ) (key : K) (v : V) → i ≢ j
      → slot_at (set slots i s) j ≡ used h key v
      → (h ≡ compute_hash w hash_of key)
        × (lookup w hash_of compare (set slots i s) (2 ^ k - 1) key h ≡ some (true, j))
  unfolding Placed slot_at
  others_Placed slots i s len small u m placed j h key v ne e =
      let old = sym (get_or-set_ne slots i j s unused ne) ∙ e in
      let (eh, el) = placed j h key v old in
      let kept =
        search_kept w hash_of compare slots key h i j s ne (rw len small) u (m j h key v ne old)
          (path w k h) none none (sym (lookup-search w k hash_of compare slots key h len) ∙ el) in
      (
        eh,
        lookup-search w k hash_of compare (set slots i s) key h (length-set slots i s ∙ len) ∙ kept,
      )

  -- The slot that a lookup gives takes the key.
  pub set_used-Placed :
      (slots : List (Slot K V)) (key : K) (v : V) (found : Bool) (i : ℕ)
      → length slots ≡ 2 ^ k
      → i < 2 ^ k
      → ((key' : K) → compare key' key' ≡ true)
      → ((key' key'' : K) → compare key' key'' ≡ true → key' ≡ key'')
      → lookup w hash_of compare slots (2 ^ k - 1) key (compute_hash w hash_of key)
        ≡ some (found, i)
      → Placed w k hash_of compare slots
      → Placed w k hash_of compare (set slots i (used (compute_hash w hash_of key) key v))
  unfolding Placed slot_at Matches
  set_used-Placed slots key v found i len small same sound e placed j h key' v' at_j =
      let hash = compute_hash w hash_of key in
      let s = used hash key v in
      let inside : i < length slots = rw len small in
      let e' = sym (lookup-search w k hash_of compare slots key hash len) ∙ e in
      let at_key : search w hash_of compare (set slots i s) key hash (path w k hash) none
          ≡ some (true, i) =
        elim (Bool-cases found) [
          | inl t ↦
              search_updated w hash_of compare slots key hash i v (path w k hash) none none inside
                (same key) (e' ∙ ap (λ b. some (b, i)) t)
          | inr t ↦
              search_filled w hash_of compare slots key hash i v (path w k hash) none inside
                (same key) (e' ∙ ap (λ b. some (b, i)) t)
        ] in
      elim (ℕ_discrete i j) [
        | yes ij ↦
            let at_i =
              sym (get_or-set_self slots i s unused inside)
              ∙ ap (λ t. slot_at (set slots i s) t) ij
              ∙ at_j in
            let eh : hash ≡ h = cc at_i in
            let ek : key ≡ key' = cc at_i in
            let there =
              lookup-search w k hash_of compare (set slots i s) key hash
                (length-set slots i s ∙ len)
              ∙ at_key
              ∙ ap (λ t. some (true, t)) ij in
            (
              sym eh ∙ ap (compute_hash w hash_of) ek,
              ap (λ t. lookup w hash_of compare (set slots i s) (2 ^ k - 1) key' t) (sym eh)
                  ∙ ap (λ t. lookup w hash_of compare (set slots i s) (2 ^ k - 1) t hash) (sym ek)
                  ∙ there,
            )
        | no ne ↦
            others_Placed slots i s len small (λ x. cc x)
              (λ j' h' k' v'' ne' at_j' m.
                let (eh, el) = placed j' h' k' v'' at_j' in
                let stored : key ≡ m.0 = cc m.2 in
                let ek : k' ≡ key = sound k' m.0 m.3 ∙ sym stored in
                let el' = sym (ap (λ t. lookup w hash_of compare slots (2 ^ k - 1) t h') ek) ∙ el in
                let eh' : h' ≡ hash = eh ∙ ap (compute_hash w hash_of) ek in
                let el'' =
                  sym (ap (λ t. lookup w hash_of compare slots (2 ^ k - 1) key t) eh') ∙ el' in
                let eq : some (found, i) ≡ some (true, j') = sym e ∙ el'' in ne' (cc eq))
              placed j h key' v' ne at_j
      ]

  pub set_deleted-Placed :
      (slots : List (Slot K V)) (i : ℕ)
      → length slots ≡ 2 ^ k
      → i < 2 ^ k
      → Placed w k hash_of compare slots
      → Placed w k hash_of compare (set slots i deleted)
  unfolding Placed slot_at Matches
  set_deleted-Placed slots i len small placed j h key v at_j = elim (ℕ_discrete i j) [
    | yes ij ↦
        let at_i =
          sym (get_or-set_self slots i deleted unused (rw len small))
          ∙ ap (λ t. slot_at (set slots i deleted) t) ij
          ∙ at_j in
        absurd (cc at_i)
    | no ne ↦
        others_Placed slots i deleted len small (λ x. cc x) (λ j' h' k' v' ne' at_j' m. cc m.2)
          placed j h key v ne at_j
  ]

module _ {K V : Type 0} (w : ℕ) (hash_of : K → ℕ) (compare : K → K → Bool) (table : Table K V)
    (key : K) (v : V) (i hash : ℕ) where
  pub fill_slot_slots :
      (fill_slot w hash_of compare table i key hash v).slots ≡ set table.slots i (used hash key v)
  unfolding fill_slot
  fill_slot_slots = elim (Slot-cases (slot_at table.slots i)) [
    | inl e ↦ rw (fill_slot, e) refl
    | inr (inl e) ↦ rw (fill_slot, e) refl
    | inr (inr (h, k', v', e)) ↦ rw (fill_slot, e) refl
  ]

  pub fill_slot_mask : (fill_slot w hash_of compare table i key hash v).size_mask ≡ table.size_mask
  unfolding fill_slot
  fill_slot_mask = elim (Slot-cases (slot_at table.slots i)) [
    | inl e ↦ rw (fill_slot, e) refl
    | inr (inl e) ↦ rw (fill_slot, e) refl
    | inr (inr (h, k', v', e)) ↦ rw (fill_slot, e) refl
  ]

  fill_slot_counts :
      i < length table.slots
      → table.entries + 1 < 2 ^ w
      → table.entries ≡ count is_taken table.slots
      → table.deleted_count ≡ count is_deleted table.slots
      → ((fill_slot w hash_of compare table i key hash v).entries
          ≡ count is_taken (set table.slots i (used hash key v)))
        × ((fill_slot w hash_of compare table i key hash v).deleted_count
            ≡ count is_deleted (set table.slots i (used hash key v)))
  unfolding fill_slot is_taken is_deleted bit
  fill_slot_counts inside small entries dead =
      let taken = count-set is_taken table.slots i (used hash key v) inside in
      let gone = count-set is_deleted table.slots i (used hash key v) inside in
      elim (Slot-cases (slot_at table.slots i)) [
        | inl e ↦
            let t = rw e at taken in
            let g = rw e at gone in
            let m = mod-eq_of_lt small in rw (fill_slot, e) (omega arith, omega arith)
        | inr (inl e) ↦
            let t = rw e at taken in
            let g = rw e at gone in rw (fill_slot, e) (omega arith, omega arith)
        | inr (inr (h, k', v', e)) ↦
            let t = rw e at taken in
            let g = rw e at gone in rw (fill_slot, e) (omega arith, omega arith)
      ]

module _ {K V : Type 0} (w k : ℕ) (hash_of : K → ℕ) (compare : K → K → Bool) where
  pub fill_slot-IsOrdered :
      (table : Table K V) (key : K) (v : V) (found : Bool) (i : ℕ)
      → k + 2 ≤ w
      → ((key' : K) → compare key' key' ≡ true)
      → ((key' key'' : K) → compare key' key'' ≡ true → key' ≡ key'')
      → i < 2 ^ k
      → lookup w hash_of compare table.slots table.size_mask key (compute_hash w hash_of key)
        ≡ some (found, i)
      → IsValid w k hash_of compare table
      → IsOrdered w k hash_of compare
          (fill_slot w hash_of compare table i key (compute_hash w hash_of key) v)
  unfolding IsValid IsOrdered
  fill_slot-IsOrdered table key v found i fits same sound small e
        (len, mask, entries, dead, load, placed) =
      let hash = compute_hash w hash_of key in
      let e_slots = fill_slot_slots w hash_of compare table key v i hash in
      let e_mask = fill_slot_mask w hash_of compare table key v i hash in
      let below = pow_le k w fits in
      let load' = rw mask at load in
      let (n, d) =
        fill_slot_counts w hash_of compare table key v i hash (rw len small) (omega arith) entries
          dead in
      rw (e_slots, e_mask)
        (
          length-set table.slots i (used hash key v) ∙ len,
          mask,
          n,
          d,
          set_used-Placed w k hash_of compare table.slots key v found i len small same sound
              (rw mask at e) placed,
        )
