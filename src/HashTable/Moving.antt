-- ===== src/HashTable/Moving.antt =====
-- server/hashtable.c: `resize_table`, which moves all keys into new slots.
use pand_ablocks_server.Prelude.{
  ℕ, zero, suc, ◌+◌, ◌-◌, ◌^◌, ◌≤◌, ◌<◌, ◌≡◌, ◌≢◌, ◌⊎◌, inl, inr, refl, sym, ap, ◌∙◌, arith, Bool,
  true, false, List, [], ◌∷◌, none, some, length, set, Bool-cases, get_or-set_self, get_or-set_ne,
  length-set,
}
use native.Mathlib.Decide.{ℕ_discrete}
use pand_ablocks_server.HashTable.{
  Slot, unused, deleted, used, slot_at, compute_hash, lookup, move_slot, move_slots,
}
use pand_ablocks_server.HashTable.Searching.{search-Matches, search_free, Matches}
use pand_ablocks_server.HashTable.Counts.{count, count-set, is_taken, is_deleted, is_used, bit}
use pand_ablocks_server.HashTable.Invariant.{
  Placed, path, lookup-search, lookup_ends, compute_hash_lt,
}
use pand_ablocks_server.HashTable.Changes.{set_used-Placed}

suc_inj : (i j : ℕ) → suc i ≡ suc j → i ≡ j
suc_inj i j h = omega arith

module _ {K V : Type 0} where
  unfoldable pub Held : List (Slot K V) → K → V → Type 0
  Held slots key v = (j h : ℕ) × (slot_at slots j ≡ used h key v)

  -- No key stands in two slots.
  unfoldable pub AreDistinct : List (Slot K V) → Type 0
  AreDistinct slots =
      (i j h h' : ℕ) (key : K) (v v' : V)
      → slot_at slots i ≡ used h key v
      → slot_at slots j ≡ used h' key v'
      → i ≡ j

  Held-later :
      (s : Slot K V) (slots : List (Slot K V)) (key : K) (v : V)
      → Held slots key v
      → Held (s ∷ slots) key v
  unfolding Held slot_at
  Held-later s slots key v (j, h, e) = (suc j, h, e)

  Held-cases :
      (s : Slot K V) (slots : List (Slot K V)) (key : K) (v : V)
      → Held (s ∷ slots) key v
      → ((h : ℕ) × (s ≡ used h key v)) ⊎ Held slots key v
  unfolding Held slot_at
  Held-cases s slots key v (zero, h, e) = inl (h, e)
  Held-cases s slots key v (suc j, h, e) = inr (j, h, e)

module _ {K V : Type 0} (w k : ℕ) (hash_of : K → ℕ) (compare : K → K → Bool) where
  -- The slots have taken all keys of the old ones.
  unfoldable pub Moved : List (Slot K V) → List (Slot K V) → List (Slot K V) → Type 0
  Moved old slots slots' =
      (length slots' ≡ 2 ^ k)
      × Placed w k hash_of compare slots'
      × (count is_taken slots' ≡ count is_taken slots + count is_used old)
      × (count is_deleted slots' ≡ 0)
      × ((key : K) (v : V) → Held slots' key v → Held slots key v ⊎ Held old key v)
      × ((key : K) (v : V) → Held slots key v → Held slots' key v)
      × ((key : K) (v : V) → Held old key v → Held slots' key v)

  -- The keys of the old slots are new to the slots, which have room for them.
  unfoldable pub IsReady : List (Slot K V) → List (Slot K V) → Type 0
  IsReady old slots =
      ((j h : ℕ) (key : K) (v : V) → slot_at old j ≡ used h key v → h ≡ compute_hash w hash_of key)
      × AreDistinct old
      × ((key : K) (v v' : V) → Held old key v → Held slots key v' → ⊥)
      × (length slots ≡ 2 ^ k)
      × Placed w k hash_of compare slots
      × (count is_taken slots + count is_used old < 2 ^ k)
      × (count is_deleted slots ≡ 0)

  IsReady-skip :
      (s : Slot K V) (old slots : List (Slot K V))
      → is_used s ≡ false
      → IsReady (s ∷ old) slots
      → IsReady old slots
  unfolding IsReady AreDistinct slot_at count bit
  IsReady-skip s old slots free (hashed, distinct, apart, len, placed, room, dead) =
      let room' = rw free at room in
      (
        (λ j h key v e. hashed (suc j) h key v e),
        (λ i j h h' key v v' a b. suc_inj i j (distinct (suc i) (suc j) h h' key v v' a b)),
        (λ key v v' held. apart key v v' (Held-later s old key v held)),
        len,
        placed,
        omega arith,
        dead,
      )

  IsReady-then :
      (h : ℕ) (key : K) (v : V) (old slots first : List (Slot K V))
      → IsReady (used h key v ∷ old) slots
      → Moved (used h key v ∷ []) slots first
      → IsReady old first
  unfolding IsReady AreDistinct slot_at count bit is_used Moved Held
  IsReady-then h key v old slots first (hashed, distinct, apart, len, placed, room, dead)
        (len1, placed1, taken1, dead1, back1, keep1, new1) =
      (
        (λ j h' key' v' e. hashed (suc j) h' key' v' e),
        (λ i j h' h'' key' v' v'' a b.
            suc_inj i j (distinct (suc i) (suc j) h' h'' key' v' v'' a b)),
        (λ key' v' v'' held held'. elim (back1 key' v'' held') [
          | inl x ↦ apart key' v' v'' (Held-later (used h key v) old key' v' held) x
          | inr x ↦ elim (Held-cases (used h key v) [] key' v'' x) [
            | inl (h'', e) ↦
                let (j, h', at_j) = held in
                let clash : zero ≡ suc j = distinct zero (suc j) h'' h' key' v'' v' e at_j in
                absurd (omega arith)
            | inr (z, h'', e) ↦ cc e
          ]
        ]),
        len1,
        placed1,
        omega arith,
        dead1,
      )

  Moved-none :
      (slots : List (Slot K V))
      → IsReady [] slots
      → (move_slots w hash_of compare (2 ^ k - 1) [] slots ≡ some slots) × Moved [] slots slots
  unfolding move_slots IsReady Moved count Held slot_at
  Moved-none slots (hashed, distinct, apart, len, placed, room, dead) = (
    refl,
    (
      len,
      placed,
      omega arith,
      dead,
      (λ key v held. inl held),
      (λ key v held. held),
      (λ key v held. cc held.2),
    ),
  )

  Moved-skip :
      (s : Slot K V) (old slots slots' : List (Slot K V))
      → ((h : ℕ) (key : K) (v : V) → s ≢ used h key v)
      → is_used s ≡ false
      → Moved old slots slots'
      → Moved (s ∷ old) slots slots'
  unfolding Moved count bit
  Moved-skip s old slots slots' none_held free (len, placed, taken, dead, back, keep, new) = (
    len,
    placed,
    rw free (omega arith),
    dead,
    (λ key v held. elim (back key v held) [
      | inl x ↦ inl x
      | inr x ↦ inr (Held-later s old key v x)
    ]),
    keep,
    (λ key v held. elim (Held-cases s old key v held) [
      | inl (h, e) ↦ absurd (none_held h key v e)
      | inr x ↦ new key v x
    ]),
  )

  Moved-then :
      (s : Slot K V) (old slots first slots' : List (Slot K V))
      → Moved (s ∷ []) slots first
      → Moved old first slots'
      → Moved (s ∷ old) slots slots'
  unfolding Moved Held slot_at count
  Moved-then s old slots first slots' (len1, placed1, taken1, dead1, back1, keep1, new1)
        (len, placed, taken, dead, back, keep, new) =
      (
        len,
        placed,
        omega arith,
        dead,
        (λ key v held. elim (back key v held) [
          | inl x ↦ elim (back1 key v x) [
            | inl y ↦ inl y
            | inr y ↦ elim (Held-cases s [] key v y) [
              | inl (h, e) ↦ inr (0, h, e)
              | inr (z, h, e) ↦ absurd (cc e)
            ]
          ]
          | inr x ↦ inr (Held-later s old key v x)
        ]),
        (λ key v held. keep key v (keep1 key v held)),
        (λ key v held. elim (Held-cases s old key v held) [
          | inl (h, e) ↦ keep key v (new1 key v (0, h, e))
          | inr x ↦ new key v x
        ]),
      )

  move_slots_step :
      (mask : ℕ) (s : Slot K V) (old slots first : List (Slot K V))
      → move_slot w hash_of compare mask s slots ≡ some first
      → move_slots w hash_of compare mask (s ∷ old) slots
        ≡ move_slots w hash_of compare mask old first
  unfolding move_slots
  move_slots_step mask s old slots first e = rw (move_slots, e) refl

module _ {K V : Type 0} (w k : ℕ) (hash_of : K → ℕ) (compare : K → K → Bool) (fits : k + 2 ≤ w)
    (hash_small : (key : K) → hash_of key < 2 ^ w) (same : (key : K) → compare key key ≡ true)
    (compare_sound : (key key' : K) → compare key key' ≡ true → key ≡ key') where
  -- A key that no slot has goes to an unused slot.
  lookup_fresh :
      (slots : List (Slot K V)) (key : K)
      → length slots ≡ 2 ^ k
      → count is_taken slots < 2 ^ k
      → count is_deleted slots ≡ 0
      → ((v : V) → Held slots key v → ⊥)
      → (i : ℕ) × (i < 2 ^ k)
        × (lookup w hash_of compare slots (2 ^ k - 1) key (compute_hash w hash_of key)
            ≡ some (false, i))
        × (slot_at slots i ≡ unused)
  unfolding Matches Held is_deleted bit
  lookup_fresh slots key len room dead fresh =
      let hash = compute_hash w hash_of key in
      let (found, i, e, lt) =
        lookup_ends w k hash_of compare slots key hash (omega arith)
          (compute_hash_lt w hash_of key (omega arith) (hash_small key)) len room in
      let e' = sym (lookup-search w k hash_of compare slots key hash len) ∙ e in
      elim (Bool-cases found) [
        | inl t ↦
            let (key', v, es, c) =
              search-Matches w hash_of compare slots key hash i (path w k hash) none
                (e' ∙ ap (λ b. some (b, i)) t) in
            absurd
              (fresh v (i, hash, es ∙ ap (λ x. used hash x v) (sym (compare_sound key key' c))))
        | inr t ↦ (
          i,
          lt,
          e ∙ ap (λ b. some (b, i)) t,
          elim (search_free w hash_of compare slots key hash i (path w k hash) none
              (e' ∙ ap (λ b. some (b, i)) t)) [
                | inl x ↦ absurd (cc x)
                | inr (inl es) ↦ es
                | inr (inr es) ↦
                    let n = count-set is_deleted slots i unused (rw len lt) in
                    let n' = rw es at n in absurd (omega arith)
              ],
        )
      ]

  -- The move of one key.
  move_used :
      (slots : List (Slot K V)) (h : ℕ) (key : K) (v : V) (old : List (Slot K V))
      → IsReady w k hash_of compare (used h key v ∷ old) slots
      → (slots' : List (Slot K V)) × (move_slot w hash_of compare (2 ^ k - 1) (used h key v) slots
          ≡ some slots')
        × Moved w k hash_of compare (used h key v ∷ []) slots slots'
  unfolding IsReady Moved Held slot_at move_slot count is_taken is_deleted is_used bit
  move_used slots h key v old (hashed, distinct, apart, len, placed, room, dead) =
      let hash = compute_hash w hash_of key in
      let s = used h key v in
      let eh : h ≡ hash = hashed 0 h key v refl in
      let (i, lt, e0, free) =
        lookup_fresh slots key len (omega arith) dead
          (λ v' held. apart key v v' (0, h, refl) held) in
      let e = ap (λ t. lookup w hash_of compare slots (2 ^ k - 1) key t) eh ∙ e0 in
      let inside : i < length slots = omega arith in
      let taken = count-set is_taken slots i s inside in
      let gone = count-set is_deleted slots i s inside in
      let taken' = rw free at taken in
      let gone' = rw free at gone in
      let at_i = get_or-set_self slots i s unused inside in
      (
        set slots i s,
        rw (move_slot, e) refl,
        (
          length-set slots i s ∙ len,
          rw eh (
              set_used-Placed w k hash_of compare slots key v false i len lt same compare_sound e0
                placed),
          omega arith,
          omega arith,
          (λ key' v' held.
              let (j, h', at_j) = held in
              elim (ℕ_discrete i j) [
                | yes ij ↦ inr (0, h', sym at_i ∙ ap (λ t. slot_at (set slots i s) t) ij ∙ at_j)
                | no ne ↦ inl (j, h', sym (get_or-set_ne slots i j s unused ne) ∙ at_j)
              ]),
          (λ key' v' held.
              let (j, h', at_j) = held in
              let ne : i ≢ j = λ ij. cc (sym free ∙ ap (λ t. slot_at slots t) ij ∙ at_j) in
              (j, h', get_or-set_ne slots i j s unused ne ∙ at_j)),
          (λ key' v' held. elim (Held-cases s [] key' v' held) [
            | inl (h', es) ↦ (i, h', at_i ∙ es)
            | inr (j, h', es) ↦ absurd (cc es)
          ]),
        ),
      )

  -- The move of all keys.
  pub move_slots_lem :
      (old slots : List (Slot K V))
      → IsReady w k hash_of compare old slots
      → (slots' : List (Slot K V)) × (move_slots w hash_of compare (2 ^ k - 1) old slots
          ≡ some slots')
        × Moved w k hash_of compare old slots slots'
  unfolding move_slot is_used
  move_slots_lem [] slots ready =
      let (e, moved) = Moved-none w k hash_of compare slots ready in (slots, e, moved)
  move_slots_lem (unused ∷ old) slots ready =
      let (all, e, moved) =
        move_slots_lem old slots (IsReady-skip w k hash_of compare unused old slots refl ready) in
      (
        all,
        move_slots_step w k hash_of compare (2 ^ k - 1) unused old slots slots refl ∙ e,
        Moved-skip w k hash_of compare unused old slots all (λ h key v x. cc x) refl moved,
      )
  move_slots_lem (deleted ∷ old) slots ready =
      let (all, e, moved) =
        move_slots_lem old slots (IsReady-skip w k hash_of compare deleted old slots refl ready) in
      (
        all,
        move_slots_step w k hash_of compare (2 ^ k - 1) deleted old slots slots refl ∙ e,
        Moved-skip w k hash_of compare deleted old slots all (λ h key v x. cc x) refl moved,
      )
  move_slots_lem (used h key v ∷ old) slots ready =
      let (first, e, moved) = move_used slots h key v old ready in
      let (all, e', moved') =
        move_slots_lem old first
          (IsReady-then w k hash_of compare h key v old slots first ready moved) in
      (
        all,
        move_slots_step w k hash_of compare (2 ^ k - 1) (used h key v) old slots first e ∙ e',
        Moved-then w k hash_of compare (used h key v) old slots first all moved moved',
      )
