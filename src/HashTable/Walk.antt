-- ===== src/HashTable/Walk.antt =====
-- server/hashtable.c: `hash_table_walk`, which visits the slots in use in their order.
use pand_ablocks_server.Prelude.{
  ℕ, zero, suc, ◌+◌, ◌-◌, ◌≤◌, ◌<◌, ◌≡◌, ◌⊎◌, inl, inr, refl, sym, ap, ◌∙◌, arith, false, List, [],
  ◌∷◌, Option, none, some, drop,
}
use pand_ablocks_server.HashTable.{
  Slot, unused, deleted, used, Table, slot_at, walk_slots, hash_table_walk,
}
use pand_ablocks_server.HashTable.Counts.{is_used}

split_at : (ix j : ℕ) → ix ≤ j → ix + (j - ix) ≡ j
split_at ix j le = omega arith

module _ {K V : Type 0} where
  -- How a walk ends: without a slot in use, or at the first one.
  unfoldable WalkResult : List (Slot K V) → ℕ → Option (K × V × ℕ) → Type 0
  WalkResult slots ix r =
      ((r ≡ none) × ((j : ℕ) → is_used (slot_at slots j) ≡ false))
      ⊎ ((n h : ℕ) × (key : K) × (v : V) × (r ≡ some (key, v, ix + n + 1))
          × (slot_at slots n ≡ used h key v)
          × ((j : ℕ) → j < n → is_used (slot_at slots j) ≡ false))

  later_free :
      (s : Slot K V) (slots : List (Slot K V))
      → is_used s ≡ false
      → ((j : ℕ) → is_used (slot_at slots j) ≡ false)
      → (j : ℕ) → is_used (slot_at (s ∷ slots) j) ≡ false
  unfolding slot_at
  later_free s slots free rest zero = free
  later_free s slots free rest (suc j) = rest j

  before_free :
      (s : Slot K V) (slots : List (Slot K V)) (n : ℕ)
      → is_used s ≡ false
      → ((j : ℕ) → j < n → is_used (slot_at slots j) ≡ false)
      → (j : ℕ) → j < suc n
      → is_used (slot_at (s ∷ slots) j) ≡ false
  unfolding slot_at
  before_free s slots n free rest zero lt = free
  before_free s slots n free rest (suc j) lt = rest j (omega arith)

  walk_on :
      (s : Slot K V) (slots : List (Slot K V)) (ix : ℕ) (r : Option (K × V × ℕ))
      → is_used s ≡ false
      → WalkResult slots (ix + 1) r
      → WalkResult (s ∷ slots) ix r
  unfolding WalkResult slot_at
  walk_on s slots ix r free (inl (e, n)) = inl (e, later_free s slots free n)
  walk_on s slots ix r free (inr (n, h, key, v, e, at_n, before)) =
      let same : ix + 1 + n + 1 ≡ ix + suc n + 1 = omega arith in
      inr (
        suc n,
        h,
        key,
        v,
        e ∙ ap (λ t. some (key, v, t)) same,
        at_n,
        before_free s slots n free before,
      )

  walk_slots_lem : (slots : List (Slot K V)) (ix : ℕ) → WalkResult slots ix (walk_slots slots ix)
  unfolding WalkResult slot_at walk_slots is_used
  walk_slots_lem [] ix = inl (refl, λ j. refl)
  walk_slots_lem (unused ∷ slots) ix =
      walk_on unused slots ix (walk_slots slots (ix + 1)) refl (walk_slots_lem slots (ix + 1))
  walk_slots_lem (deleted ∷ slots) ix =
      walk_on deleted slots ix (walk_slots slots (ix + 1)) refl (walk_slots_lem slots (ix + 1))
  walk_slots_lem (used h key v ∷ slots) ix =
      let e : ix + 1 ≡ ix + 0 + 1 = omega arith in
      inr (0, h, key, v, ap (λ t. some (key, v, t)) e, refl, λ j lt. absurd (omega arith))

  slot_at-drop :
      (n j : ℕ) (slots : List (Slot K V)) → slot_at (drop n slots) j ≡ slot_at slots (n + j)
  unfolding slot_at
  slot_at-drop zero j slots = let e : j ≡ 0 + j = omega arith in ap (λ t. slot_at slots t) e
  slot_at-drop (suc n) j [] = refl
  slot_at-drop (suc n) j (s ∷ slots) =
      let e : suc n + j ≡ suc (n + j) = omega arith in
      slot_at-drop n j slots ∙ ap (λ t. slot_at (s ∷ slots) t) (sym e)

  -- A walk from an index on gives the first slot in use from there, and the index after it; or it
  -- gives nothing, and no slot from there on is in use.
  pub hash_table_walk_lem :
      (table : Table K V) (ix : ℕ)
      → ((hash_table_walk table ix ≡ none)
          × ((j : ℕ) → ix ≤ j → is_used (slot_at table.slots j) ≡ false))
        ⊎ ((next h : ℕ) × (key : K) × (v : V) × (hash_table_walk table ix ≡ some (key, v, next + 1))
            × (ix ≤ next)
            × (slot_at table.slots next ≡ used h key v)
            × ((j : ℕ) → ix ≤ j → j < next → is_used (slot_at table.slots j) ≡ false))
  unfolding hash_table_walk WalkResult
  hash_table_walk_lem table ix =
      let at_j = λ (j : ℕ). slot_at-drop ix j table.slots in
      let later = λ (j : ℕ) (le : ix ≤ j). ap is_used (
        slot_at-drop ix (j - ix) table.slots
        ∙ ap (λ t. slot_at table.slots t) (split_at ix j le)) in
      elim (walk_slots_lem (drop ix table.slots) ix) [
        | inl (e, n) ↦ inl (e, λ j le. sym (later j le) ∙ n (j - ix))
        | inr (n, h, key, v, e, at_n, before) ↦ inr (
          ix + n,
          h,
          key,
          v,
          e,
          omega arith,
          sym (at_j n) ∙ at_n,
          λ j le lt. sym (later j le) ∙ before (j - ix) (omega arith),
        )
      ]
