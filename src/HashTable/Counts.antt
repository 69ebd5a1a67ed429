-- ===== src/HashTable/Counts.antt =====
-- server/hashtable.c: the numbers of slots that are in use and that are deleted.
use pand_ablocks_server.Prelude.{
  ℕ, zero, suc, ◌+◌, ◌<◌, ◌≤◌, ◌≡◌, refl, arith, Bool, true, false, List, [], ◌∷◌, length, set,
}
use pand_ablocks_server.HashTable.{Slot, unused, deleted, used, slot_at}

unfoldable pub bit : Bool → ℕ
bit false = 0
bit true = 1

bit_le : (b : Bool) → bit b ≤ 1
unfolding bit
bit_le false = omega arith
bit_le true = omega arith

module _ {K V : Type 0} where
  unfoldable pub is_taken : Slot K V → Bool
  is_taken unused = false
  is_taken deleted = true
  is_taken (used h k v) = true

  unfoldable pub is_deleted : Slot K V → Bool
  is_deleted unused = false
  is_deleted deleted = true
  is_deleted (used h k v) = false

  unfoldable pub is_used : Slot K V → Bool
  is_used unused = false
  is_used deleted = false
  is_used (used h k v) = true

  unfoldable pub count : (Slot K V → Bool) → List (Slot K V) → ℕ
  count test [] = 0
  count test (s ∷ slots) = bit (test s) + count test slots

  pub count-set :
      (test : Slot K V → Bool) (slots : List (Slot K V)) (i : ℕ) (s : Slot K V)
      → i < length slots
      → count test (set slots i s) + bit (test (slot_at slots i)) ≡ count test slots + bit (test s)
  unfolding count slot_at
  count-set test [] i s h = absurd (omega arith)
  count-set test (t ∷ slots) zero s h = omega arith
  count-set test (t ∷ slots) (suc i) s h =
      let rest = count-set test slots i s (omega arith) in omega arith

  pub count_split :
      (slots : List (Slot K V))
      → count is_taken slots ≡ count is_used slots + count is_deleted slots
  unfolding count is_taken is_used is_deleted bit
  count_split [] = refl
  count_split (unused ∷ slots) = let rest = count_split slots in omega arith
  count_split (deleted ∷ slots) = let rest = count_split slots in omega arith
  count_split (used h k v ∷ slots) = let rest = count_split slots in omega arith

  -- Fewer taken slots than slots leave an unused one.
  pub spare :
      (slots : List (Slot K V))
      → count is_taken slots < length slots
      → (j : ℕ) × (j < length slots) × (slot_at slots j ≡ unused)
  unfolding count is_taken bit slot_at
  spare [] h = absurd (omega arith)
  spare (unused ∷ slots) h = (0, omega arith, refl)
  spare (deleted ∷ slots) h = let (j, lt, e) = spare slots (omega arith) in (suc j, omega arith, e)
  spare (used h' k v ∷ slots) h =
      let (j, lt, e) = spare slots (omega arith) in (suc j, omega arith, e)

  pub count_le :
      (test : Slot K V → Bool) (slots : List (Slot K V)) → count test slots ≤ length slots
  unfolding count
  count_le test [] = omega arith
  count_le test (s ∷ slots) =
      let rest = count_le test slots in let one = bit_le (test s) in omega arith
