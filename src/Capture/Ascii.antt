-- ===== src/Capture/Ascii.antt =====
-- server/capture.c: converted samples printed as numbers. Memory that is read as another type than
-- it was written as, or past its end, is `none`; a 64-bit number is two words.
use pand_ablocks_server.Prelude.{
  ℕ, zero, suc, ◌+◌, ◌*◌, List, [], ◌∷◌, ◌++◌, Option, none, some, u32_mod,
}
use pand_ablocks_server.Capture.{
  DataCapture, DataProcess, process_raw, process_unscaled, process_scaled, Item, word, real,
}

-- What is printed, with its format.
pub data Printed (D : Type 0) : Type 0 where
  unsigned32 signed32 signed64 : ℕ → Printed D
  double : D → Printed D

-- What a part of a row prints, and the memory after what it has read.
abbrev pub Formatted : Type 0 → Type 0
Formatted D = Option (List (Printed D) × List (Item D))

module _ {D : Type 0} where
  unfoldable pub add_printed : Printed D → Formatted D → Formatted D
  add_printed p none = none
  add_printed p (some (ps, items)) = some (p ∷ ps, items)

  -- The parts of a row after one another.
  unfoldable pub then_format : Formatted D → (List (Item D) → Formatted D) → Formatted D
  then_format none next = none
  then_format (some (ps, items)) next = elim (next items) [
    | none ↦ none
    | some (qs, rest) ↦ some (ps ++ qs, rest)
  ]

  unfoldable pub format_words : (ℕ → Printed D) → ℕ → List (Item D) → Formatted D
  format_words print zero items = some ([], items)
  format_words print (suc n) [] = none
  format_words print (suc n) (real d ∷ items) = none
  format_words print (suc n) (word w ∷ items) = add_printed (print w) (format_words print n items)

  unfoldable pub format_longs : ℕ → List (Item D) → Formatted D
  format_longs zero items = some ([], items)
  format_longs (suc n) (word low ∷ word high ∷ items) =
      add_printed (signed64 (low + high * u32_mod)) (format_longs n items)
  format_longs (suc n) items = none

  unfoldable pub format_doubles : ℕ → List (Item D) → Formatted D
  format_doubles zero items = some ([], items)
  format_doubles (suc n) [] = none
  format_doubles (suc n) (word w ∷ items) = none
  format_doubles (suc n) (real d ∷ items) = add_printed (double d) (format_doubles n items)

  unfoldable pub send_raw_as_ascii : DataCapture D → List (Item D) → Formatted D
  send_raw_as_ascii capture data0 =
      then_format (format_words unsigned32 (capture.unscaled.index + capture.unscaled.count) data0)
        (λ data1.
          then_format (format_words signed32 capture.scaled32.count data1)
            (λ data2. format_longs (capture.scaled64.count + capture.averaged.count) data2))

  unfoldable pub send_unscaled_as_ascii : DataCapture D → List (Item D) → Formatted D
  send_unscaled_as_ascii capture data0 =
      then_format (format_words unsigned32 capture.unscaled.count data0) (λ data1.
        then_format (format_words signed32 capture.scaled32.count data1) (λ data2.
          then_format (format_longs capture.scaled64.count data2)
            (λ data3. format_words signed32 capture.averaged.count data3)))

  unfoldable pub send_scaled_as_ascii : DataCapture D → List (Item D) → Formatted D
  send_scaled_as_ascii capture data0 =
      then_format (format_words unsigned32 capture.unscaled.count data0) (λ data1.
        format_doubles (capture.scaled32.count + capture.scaled64.count + capture.averaged.count)
          data1)

  unfoldable pub send_row : DataCapture D → DataProcess → List (Item D) → Formatted D
  send_row capture process_raw items = send_raw_as_ascii capture items
  send_row capture process_unscaled items = send_unscaled_as_ascii capture items
  send_row capture process_scaled items = send_scaled_as_ascii capture items

  -- The rows, and the memory after them.
  unfoldable pub send_binary_as_ascii :
      DataCapture D
      → DataProcess
      → ℕ
      → List (Item D)
      → Option (List (List (Printed D)) × List (Item D))
  send_binary_as_ascii capture process zero items = some ([], items)
  send_binary_as_ascii capture process (suc n) items = elim (send_row capture process items) [
    | none ↦ none
    | some (row, rest) ↦ elim (send_binary_as_ascii capture process n rest) [
      | none ↦ none
      | some (rows, after) ↦ some (row ∷ rows, after)
    ]
  ]
