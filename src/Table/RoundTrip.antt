-- ===== src/Table/RoundTrip.antt =====
-- server/table.c: what is read of a table writes the same table again.
use pand_ablocks_server.Prelude.{
  ℕ, ◌≤◌, ◌<◌, ◌≡◌, refl, sym, ◌∙◌, inl, inr, arith, Bool, true, false, List, [], ◌∷◌, ◌++◌, none,
  some, if◌then◌else◌, length, All, u32_mod, length-take_le,
}
use pand_ablocks_server.Base64.{initialise_base64}
use pand_ablocks_server.Config.PutTable.{process_put_table_command}
use pand_ablocks_server.Config.Lines.{
  table_lines, lines_after, has_end, table_format, process_put_table_command-lines_after,
}
use pand_ablocks_server.Table.{TableBlock, table_data}
use pand_ablocks_server.Table.Writes.{lines_words}
use pand_ablocks_server.Table.Commands.{
  IsTable, kept_data, CanWrite, PutResult, put_table, put_table_command-PutResult,
}
use pand_ablocks_server.Table.Reading.{
  write_ascii, write_base_64, bytes_of_words, length-bytes_of_words, bytes_of_words-IsByte,
  base64_lines-lines_words, base64_lines_nonempty, print_uint_nonempty, print_uint-lines_words,
}

-- Lines that are not empty, and an empty one.
ended_lines :
    (lines rest : List (List ℕ))
    → All (λ l. 0 < length l) lines
    → (table_lines (lines ++ ([] ∷ rest)) ≡ lines)
      × (has_end (lines ++ ([] ∷ rest)) ≡ true)
      × (lines_after (lines ++ ([] ∷ rest)) ≡ rest)
unfolding table_lines has_end lines_after
ended_lines [] rest h = (refl, refl, refl)
ended_lines ([] ∷ lines) rest (h, hs) = absurd (omega arith)
ended_lines ((c ∷ cs) ∷ lines) rest (h, hs) =
    let (a, b, d) = ended_lines lines rest hs in (rw a refl, b, d)

module _ (ulong_mod max_length row_words : ℕ) where
  -- What a table is read as, in the formats that `<` and `<B` write.
  unfoldable pub readback_lines : Bool → TableBlock → List (List ℕ)
  readback_lines binary block = if binary then write_base_64 block else write_ascii block

  readback_lines-lines_words :
      (binary : Bool) (block : TableBlock)
      → All (λ w. w < u32_mod) (table_data block)
      → u32_mod ≤ ulong_mod
      → 0 < max_length
      → length (table_data block) ≤ max_length
      → (lines_words ulong_mod initialise_base64 max_length row_words binary
            (readback_lines binary block)
          ≡ some (table_data block))
        × All (λ l. 0 < length l) (readback_lines binary block)
  unfolding readback_lines write_base_64 write_ascii
  readback_lines-lines_words true block h wide room fits =
      let n = length-bytes_of_words (table_data block) in
      (
        base64_lines-lines_words ulong_mod max_length row_words
            (length (bytes_of_words (table_data block))) (table_data block) h fits (omega arith),
        base64_lines_nonempty (length (bytes_of_words (table_data block)))
            (bytes_of_words (table_data block)) (bytes_of_words-IsByte (table_data block)),
      )
  readback_lines-lines_words false block h wide room fits = (
    print_uint-lines_words ulong_mod max_length row_words (table_data block) h wide room,
    print_uint_nonempty ulong_mod max_length row_words (table_data block) h wide,
  )

  -- The lines that reading a table gives, as numbers or in base 64, followed by an empty line and
  -- sent as a new write in the same format to a table of the same shape that no other command is
  -- writing, are accepted and make its live data those that were read; what follows the empty line
  -- is left for the next command. The words have 32 bits, and so has unsigned long at least.
  pub put_table_command-readback_lines :
      (binary : Bool) (stored target : TableBlock) (name : List ℕ) (rest : List (List ℕ))
      → IsTable ulong_mod initialise_base64 max_length row_words stored
      → IsTable ulong_mod initialise_base64 max_length row_words target
      → All (λ w. w < u32_mod) (table_data stored)
      → target.write_lock ≡ false
      → u32_mod ≤ ulong_mod
      → 0 < max_length
      → max_length < u32_mod
      → let r =
          process_put_table_command
            (put_table ulong_mod initialise_base64 max_length row_words)
            (readback_lines binary stored ++ ([] ∷ rest))
            name
            (table_format false binary)
            target in
        (r.0 ≡ none) × (table_data r.1.0 ≡ table_data stored) × (r.1.1 ≡ rest)
  unfolding IsTable table_data PutResult CanWrite kept_data
  put_table_command-readback_lines binary stored target name rest (m, l, q) t h free wide room
        small =
      let len : length (table_data stored) ≡ stored.data_length =
        length-take_le stored.data_length stored.memory (omega arith) in
      let (words, full) = readback_lines-lines_words binary stored h wide room (omega arith) in
      let (a, b, d) = ended_lines (readback_lines binary stored) rest full in
      let lines = readback_lines binary stored ++ ([] ∷ rest) in
      let after =
        process_put_table_command-lines_after
          (put_table ulong_mod initialise_base64 max_length row_words) lines name
          (table_format false binary) target in
      elim (put_table_command-PutResult ulong_mod initialise_base64 max_length row_words false
        binary lines name target t free small).2 [
          | inl (ws, (ended, converts, fits, rows), ok_error, same, u, c) ↦
              let eq : some ws ≡ some (table_data stored) = sym converts ∙ rw a words in
              (ok_error, same ∙ cc eq, after ∙ d)
          | inr (e, error, cannot, same, u, c) ↦
              absurd (cannot (table_data stored) (b, rw a words, omega arith, rw len q))
        ]
