-- ===== src/Table/Commands.antt =====
-- server/table.c behind the command of server/config_server.c that writes a table.
use pand_ablocks_server.Prelude.{
  ℕ, ◌+◌, ◌%◌, ◌≤◌, ◌<◌, ◌≡◌, ◌⊎◌, refl, sym, ap, ◌∙◌, arith, Bool, true, false, List, [], ◌++◌,
  Option, none, some, ◌==◌, ==_iff, if◌then◌else◌, length, take, drop, u32_mod, Bool-cases, inl,
  inr, length-append, length-take_le, length-drop, take-append_more,
}
use native.Mathlib.Nat.{add-mod, zero-mod}
use pand_ablocks_server.Config.Changes.{get_change_index}
use pand_ablocks_server.Config.PutTable.{
  CommandError, unexpected_eof, served, granted, PutTable, or_error, to_error, is_success,
  process_put_table_command,
}
use pand_ablocks_server.Config.Lines.{
  table_lines, lines_after, has_end, write_all, lines_error, table_format, written,
  process_put_table_command_lem, refused_put_table,
}
use pand_ablocks_server.Table.{
  TableError, TableBlock, partial_row, being_written, table_data, write_memory, publish,
  complete_table_write, start_table_write,
}
use pand_ablocks_server.Table.Writes.{lines_words, with_words, writer, write_all_cases}

module _ (ulong_mod : ℕ) (decode : List ℕ) (max_length row_words : ℕ) where
  -- The memory has the size of the table, and the data are whole rows in it.
  unfoldable pub IsTable : TableBlock → Type 0
  IsTable block =
      (length block.memory ≡ max_length)
      × (block.data_length ≤ max_length)
      × (block.data_length % row_words ≡ 0)

  abbrev pub put_table : PutTable TableBlock TableError
  put_table name append binary block =
      start_table_write ulong_mod decode max_length row_words append binary block

  -- What the new data are added to.
  unfoldable pub kept_data : Bool → TableBlock → List ℕ
  kept_data append block = if append then table_data block else []

  -- The lines are ended, each is words, and these fit and are whole rows.
  unfoldable pub CanWrite : Bool → Bool → List (List ℕ) → TableBlock → List ℕ → Type 0
  CanWrite append binary lines block words =
      (has_end lines ≡ true)
      × (lines_words ulong_mod decode max_length row_words binary (table_lines lines) ≡ some words)
      × (length (kept_data append block) + length words ≤ max_length)
      × (length words % row_words ≡ 0)

  -- A block once the lock is released, with what it answered.
  unfoldable pub PutResult :
      Bool
      → Bool
      → List (List ℕ)
      → TableBlock
      → Option (CommandError TableError) × TableBlock
      → Type 0
  PutResult append binary lines block (error, after) =
      IsTable after
      × (after.write_lock ≡ false)
      × (((words : List ℕ) × CanWrite append binary lines block words
            × (error ≡ none)
            × (table_data after ≡ kept_data append block ++ words)
            × (after.update_index ≡ get_change_index block.change_index)
            × (after.change_index ≡ get_change_index block.change_index))
          ⊎ ((e : CommandError TableError) × (error ≡ some e)
              × ((words : List ℕ) → CanWrite append binary lines block words → ⊥)
              × (table_data after ≡ table_data block)
              × (after.update_index ≡ block.update_index)
              × (after.change_index ≡ block.change_index)))

  -- The block once the write has started.
  abbrev started : Bool → Bool → TableBlock → TableBlock
  started append binary block = record block {
    write_lock = true;
    write_offset = if append then block.data_length else 0;
    write_binary = binary;
    write_data = [];
  }

  table_data-publish :
      (block : TableBlock)
      → block.write_offset ≤ length block.memory
      → table_data (publish ulong_mod decode max_length row_words block)
        ≡ take block.write_offset block.memory ++ block.write_data
  unfolding table_data publish write_memory
  table_data-publish block h =
      let l = length-take_le block.write_offset block.memory h in
      let m =
        take-append_more (take block.write_offset block.memory) block.write_data
          (drop (block.write_offset + length block.write_data) block.memory) in
      rw l at m

  length-publish :
      (block : TableBlock)
      → block.write_offset + length block.write_data ≤ length block.memory
      → length (publish ulong_mod decode max_length row_words block).memory ≡ length block.memory
  unfolding publish write_memory
  length-publish block h =
      let past = drop (block.write_offset + length block.write_data) block.memory in
      let l = length-take_le block.write_offset block.memory (omega arith) in
      let d = length-drop (block.write_offset + length block.write_data) block.memory in
      let a = length-append block.write_data past in
      let b = length-append (take block.write_offset block.memory) (block.write_data ++ past) in
      omega arith

  module _ (append binary : Bool) (lines : List (List ℕ)) (block : TableBlock) where
    -- The write ends without changing the live data.
    kept_result :
        (words : List ℕ) (e : CommandError TableError)
        → IsTable block
        → ((more : List ℕ) → CanWrite append binary lines block more → ⊥)
        → PutResult append binary lines block
            (some e, record (with_words (started append binary block) words) { write_lock = false })
    unfolding PutResult with_words IsTable table_data
    kept_result words e h fails = (h, refl, inr (e, refl, fails, refl, refl, refl))

    length-kept_data :
        IsTable block → length (kept_data append block) ≡ (if append then block.data_length else 0)
    unfolding kept_data table_data IsTable
    length-kept_data (m, l, r) =
        elim append
          as (λ a.
            length (if a then take block.data_length block.memory else [])
            ≡ (if a then block.data_length else 0)) [
              | true ↦ length-take_le block.data_length block.memory (omega arith)
              | false ↦ refl
            ]

    offset_rows : IsTable block → (if append then block.data_length else 0) % row_words ≡ 0
    unfolding IsTable
    offset_rows h = elim append as (λ a. (if a then block.data_length else 0) % row_words ≡ 0) [
      | true ↦ h.2
      | false ↦ zero-mod row_words
    ]

    take_offset :
        take (if append then block.data_length else 0) block.memory ≡ kept_data append block
    unfolding kept_data table_data
    take_offset =
        elim append
          as (λ a.
            take (if a then block.data_length else 0) block.memory
            ≡ (if a then take block.data_length block.memory else [])) [
              | true ↦ refl
              | false ↦ refl
            ]

    -- A write that ends well: the words are in the live data.
    published_result :
        (words : List ℕ)
        → IsTable block
        → CanWrite append binary lines block words
        → PutResult append binary lines block (
          none,
          record (publish ulong_mod decode max_length row_words
              (with_words (started append binary block) words)) { write_lock = false },
        )
    unfolding PutResult with_words IsTable CanWrite publish table_data
    published_result words h (ended, converts, fits, rows) =
        let offset : ℕ = if append then block.data_length else 0 in
        let k : length (kept_data append block) ≡ offset = length-kept_data h in
        let next = with_words (started append binary block) words in
        let l = length-publish next (omega arith) in
        (
          (
            omega arith,
            omega arith,
            rw (add-mod (length words) offset row_words, rows, offset_rows h) (zero-mod row_words),
          ),
          refl,
          inl (
            words,
            (ended, converts, fits, rows),
            refl,
            table_data-publish next (omega arith) ∙ ap (λ x. x ++ words) take_offset,
            refl,
            refl,
          ),
        )

    -- The words are those of the lines.
    cannot_write :
        (words : List ℕ)
        → lines_words ulong_mod decode max_length row_words binary (table_lines lines) ≡ some words
        → (length words % row_words == 0) ≡ false
        → (more : List ℕ) → CanWrite append binary lines block more
        → ⊥
    unfolding CanWrite
    cannot_write words g n more (ended, converts, fits, rows) =
        let same : some words ≡ some more = sym g ∙ converts in
        let eq : words ≡ more = cc same in
        let n' : (length more % row_words == 0) ≡ false = rw eq at n in absurd (ground arith)

    -- What closing adds to what the lines leave.
    abbrev closed : Option TableError × TableBlock → Option (CommandError TableError) × TableBlock
    closed (error, after) =
        let put_error = lines_error error (has_end lines) in
        let close =
          complete_table_write ulong_mod decode max_length row_words (is_success put_error) after in
        (or_error put_error (to_error close.0), close.1)

    written-closed :
        (r : Option TableError × TableBlock)
        → write_all
            (writer ulong_mod decode max_length row_words)
            (table_lines lines)
            (started append binary block)
          ≡ r
        → written (writer ulong_mod decode max_length row_words) lines (started append binary block)
          ≡ closed r
    unfolding written
    written-closed r f = ap closed f

    written_result :
        IsTable block
        → max_length < u32_mod
        → PutResult append binary lines block (
            written
              (writer ulong_mod decode max_length row_words)
              lines
              (started append binary block))
    unfolding complete_table_write lines_error or_error to_error is_success with_words CanWrite
        IsTable
    written_result h small =
        let k = length-kept_data h in
        elim (write_all_cases ulong_mod decode max_length row_words (started append binary block)
          (table_lines lines) (ground arith) small) [
            | inl (e, words, f, much) ↦ rw (written-closed _ f) (
                kept_result words (served e) h
                  (λ more c. let m = much more c.1 in absurd (omega arith)))
            | inr (words, f, g, fits) ↦ elim (Bool-cases (has_end lines)) [
              | inr t ↦
                  rw (written-closed _ f, t)
                    (kept_result words unexpected_eof h (λ more c. absurd (cc (t, c.0))))
              | inl t ↦ elim (Bool-cases (length words % row_words == 0)) [
                | inr n ↦
                    rw (written-closed _ f, t, n)
                      (kept_result words (served partial_row) h (cannot_write words g n))
                | inl n ↦
                    rw (written-closed _ f, t, n)
                      (published_result words h
                        (t, g, omega arith, (==_iff (length words % row_words) 0).0 n))
              ]
            ]
          ]

  -- A command that writes a table, in a good format, to a block that no other command is writing,
  -- with any lines: if they are ended by an empty one, each is numbers or base 64 as the format
  -- says, and the words of all, after the data that are kept for an addition, fit in the table and
  -- are whole rows, the answer is no error, the live data are the kept ones and then these words,
  -- and the block has a fresh change index; otherwise the answer is an error, and neither the live
  -- data nor the change index is changed. In both cases the lock is released and the block is well
  -- formed again.
  pub put_table_command-PutResult :
      (append binary : Bool) (lines : List (List ℕ)) (name : List ℕ) (block : TableBlock)
      → IsTable block
      → block.write_lock ≡ false
      → max_length < u32_mod
      → let r = process_put_table_command put_table lines name (table_format append binary) block in
        PutResult append binary lines block (r.0, r.1.0)
  unfolding start_table_write
  put_table_command-PutResult append binary lines name block h free small =
      let unlocked : put_table name append binary block
          ≡ (granted (writer ulong_mod decode max_length row_words), started append binary block) =
        rw free refl in
      let e =
        process_put_table_command_lem put_table (writer ulong_mod decode max_length row_words) lines
          name append binary block (started append binary block) unlocked in
      rw e (written_result append binary lines block h small)

  -- While another command is writing the block, a command that writes it, in a good format,
  -- answers that it is being written and leaves everything as it is, its lines being read all the
  -- same.
  pub put_table_command-being_written :
      (append binary : Bool) (lines : List (List ℕ)) (name : List ℕ) (block : TableBlock)
      → block.write_lock ≡ true
      → process_put_table_command put_table lines name (table_format append binary) block
        ≡ (some (served being_written), (block, lines_after lines))
  unfolding start_table_write
  put_table_command-being_written append binary lines name block held =
      refused_put_table put_table being_written lines name append binary block block (rw held refl)
