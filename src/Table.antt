-- ===== src/Table.antt =====
-- server/table.c: a table of words with its write path, for one block of the table. Table/Fields has
-- the bit fields of its rows, Table/Commands the table behind the command that writes it.
pub mod Writes
pub mod Commands
pub mod Reading
pub mod RoundTrip
mod Tests
use pand_ablocks_server.Prelude.{
  ℕ, zero, suc, ◌+◌, ◌*◌, ◌%◌, Bool, true, false, not, List, [], ◌∷◌, ◌++◌, Option, none, some,
  ◌==◌, ltb, if◌then◌else◌, length, take, drop, sub32,
}
use pand_ablocks_server.Parse.{ParseError, Outcome, ok, fail}
use pand_ablocks_server.Parse.Numbers.{parse_uint32}
use pand_ablocks_server.Base64.{
  Base64Status, base64_ok, base64_malformed, base64_overrun, Decoded, base64_decode,
}
use pand_ablocks_server.Config.Changes.{get_change_index}
use pand_ablocks_server.Config.PutTable.{PutTableWriter, PutTableGrant, granted, refused, PutTable}

-- The errors of this file; `undefined_read` is what the C language leaves undefined, the decoding of
-- an empty line.
pub data TableError : Type 0 where
  being_written too_many_points invalid_length partial_row undefined_read : TableError
  bad_number : ParseError → TableError
  bad_base64 : Base64Status → TableError

-- `struct table_block`, with the memory that `data` points to, `max_length` words, and what has been
-- written of the memory at `write_data`, `write_length` words; `write_lock` says whether the lock is
-- held. `change_index` is the global change index.
pub record TableBlock : Type 0 where
  pub change_index : ℕ
  pub update_index : ℕ
  pub memory : List ℕ
  pub data_length : ℕ
  pub write_data : List ℕ
  pub write_offset : ℕ
  pub write_binary : Bool
  pub write_lock : Bool

-- The live data of the block.
unfoldable pub table_data : TableBlock → List ℕ
table_data block = take block.data_length block.memory

-- What a conversion gives: an error, or the words.
abbrev pub Conversion : Type 0
Conversion = Option TableError × List ℕ

-- Words in memory, from their bytes.
unfoldable pub words_of_bytes : List ℕ → List ℕ
words_of_bytes (a ∷ b ∷ c ∷ d ∷ rest) =
    (a + b * 0x100 + c * 0x10000 + d * 0x1000000) ∷ words_of_bytes rest
words_of_bytes bytes = []

unfoldable pub convert_base64_line : List ℕ → List ℕ → ℕ → Conversion
convert_base64_line decode line max_length = elim (base64_decode decode line (max_length * 4)) [
  | none ↦ (some undefined_read, [])
  | some r ↦ elim r.status [
    | base64_ok ↦
        if r.converted % 4 == 0 then (none, words_of_bytes r.written) else (some invalid_length, [])
    | base64_malformed ↦ (some (bad_base64 base64_malformed), [])
    | base64_overrun ↦ (some (bad_base64 base64_overrun), [])
  ]
]

-- `hw_write_table` (server/hardware.c): what it does to the memory of a block.
unfoldable pub write_memory : List ℕ → ℕ → List ℕ → List ℕ
write_memory memory offset words =
    take offset memory ++ (words ++ drop (offset + length words) memory)

module _ (ulong_mod : ℕ) where
  -- The loop, with room for so many words.
  unfoldable pub convert_ascii_line : ℕ → List ℕ → Conversion
  convert_ascii_line room [] = (none, [])
  convert_ascii_line zero (c ∷ cs) = (some too_many_points, [])
  convert_ascii_line (suc room) (c ∷ cs) =
      let (result, line) = parse_uint32 ulong_mod (c ∷ cs) in
      elim result [
        | fail e ↦ (some (bad_number e), [])
        | ok v ↦ let (error, words) = convert_ascii_line room line in (error, v ∷ words)
      ]

  -- A line in the format of the write.
  unfoldable pub convert_line : List ℕ → Bool → ℕ → List ℕ → Conversion
  convert_line decode binary room line =
      if binary then convert_base64_line decode line room else convert_ascii_line room line

  module _ (decode : List ℕ) (max_length row_words : ℕ) where
    -- Nothing is added if the line is an error.
    unfoldable pub write_table_line : List ℕ → TableBlock → Option TableError × TableBlock
    write_table_line line block =
        let room = sub32 (sub32 max_length block.write_offset) (length block.write_data) in
        let (error, words) = convert_line decode block.write_binary room line in
        elim error [
          | some e ↦ (some e, block)
          | none ↦ (none, record block { write_data = block.write_data ++ words })
        ]

    -- The update under the read lock.
    unfoldable pub publish : TableBlock → TableBlock
    publish block =
        let index = get_change_index block.change_index in
        record block {
          memory = write_memory block.memory block.write_offset block.write_data;
          data_length = length block.write_data + block.write_offset;
          change_index = index;
          update_index = index;
        }

    unfoldable pub complete_table_write : Bool → TableBlock → Option TableError × TableBlock
    complete_table_write write_ok block =
        let error =
          if write_ok
          then if length block.write_data % row_words == 0 then none else some partial_row
          else none in
        let block1 =
          if write_ok then elim error [ none ↦ publish block | some e ↦ block ] else block in
        (error, record block1 { write_lock = false })

    unfoldable pub start_table_write :
        Bool → Bool → TableBlock → PutTableGrant TableBlock TableError × TableBlock
    start_table_write append binary block =
        if block.write_lock then (refused being_written, block) else (
          granted (record { write = write_table_line; close = complete_table_write }),
          record block {
            write_lock = true;
            write_offset = if append then block.data_length else 0;
            write_binary = binary;
            write_data = [];
          },
        )
