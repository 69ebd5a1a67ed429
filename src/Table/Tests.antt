-- ===== src/Table/Tests.antt =====
-- Runs of server/table.c, and its theorems at them.
use pand_ablocks_server.Prelude.{
  ℕ, ◌^◌, ◌≡◌, refl, arith, true, false, List, [], ◌∷◌, ◌++◌, none, some, c_string,
}
use pand_ablocks_server.Base64.{initialise_base64}
use pand_ablocks_server.Parse.{read_char, parse_eos}
use pand_ablocks_server.Parse.Numbers.{
  skip_spaces, digit_value, read_digits, number_base, convert_digits, strtoul, check_number,
  parse_num, parse_uint32,
}
use pand_ablocks_server.Parse.Printed.{print_before, print_uint}
use pand_ablocks_server.Config.Changes.{get_change_index}
use pand_ablocks_server.Config.PutTable.{
  served, or_error, to_error, is_success, put_lines, do_put_table, choose_writer,
  parse_table_command, process_put_table_command,
}
use pand_ablocks_server.Config.Lines.{lines_after, table_format}
use pand_ablocks_server.Table.{
  TableBlock, too_many_points, partial_row, being_written, table_data, words_of_bytes,
  convert_base64_line, write_memory, convert_ascii_line, convert_line, write_table_line, publish,
  complete_table_write, start_table_write,
}
use pand_ablocks_server.Table.Commands.{
  IsTable, PutResult, put_table, put_table_command-PutResult, put_table_command-being_written,
}
use pand_ablocks_server.Table.Reading.{write_ascii, bytes_of_words, base64_lines, write_base_64}
use pand_ablocks_server.Table.RoundTrip.{readback_lines, put_table_command-readback_lines}

program : Unit {0}
unfolding c_string read_char parse_eos skip_spaces digit_value read_digits number_base
    convert_digits strtoul check_number parse_num parse_uint32 print_before print_uint
    get_change_index or_error to_error is_success put_lines do_put_table choose_writer
    parse_table_command process_put_table_command table_data words_of_bytes convert_base64_line
    write_memory convert_ascii_line convert_line write_table_line publish complete_table_write
    start_table_write write_ascii bytes_of_words base64_lines write_base_64
program = tt

-- A table of four words in rows of two, of which two are set.
abbrev block : TableBlock
block = record {
  change_index = 6;
  update_index = 3;
  memory = 11 ∷ 22 ∷ 0 ∷ 0 ∷ [];
  data_length = 2;
  write_data = [];
  write_offset = 0;
  write_binary = false;
  write_lock = false;
}

abbrev in_use : TableBlock
in_use = record block { write_lock = true }

-- "7 8" and an empty line, and a command that follows.
abbrev numbers : List (List ℕ)
numbers = (b'7' ∷ b' ' ∷ b'8' ∷ []) ∷ [] ∷ (b'X' ∷ []) ∷ []

put_runs :
    (process_put_table_command (put_table (2 ^ 32) [] 4 2) numbers [] (b'<' ∷ []) block ≡ (
      none,
      (
        record block {
          change_index = 7;
          update_index = 7;
          memory = 11 ∷ 22 ∷ 7 ∷ 8 ∷ [];
          data_length = 4;
          write_data = 7 ∷ 8 ∷ [];
          write_offset = 2;
        },
        (b'X' ∷ []) ∷ [],
      ),
    ))
    × ((process_put_table_command (put_table (2 ^ 32) [] 4 2) ((b'7' ∷ []) ∷ [] ∷ []) [] [] block).0
        ≡ some (served partial_row))
    × ((process_put_table_command (put_table (2 ^ 32) [] 1 1) numbers [] [] block).0
        ≡ some (served too_many_points))
    × (write_ascii block ≡ (b'1' ∷ b'1' ∷ []) ∷ (b'2' ∷ b'2' ∷ []) ∷ [])
unfolding program
put_runs = (refl, refl, refl, refl)

put_table_command-PutResult_example :
    let r =
      process_put_table_command
        (put_table (2 ^ 32) [] 4 2)
        numbers
        []
        (table_format true false)
        block in
    PutResult (2 ^ 32) [] 4 2 true false numbers block (r.0, r.1.0)
unfolding IsTable
put_table_command-PutResult_example =
    put_table_command-PutResult (2 ^ 32) [] 4 2 true false numbers [] block
      (refl, omega arith, refl) refl (omega arith)

put_table_command-being_written_example :
    process_put_table_command
      (put_table (2 ^ 32) [] 4 2)
      numbers
      []
      (table_format true false)
      in_use
    ≡ (some (served being_written), (in_use, lines_after numbers))
put_table_command-being_written_example =
    put_table_command-being_written (2 ^ 32) [] 4 2 true false numbers [] in_use refl

put_table_command-readback_lines_example :
    let r =
      process_put_table_command
        (put_table (2 ^ 32) initialise_base64 4 2)
        (readback_lines (2 ^ 32) 4 2 true block ++ ([] ∷ []))
        []
        (table_format false true)
        block in
    (r.0 ≡ none) × (table_data r.1.0 ≡ table_data block) × (r.1.1 ≡ [])
unfolding IsTable table_data
put_table_command-readback_lines_example =
    put_table_command-readback_lines (2 ^ 32) 4 2 true block block [] [] (refl, omega arith, refl)
      (refl, omega arith, refl) (omega arith, (omega arith, tt)) refl (omega arith) (omega arith)
      (omega arith)
