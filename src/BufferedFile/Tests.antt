-- ===== src/BufferedFile/Tests.antt =====
-- Runs of server/buffered_file.c, and its theorems at them.
use pand_ablocks_server.Prelude.{
  ℕ, ◌<◌, ◌≡◌, refl, arith, true, false, List, [], ◌∷◌, ◌++◌, Option, some, length,
}
use pand_ablocks_server.BufferedFile.{
  Arrival, arrives, takes, BufferedFile, create_buffered_file, send_loop, send_entire_buffer,
  flush_out_buf, read_socket, fill_in_buf, available, find_char, read_line_loop, read_line,
  write_loop, write_string, write_formatted_string, write_char,
}
use pand_ablocks_server.BufferedFile.Output.{IsPrefix}
use pand_ablocks_server.BufferedFile.Reading.{IsOpen, LineResult}
use pand_ablocks_server.BufferedFile.Lines.{read_line-LineResult}
use pand_ablocks_server.BufferedFile.Calls.{
  WriteCall, string, character, formatted, all_bytes, call_write, call_writes, call_writes-IsPrefix,
}

-- Two lines that come in three parts.
abbrev three_parts : List Arrival
three_parts = arrives (72 ∷ 73 ∷ []) ∷ arrives (10 ∷ 74 ∷ []) ∷ arrives (75 ∷ 10 ∷ []) ∷ []

abbrev new_file : BufferedFile
new_file = create_buffered_file 4 three_parts (takes 1 ∷ takes 2 ∷ [])

read_line_test :
    read_line new_file 16 true
    ≡ some (
      some (72 ∷ 73 ∷ []),
      record new_file {
        in_buf = 10 ∷ 74 ∷ [];
        in_length = 2;
        read_ptr = 1;
        incoming = arrives (75 ∷ 10 ∷ []) ∷ [];
      },
    )
unfolding read_line read_line_loop fill_in_buf read_socket available find_char flush_out_buf
    send_entire_buffer send_loop create_buffered_file
read_line_test = refl

-- The calls of `write` take the bytes in parts.
abbrev some_calls : List WriteCall
some_calls = string (72 ∷ 73 ∷ 74 ∷ 75 ∷ 76 ∷ []) ∷ character 10 ∷ formatted (49 ∷ 50 ∷ []) ∷ []

written_test :
    call_writes some_calls new_file
    ≡ some (record new_file {
      sent = 72 ∷ 73 ∷ 74 ∷ 75 ∷ 76 ∷ 10 ∷ [];
      out_buf = 49 ∷ 50 ∷ [];
      outcomes = [];
    })
unfolding call_writes call_write write_string write_loop write_char write_formatted_string
    flush_out_buf send_entire_buffer send_loop create_buffered_file
written_test = refl

new_file-IsOpen : IsOpen new_file
unfolding IsOpen create_buffered_file
new_file-IsOpen = (refl, refl, omega arith, refl)

flush_works : true ≡ true → (flush_out_buf new_file).error ≡ false
unfolding flush_out_buf send_entire_buffer send_loop create_buffered_file
flush_works h = refl

read_line-LineResult_example :
    (r : Option (List ℕ)) × (file' : BufferedFile) × (read_line new_file 16 true ≡ some (r, file'))
    × LineResult new_file [] 16 r file'
read_line-LineResult_example = read_line-LineResult new_file 16 true new_file-IsOpen flush_works

call_writes-IsPrefix_example :
    (file : BufferedFile) × (call_writes some_calls
        (create_buffered_file 4 three_parts (takes 1 ∷ takes 2 ∷ []))
      ≡ some file)
    × IsPrefix file.sent (all_bytes some_calls)
    × (file.error ≡ false
        → (file.sent ++ file.out_buf ≡ all_bytes some_calls) × (length file.out_buf < 4))
    × ((flush_out_buf file).error ≡ false → (flush_out_buf file).sent ≡ all_bytes some_calls)
call_writes-IsPrefix_example =
    call_writes-IsPrefix some_calls 4 three_parts (takes 1 ∷ takes 2 ∷ []) (omega arith)
