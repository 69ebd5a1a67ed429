-- ===== src/BufferedFile.antt =====
-- server/buffered_file.c: the buffers in front of a socket. `incoming` is what the calls of `read` on the
-- socket give, one after another, with the end of the input when there are no more; `outcomes` is how
-- the calls of `write` go, which take everything when there are no more; `sent` is what they took. What
-- `in_buf` and `out_buf` hold past their lengths is left out.
pub mod Output
pub mod Writing
pub mod Calls
pub mod Reading
pub mod Lines
mod Tests
use mathlib.Core.Option
use pand_ablocks_server.Prelude.{
  ℕ, zero, suc, ◌+◌, ◌-◌, ◌^◌, Bool, true, false, ◌||◌, List, [], ◌∷◌, ◌++◌, Option, none, some,
  leb, ltb, ◌==◌, if◌then◌else◌, length, take, drop, min,
}

abbrev pub newline : ℕ
newline = 10

-- A call of `read`.
pub data Arrival : Type 0 where
  failed_read : Arrival
  arrives : List ℕ → Arrival

-- A call of `write`, with the number of bytes that it takes at most.
pub data WriteOutcome : Type 0 where
  failed_write : WriteOutcome
  takes : ℕ → WriteOutcome

pub record BufferedFile : Type 0 where
  pub eof : Bool
  pub error : Bool
  pub in_length : ℕ
  pub read_ptr : ℕ
  pub in_buf : List ℕ
  pub out_buf_size : ℕ
  pub out_buf : List ℕ
  pub incoming : List Arrival
  pub outcomes : List WriteOutcome
  pub sent : List ℕ

unfoldable pub create_buffered_file : ℕ → List Arrival → List WriteOutcome → BufferedFile
create_buffered_file out_buf_size incoming outcomes = record {
  eof = false;
  error = false;
  in_length = 0;
  read_ptr = 0;
  in_buf = [];
  out_buf_size = out_buf_size;
  out_buf = [];
  incoming = incoming;
  outcomes = outcomes;
  sent = [];
}

-- The loop of `send_entire_buffer`: whether it fails, what is taken, and the calls that are left.
unfoldable pub send_loop : List WriteOutcome → List ℕ → Bool × List ℕ × List WriteOutcome
send_loop [] buffer = (false, buffer, [])
send_loop (outcome ∷ outcomes) [] = (false, [], outcome ∷ outcomes)
send_loop (failed_write ∷ outcomes) (b ∷ buffer) = (true, [], outcomes)
send_loop (takes written ∷ outcomes) (b ∷ buffer) =
    let (failed, rest, left) = send_loop outcomes (drop written (b ∷ buffer)) in
    (failed, take written (b ∷ buffer) ++ rest, left)

unfoldable pub send_entire_buffer : BufferedFile → List ℕ → BufferedFile
send_entire_buffer file buffer =
    let (failed, taken, left) = send_loop file.outcomes buffer in
    if file.error
    then file
    else record file { error = failed; sent = file.sent ++ taken; outcomes = left }

unfoldable pub flush_out_buf : BufferedFile → BufferedFile
flush_out_buf file = record (send_entire_buffer file file.out_buf) { out_buf = [] }

-- The call of `read`, and what it leaves.
unfoldable pub read_socket : List Arrival → BufferedFile → BufferedFile
read_socket [] file = record file { eof = true; read_ptr = 0; in_length = 0 }
read_socket (failed_read ∷ arrivals) file = record file {
  error = true;
  eof = false;
  read_ptr = 0;
  in_length = 2 ^ 32 - 1;
  incoming = arrivals;
}
read_socket (arrives bytes ∷ arrivals) file = record file {
  eof = length bytes == 0;
  read_ptr = 0;
  in_length = length bytes;
  in_buf = bytes;
  incoming = arrivals;
}

unfoldable pub fill_in_buf : BufferedFile → BufferedFile
fill_in_buf file = if file.eof || file.error then file else read_socket file.incoming file

-- The data that wait in `in_buf`.
unfoldable pub available : BufferedFile → List ℕ
available file = take (file.in_length - file.read_ptr) (drop file.read_ptr file.in_buf)

-- `memchr`: the index of a character.

unfoldable pub find_char : ℕ → List ℕ → Option ℕ
find_char c [] = none
find_char c (a ∷ s) = if a == c then some 0 else Option.map suc (find_char c s)

-- The loop of `read_line`, on fuel, after the start of the line: the line, if there is one.
unfoldable pub read_line_loop :
    ℕ → BufferedFile → List ℕ → ℕ → Bool → Option (Option (List ℕ) × BufferedFile)
read_line_loop zero file line line_size flush = none
read_line_loop (suc fuel) file line line_size flush =
    let avail = available file in
    let flushed = if flush then flush_out_buf file else file in
    let rest =
      read_line_loop fuel (fill_in_buf flushed) (line ++ avail) (line_size - length avail) false in
    if file.eof || file.error then some (none, file) else elim (find_char newline avail) [
      | some line_length ↦
          if ltb (line_length + 1) line_size
          then some (
            some (line ++ take line_length avail),
            record file { read_ptr = file.read_ptr + line_length + 1 },
          )
          else some (none, record file { error = true })
      | none ↦
          if ltb (length avail + 1) line_size
          then rest
          else some (none, record file { error = true })
    ]

unfoldable pub read_line : BufferedFile → ℕ → Bool → Option (Option (List ℕ) × BufferedFile)
read_line file line_size flush = read_line_loop (length file.incoming + 2) file [] line_size flush

-- The loop of `write_string`, on fuel.
unfoldable pub write_loop : ℕ → BufferedFile → List ℕ → Option BufferedFile
write_loop fuel file [] = some file
write_loop zero file (c ∷ string) = if file.error then some file else none
write_loop (suc fuel) file (c ∷ string) =
    let to_write = min (file.out_buf_size - length file.out_buf) (length (c ∷ string)) in
    let filled = record file { out_buf = file.out_buf ++ take to_write (c ∷ string) } in
    let next =
      if leb filled.out_buf_size (length filled.out_buf) then flush_out_buf filled else filled in
    let rest = write_loop fuel next (drop to_write (c ∷ string)) in
    if file.error then some file else rest

unfoldable pub write_string : BufferedFile → List ℕ → Option BufferedFile
write_string file string = write_loop (length string) file string

-- With the text that `vsnprintf` makes. If that does not fit even then, `out_length` counts it all.
unfoldable pub write_formatted_string : BufferedFile → List ℕ → BufferedFile
write_formatted_string file text =
    let flushed = flush_out_buf file in
    let filled = record flushed { out_buf = text } in
    if file.error
    then file
    else if ltb (length text) (file.out_buf_size - length file.out_buf)
    then record file { out_buf = file.out_buf ++ text }
    else if flushed.error
    then flushed
    else if ltb (length text) file.out_buf_size
    then filled
    else record filled { error = true }

unfoldable pub write_block : BufferedFile → List ℕ → BufferedFile
write_block file buffer = send_entire_buffer (flush_out_buf file) buffer

unfoldable pub write_char : BufferedFile → ℕ → BufferedFile
write_char file ch =
    let filled = record file { out_buf = file.out_buf ++ ch ∷ [] } in
    if file.error
    then file
    else if leb filled.out_buf_size (length filled.out_buf)
    then flush_out_buf filled
    else filled
