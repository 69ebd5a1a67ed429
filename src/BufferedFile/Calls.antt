-- ===== src/BufferedFile/Calls.antt =====
-- server/buffered_file.c: any sequence of calls that write.
use pand_ablocks_server.Prelude.{
  ℕ, ◌<◌, ◌≡◌, refl, sym, ◌∙◌, false, List, [], ◌∷◌, ◌++◌, Option, some, none, length, append-nil,
}
use pand_ablocks_server.BufferedFile.{
  Arrival, WriteOutcome, create_buffered_file, BufferedFile, flush_out_buf, write_string,
  write_formatted_string, write_block, write_char,
}
use pand_ablocks_server.BufferedFile.Output.{IsPrefix, stream, Wrote, Wrote-trans}
use pand_ablocks_server.BufferedFile.Writing.{
  Wrote-length, write_string-Wrote, write_formatted_string-Wrote, write_block-Wrote,
  write_char-Wrote, flush_out_buf-Wrote, nothing-Wrote,
}

-- A call of one of the functions that write.
pub data WriteCall : Type 0 where
  string formatted block : List ℕ → WriteCall
  character : ℕ → WriteCall
  flush : WriteCall

unfoldable pub bytes_of : WriteCall → List ℕ
bytes_of (string s) = s
bytes_of (formatted s) = s
bytes_of (block s) = s
bytes_of (character c) = c ∷ []
bytes_of flush = []

unfoldable pub call_write : WriteCall → BufferedFile → Option BufferedFile
call_write (string s) file = write_string file s
call_write (formatted s) file = some (write_formatted_string file s)
call_write (block s) file = some (write_block file s)
call_write (character c) file = some (write_char file c)
call_write flush file = some (flush_out_buf file)

unfoldable pub all_bytes : List WriteCall → List ℕ
all_bytes [] = []
all_bytes (call ∷ calls) = bytes_of call ++ all_bytes calls

unfoldable pub call_writes : List WriteCall → BufferedFile → Option BufferedFile
call_writes [] file = some file
call_writes (call ∷ calls) file = elim (call_write call file) [
  | none ↦ none
  | some file' ↦ call_writes calls file'
]

call_write-Wrote :
    (call : WriteCall) (file : BufferedFile)
    → (file.error ≡ false → length file.out_buf < file.out_buf_size)
    → (file' : BufferedFile) × (call_write call file ≡ some file')
      × Wrote file (bytes_of call) file'
unfolding call_write bytes_of
call_write-Wrote (string s) file room = write_string-Wrote file s room
call_write-Wrote (formatted s) file room = (_, refl, write_formatted_string-Wrote file s)
call_write-Wrote (block s) file room = (_, refl, write_block-Wrote file s)
call_write-Wrote (character c) file room = (_, refl, write_char-Wrote file c)
call_write-Wrote flush file room = (_, refl, flush_out_buf-Wrote file)

call_writes-Wrote :
    (calls : List WriteCall) (file : BufferedFile)
    → (file.error ≡ false → length file.out_buf < file.out_buf_size)
    → (file' : BufferedFile) × (call_writes calls file ≡ some file')
      × Wrote file (all_bytes calls) file'
unfolding call_writes all_bytes
call_writes-Wrote [] file room = (file, refl, nothing-Wrote file)
call_writes-Wrote (call ∷ calls) file room =
    let (next, e, wrote) = call_write-Wrote call file room in
    let (last, f, wrote') =
      call_writes-Wrote calls next (Wrote-length file next (bytes_of call) room wrote) in
    (
      last,
      rw (call_writes, e) f,
      Wrote-trans file next last (bytes_of call) (all_bytes calls) wrote wrote',
    )

-- From a new file with room for output, any sequence of calls of write_string,
-- write_formatted_string, write_block, write_char and flush_out_buf returns, however the socket
-- takes what it is given: what was sent is then a prefix of the bytes of all calls in their order;
-- without an error what was sent and what waits in the buffer are these bytes, and the buffer is
-- not full; and if a flush after them does not fail all these bytes were sent.
pub call_writes-IsPrefix :
    (calls : List WriteCall) (out_buf_size : ℕ) (incoming : List Arrival)
    (outcomes : List WriteOutcome)
    → 0 < out_buf_size
    → (file : BufferedFile) × (call_writes calls
          (create_buffered_file out_buf_size incoming outcomes)
        ≡ some file)
      × IsPrefix file.sent (all_bytes calls)
      × (file.error ≡ false
          → (file.sent ++ file.out_buf ≡ all_bytes calls) × (length file.out_buf < out_buf_size))
      × ((flush_out_buf file).error ≡ false → (flush_out_buf file).sent ≡ all_bytes calls)
unfolding Wrote create_buffered_file stream flush_out_buf
call_writes-IsPrefix calls out_buf_size incoming outcomes room =
    let created = create_buffered_file out_buf_size incoming outcomes in
    let (file, e, (size, good, part, bad)) = call_writes-Wrote calls created (λ _. room) in
    let (size', good', part', bad') = flush_out_buf-Wrote file in
    (
      file,
      e,
      part refl,
      (λ ok. let (x, same, small) = good ok in (same, rw size at (small room))),
      (λ ok.
          let (x, same, small) = good' ok in
          let (y, same', small') = good x in
          sym (append-nil (flush_out_buf file).sent)
          ∙ same
          ∙ append-nil (file.sent ++ file.out_buf)
          ∙ same'),
    )
