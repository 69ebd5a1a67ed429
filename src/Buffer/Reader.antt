-- ===== src/Buffer/Reader.antt =====
-- server/buffer.c, the readers' side. A reader waits on the buffer's signal with the mutex
-- released: what it finds at each wake-up is a list of buffers, whose end is the timeout.
use pand_ablocks_server.Prelude.{
  ℕ, zero, suc, ◌-◌, Bool, true, false, ◌&&◌, ◌||◌, not, List, [], ◌∷◌, Option, none, some, add32,
  sub32, add64, ltb, leb, ◌==◌, if◌then◌else◌, get_or,
}
use pand_ablocks_server.Buffer.{
  CaptureBuffer, is_idle, is_clearing, get_buffer, complete_capture, add_reader, remove_reader,
}

pub data ReaderStatus : Type 0 where
  status_all_read status_closed status_overrun : ReaderStatus

abbrev pub is_closed : ReaderStatus → Bool
is_closed status_closed = true
is_closed _ = false

-- `struct reader_state`, without the pointer to the one buffer.
pub record ReaderState : Type 0 where
  pub capture_cycle : ℕ
  pub buffer_cycle : ℕ
  pub out_ptr : ℕ
  pub status : ReaderStatus

-- The fields that the initialiser does not name are 0, and so is READER_STATUS_ALL_READ.
unfoldable pub create_reader : CaptureBuffer → CaptureBuffer × ReaderState
create_reader b =
    let (b', cycle) = add_reader b in
    (b', record { capture_cycle = cycle; buffer_cycle = 0; out_ptr = 0; status = status_all_read })

unfoldable pub destroy_reader : CaptureBuffer → ReaderState → CaptureBuffer
destroy_reader b r = remove_reader b r.capture_cycle

-- The loop of `count_lost_bytes`, on fuel: `none` is a walk that does not meet `out_ptr`.
unfoldable pub count_lost_loop : CaptureBuffer → ℕ → ℕ → ℕ → ℕ → Option ℕ
count_lost_loop b out_ptr zero ix lost = none
count_lost_loop b out_ptr (suc fuel) ix lost =
    let next = add32 ix 1 in
    let rest =
      count_lost_loop b out_ptr fuel (if leb b.block_count next then 0 else next)
        (add64 lost (get_or b.written ix 0)) in
    if ix == out_ptr then some lost else rest

-- A walk of the whole ring is `block_count` steps.
unfoldable pub count_lost_bytes : CaptureBuffer → ℕ → Option ℕ
count_lost_bytes b out_ptr = count_lost_loop b out_ptr (suc b.block_count) b.in_ptr b.lost_bytes

-- Where the reader starts, and how many bytes it has missed.
unfoldable pub compute_reader_start : CaptureBuffer → ReaderState → ℕ → Option (ReaderState × ℕ)
compute_reader_start b r read_margin =
    let out_ptr = add32 (add32 b.in_ptr read_margin) 1 in
    if b.buffer_cycle == 0 && ltb out_ptr b.block_count
    then some (record r { buffer_cycle = 0; out_ptr = 0 }, 0)
    else let r' : ReaderState =
        if leb b.block_count out_ptr
        then record r { buffer_cycle = b.buffer_cycle; out_ptr = out_ptr - b.block_count }
        else record r { buffer_cycle = sub32 b.buffer_cycle 1; out_ptr = out_ptr } in
      elim (count_lost_bytes b r'.out_ptr) [ none ↦ none | some lost ↦ some (r', lost) ]

-- The buffer at the end of the wait, and whether it is ready for the reader.
unfoldable pub wait_for_buffer_ready :
    ReaderState → CaptureBuffer → List CaptureBuffer → CaptureBuffer × Bool
wait_for_buffer_ready r b [] =
    if b.shutdown
    then (b, false)
    else (b, not (is_idle b.state) && b.capture_cycle == r.capture_cycle)
wait_for_buffer_ready r b (woken ∷ later) =
    if b.shutdown
    then (b, false)
    else if not (is_idle b.state) && b.capture_cycle == r.capture_cycle
    then (b, true)
    else wait_for_buffer_ready r woken later

-- How `open_reader` ends: with the return of `false`, of `true`, or (never, as is proved) with a
-- start that the walk of the ring does not find.
pub data OpenResult : Type 0 where
  not_active lost_start : OpenResult
  opened : ReaderState → ℕ → OpenResult

unfoldable pub open_reader : CaptureBuffer → List CaptureBuffer → ReaderState → ℕ → OpenResult
unfolding compute_reader_start wait_for_buffer_ready
open_reader b wakes r read_margin =
    let (b', active) = wait_for_buffer_ready r b wakes in
    if active
    then elim (compute_reader_start b' (record r { capture_cycle = b'.capture_cycle })
        read_margin) [
          | none ↦ lost_start
          | some (r', lost) ↦ opened (record r' { status = status_closed }) lost
        ]
    else not_active

unfoldable pub close_reader : CaptureBuffer → ReaderState → CaptureBuffer × ReaderState
close_reader b r = (complete_capture b, record r { capture_cycle = add32 r.capture_cycle 1 })

unfoldable pub check_overrun_ok : ℕ → ℕ → ℕ → ℕ → Bool
check_overrun_ok buffer_cycle reader_buffer_cycle in_ptr out_ptr =
    if in_ptr == out_ptr
    then false
    else if ltb out_ptr in_ptr
    then buffer_cycle == reader_buffer_cycle
    else buffer_cycle == add32 reader_buffer_cycle 1

unfoldable pub check_block_status : CaptureBuffer → ReaderState → ℕ → ℕ → ReaderState × Bool
check_block_status b r reader_buffer_cycle out_ptr =
    if check_overrun_ok b.buffer_cycle reader_buffer_cycle b.in_ptr out_ptr
    then (r, true)
    else (record r { status = status_overrun }, false)

-- Checks the block before `out_ptr`, which is the next one to read.
unfoldable pub check_read_block : CaptureBuffer → ReaderState → ReaderState × Bool
unfolding check_block_status
check_read_block b r =
    if ltb 0 r.out_ptr
    then check_block_status b r r.buffer_cycle (r.out_ptr - 1)
    else check_block_status b r (sub32 r.buffer_cycle 1) (b.block_count - 1)

-- How a wait for a block ends: moved on (or shut down), all read, or timed out.
pub data BlockWait : Type 0 where
  block_ready all_read timeout_occurred : BlockWait

unfoldable pub block_waiting : CaptureBuffer → ReaderState → Bool
block_waiting b r = b.buffer_cycle == r.buffer_cycle && b.in_ptr == r.out_ptr

unfoldable pub wait_for_block_ready : ReaderState → CaptureBuffer → List CaptureBuffer → BlockWait
unfolding block_waiting
wait_for_block_ready r b [] =
    if b.shutdown || not (block_waiting b r)
    then block_ready
    else if is_clearing b.state
    then all_read
    else timeout_occurred
wait_for_block_ready r b (woken ∷ later) =
    if b.shutdown || not (block_waiting b r)
    then block_ready
    else if is_clearing b.state
    then all_read
    else wait_for_block_ready r woken later

-- What `get_read_block` returns: NULL, the dummy block of length 0, or the offset of a block and
-- its length.
pub data ReadResult : Type 0 where
  null dummy : ReadResult
  block : ℕ → ℕ → ReadResult

-- The reader after the step to its next block.
unfoldable pub advance_reader : CaptureBuffer → ReaderState → ReaderState
advance_reader b r =
    let next = add32 r.out_ptr 1 in
    if leb b.block_count next
    then record r { out_ptr = 0; buffer_cycle = add32 r.buffer_cycle 1 }
    else record r { out_ptr = next }

-- `b` and `wakes` are what the wait finds, `checked` what the check of the block finds, and `read`
-- the buffer when the length is read, with the mutex released.
unfoldable pub get_read_block :
    CaptureBuffer
    → List CaptureBuffer
    → CaptureBuffer
    → CaptureBuffer
    → ReaderState
    → ReaderState × ReadResult
get_read_block b wakes checked read r =
    if not (is_closed r.status) then (r, null) else elim (wait_for_block_ready r b wakes) [
      | timeout_occurred ↦ (r, dummy)
      | all_read ↦ (record r { status = status_all_read }, null)
      | block_ready ↦
          let (r', valid) =
            check_block_status checked (advance_reader b r) r.buffer_cycle r.out_ptr in
          if valid
          then (r', block (get_buffer b r.out_ptr) (get_or read.written r.out_ptr 0))
          else (r', null)
    ]
