-- ===== src/Buffer.antt =====
-- server/buffer.c, the writer's side: the capture buffer, a ring of blocks that one writer fills.
-- Each function here is one critical section, so one step on the shared record.
pub mod Reader
pub mod History
pub mod Overrun
pub mod Reading
pub mod Start
pub mod Clients
mod Tests
use pand_ablocks_server.Prelude.{
  ℕ, ◌*◌, Bool, true, false, ◌&&◌, not, List, add32, sub32, add64, ltb, leb, ◌==◌, if◌then◌else◌,
  get_or, set, replicate,
}

pub data BufferState : Type 0 where
  state_idle state_active state_clearing : BufferState

abbrev pub is_idle : BufferState → Bool
is_idle state_idle = true
is_idle _ = false

abbrev pub is_clearing : BufferState → Bool
is_clearing state_clearing = true
is_clearing _ = false

-- `struct capture_buffer`, without the mutex, the signal and the base address.
pub record CaptureBuffer : Type 0 where
  pub block_size : ℕ
  pub block_count : ℕ
  pub capture_cycle : ℕ
  pub buffer_cycle : ℕ
  pub shutdown : Bool
  pub state : BufferState
  pub reader_count : ℕ
  pub active_count : ℕ
  pub in_ptr : ℕ
  pub lost_bytes : ℕ
  pub written : List ℕ

-- The initialiser zeroes the fields that it does not name. The array of `written` counts is
-- outside the initialiser; `start_write` clears it before its first use.
unfoldable pub create_buffer : ℕ → ℕ → List ℕ → CaptureBuffer
create_buffer block_size block_count uninitialised = record {
  block_size = block_size;
  block_count = block_count;
  capture_cycle = 0;
  buffer_cycle = 0;
  shutdown = false;
  state = state_idle;
  reader_count = 0;
  active_count = 0;
  in_ptr = 0;
  lost_bytes = 0;
  written = uninitialised;
}

unfoldable pub start_write : CaptureBuffer → CaptureBuffer
start_write b = record b {
  buffer_cycle = 0;
  active_count = b.reader_count;
  state = state_active;
  in_ptr = 0;
  lost_bytes = 0;
  written = replicate b.block_count 0;
}

-- The offset of a block from the base address of the buffer.
unfoldable pub get_buffer : CaptureBuffer → ℕ → ℕ
get_buffer b ix = ix * b.block_size

unfoldable pub get_write_block : CaptureBuffer → ℕ
unfolding get_buffer
get_write_block b = get_buffer b b.in_ptr

unfoldable pub release_write_block : CaptureBuffer → ℕ → CaptureBuffer
release_write_block b written =
    let next = add32 b.in_ptr 1 in
    let wraps = leb b.block_count next in
    record b {
      lost_bytes = add64 b.lost_bytes (get_or b.written b.in_ptr 0);
      written = set b.written b.in_ptr written;
      in_ptr = if wraps then 0 else next;
      buffer_cycle = if wraps then add32 b.buffer_cycle 1 else b.buffer_cycle;
    }

unfoldable pub advance_capture : CaptureBuffer → CaptureBuffer
advance_capture b = record b { state = state_idle; capture_cycle = add32 b.capture_cycle 1 }

unfoldable pub end_write : CaptureBuffer → CaptureBuffer
unfolding advance_capture
end_write b =
    if ltb 0 b.active_count then record b { state = state_clearing } else advance_capture b

unfoldable pub complete_capture : CaptureBuffer → CaptureBuffer
unfolding advance_capture
complete_capture b =
    let b' : CaptureBuffer = record b { active_count = sub32 b.active_count 1 } in
    if b'.active_count == 0 && is_clearing b'.state then advance_capture b' else b'

-- Returns the capture cycle at which the new reader starts.
unfoldable pub add_reader : CaptureBuffer → CaptureBuffer × ℕ
add_reader b = (
  record b {
    reader_count = add32 b.reader_count 1;
    active_count = if is_idle b.state then b.active_count else add32 b.active_count 1;
  },
  b.capture_cycle,
)

unfoldable pub remove_reader : CaptureBuffer → ℕ → CaptureBuffer
unfolding complete_capture
remove_reader b cycle =
    let b' : CaptureBuffer = record b { reader_count = sub32 b.reader_count 1 } in
    if not (is_idle b'.state) && b'.capture_cycle == cycle then complete_capture b' else b'

unfoldable pub shutdown_buffer : CaptureBuffer → CaptureBuffer
shutdown_buffer b = record b { shutdown = true }

-- Whether data is being taken, with the counts of readers and of active readers.
unfoldable pub read_buffer_status : CaptureBuffer → Bool × ℕ × ℕ
read_buffer_status b = (not (is_idle b.state), b.reader_count, b.active_count)
