-- ===== src/Buffer/Clients.antt =====
-- The counts of server/buffer.c with one writer and any number of connected readers, as steps of
-- the whole system: each step is one call, which runs under the mutex.
pub mod Counts
pub mod Phases
pub mod Invariant
use pand_ablocks_server.Prelude.{
  ℕ, zero, suc, ◌+◌, ◌-◌, ◌%◌, ◌≤◌, ◌<◌, ◌≡◌, ◌≢◌, refl, arith, Bool, true, false, List, [], ◌∷◌,
  ◌++◌, u32_mod, add32, sub32, ltb, leb, ◌==◌, if◌then◌else◌, length, length-append, ◌⊎◌, inl, inr,
}
use pand_ablocks_server.Buffer.{
  CaptureBuffer, BufferState, state_idle, state_active, state_clearing, is_idle, start_write,
  release_write_block, end_write, complete_capture, add_reader, remove_reader, shutdown_buffer,
}
use pand_ablocks_server.Buffer.Reader.{
  ReaderState, open_reader, OpenResult, opened, create_reader, destroy_reader, close_reader,
}

-- A connected reader, by its capture cycle, and whether `open_reader` has returned true since its
-- last `close_reader`.
pub record Client : Type 0 where
  pub reader : ReaderState
  pub opened : Bool

pub record World : Type 0 where
  pub buffer : CaptureBuffer
  pub clients : List Client

-- The readers that still have to complete the capture cycle `cycle`.
unfoldable pub pending : ℕ → List Client → ℕ
pending cycle [] = 0
pending cycle (c ∷ cs) = (if c.reader.capture_cycle == cycle then 1 else 0) + pending cycle cs

-- The calls, each with the state that the code asserts or that its caller keeps to. A reader
-- opens at the buffer that ends its wait.
pub data Step : World → World → Type 0 where
  start :
      (b : CaptureBuffer) (cs : List Client)
      → b.state ≡ state_idle
      → Step (record { buffer = b; clients = cs }) (record { buffer = start_write b; clients = cs })
  release :
      (b : CaptureBuffer) (cs : List Client) (written : ℕ)
      → b.state ≡ state_active
      → Step
          (record { buffer = b; clients = cs })
          (record { buffer = release_write_block b written; clients = cs })
  finish :
      (b : CaptureBuffer) (cs : List Client)
      → b.state ≡ state_active
      → Step (record { buffer = b; clients = cs }) (record { buffer = end_write b; clients = cs })
  stop :
      (b : CaptureBuffer) (cs : List Client)
      → Step
          (record { buffer = b; clients = cs })
          (record { buffer = shutdown_buffer b; clients = cs })
  connect :
      (b : CaptureBuffer) (cs : List Client)
      → suc (length cs) < u32_mod
      → Step
          (record { buffer = b; clients = cs })
          (record {
            buffer = (create_reader b).0;
            clients = record { reader = (create_reader b).1; opened = false } ∷ cs;
          })
  begin_read :
      (b : CaptureBuffer) (before after : List Client) (r r' : ReaderState) (margin lost : ℕ)
      → open_reader b [] r margin ≡ opened r' lost
      → Step
          (record {
            buffer = b;
            clients = before ++ (record { reader = r; opened = false } ∷ after);
          })
          (record {
            buffer = b;
            clients = before ++ (record { reader = r'; opened = true } ∷ after);
          })
  end_read :
      (b : CaptureBuffer) (before after : List Client) (r : ReaderState)
      → Step
          (record {
            buffer = b;
            clients = before ++ (record { reader = r; opened = true } ∷ after);
          })
          (record {
            buffer = (close_reader b r).0;
            clients = before ++ (record { reader = (close_reader b r).1; opened = false } ∷ after);
          })
  disconnect :
      (b : CaptureBuffer) (before after : List Client) (c : Client)
      → Step
          (record { buffer = b; clients = before ++ (c ∷ after) })
          (record { buffer = destroy_reader b c.reader; clients = before ++ after })

-- What a client's cycle can be while the buffer is idle, and while it is busy.
abbrev pub IsResting : ℕ → Client → Type 0
IsResting cycle c = (c.opened ≡ false) × (c.reader.capture_cycle ≡ cycle)

abbrev pub IsDue : ℕ → Client → Type 0
IsDue cycle c =
    (c.reader.capture_cycle ≡ cycle)
    ⊎ ((c.opened ≡ false) × (c.reader.capture_cycle ≡ add32 cycle 1))

abbrev pub All : (Client → Type 0) → List Client → Type 0
All P [] = Unit
All P (c ∷ cs) = P c × All P cs

-- While the buffer is idle no reader is active, and every reader waits for the next capture.
-- Otherwise the active readers are those that have not completed this capture, the others wait
-- for the next, and the buffer is clearing only while there are active readers.
abbrev pub Phase : BufferState → ℕ → ℕ → List Client → Type 0
Phase state_idle cycle active cs = All (IsResting cycle) cs × (active ≡ 0)
Phase state_active cycle active cs = All (IsDue cycle) cs × (active ≡ pending cycle cs)
Phase state_clearing cycle active cs =
    All (IsDue cycle) cs × (active ≡ pending cycle cs) × (0 < active)

pub record IsConsistent (w : World) : Type 0 where
  pub counted : w.buffer.reader_count ≡ length w.clients
  pub few : length w.clients < u32_mod
  pub in_range : w.buffer.capture_cycle < u32_mod
  pub phase : Phase w.buffer.state w.buffer.capture_cycle w.buffer.active_count w.clients
