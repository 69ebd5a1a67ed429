-- ===== src/Buffer/Clients/Invariant.antt =====
-- The system of one writer and its readers keeps its counts: every call of server/buffer.c
-- preserves `IsConsistent`.
use native.Mathlib.Decide.{ℕ_discrete}
use pand_ablocks_server.Prelude.{
  ℕ, ◌<◌, ◌≡◌, ◌≢◌, refl, sym, ◌∙◌, arith, true, false, List, [], ◌∷◌, ◌++◌, u32_mod, add32, sub32,
  length, ◌⊎◌, inl, inr,
}
use pand_ablocks_server.Buffer.{
  CaptureBuffer, create_buffer, BufferState, state_idle, state_active, state_clearing,
  release_write_block, complete_capture, remove_reader, shutdown_buffer,
}
use pand_ablocks_server.Buffer.Reader.{
  ReaderState, open_reader, opened, destroy_reader, close_reader,
}
use pand_ablocks_server.Buffer.Clients.{
  Client, World, pending, Step, start, release, finish, stop, connect, begin_read, end_read,
  disconnect, IsResting, IsConsistent,
}
use pand_ablocks_server.Buffer.Clients.Phases.{
  Phase-at, start-Phase, finish-Phase, complete-Phase, connect-Phase,
}
use pand_ablocks_server.Buffer.Clients.Counts.{
  Phase-Busy, Phase-Busy_mono, Busy-with, Busy-without, due_now, pending-le-length, All-append,
  All-split, length-middle,
}

-- What `open_reader` has seen when it returned true.
pub opened-state :
    (b : CaptureBuffer) (r r' : ReaderState) (margin lost : ℕ)
    → open_reader b [] r margin ≡ opened r' lost
    → (b.state ≢ state_idle)
      × (b.capture_cycle ≡ r.capture_cycle)
      × (r'.capture_cycle ≡ b.capture_cycle)
unfolding open_reader
opened-state b r r' margin lost e = ground arith

begin_read-Phase :
    (b : CaptureBuffer) (before after : List Client) (r r' : ReaderState)
    → (b.state ≢ state_idle)
      × (b.capture_cycle ≡ r.capture_cycle)
      × (r'.capture_cycle ≡ b.capture_cycle)
    → IsConsistent
        (record { buffer = b; clients = before ++ (record { reader = r; opened = false } ∷ after) })
    → IsConsistent
        (record { buffer = b; clients = before ++ (record { reader = r'; opened = true } ∷ after) })
begin_read-Phase b before after r r' seen h =
    let cycle = b.capture_cycle in
    let old : Client = record { reader = r; opened = false } in
    let new : Client = record { reader = r'; opened = true } in
    let t =
      Busy-without cycle b.active_count before after old
        (Phase-Busy b.state cycle b.active_count _ seen.0 h.phase) in
    record {
      counted = h.counted ∙ length-middle before after old ∙ sym (length-middle before after new);
      few = omega (arith, h.few, length-middle before after old, length-middle before after new);
      in_range = h.in_range;
      phase = Phase-Busy_mono b.state cycle b.active_count _ _ seen.0 h.phase (
          Busy-with cycle b.active_count before after new t.0 (inl seen.2)
            (ground (arith, t.2, seen)));
    }

-- A client that has opened keeps the buffer busy.
pub opened-busy :
    (b : CaptureBuffer) (before after : List Client) (r : ReaderState)
    → IsConsistent
        (record { buffer = b; clients = before ++ (record { reader = r; opened = true } ∷ after) })
    → b.state ≢ state_idle
opened-busy b before after r h e =
    let p = Phase-at state_idle b.capture_cycle b.active_count _ e h.phase in
    let t = All-split (IsResting b.capture_cycle) before _ p.0 in cc (t.1.0.0)

end_read-Phase :
    (b : CaptureBuffer) (before after : List Client) (r : ReaderState)
    → IsConsistent
        (record { buffer = b; clients = before ++ (record { reader = r; opened = true } ∷ after) })
    → IsConsistent (record {
      buffer = (close_reader b r).0;
      clients = before ++ (record { reader = (close_reader b r).1; opened = false } ∷ after);
    })
unfolding close_reader
end_read-Phase b before after r h =
    let cycle = b.capture_cycle in
    let old : Client = record { reader = r; opened = true } in
    let new : Client = record {
      reader = record r { capture_cycle = add32 r.capture_cycle 1 };
      opened = false;
    } in
    let busy = opened-busy b before after r h in
    let q = Phase-Busy b.state cycle b.active_count _ busy h.phase in
    let t = Busy-without cycle b.active_count before after old q in
    let now : r.capture_cycle ≡ cycle = ground (arith, t.1) in
    let off : due_now cycle new ≡ 0 = ground (arith, now, h.in_range) in
    let u =
      Busy-with cycle (pending cycle (before ++ after)) before after new t.0 (inr (refl, rw now))
        (omega (arith, off)) in
    complete-Phase b _ busy u.0 (ground (arith, t.2, now, u.1))
      (omega (arith, q.1, pending-le-length cycle (before ++ (old ∷ after)), h.few))
      (h.counted ∙ length-middle before after old ∙ sym (length-middle before after new))
      (omega (arith, h.few, length-middle before after old, length-middle before after new))
      h.in_range

State-dec : (t : BufferState) → (t ≡ state_idle) ⊎ (t ≢ state_idle)
State-dec state_idle = inl refl
State-dec state_active = inr (λ e. cc e)
State-dec state_clearing = inr (λ e. cc e)

remove-idle :
    (b : CaptureBuffer) (cycle : ℕ)
    → (b.state ≡ state_idle) ⊎ (b.capture_cycle ≢ cycle)
    → remove_reader b cycle ≡ record b { reader_count = sub32 b.reader_count 1 }
unfolding remove_reader
remove-idle b cycle h = ground arith

remove-busy :
    (b : CaptureBuffer) (cycle : ℕ)
    → b.state ≢ state_idle
    → b.capture_cycle ≡ cycle
    → remove_reader b cycle ≡ complete_capture (record b { reader_count = sub32 b.reader_count 1 })
unfolding remove_reader
remove-busy b cycle n e = ground arith

-- A reader may go at any time, whether it is opened or not.
module _ (b : CaptureBuffer) (before after : List Client) (c : Client)
    (h : IsConsistent (record { buffer = b; clients = before ++ (c ∷ after) })) where
  fewer : sub32 b.reader_count 1 ≡ length (before ++ after)
  fewer = omega (arith, h.counted, h.few, length-middle before after c)

  still_few : length (before ++ after) < u32_mod
  still_few = omega (arith, h.few, length-middle before after c)

  disconnect-idle :
      b.state ≡ state_idle
      → IsConsistent
          (record { buffer = remove_reader b c.reader.capture_cycle; clients = before ++ after })
  disconnect-idle e =
      let cycle = b.capture_cycle in
      let p = Phase-at state_idle cycle b.active_count _ e h.phase in
      let t = All-split (IsResting cycle) before (c ∷ after) p.0 in
      rw (remove-idle b c.reader.capture_cycle (inl e)) (record {
        counted = fewer;
        few = still_few;
        in_range = h.in_range;
        phase = rw e (All-append (IsResting cycle) before after t.0 t.1.1, p.1);
      })

  disconnect-busy :
      b.state ≢ state_idle
      → IsConsistent
          (record { buffer = remove_reader b c.reader.capture_cycle; clients = before ++ after })
  disconnect-busy n =
      let cycle = b.capture_cycle in
      let q = Phase-Busy b.state cycle b.active_count _ n h.phase in
      let t = Busy-without cycle b.active_count before after c q in
      elim (ℕ_discrete cycle c.reader.capture_cycle) [
        | yes e ↦ rw (remove-busy b c.reader.capture_cycle n e) (
            complete-Phase (record b { reader_count = sub32 b.reader_count 1 }) (before ++ after) n
              t.0 (ground (arith, t.2))
              (omega (arith, q.1, pending-le-length cycle (before ++ (c ∷ after)), h.few)) fewer
              still_few h.in_range)
        | no ne ↦ rw (remove-idle b c.reader.capture_cycle (inr ne)) (record {
          counted = fewer;
          few = still_few;
          in_range = h.in_range;
          phase =
              Phase-Busy_mono b.state cycle b.active_count _ _ n h.phase (t.0, ground (arith, t.2));
        })
      ]

disconnect-Phase :
    (b : CaptureBuffer) (before after : List Client) (c : Client)
    → IsConsistent (record { buffer = b; clients = before ++ (c ∷ after) })
    → IsConsistent (record { buffer = destroy_reader b c.reader; clients = before ++ after })
unfolding destroy_reader
disconnect-Phase b before after c h = elim (State-dec b.state) [
  | inl e ↦ disconnect-idle b before after c h e
  | inr n ↦ disconnect-busy b before after c h n
]

release-Phase :
    (b : CaptureBuffer) (cs : List Client) (written : ℕ)
    → IsConsistent (record { buffer = b; clients = cs })
    → IsConsistent (record { buffer = release_write_block b written; clients = cs })
unfolding release_write_block
release-Phase b cs written h = record {
  counted = h.counted;
  few = h.few;
  in_range = h.in_range;
  phase = h.phase;
}

stop-Phase :
    (b : CaptureBuffer) (cs : List Client)
    → IsConsistent (record { buffer = b; clients = cs })
    → IsConsistent (record { buffer = shutdown_buffer b; clients = cs })
unfolding shutdown_buffer
stop-Phase b cs h = record {
  counted = h.counted;
  few = h.few;
  in_range = h.in_range;
  phase = h.phase;
}

-- Every call of the system keeps the counts right: the reader count is the number of connected
-- readers, the active count is the number of those that have not completed the running capture
-- (0 while the buffer is idle), every reader's cycle is that of the running capture or of the
-- next one, and the buffer is clearing only while a reader is active.
pub Step-IsConsistent : {u v : World} → Step u v → IsConsistent u → IsConsistent v
Step-IsConsistent (start b cs e) h = start-Phase b cs e h
Step-IsConsistent (release b cs written e) h = release-Phase b cs written h
Step-IsConsistent (finish b cs e) h = finish-Phase b cs e h
Step-IsConsistent (stop b cs) h = stop-Phase b cs h
Step-IsConsistent (connect b cs small) h = connect-Phase b cs small h
Step-IsConsistent (begin_read b before after r r' margin lost e) h =
    begin_read-Phase b before after r r' (opened-state b r r' margin lost e) h
Step-IsConsistent (end_read b before after r) h = end_read-Phase b before after r h
Step-IsConsistent (disconnect b before after c) h = disconnect-Phase b before after c h

-- The states that calls lead to.
pub data Reach (u : World) : World → Type 0 where
  here : Reach u u
  next : {v w : World} → Reach u v → Step v w → Reach u w

-- Whatever the writer and the readers do after `create_buffer`, the counts stay consistent.
pub Reach-IsConsistent :
    (block_size block_count : ℕ) (uninitialised : List ℕ) {w : World}
    → Reach (record { buffer = create_buffer block_size block_count uninitialised; clients = [] }) w
    → IsConsistent w
unfolding create_buffer
Reach-IsConsistent block_size block_count uninitialised here = record {
  counted = refl;
  few = omega arith;
  in_range = omega arith;
  phase = (tt, refl);
}
Reach-IsConsistent block_size block_count uninitialised (next r st) =
    Step-IsConsistent st (Reach-IsConsistent block_size block_count uninitialised r)
