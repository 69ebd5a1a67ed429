-- ===== src/Buffer/Tests.antt =====
-- Runs of server/buffer.c, and its theorems at them: a ring of four blocks of 16 bytes.
use pand_ablocks_server.Prelude.{
  ℕ, ◌+◌, ◌-◌, ◌*◌, ◌%◌, ◌≤◌, ◌<◌, ◌≡◌, ◌⊎◌, refl, arith, true, false, [], ◌∷◌, some, u64_mod,
}
use pand_ablocks_server.Buffer.{
  CaptureBuffer, create_buffer, start_write, end_write, release_write_block, complete_capture,
  advance_capture, add_reader, remove_reader, get_buffer,
}
use pand_ablocks_server.Buffer.Reader.{
  ReaderState, status_all_read, status_closed, status_overrun, count_lost_loop, count_lost_bytes,
  compute_reader_start, wait_for_buffer_ready, open_reader, create_reader, close_reader, opened,
  advance_reader, check_overrun_ok, check_block_status, check_read_block, block_waiting,
  wait_for_block_ready, get_read_block, block, null, dummy,
}
use pand_ablocks_server.Buffer.History.{Holds, total, start_write-Holds, release_write_block-Holds}
use pand_ablocks_server.Buffer.Overrun.{ReaderAt, check_read_block_iff}
use pand_ablocks_server.Buffer.Reading.{read_protocol}
use pand_ablocks_server.Buffer.Start.{compute_reader_start_lem}
use pand_ablocks_server.Buffer.Clients.{World, start, connect, begin_read, IsConsistent}
use pand_ablocks_server.Buffer.Clients.Invariant.{Reach, here, next, Reach-IsConsistent}

program : Unit {0}
unfolding create_buffer start_write end_write release_write_block complete_capture advance_capture
    add_reader remove_reader get_buffer count_lost_loop count_lost_bytes compute_reader_start
    wait_for_buffer_ready open_reader create_reader close_reader advance_reader check_overrun_ok
    check_block_status check_read_block block_waiting wait_for_block_ready get_read_block total
program = tt

abbrev sizes : ℕ → ℕ
sizes j = j + 10

abbrev fresh : CaptureBuffer
fresh = start_write (create_buffer 16 4 [])

abbrev two_written : CaptureBuffer
two_written = release_write_block (release_write_block fresh (sizes 0)) (sizes 1)

abbrev six_written : CaptureBuffer
six_written =
    release_write_block
      (release_write_block
        (release_write_block (release_write_block two_written (sizes 2)) (sizes 3)) (sizes 4))
      (sizes 5)

two_written-Holds : Holds sizes 2 two_written
unfolding program
two_written-Holds = release_write_block-Holds sizes 1 _ (
    release_write_block-Holds sizes 0 _
      (start_write-Holds sizes (create_buffer 16 4 []) (omega arith) (omega arith)))

six_written-Holds : Holds sizes 6 six_written
six_written-Holds = release_write_block-Holds sizes 5 _ (
    release_write_block-Holds sizes 4 _
      (release_write_block-Holds sizes 3 _ (release_write_block-Holds sizes 2 _ two_written-Holds)))

abbrev reader : ReaderState
reader = record { capture_cycle = 0; buffer_cycle = 0; out_ptr = 0; status = status_closed }

-- A reader that is up to date gets its block.
reads_first :
    get_read_block two_written [] two_written two_written reader
    ≡ (record reader { out_ptr = 1 }, block 0 10)
unfolding program
reads_first = refl

-- One that is late gets nothing, and its status tells why.
reads_late :
    get_read_block six_written [] six_written six_written reader
    ≡ (record reader { out_ptr = 1; status = status_overrun }, null)
unfolding program
reads_late = refl

waits : get_read_block fresh [] fresh fresh reader ≡ (reader, dummy)
unfolding program
waits = refl

starts_late :
    open_reader six_written [] reader 1
    ≡ opened (record reader { buffer_cycle = 1; out_ptr = 0 }) 46
unfolding program
starts_late = refl

release_write_block-Holds_example : Holds sizes 3 (release_write_block two_written 12)
release_write_block-Holds_example = release_write_block-Holds sizes 2 two_written two_written-Holds

abbrev at_first : ReaderAt 4 0 reader
at_first = record { cycles = 0; place = refl; inside = omega arith; counted = refl }

read_protocol_example :
    (◌≡◌ {A = ℕ} 0 (reader.out_ptr * two_written.block_size))
    × (10 ≡ sizes 0)
    × (2 < 0 + two_written.block_count)
    × ReaderAt two_written.block_count 1 (record reader { out_ptr = 1 })
unfolding program
read_protocol_example =
    read_protocol sizes 0 2 2 2 two_written two_written two_written two_written [] reader
      (record reader { out_ptr = 1 }) 0 10 two_written-Holds two_written-Holds two_written-Holds
      (refl, refl, refl) (omega arith) at_first reads_first refl

check_read_block_iff_example :
    ((2 < 0 + two_written.block_count)
      × (check_read_block two_written (record reader { out_ptr = 1 })
          ≡ (record reader { out_ptr = 1 }, true)))
    ⊎ ((0 + two_written.block_count ≤ 2)
        × (check_read_block two_written (record reader { out_ptr = 1 })
            ≡ (record reader { out_ptr = 1; status = status_overrun }, false)))
unfolding program
check_read_block_iff_example =
    check_read_block_iff sizes 2 0 two_written two_written-Holds (record reader { out_ptr = 1 })
      (record { cycles = 0; place = refl; inside = omega arith; counted = refl }) (omega arith)
      (omega arith)

compute_reader_start_lem_example :
    (r' : ReaderState) × (compute_reader_start six_written reader 1
      ≡ some (r', total sizes (6 + 1 + 1 - six_written.block_count) % u64_mod))
    × ReaderAt six_written.block_count (6 + 1 + 1 - six_written.block_count) r'
    × (r'.capture_cycle ≡ reader.capture_cycle)
unfolding program
compute_reader_start_lem_example =
    compute_reader_start_lem sizes 6 six_written six_written-Holds reader 1 (omega arith)
      (omega arith) (omega (arith, six_written-Holds.place, six_written-Holds.inside))

-- A reader connects, the capture starts, and the reader opens.
abbrev made : CaptureBuffer
made = create_buffer 16 4 []

abbrev connected : CaptureBuffer
connected = (create_reader made).0

abbrev running : World
running = record {
  buffer = start_write connected;
  clients =
      record {
        reader = record {
          capture_cycle = 0;
          buffer_cycle = 0;
          out_ptr = 0;
          status = status_closed;
        };
        opened = true;
      }
      ∷ [];
}

abbrev newcomer : ReaderState
newcomer = record { capture_cycle = 0; buffer_cycle = 0; out_ptr = 0; status = status_all_read }

running_reached : Reach (record { buffer = create_buffer 16 4 []; clients = [] }) running
unfolding program
running_reached =
    next
      (next (next here (connect made [] (omega arith)))
        (start connected (record { reader = newcomer; opened = false } ∷ []) refl))
      (begin_read (start_write connected) [] [] newcomer reader 1 0 refl)

Reach-IsConsistent_example : IsConsistent running
Reach-IsConsistent_example = Reach-IsConsistent 16 4 [] running_reached
