-- ===== src/Buffer/Reading.antt =====
-- `get_read_block` and `check_read_block` of server/buffer.c together: what a reader has when the
-- check after its use of a block succeeds.
use native.Mathlib.Decide.{dec_lt, ℕ_discrete}
use pand_ablocks_server.Prelude.{
  ℕ, suc, ◌+◌, ◌-◌, ◌*◌, ◌≤◌, ◌<◌, ◌≡◌, ◌∙◌, arith, true, add32, leb, List, u32_mod, get_or, false,
}
use pand_ablocks_server.Buffer.{CaptureBuffer, get_buffer}
use pand_ablocks_server.Buffer.History.{Holds, padded-shift}
use pand_ablocks_server.Buffer.Overrun.{ReaderAt, mul_mono, check-block, check_read_block_iff}
use pand_ablocks_server.Buffer.Reader.{
  ReaderState, check_block_status, check_read_block, advance_reader, get_read_block, block,
}

-- The step to the next block.
pub advance_reader-ReaderAt :
    (b : CaptureBuffer) (R : ℕ) (r : ReaderState)
    → b.block_count < u32_mod
    → ReaderAt b.block_count R r
    → ReaderAt b.block_count (suc R) (advance_reader b r)
unfolding advance_reader
advance_reader-ReaderAt b R r small at = elim (dec_lt (suc r.out_ptr) b.block_count) [
  | yes p ↦
      let e : leb b.block_count (add32 r.out_ptr 1) ≡ false = ground (arith, at.inside) in
      rw e (record {
        cycles = at.cycles;
        place = omega (arith, at.place);
        inside = omega arith;
        counted = at.counted;
      })
  | no p ↦
      let e : leb b.block_count (add32 r.out_ptr 1) ≡ true = ground (arith, at.inside) in
      rw e (record {
        cycles = at.cycles + 1;
        place = omega (arith, at.place, at.inside);
        inside = omega (arith, at.inside);
        counted = omega (arith, at.counted);
      })
]

-- The slot of a block that has been released and not overwritten holds its size.
pub size-of-block :
    (s : ℕ → ℕ) (j R : ℕ) (b : CaptureBuffer) (r : ReaderState)
    → Holds s j b
    → ReaderAt b.block_count R r
    → R < j
    → j < suc (R + b.block_count)
    → get_or b.written r.out_ptr 0 ≡ s R
size-of-block s j R b r h at lt le = elim (dec_lt r.out_ptr b.in_ptr) [
  | yes p ↦ h.newer r.out_ptr p ∙ padded-shift s b.block_count R _ (same p)
  | no p ↦ h.older r.out_ptr (omega arith) at.inside ∙ padded-shift s b.block_count R _ (behind p)
]
  where
    N : ℕ
    N = b.block_count

    same : r.out_ptr < b.in_ptr → (h.cycles + 1) * b.block_count + r.out_ptr ≡ b.block_count + R
    same p = elim (ℕ_discrete h.cycles at.cycles) [
      | yes e ↦ rw e (omega (arith, at.place))
      | no ne ↦ elim (dec_lt h.cycles at.cycles) [
        | yes k ↦ absurd (
            omega (
              arith,
              mul_mono (h.cycles + 1) at.cycles b.block_count (omega arith),
              h.place,
              at.place,
              h.inside,
            ))
        | no k ↦ absurd (
            omega (
              arith,
              mul_mono (at.cycles + 1) h.cycles b.block_count (omega arith),
              h.place,
              at.place,
            ))
      ]
    ]

    behind : ¬ (r.out_ptr < b.in_ptr) → h.cycles * b.block_count + r.out_ptr ≡ b.block_count + R
    behind p = elim (ℕ_discrete h.cycles (at.cycles + 1)) [
      | yes e ↦ rw e (omega (arith, at.place))
      | no ne ↦ elim (dec_lt h.cycles (at.cycles + 1)) [
        | yes k ↦ absurd (
            omega
              (arith, mul_mono h.cycles at.cycles b.block_count (omega arith), h.place, at.place))
        | no k ↦ absurd (
            omega (
              arith,
              mul_mono (at.cycles + 2) h.cycles b.block_count (omega arith),
              h.place,
              at.place,
              at.inside,
            ))
      ]
    ]

-- What the whole of `get_read_block` returned when it returned a block: its check passed.
got-block :
    (b checked read : CaptureBuffer) (wakes : List CaptureBuffer) (r r' : ReaderState)
    (offset len : ℕ)
    → get_read_block b wakes checked read r ≡ (r', block offset len)
    → (check_block_status checked (advance_reader b r) r.buffer_cycle r.out_ptr
        ≡ (advance_reader b r, true))
      × (r' ≡ advance_reader b r)
      × (offset ≡ r.out_ptr * b.block_size)
      × (len ≡ get_or read.written r.out_ptr 0)
unfolding get_read_block check_block_status get_buffer
got-block b checked read wakes r r' offset len e = ground arith

checked-released :
    (s : ℕ → ℕ) (R m : ℕ) (b : CaptureBuffer) (r' r : ReaderState)
    → Holds s m b
    → ReaderAt b.block_count R r
    → R ≤ m
    → m < R + (u32_mod - 1) * b.block_count
    → check_block_status b r' r.buffer_cycle r.out_ptr ≡ (r', true)
    → R < m
checked-released s R m b r' r h at le far e = ground (
  arith,
  check-block s m R b h r' r.buffer_cycle at.cycles r.out_ptr at.counted at.place at.inside le far,
)

check-fresh :
    (s : ℕ → ℕ) (R k : ℕ) (b : CaptureBuffer) (r : ReaderState)
    → Holds s k b
    → ReaderAt b.block_count (suc R) r
    → R < k
    → k < R + (u32_mod - 1) * b.block_count
    → (check_read_block b r).1 ≡ true
    → k < R + b.block_count
check-fresh s R k b r h at lt far ok = ground (arith, check_read_block_iff s k R b h r at lt far)

-- The protocol of a reader at block `R`: the wait begins at the buffer `b`, the block is checked
-- when `m` blocks have been released, its length is read at `j` and the reader's own check comes
-- at `k`, fewer than 2^32 - 1 rounds of the ring later. If `get_read_block` returned a block and
-- `check_read_block` then answers true, the block is number `R`: the offset is that of its slot,
-- the length is its size, its slot had not been written again at `k`, and the reader stands at
-- block `R + 1`.
pub read_protocol :
    (s : ℕ → ℕ) (R m j k : ℕ) (b checked read after : CaptureBuffer) (wakes : List CaptureBuffer)
    (r r' : ReaderState) (offset len : ℕ)
    → Holds s m checked
    → Holds s j read
    → Holds s k after
    → (b.block_count ≡ after.block_count)
      × (checked.block_count ≡ after.block_count)
      × (read.block_count ≡ after.block_count)
    → (R ≤ m) × (m ≤ j) × (j ≤ k) × (k < R + (u32_mod - 1) * after.block_count)
    → ReaderAt after.block_count R r
    → get_read_block b wakes checked read r ≡ (r', block offset len)
    → (check_read_block after r').1 ≡ true
    → (offset ≡ r.out_ptr * b.block_size)
      × (len ≡ s R)
      × (k < R + after.block_count)
      × ReaderAt after.block_count (suc R) r'
read_protocol s R m j k b checked read after wakes r r' offset len hm hj hk n o at got ok =
    let g = got-block b checked read wakes r r' offset len got in
    let step : ReaderAt after.block_count (suc R) r' =
      rw (g.1, ← n.0) (advance_reader-ReaderAt b R r (rw n.0 hk.small) (rw n.0 at)) in
    let released =
      checked-released s R m checked (advance_reader b r) r hm (rw n.1 at) o.0
        (rw n.1 (omega arith)) g.0 in
    let fresh = check-fresh s R k after r' hk step (omega arith) o.3 ok in
    (
      g.2,
      g.3 ∙ size-of-block s j R read r hj (rw n.2 at) (omega arith) (rw n.2 (omega arith)),
      fresh,
      step,
    )
