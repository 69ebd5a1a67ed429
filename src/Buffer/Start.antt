-- ===== src/Buffer/Start.antt =====
-- `compute_reader_start` of server/buffer.c: where a reader that is late starts, and the count of
-- the bytes that it has missed.
use native.Mathlib.Decide.{dec_lt, ℕ_discrete}
use native.Mathlib.Nat.{add-zero}
use pand_ablocks_server.Prelude.{
  ℕ, zero, suc, ◌+◌, ◌-◌, ◌*◌, ◌/◌, ◌%◌, ◌≤◌, ◌<◌, ◌≡◌, ◌≢◌, refl, ap, ◌∙◌, arith, true, some,
  u32_mod, u64_mod, add32, sub32, get_or, ltb, ◌==◌,
}
use pand_ablocks_server.Buffer.{CaptureBuffer}
use pand_ablocks_server.Buffer.History.{Holds, total, padded, total-padded}
use pand_ablocks_server.Buffer.Overrun.{ReaderAt, mul_mono, mul_pred}
use pand_ablocks_server.Buffer.Reader.{
  ReaderState, count_lost_loop, count_lost_bytes, compute_reader_start,
}

stop :
    (b : CaptureBuffer) (out_ptr fuel lost : ℕ)
    → count_lost_loop b out_ptr (suc fuel) out_ptr lost ≡ some lost
unfolding count_lost_loop
stop b out_ptr fuel lost = ground arith

pass :
    (p : ℕ → ℕ) (b : CaptureBuffer) (out_ptr fuel ix q : ℕ)
    → b.block_count < u32_mod
    → suc ix < b.block_count
    → get_or b.written ix 0 ≡ p q
    → ix ≢ out_ptr
    → count_lost_loop b out_ptr (suc fuel) ix (total p q % u64_mod)
      ≡ count_lost_loop b out_ptr fuel (suc ix) (total p (suc q) % u64_mod)
unfolding count_lost_loop total
pass p b out_ptr fuel ix q small lt h ne = ground arith

-- One step that goes round the end of the ring.
wrap :
    (p : ℕ → ℕ) (b : CaptureBuffer) (out_ptr fuel ix q : ℕ)
    → b.block_count < u32_mod
    → suc ix ≡ b.block_count
    → get_or b.written ix 0 ≡ p q
    → ix ≢ out_ptr
    → count_lost_loop b out_ptr (suc fuel) ix (total p q % u64_mod)
      ≡ count_lost_loop b out_ptr fuel 0 (total p (suc q) % u64_mod)
unfolding count_lost_loop total
wrap p b out_ptr fuel ix q small e h ne = ground arith

-- The walk over `d` slots in which neither the end of the ring nor `out_ptr` lies, with the slots
-- holding the sizes `p` from number `q` on.
walk :
    (p : ℕ → ℕ) (b : CaptureBuffer) (out_ptr d fuel ix q : ℕ)
    → b.block_count < u32_mod
    → ix + d < b.block_count
    → ((k : ℕ) → k < d → (get_or b.written (ix + k) 0 ≡ p (q + k)) × (ix + k ≢ out_ptr))
    → count_lost_loop b out_ptr (d + fuel) ix (total p q % u64_mod)
      ≡ count_lost_loop b out_ptr fuel (ix + d) (total p (q + d) % u64_mod)
walk p b out_ptr zero fuel ix q small lt h =
    let e : 0 + fuel ≡ fuel = omega arith in rw (e, add-zero, add-zero)
walk p b out_ptr (suc d) fuel ix q small lt h =
    let e : suc d + fuel ≡ suc (d + fuel) = omega arith in
    let now = h 0 (omega arith) in
    let f : ix + suc d ≡ suc ix + d = omega arith in
    let g : q + suc d ≡ suc q + d = omega arith in
    rw (e, f, g)
      (pass p b out_ptr (d + fuel) ix q small (omega arith) (rw (add-zero, add-zero) at now.0)
          (rw add-zero at now.1)
        ∙ walk p b out_ptr d fuel (suc ix) (suc q) small (omega arith) (λ k lt.
          let e : suc ix + k ≡ ix + suc k = omega arith in
          let f : suc q + k ≡ q + suc k = omega arith in rw (e, f) (h (suc k) (omega arith))))

total-zero : (s : ℕ → ℕ) (R : ℕ) → R ≡ 0 → 0 ≡ total s R
unfolding total
total-zero s R e = rw e

-- The three ways to start, by the sum of the writer's slot and the margin.
module _ (b : CaptureBuffer) (r : ReaderState) (read_margin out_ptr : ℕ)
    (sum : add32 (add32 b.in_ptr read_margin) 1 ≡ out_ptr) where
  start-first :
      b.buffer_cycle ≡ 0
      → out_ptr < b.block_count
      → compute_reader_start b r read_margin ≡ some (record r { buffer_cycle = 0; out_ptr = 0 }, 0)
  unfolding compute_reader_start
  start-first z lt =
      let c : (b.buffer_cycle == 0) ≡ true = ground arith in
      let d : ltb out_ptr b.block_count ≡ true = ground arith in rw (sum, c, d)

  start-round :
      (lost : ℕ)
      → b.block_count ≤ out_ptr
      → count_lost_bytes b (out_ptr - b.block_count) ≡ some lost
      → compute_reader_start b r read_margin
        ≡ some (record r { buffer_cycle = b.buffer_cycle; out_ptr = out_ptr - b.block_count }, lost)
  unfolding compute_reader_start
  start-round lost le e = ground (arith, sum, e)

  start-back :
      (lost : ℕ)
      → b.buffer_cycle ≢ 0
      → out_ptr < b.block_count
      → count_lost_bytes b out_ptr ≡ some lost
      → compute_reader_start b r read_margin
        ≡ some (record r { buffer_cycle = sub32 b.buffer_cycle 1; out_ptr = out_ptr }, lost)
  unfolding compute_reader_start
  start-back lost nz lt e = ground (arith, sum, e)

module _ (s : ℕ → ℕ) (n : ℕ) (b : CaptureBuffer) (h : Holds s n b) where
  -- From the writer's slot on to a later slot.
  count-ahead :
      (out_ptr : ℕ)
      → b.in_ptr ≤ out_ptr
      → out_ptr < b.block_count
      → count_lost_bytes b out_ptr
        ≡ some (total (padded s b.block_count) (n + (out_ptr - b.in_ptr)) % u64_mod)
  unfolding count_lost_bytes
  count-ahead out_ptr le lt =
      let d = out_ptr - b.in_ptr in
      let e : suc b.block_count ≡ d + suc (b.block_count - d) = omega arith in
      let g : b.in_ptr + d ≡ out_ptr = omega arith in
      ap (count_lost_loop b out_ptr (suc b.block_count) b.in_ptr) h.lost
      ∙ rw e (
          walk (padded s b.block_count) b out_ptr d (suc (b.block_count - d)) b.in_ptr n h.small
            (omega arith)
            (λ k kd. (
              h.older (b.in_ptr + k) (omega arith) (omega arith)
                  ∙ ap (padded s b.block_count) (omega (arith, h.place)),
              omega arith,
            ))
          ∙ rw g (stop b out_ptr (b.block_count - d) _))

  -- Round the end of the ring to an earlier slot.
  count-round :
      (out_ptr : ℕ)
      → out_ptr < b.in_ptr
      → count_lost_bytes b out_ptr
        ≡ some (total (padded s b.block_count) (n + (b.block_count - b.in_ptr) + out_ptr) % u64_mod)
  unfolding count_lost_bytes
  count-round out_ptr lt =
      let d = b.block_count - 1 - b.in_ptr in
      let p = padded s b.block_count in
      let e : suc b.block_count ≡ d + suc (out_ptr + suc (b.in_ptr - out_ptr)) =
        omega (arith, h.inside) in
      let g : suc (n + d) + out_ptr ≡ n + (b.block_count - b.in_ptr) + out_ptr =
        omega (arith, h.inside) in
      let z : 0 + out_ptr ≡ out_ptr = omega arith in
      ap (count_lost_loop b out_ptr (suc b.block_count) b.in_ptr) h.lost
      ∙ rw e (
          walk p b out_ptr d (suc (out_ptr + suc (b.in_ptr - out_ptr))) b.in_ptr n h.small
            (omega (arith, h.inside))
            (λ k kd. (
              h.older (b.in_ptr + k) (omega arith) (omega arith) ∙ ap p (omega (arith, h.place)),
              omega arith,
            ))
          ∙ wrap p b out_ptr (out_ptr + suc (b.in_ptr - out_ptr)) (b.in_ptr + d) (n + d) h.small
              (omega (arith, h.inside))
              (h.older (b.in_ptr + d) (omega arith) (omega (arith, h.inside))
                ∙ ap p (omega (arith, h.place)))
              (omega arith)
          ∙ walk p b out_ptr out_ptr (suc (b.in_ptr - out_ptr)) 0 (suc (n + d)) h.small
              (omega (arith, h.inside))
              (λ k kd. (
                ap (λ i. get_or b.written i 0) (omega arith)
                    ∙ h.newer k (omega arith)
                    ∙ ap p (omega (arith, h.place, h.inside)),
                omega arith,
              ))
          ∙ rw (z, g) (stop b out_ptr (b.in_ptr - out_ptr) _))

  first-start :
      (read_margin : ℕ)
      → h.cycles ≡ 0
      → b.in_ptr + read_margin + 1 < b.block_count
      → n + read_margin + 1 - b.block_count ≡ 0
  first-start read_margin z near =
      let e : h.cycles * b.block_count ≡ 0 = rw z (omega arith) in omega (arith, h.place)

  lost-from-start : (R k : ℕ) → k ≡ b.block_count + R → total (padded s b.block_count) k ≡ total s R
  lost-from-start R k e = rw e (total-padded s b.block_count R)

  -- A reader that opens with `read_margin` starts at block `n + read_margin + 1 - N`, or at the
  -- first block where that is before it: so at least `read_margin + 1` blocks are free before
  -- the writer comes round to it. The count of lost bytes is the sum of the sizes of the blocks
  -- before the start, as a 64-bit number.
  pub compute_reader_start_lem :
      (r : ReaderState) (read_margin : ℕ)
      → read_margin + 1 < b.block_count
      → b.block_count < u32_mod / 2
      → h.cycles < u32_mod
      → let R = n + read_margin + 1 - b.block_count in
        (r' : ReaderState) × (compute_reader_start b r read_margin ≡ some (r', total s R % u64_mod))
        × ReaderAt b.block_count R r'
        × (r'.capture_cycle ≡ r.capture_cycle)
  compute_reader_start_lem r read_margin room small short =
      let N = b.block_count in
      let out = b.in_ptr + read_margin + 1 in
      let sum : add32 (add32 b.in_ptr read_margin) 1 ≡ out = omega (arith, h.inside) in
      let first = λ (z : h.cycles ≡ 0) (near : out < N). first-start read_margin z near in
      elim (dec_lt out N) [
        | no far ↦ (
          record r { buffer_cycle = b.buffer_cycle; out_ptr = out - N },
          start-round b r read_margin out sum _ (omega arith) (
              count-round (out - N) (omega arith)
              ∙ ap (λ t. some (t % u64_mod))
                  (lost-from-start _ _ (omega (arith, h.place, h.inside)))),
          record {
            cycles = h.cycles;
            place = omega (arith, h.place);
            inside = omega (arith, h.inside);
            counted = h.counted;
          },
          refl,
        )
        | yes near ↦ elim (ℕ_discrete h.cycles 0) [
          | yes z ↦ (
            record r { buffer_cycle = 0; out_ptr = 0 },
            start-first b r read_margin out sum (omega (arith, h.counted)) near
                ∙ ap (λ t. some (record r { buffer_cycle = 0; out_ptr = 0 }, t % u64_mod))
                    (total-zero s _ (first z near)),
            record {
              cycles = 0;
              place = first z near ∙ omega arith;
              inside = omega arith;
              counted = refl;
            },
            refl,
          )
          | no nz ↦
              let m : (0 < h.cycles) × (h.cycles * N ≡ (h.cycles - 1) * N + N) =
                mul_pred h.cycles N
                  (omega (arith, mul_mono 1 h.cycles N (omega arith), h.inside)) in
              (
                record r { buffer_cycle = sub32 b.buffer_cycle 1; out_ptr = out },
                start-back b r read_margin out sum _ (omega (arith, h.counted)) near (
                    count-ahead out (omega arith) near
                    ∙ ap (λ t. some (t % u64_mod)) (lost-from-start _ _ (omega (arith, h.place)))),
                record {
                  cycles = h.cycles - 1;
                  place = omega (arith, h.place, m);
                  inside = near;
                  counted = omega (arith, h.counted, m);
                },
                refl,
              )
        ]
      ]
