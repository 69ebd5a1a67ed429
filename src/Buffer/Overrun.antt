-- ===== src/Buffer/Overrun.antt =====
-- The overrun checks of server/buffer.c, against the positions of the writer and of a reader in
-- the whole sequence of blocks.
use native.Mathlib.Decide.{dec_lt, ℕ_discrete}
use mathlib.Core.Bool.{false≢true}
use pand_ablocks_server.Prelude.{
  ℕ, zero, suc, ◌+◌, ◌-◌, ◌*◌, ◌%◌, ◌≤◌, ◌<◌, ◌≡◌, ◌↔◌, ◌⊎◌, sym, ap, ◌∙◌, arith, true, false,
  u32_mod, sub32, ltb, Bool-cases, inl, inr,
}
use pand_ablocks_server.Buffer.{CaptureBuffer}
use pand_ablocks_server.Buffer.History.{Holds}
use pand_ablocks_server.Buffer.Reader.{
  ReaderState, check_overrun_ok, check_block_status, check_read_block, status_overrun,
}

-- The reader's next block is number `R` of the sequence, in a ring of `N` blocks.
pub record ReaderAt (N R : ℕ) (r : ReaderState) : Type 0 where
  pub cycles : ℕ
  pub place : R ≡ cycles * N + r.out_ptr
  pub inside : r.out_ptr < N
  pub counted : r.buffer_cycle ≡ cycles % u32_mod

mul_step : (a b N : ℕ) → a < b → a * N + N ≤ b * N
mul_step a b N h = grind arith

pub mul_mono : (a b N : ℕ) → a ≤ b → a * N ≤ b * N
mul_mono a b N h = grind arith

pub mul_pred : (a N : ℕ) → 0 < a * N → (0 < a) × (a * N ≡ (a - 1) * N + N)
mul_pred zero N h = absurd (omega arith)
mul_pred (suc a) N h = let e : suc a - 1 ≡ a = omega arith in rw e (omega arith)

-- Two positions, compared by their cycles and slots.
pub cycles-le : (N a x b y : ℕ) → x < N → y < N → a * N + x ≤ b * N + y → a ≤ b
cycles-le N a x b y hx hy h = elim (dec_lt b a) [
  | yes p ↦ absurd (omega (arith, mul_step b a N p))
  | no p ↦ omega arith
]

module _ (N cw cr in_ptr out_ptr : ℕ) (hw : in_ptr < N) (hr : out_ptr < N) where
  near :
      cr * N + out_ptr ≤ cw * N + in_ptr
      → cw * N + in_ptr < cr * N + out_ptr + (u32_mod - 1) * N
      → (cr ≤ cw) × (cw < cr + u32_mod)
  near le lt = (
    cycles-le N cr out_ptr cw in_ptr hr hw le,
    elim (dec_lt cw (cr + u32_mod)) [
      | yes p ↦ p
      | no p ↦ absurd (omega (arith, mul_mono (cr + u32_mod) cw N (omega arith)))
    ],
  )

  pub check_overrun_ok_lem :
      cr * N + out_ptr ≤ cw * N + in_ptr
      → cw * N + in_ptr < cr * N + out_ptr + (u32_mod - 1) * N
      → (check_overrun_ok (cw % u32_mod) (cr % u32_mod) in_ptr out_ptr ≡ true)
        ↔ ((cr * N + out_ptr < cw * N + in_ptr) × (cw * N + in_ptr < cr * N + out_ptr + N))
  unfolding check_overrun_ok
  check_overrun_ok_lem le lt =
      let nr = near le lt in
      elim (ℕ_discrete cw cr) [
        | yes e ↦ let p : cw * N ≡ cr * N = ap (λ k. k * N) e in rw e (ground arith)
        | no ne ↦ elim (ℕ_discrete cw (suc cr)) [
          | yes e ↦ rw e (ground arith)
          | no ne' ↦ let m = mul_mono (suc (suc cr)) cw N (omega arith) in ground arith
        ]
      ]

module _ (s : ℕ → ℕ) (n R : ℕ) (b : CaptureBuffer) (h : Holds s n b) where
  -- The test of a block that the reader stands at: it tells exactly whether the block has been
  -- released and its slot is not being written again.
  check-position :
      (cr out_ptr : ℕ)
      → R ≡ cr * b.block_count + out_ptr
      → out_ptr < b.block_count
      → R ≤ n
      → n < R + (u32_mod - 1) * b.block_count
      → (check_overrun_ok b.buffer_cycle (cr % u32_mod) b.in_ptr out_ptr ≡ true)
        ↔ ((R < n) × (n < R + b.block_count))
  check-position cr out_ptr e inside le lt =
      let t =
        check_overrun_ok_lem b.block_count h.cycles cr b.in_ptr out_ptr h.inside inside
          (omega (arith, h.place)) (omega (arith, h.place)) in
      rw (h.counted, e)
        (
          (λ c. omega (arith, t.0 c, h.place)),
          (λ c. t.1 (omega (arith, c.0, h.place), omega (arith, c.1, h.place))),
        )

  -- What the check of that block does.
  pub check-block :
      (r : ReaderState) (c cr out_ptr : ℕ)
      → c ≡ cr % u32_mod
      → R ≡ cr * b.block_count + out_ptr
      → out_ptr < b.block_count
      → R ≤ n
      → n < R + (u32_mod - 1) * b.block_count
      → ((R < n) × (n < R + b.block_count) × (check_block_status b r c out_ptr ≡ (r, true)))
        ⊎ (((n ≡ R) ⊎ (R + b.block_count ≤ n))
            × (check_block_status b r c out_ptr ≡ (record r { status = status_overrun }, false)))
  unfolding check_block_status
  check-block r c cr out_ptr ec e inside le lt =
      let t = check-position cr out_ptr e inside le lt in
      elim (Bool-cases (check_overrun_ok b.buffer_cycle (cr % u32_mod) b.in_ptr out_ptr)) [
        | inl ok ↦ inl ((t.0 ok).0, (t.0 ok).1, rw (ec, ok))
        | inr bad ↦ inr (
          elim (ℕ_discrete n R) [
            | yes q ↦ inl q
            | no q ↦ elim (dec_lt n (R + b.block_count)) [
              | yes k ↦ absurd (false≢true (sym bad ∙ t.1 (omega arith, k)))
              | no k ↦ inr (omega arith)
            ]
          ],
          rw (ec, bad),
        )
      ]

  -- For a reader whose last block was number `R`, with `R` released and fewer than 2^32 - 1
  -- rounds of the ring since: `check_read_block` answers true, and leaves the reader alone,
  -- exactly when the writer has not come round to that block; else the status becomes overrun.
  pub check_read_block_iff :
      (r : ReaderState)
      → ReaderAt b.block_count (suc R) r
      → R < n
      → n < R + (u32_mod - 1) * b.block_count
      → ((n < R + b.block_count) × (check_read_block b r ≡ (r, true)))
        ⊎ ((R + b.block_count ≤ n)
            × (check_read_block b r ≡ (record r { status = status_overrun }, false)))
  unfolding check_read_block
  check_read_block_iff r at lt far = elim (dec_lt 0 r.out_ptr) [
    | yes p ↦
        let t =
          check-block r r.buffer_cycle at.cycles (r.out_ptr - 1) at.counted
            (omega (arith, at.place)) (omega (arith, at.inside)) (omega arith) far in
        let e : ltb 0 r.out_ptr ≡ true = ground arith in rw e (ground (arith, t))
    | no p ↦
        let e : ltb 0 r.out_ptr ≡ false = ground arith in
        let m = mul_pred at.cycles b.block_count (omega (arith, at.place)) in
        let t =
          check-block r (sub32 r.buffer_cycle 1) (at.cycles - 1) (b.block_count - 1)
            (omega (arith, at.counted, m)) (omega (arith, at.place, m)) (omega (arith, at.inside))
            (omega arith) far in
        rw e (ground (arith, t))
  ]
