-- ===== src/Buffer/History.antt =====
-- What the ring of server/buffer.c holds, against the sequence of the sizes of all the blocks
-- that the writer has released since `start_write`.
use native.Mathlib.Decide.{dec_lt, ℕ_discrete}
use pand_ablocks_server.Prelude.{
  ℕ, zero, suc, ◌+◌, ◌-◌, ◌*◌, ◌%◌, ◌≤◌, ◌<◌, ◌≡◌, refl, sym, ap, ◌∙◌, arith, u32_mod, u64_mod,
  if◌then◌else◌, ltb, length, get_or, set, length-set, length-replicate, get_or-replicate,
  get_or-set_self, get_or-set_ne,
}
use pand_ablocks_server.Buffer.{CaptureBuffer, start_write, release_write_block}

-- The sum of the first `n` sizes.
unfoldable pub total : (ℕ → ℕ) → ℕ → ℕ
total s zero = 0
total s (suc n) = total s n + s n

-- The sizes behind `N` empty blocks, which stand for the ring before the first block.
unfoldable pub padded : (ℕ → ℕ) → ℕ → ℕ → ℕ
padded s N j = if ltb j N then 0 else s (j - N)

-- `n` blocks of the sequence `s` have been released into the buffer: the writer stands at block
-- `n` modulo the ring, each slot holds the size of the last block written there, and the count of
-- lost bytes is the sum of the sizes that have been overwritten.
pub record Holds (s : ℕ → ℕ) (n : ℕ) (b : CaptureBuffer) : Type 0 where
  pub cycles : ℕ
  pub place : n ≡ cycles * b.block_count + b.in_ptr
  pub inside : b.in_ptr < b.block_count
  pub small : b.block_count < u32_mod
  pub width : length b.written ≡ b.block_count
  pub counted : b.buffer_cycle ≡ cycles % u32_mod
  pub newer :
      (i : ℕ)
      → i < b.in_ptr
      → get_or b.written i 0 ≡ padded s b.block_count ((cycles + 1) * b.block_count + i)
  pub older :
      (i : ℕ)
      → b.in_ptr ≤ i
      → i < b.block_count
      → get_or b.written i 0 ≡ padded s b.block_count (cycles * b.block_count + i)
  pub lost : b.lost_bytes ≡ total (padded s b.block_count) n % u64_mod

total-padded_low : (s : ℕ → ℕ) (N n : ℕ) → n ≤ N → total (padded s N) n ≡ 0
unfolding total padded
total-padded_low s N zero h = refl
total-padded_low s N (suc n) h = ground (arith, total-padded_low s N n)

pub total-padded : (s : ℕ → ℕ) (N n : ℕ) → total (padded s N) (N + n) ≡ total s n
unfolding total padded
total-padded s N zero = omega (arith, total-padded_low s N (N + 0))
total-padded s N (suc n) =
    let e : N + suc n ≡ suc (N + n) = omega arith in rw e (ground (arith, total-padded s N n))

-- `start_write` leaves an empty history.
pub start_write-Holds :
    (s : ℕ → ℕ) (b : CaptureBuffer)
    → 0 < b.block_count
    → b.block_count < u32_mod
    → Holds s 0 (start_write b)
unfolding start_write padded total
start_write-Holds s b pos small = record {
  cycles = 0;
  place = omega arith;
  inside = omega arith;
  small = small;
  width = length-replicate b.block_count 0;
  counted = refl;
  newer = λ i h. absurd (omega arith);
  older = λ i h k. rw get_or-replicate (ground arith);
  lost = refl;
}

pub padded-shift : (s : ℕ → ℕ) (N k j : ℕ) → j ≡ N + k → padded s N j ≡ s k
unfolding padded
padded-shift s N k j e = let d : N + k - N ≡ k = omega arith in rw e (ground (arith, d))

-- The two ways to step on: to the next slot, or round to the first one.
release-inside :
    (b : CaptureBuffer) (w : ℕ)
    → suc b.in_ptr < b.block_count
    → b.block_count < u32_mod
    → release_write_block b w ≡ record b {
      lost_bytes = (b.lost_bytes + get_or b.written b.in_ptr 0) % u64_mod;
      written = set b.written b.in_ptr w;
      in_ptr = suc b.in_ptr;
    }
unfolding release_write_block
release-inside b w h small = ground arith

release-wraps :
    (b : CaptureBuffer) (w : ℕ)
    → suc b.in_ptr ≡ b.block_count
    → b.block_count < u32_mod
    → release_write_block b w ≡ record b {
      lost_bytes = (b.lost_bytes + get_or b.written b.in_ptr 0) % u64_mod;
      written = set b.written b.in_ptr w;
      in_ptr = 0;
      buffer_cycle = (b.buffer_cycle + 1) % u32_mod;
    }
unfolding release_write_block
release-wraps b w h small = ground arith

-- The size that is overwritten joins the lost bytes, and the slot holds the new size.
module _ (s : ℕ → ℕ) (n : ℕ) (b : CaptureBuffer) (h : Holds s n b) where
  padded-slot : padded s b.block_count ((h.cycles + 1) * b.block_count + b.in_ptr) ≡ s n
  unfolding padded
  padded-slot =
      let e : (h.cycles + 1) * b.block_count + b.in_ptr - b.block_count ≡ n = omega arith in
      ground (arith, e)

  padded-place :
      padded s b.block_count (h.cycles * b.block_count + b.in_ptr) ≡ padded s b.block_count n
  padded-place = ap (padded s b.block_count) (sym h.place)

  lost-release :
      (b.lost_bytes + get_or b.written b.in_ptr 0) % u64_mod
      ≡ total (padded s b.block_count) (suc n) % u64_mod
  unfolding total
  lost-release = omega (arith, h.older b.in_ptr (omega arith) h.inside, padded-place)

  newer-release :
      (i : ℕ)
      → i < suc b.in_ptr
      → get_or (set b.written b.in_ptr (s n)) i 0
        ≡ padded s b.block_count ((h.cycles + 1) * b.block_count + i)
  newer-release i lt = elim (ℕ_discrete b.in_ptr i) [
    | yes e ↦ rw (← e, get_or-set_self b.written b.in_ptr (s n) 0 (omega arith)) (sym padded-slot)
    | no ne ↦ get_or-set_ne b.written b.in_ptr i (s n) 0 ne ∙ h.newer i (omega arith)
  ]

-- Releasing a block adds its size to the history.
pub release_write_block-Holds :
    (s : ℕ → ℕ) (n : ℕ) (b : CaptureBuffer)
    → Holds s n b
    → Holds s (suc n) (release_write_block b (s n))
release_write_block-Holds s n b h = elim (dec_lt (suc b.in_ptr) b.block_count) [
  | yes p ↦ rw (release-inside b (s n) p h.small) (record {
    cycles = h.cycles;
    place = omega (arith, h.place);
    inside = p;
    small = h.small;
    width = length-set b.written b.in_ptr (s n) ∙ h.width;
    counted = h.counted;
    newer = newer-release s n b h;
    older = λ i le lt.
        get_or-set_ne b.written b.in_ptr i (s n) 0 (omega arith) ∙ h.older i (omega arith) lt;
    lost = lost-release s n b h;
  })
  | no p ↦ rw (release-wraps b (s n) (omega (arith, h.inside)) h.small) (record {
    cycles = h.cycles + 1;
    place = omega (arith, h.place, h.inside);
    inside = omega (arith, h.inside);
    small = h.small;
    width = length-set b.written b.in_ptr (s n) ∙ h.width;
    counted = omega (arith, h.counted);
    newer = λ i lt. absurd (omega arith);
    older = λ i le lt. newer-release s n b h i (omega (arith, h.inside));
    lost = lost-release s n b h;
  })
]
