-- ===== src/Parse/Ranges.antt =====
-- The tests of server/utf8_check.c as ranges of bytes.
use pand_ablocks_server.Prelude.{
  ℕ, suc, ◌≤◌, ◌<◌, ◌≡◌, refl, sym, arith, Bool, true, false, not, ◌||◌, ◌&&◌, List, ltb, leb, ◌==◌,
  if◌then◌else◌, drop, peek, bit_and, holds_below, holds_below_lem,
}
use pand_ablocks_server.Parse.Utf8.{
  continues, overlong_or_surrogate, overlong_or_large, sequence_length,
}

unfoldable pub within : ℕ → ℕ → ℕ → Bool
within lo hi x = leb lo x && ltb x hi

alike : Bool → Bool → Bool
alike true b = b
alike false b = not b

alike_eq : (a b : Bool) → alike a b ≡ true → a ≡ b
unfolding alike
alike_eq true b h = sym h
alike_eq false b h = ground arith

-- A mask test of a byte is a range, checked for all bytes.
masked :
    (mask value lo hi : ℕ)
    → holds_below (λ x. alike (bit_and x mask == value) (within lo hi x)) 256 ≡ true
    → (x : ℕ) → x < 256
    → (bit_and x mask == value) ≡ within lo hi x
masked mask value lo hi passed x h =
    alike_eq (bit_and x mask == value) (within lo hi x)
      (holds_below_lem (λ x. alike (bit_and x mask == value) (within lo hi x)) 256 passed x h)

continues_range : (x : ℕ) → x < 256 → continues x ≡ within 0x80 0xc0 x
unfolding continues holds_below alike within
continues_range x h = masked 0xc0 0x80 0x80 0xc0 refl x h

surrogate_range :
    (a b c : ℕ)
    → b < 256
    → c < 256
    → overlong_or_surrogate a b c ≡ (
        a == 0xe0 && within 0x80 0xa0 b
        || a == 0xed && within 0xa0 0xc0 b
        || a == 0xef && b == 0xbf && within 0xbe 0xc0 c)
unfolding overlong_or_surrogate holds_below alike within
surrogate_range a b c h k =
    rw
      (
        masked 0xe0 0x80 0x80 0xa0 refl b h,
        masked 0xe0 0xa0 0xa0 0xc0 refl b h,
        masked 0xfe 0xbe 0xbe 0xc0 refl c k,
      )
      refl

large_range :
    (a b : ℕ)
    → b < 256
    → overlong_or_large a b
      ≡ (a == 0xf0 && within 0x80 0x90 b || a == 0xf4 && ltb 0x8f b || ltb 0xf4 a)
unfolding overlong_or_large holds_below alike within
large_range a b h = rw (masked 0xf0 0x80 0x80 0x90 refl b h) refl

-- The sequence's length by ranges.
unfoldable pub by_range : ℕ → ℕ → ℕ → ℕ → ℕ
by_range a b c d =
    if ltb a 0x80
    then 1
    else if within 0xc0 0xe0 a
    then if not (within 0x80 0xc0 b) || within 0xc0 0xc2 a then 0 else 2
    else if within 0xe0 0xf0 a
    then if not (within 0x80 0xc0 b)
        || not (within 0x80 0xc0 c)
        || (a == 0xe0 && within 0x80 0xa0 b
            || a == 0xed && within 0xa0 0xc0 b
            || a == 0xef && b == 0xbf && within 0xbe 0xc0 c)
      then 0
      else 3
    else if within 0xf0 0xf8 a
    then if not (within 0x80 0xc0 b)
        || not (within 0x80 0xc0 c)
        || not (within 0x80 0xc0 d)
        || (a == 0xf0 && within 0x80 0x90 b || a == 0xf4 && ltb 0x8f b || ltb 0xf4 a)
      then 0
      else 4
    else 0

pub record IsBytes (s : List ℕ) : Type 0 where
  pub a : peek s < 256
  pub b : peek (drop 1 s) < 256
  pub c : peek (drop 2 s) < 256
  pub d : peek (drop 3 s) < 256

pub sequence_length_range :
    (s : List ℕ)
    → IsBytes s
    → sequence_length s ≡ by_range (peek s) (peek (drop 1 s)) (peek (drop 2 s)) (peek (drop 3 s))
unfolding sequence_length by_range holds_below alike within
sequence_length_range s i =
    rw
      (
        continues_range (peek (drop 1 s)) i.b,
        continues_range (peek (drop 2 s)) i.c,
        continues_range (peek (drop 3 s)) i.d,
        masked 0xe0 0xc0 0xc0 0xe0 refl (peek s) i.a,
        masked 0xfe 0xc0 0xc0 0xc2 refl (peek s) i.a,
        masked 0xf0 0xe0 0xe0 0xf0 refl (peek s) i.a,
        masked 0xf8 0xf0 0xf0 0xf8 refl (peek s) i.a,
        surrogate_range (peek s) (peek (drop 1 s)) (peek (drop 2 s)) i.b i.c,
        large_range (peek s) (peek (drop 1 s)) i.b,
      )
      refl

-- The bytes of a sequence, by its length.
pub record IsTwo (a b : ℕ) : Type 0 where
  pub first : (0xc2 ≤ a) × (a < 0xe0)
  pub second : (0x80 ≤ b) × (b < 0xc0)

pub record IsThree (a b c : ℕ) : Type 0 where
  pub first : (0xe0 ≤ a) × (a < 0xf0)
  pub second : (0x80 ≤ b) × (b < 0xc0)
  pub third : (0x80 ≤ c) × (c < 0xc0)
  pub no_overlong : a ≡ 0xe0 → 0xa0 ≤ b
  pub no_surrogate : a ≡ 0xed → b < 0xa0
  pub no_special : a ≡ 0xef → b ≡ 0xbf → c < 0xbe

pub record IsFour (a b c d : ℕ) : Type 0 where
  pub first : (0xf0 ≤ a) × (a < 0xf5)
  pub second : (0x80 ≤ b) × (b < 0xc0)
  pub third : (0x80 ≤ c) × (c < 0xc0)
  pub fourth : (0x80 ≤ d) × (d < 0xc0)
  pub no_overlong : a ≡ 0xf0 → 0x90 ≤ b
  pub no_large : a ≡ 0xf4 → b < 0x90

pub two_passes : (a b c d : ℕ) → IsTwo a b → by_range a b c d ≡ 2
unfolding by_range within
two_passes a b c d i = ground (arith, i.first, i.second)

pub three_passes : (a b c d : ℕ) → IsThree a b c → by_range a b c d ≡ 3
unfolding by_range within
three_passes a b c d i =
    ground (arith, i.first, i.second, i.third, i.no_overlong, i.no_surrogate, i.no_special)

pub four_passes : (a b c d : ℕ) → IsFour a b c d → by_range a b c d ≡ 4
unfolding by_range within
four_passes a b c d i =
    ground (arith, i.first, i.second, i.third, i.fourth, i.no_overlong, i.no_large)

pub range_one : (a b c d : ℕ) → by_range a b c d ≡ 1 → a < 0x80
unfolding by_range within
range_one a b c d e = ground arith

pub range-IsTwo : (a b c d : ℕ) → by_range a b c d ≡ 2 → IsTwo a b
unfolding by_range within
range-IsTwo a b c d e = record { first = ground (arith, e); second = ground (arith, e) }

pub range-IsThree : (a b c d : ℕ) → by_range a b c d ≡ 3 → IsThree a b c
unfolding by_range within
range-IsThree a b c d e = record {
  first = ground (arith, e);
  second = ground (arith, e);
  third = ground (arith, e);
  no_overlong = λ h. ground (arith, e);
  no_surrogate = λ h. ground (arith, e);
  no_special = λ h k. ground (arith, e);
}

pub range-IsFour : (a b c d : ℕ) → by_range a b c d ≡ 4 → IsFour a b c d
unfolding by_range within
range-IsFour a b c d e = record {
  first = ground (arith, e);
  second = ground (arith, e);
  third = ground (arith, e);
  fourth = ground (arith, e);
  no_overlong = λ h. ground (arith, e);
  no_large = λ h. ground (arith, e);
}

pub range_lengths : (a b c d n : ℕ) → by_range a b c d ≡ suc n → n < 4
unfolding by_range within
range_lengths a b c d n e = ground (arith, e)
