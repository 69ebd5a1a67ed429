-- ===== src/ParseLut/Truth.antt =====
-- The words of server/parse_lut.c as truth tables: each bit is worked out from the bits of the
-- operands at the same place.
use pand_ablocks_server.Prelude.{
  ℕ, zero, suc, ◌/◌, ◌%◌, ◌<◌, ◌≡◌, refl, sym, ◌∙◌, arith, Bool, true, false, ◌||◌, ◌&&◌, not, ◌==◌,
  if◌then◌else◌, Bool-cases, inl, inr, ◌⊎◌, bit_and, bit_or, bit_xor, holds_below, holds_below_lem,
}
use Prim.Native.Nat.{differ}
use pand_ablocks_server.Prelude.Bits.{bit_and-step, bit_or-step, bit_xor-step}
use pand_ablocks_server.ParseLut.{Ops, word_constant, word_ops}

-- Bit `i` of a word.
abbrev pub test_bit : ℕ → ℕ → Bool
test_bit zero x = x % 2 == 1
test_bit (suc i) x = test_bit i (x / 2)

abbrev exclusive : Bool → Bool → Bool
exclusive true b = not b
exclusive false b = b

-- The inputs A to E are the digits of the row's number, A the highest.
unfoldable pub row_constant : ℕ → ℕ → Bool
row_constant row ch =
    if ch == b'1'
    then true
    else if ch == b'A'
    then test_bit 4 row
    else if ch == b'B'
    then test_bit 3 row
    else if ch == b'C'
    then test_bit 2 row
    else if ch == b'D'
    then test_bit 1 row
    else if ch == b'E'
    then test_bit 0 row
    else false

-- The operations at one row.
unfoldable pub row_ops : ℕ → Ops Bool
unfolding row_constant
row_ops row = record {
  constant = row_constant row;
  complement = not;
  conj = λ x y. x && y;
  disj = λ x y. x || y;
  differ = exclusive;
}

test_bit-and : (i x y : ℕ) → test_bit i (bit_and x y) ≡ (test_bit i x && test_bit i y)
test_bit-and zero x y = ground (arith, bit_and-step x y)
test_bit-and (suc i) x y =
    let e : bit_and x y / 2 ≡ bit_and (x / 2) (y / 2) = omega (arith, bit_and-step x y) in
    rw e (test_bit-and i (x / 2) (y / 2))

test_bit-or : (i x y : ℕ) → test_bit i (bit_or x y) ≡ (test_bit i x || test_bit i y)
test_bit-or zero x y = ground (arith, bit_or-step x y)
test_bit-or (suc i) x y =
    let e : bit_or x y / 2 ≡ bit_or (x / 2) (y / 2) = omega (arith, bit_or-step x y) in
    rw e (test_bit-or i (x / 2) (y / 2))

differ_digit : (x y : ℕ) → differ (x % 2) (y % 2) < 2
differ_digit x y = elim (mod_two x) [
  | inl e ↦ elim (mod_two y) [ inl f ↦ rw (e, f) (omega arith) | inr f ↦ rw (e, f) (omega arith) ]
  | inr e ↦ elim (mod_two y) [ inl f ↦ rw (e, f) (omega arith) | inr f ↦ rw (e, f) (omega arith) ]
]
  where
    mod_two : (x : ℕ) → (x % 2 ≡ 0) ⊎ (x % 2 ≡ 1)
    mod_two x = ground arith

test_bit-xor : (i x y : ℕ) → test_bit i (bit_xor x y) ≡ exclusive (test_bit i x) (test_bit i y)
test_bit-xor zero x y = ground (arith, bit_xor-step x y)
test_bit-xor (suc i) x y =
    let e : bit_xor x y / 2 ≡ bit_xor (x / 2) (y / 2) =
      omega (arith, bit_xor-step x y, differ_digit x y) in
    rw e (test_bit-xor i (x / 2) (y / 2))

-- What the operations of two parsers have to do with each other.
pub record IsHom {ℓ κ} {V : Type ℓ} {W : Type κ} (o : Ops V) (o' : Ops W) (h : V → W)
    : Type (ℓ ⊔ κ) where
  pub on_constant : (ch : ℕ) → h (o.constant ch) ≡ o'.constant ch
  pub on_complement : (x : V) → h (o.complement x) ≡ o'.complement (h x)
  pub on_conj : (x y : V) → h (o.conj x y) ≡ o'.conj (h x) (h y)
  pub on_disj : (x y : V) → h (o.disj x y) ≡ o'.disj (h x) (h y)
  pub on_differ : (x y : V) → h (o.differ x y) ≡ o'.differ (h x) (h y)

same : Bool → Bool → Bool
same true b = b
same false b = not b

same_eq : (a b : Bool) → same a b ≡ true → a ≡ b
unfolding same
same_eq true b h = sym h
same_eq false b h = ground arith

-- The bits of a constant, compared one by one.
bits_below :
    (word : ℕ) (f : ℕ → Bool)
    → holds_below (λ row. same (test_bit row word) (f row)) 32 ≡ true
    → (row : ℕ) → row < 32
    → test_bit row word ≡ f row
bits_below word f passed row h =
    same_eq (test_bit row word) (f row)
      (holds_below_lem (λ row. same (test_bit row word) (f row)) 32 passed row h)

constant_bits : (row ch : ℕ) → row < 32 → test_bit row (word_constant ch) ≡ row_constant row ch
unfolding word_constant row_constant holds_below same
constant_bits row ch h = elim (Bool-cases (ch == b'1')) [
  | inl t ↦ rw t (bits_below 0xffff_ffff (λ r. true) refl row h)
  | inr t ↦ rw t (elim (Bool-cases (ch == b'A')) [
    | inl t ↦ rw t (bits_below 0xffff_0000 (test_bit 4) refl row h)
    | inr t ↦ rw t (elim (Bool-cases (ch == b'B')) [
      | inl t ↦ rw t (bits_below 0xff00_ff00 (test_bit 3) refl row h)
      | inr t ↦ rw t (elim (Bool-cases (ch == b'C')) [
        | inl t ↦ rw t (bits_below 0xf0f0_f0f0 (test_bit 2) refl row h)
        | inr t ↦ rw t (elim (Bool-cases (ch == b'D')) [
          | inl t ↦ rw t (bits_below 0xcccc_cccc (test_bit 1) refl row h)
          | inr t ↦ rw t (elim (Bool-cases (ch == b'E')) [
            | inl t ↦ rw t (bits_below 0xaaaa_aaaa (test_bit 0) refl row h)
            | inr t ↦ rw t (bits_below 0 (λ r. false) refl row h)
          ])
        ])
      ])
    ])
  ])
]

pub row_IsHom : (row : ℕ) → row < 32 → IsHom word_ops (row_ops row) (test_bit row)
unfolding word_ops row_ops
row_IsHom row h = record {
  on_constant = λ ch. constant_bits row ch h;
  on_complement = λ x. test_bit-xor row 0xffff_ffff x ∙ rw (constant_bits row b'1' h) refl;
  on_conj = λ x y. test_bit-and row x y;
  on_disj = λ x y. test_bit-or row x y;
  on_differ = λ x y. test_bit-xor row x y;
}
