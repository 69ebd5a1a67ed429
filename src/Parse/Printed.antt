-- ===== src/Parse/Printed.antt =====
-- The numbers of server/parse.c read back what is printed.
use pand_ablocks_server.Prelude.{
  append_assoc, ℕ, zero, suc, ◌+◌, ◌*◌, ◌/◌, ◌%◌, ◌≤◌, ◌<◌, ◌≡◌, refl, ◌∙◌, arith, true, false,
  ◌||◌, ◌&&◌, List, [], ◌∷◌, ◌++◌, ltb, leb, ◌==◌, if◌then◌else◌, length, peek, All, Bool-cases,
  inl, inr, u32_mod,
}
use native.Mathlib.Decide.{dec_lt}
use native.Mathlib.Nat.{le_refl, mod-eq_of_lt}
use pand_ablocks_server.Parse.{ok, then_parse, parse_whitespace, skip_whitespace}
use pand_ablocks_server.Parse.Numbers.{
  skip_spaces, digit_value, read_digits, number_base, Converted, convert_digits, strtoul,
  check_number, parse_num, parse_uint, parse_uint_items, parse_uint_array,
}

-- A number as `%u` prints it, before a text; the fuel is the number.
unfoldable pub print_before : ℕ → ℕ → List ℕ → List ℕ
print_before zero n after = (b'0' + n) ∷ after
print_before (suc fuel) n after =
    let high = print_before fuel (n / 10) ((b'0' + n % 10) ∷ after) in
    if ltb n 10 then (b'0' + n) ∷ after else high

unfoldable pub print_uint : ℕ → List ℕ
print_uint n = print_before n n []

print_before_append :
    (fuel n : ℕ) (s rest : List ℕ) → print_before fuel n s ++ rest ≡ print_before fuel n (s ++ rest)
unfolding print_before
print_before_append zero n s rest = refl
print_before_append (suc fuel) n s rest = elim (Bool-cases (ltb n 10)) [
  | inl t ↦ rw t refl
  | inr t ↦ rw t (print_before_append fuel (n / 10) ((b'0' + n % 10) ∷ s) rest)
]

digit_value_lem : (d : ℕ) → d < 10 → digit_value (b'0' + d) ≡ d
unfolding digit_value
digit_value_lem d h = ground arith

read_digit :
    (high d : ℕ) (s : List ℕ)
    → d < 10
    → read_digits 10 high ((b'0' + d) ∷ s) ≡ read_digits 10 (high * 10 + d) s
unfolding read_digits
read_digit high d s h =
    let e : digit_value (b'0' + d) ≡ d = digit_value_lem d h in
    let t : ltb d 10 ≡ true = ground arith in rw (e, t) refl

read_digits-print :
    (fuel n : ℕ) (s : List ℕ)
    → n ≤ fuel
    → read_digits 10 0 (print_before fuel n s) ≡ read_digits 10 n s
unfolding print_before
read_digits-print zero n s h =
    read_digit 0 n s (omega arith) ∙ let e : 0 * 10 + n ≡ n = omega arith in rw e refl
read_digits-print (suc fuel) n s h = elim (Bool-cases (ltb n 10)) [
  | inl t ↦
      rw t
        (read_digit 0 n s (ground (arith, t)) ∙ let e : 0 * 10 + n ≡ n = omega arith in rw e refl)
  | inr t ↦
      let d : n % 10 < 10 = omega arith in
      let e : n / 10 * 10 + n % 10 ≡ n = omega arith in
      rw t (
        read_digits-print fuel (n / 10) ((b'0' + n % 10) ∷ s) (omega arith)
        ∙ read_digit (n / 10) (n % 10) s d
        ∙ rw e refl)
]

-- The first digit is 0 for 0 alone.
peek-print :
    (fuel n : ℕ) (s : List ℕ)
    → n ≤ fuel
    → (d : ℕ) × (peek (print_before fuel n s) ≡ b'0' + d) × (d < 10) × ((0 < n) → 0 < d)
unfolding print_before
peek-print zero n s h = (n, refl, omega arith, λ p. p)
peek-print (suc fuel) n s h = elim (Bool-cases (ltb n 10)) [
  | inl t ↦ rw t (n, refl, ground (arith, t), λ p. p)
  | inr t ↦
      let (d, e, l, p) = peek-print fuel (n / 10) ((b'0' + n % 10) ∷ s) (omega arith) in
      let big : 10 ≤ n = ground (arith, t) in rw t (d, e, l, λ q. p (omega arith))
]

length-print : (fuel n : ℕ) (s : List ℕ) → length s < length (print_before fuel n s)
unfolding print_before
length-print zero n s = omega arith
length-print (suc fuel) n s = elim (Bool-cases (ltb n 10)) [
  | inl t ↦ rw t (omega arith)
  | inr t ↦ rw t (omega (arith, length-print fuel (n / 10) ((b'0' + n % 10) ∷ s)))
]

skip_spaces_none : (s : List ℕ) → 33 ≤ peek s → skip_spaces s ≡ s
unfolding skip_spaces
skip_spaces_none [] h = refl
skip_spaces_none (ch ∷ s) h =
    let t : (ch == b' ' || leb 9 ch && leb ch 13) ≡ false = ground arith in rw t refl

-- A number ends where no letter or digit follows.
read_digits_stop :
    (base n : ℕ) (s : List ℕ)
    → base ≤ 36
    → 36 ≤ digit_value (peek s)
    → read_digits base n s ≡ (n, s)
unfolding read_digits
read_digits_stop base n [] h k = refl
read_digits_stop base n (ch ∷ s) h k =
    let t : ltb (digit_value ch) base ≡ false = ground arith in rw t refl

base_ten : (s : List ℕ) → (peek s == b'0') ≡ false → number_base s ≡ (10, s)
unfolding number_base
base_ten s t = rw t refl

not_hex : (ch : ℕ) → 36 ≤ digit_value ch → (ch == b'x' || ch == b'X') ≡ false
unfolding digit_value
not_hex ch h = ground arith

base_eight :
    (rest : List ℕ) → 36 ≤ digit_value (peek rest) → number_base (b'0' ∷ rest) ≡ (8, b'0' ∷ rest)
unfolding number_base
base_eight rest h = rw (not_hex (peek rest) h) refl

zero_digit : (rest : List ℕ) → read_digits 8 0 (b'0' ∷ rest) ≡ read_digits 8 0 rest
unfolding read_digits digit_value
zero_digit rest = refl

zero_small : ltb (digit_value b'0') 8 ≡ true
unfolding digit_value
zero_small = refl

ltb-true : (a b : ℕ) → a < b → ltb a b ≡ true
ltb-true a b h = ground arith

module _ (modulus n : ℕ) (rest : List ℕ) (fits : n < modulus)
    (ends : 36 ≤ digit_value (peek rest)) where
  converted : Converted
  converted = record { value = n; out_of_range = false; end_text = rest }

  converts :
      (start s : List ℕ) (base : ℕ)
      → number_base s ≡ (base, s)
      → ltb (digit_value (peek s)) base ≡ true
      → read_digits base 0 s ≡ (n, rest)
      → convert_digits modulus false start s ≡ converted
  unfolding convert_digits converted
  converts start s base e t r =
      let l : ltb n modulus ≡ true = ground arith in rw (convert_digits, e, t, r, l) refl

  convert_print :
      (start : List ℕ) → convert_digits modulus false start (print_before n n rest) ≡ converted
  unfolding print_before
  convert_print start = elim (dec_lt 0 n) [
    | yes p ↦
        let (d, e, l, q) = peek-print n n rest (le_refl n) in
        let big : 0 < d = q p in
        let not_zero : (peek (print_before n n rest) == b'0') ≡ false = rw e (ground arith) in
        let digit : ltb (digit_value (peek (print_before n n rest))) 10 ≡ true =
          rw (e, digit_value_lem d l) (ground arith) in
        converts start (print_before n n rest) 10 (base_ten (print_before n n rest) not_zero) digit
          (read_digits-print n n rest (le_refl n) ∙ read_digits_stop 10 n rest (omega arith) ends)
    | no z ↦
        let e : n ≡ 0 = omega arith in
        let s : print_before n n rest ≡ b'0' ∷ rest = rw e refl in
        let r : read_digits 8 0 (b'0' ∷ rest) ≡ (n, rest) =
          rw e (zero_digit rest ∙ read_digits_stop 8 0 rest (omega arith) ends) in
        rw s (converts start (b'0' ∷ rest) 8 (base_eight rest ends) zero_small r)
  ]

  strtoul_print : strtoul modulus (print_before n n rest) ≡ converted
  unfolding strtoul
  strtoul_print =
      let (d, e, l, q) = peek-print n n rest (le_refl n) in
      let spaces : skip_spaces (print_before n n rest) ≡ print_before n n rest =
        skip_spaces_none (print_before n n rest) (rw e (omega arith)) in
      let minus : (peek (print_before n n rest) == b'-') ≡ false = rw e (ground arith) in
      let plus : (peek (print_before n n rest) == b'+') ≡ false = rw e (ground arith) in
      rw (strtoul, spaces, minus, plus) (convert_print (print_before n n rest))

  pub parse_num-print :
      (type_modulus : ℕ)
      → n < type_modulus
      → parse_num modulus type_modulus (print_uint n ++ rest) ≡ (ok n, rest)
  unfolding parse_num check_number print_uint converted
  parse_num-print type_modulus h =
      let l : ltb (length rest) (length (print_before n n rest)) ≡ true =
        ltb-true (length rest) (length (print_before n n rest)) (length-print n n rest) in
      let m : n % type_modulus ≡ n = mod-eq_of_lt h in
      rw (print_before_append n n [] rest, parse_num, strtoul_print, check_number, l, m) refl

-- Numbers with a blank before each, and with blanks between them.
unfoldable pub print_more : List ℕ → List ℕ
print_more [] = []
print_more (n ∷ ns) = b' ' ∷ (print_uint n ++ print_more ns)

unfoldable pub print_uints : List ℕ → List ℕ
unfolding print_more
print_uints [] = []
print_uints (n ∷ ns) = print_uint n ++ print_more ns

peek-print_uint : (n : ℕ) (rest : List ℕ) → 33 ≤ peek (print_uint n ++ rest)
unfolding print_uint
peek-print_uint n rest =
    let (d, e, l, q) = peek-print n n rest (le_refl n) in
    rw (print_before_append n n [] rest, e) (omega arith)

one_blank : (s : List ℕ) → 33 ≤ peek s → parse_whitespace (b' ' ∷ s) ≡ (ok tt, s)
unfolding parse_whitespace skip_whitespace
one_blank [] h = refl
one_blank (ch ∷ s) h =
    let t : (ch == b' ' || ch == b'\t') ≡ false = ground arith in
    let l : ltb (length (ch ∷ s)) (length (b' ' ∷ ch ∷ s)) ≡ true =
      ltb-true (suc (length s)) (suc (suc (length s))) (omega arith) in
    rw (t, l) refl

module _ (ulong_mod : ℕ) (wide : u32_mod ≤ ulong_mod) (rest : List ℕ)
    (ends : 36 ≤ digit_value (peek rest)) where
  ends_more : (ns : List ℕ) → 36 ≤ digit_value (peek (print_more ns ++ rest))
  unfolding print_more digit_value
  ends_more [] = ends
  ends_more (n ∷ ns) = omega arith

  parse_uint-print :
      (n : ℕ) (ns : List ℕ)
      → n < u32_mod
      → parse_uint ulong_mod (print_uint n ++ (print_more ns ++ rest))
        ≡ (ok n, print_more ns ++ rest)
  unfolding parse_uint
  parse_uint-print n ns h =
      parse_num-print ulong_mod n (print_more ns ++ rest) (omega arith) (ends_more ns) u32_mod h

  parse_uint_items-print :
      (i : ℕ) (ns : List ℕ)
      → All (λ n. n < u32_mod) ns
      → parse_uint_items ulong_mod (suc i) (length ns) (print_more ns ++ rest) ≡ (ok ns, rest)
  unfolding parse_uint_items then_parse print_more
  parse_uint_items-print i [] a = refl
  parse_uint_items-print i (n ∷ ns) (h, a) =
      let pos : ltb 0 (suc i) ≡ true = ground arith in
      rw
        (
          pos,
          append_assoc (print_uint n) (print_more ns) rest,
          one_blank (print_uint n ++ (print_more ns ++ rest))
              (peek-print_uint n (print_more ns ++ rest)),
          then_parse,
          parse_uint-print n ns h,
          parse_uint_items-print (suc i) ns a,
        )
        refl

  -- Numbers of 32 bits, printed with single blanks between them, are what `parse_uint_array` reads
  -- back when it is asked for as many and no letter or digit follows; what follows is left.
  pub parse_uint_array-print :
      (ns : List ℕ)
      → All (λ n. n < u32_mod) ns
      → parse_uint_array ulong_mod (length ns) (print_uints ns ++ rest) ≡ (ok ns, rest)
  unfolding parse_uint_array parse_uint_items then_parse print_uints
  parse_uint_array-print [] a = refl
  parse_uint_array-print (n ∷ ns) (h, a) =
      rw
        (
          append_assoc (print_uint n) (print_more ns) rest,
          parse_uint-print n ns h,
          then_parse,
          parse_uint_items-print 0 ns a,
        )
        refl
