-- ===== src/Parse/Numbers.antt =====
-- The numbers of server/parse.c, with the conversion of the C library that they call.
use pand_ablocks_server.Prelude.{
  ℕ, zero, suc, ◌+◌, ◌-◌, ◌*◌, ◌%◌, Bool, true, false, ◌||◌, ◌&&◌, List, [], ◌∷◌, ltb, leb, ◌==◌,
  if◌then◌else◌, length, drop, peek, u32_mod, u64_mod,
}
use pand_ablocks_server.Parse.{
  Parser, Outcome, ok, fail, number_missing, number_error, then_parse, parse_whitespace,
}

-- `isspace`.
unfoldable pub skip_spaces : List ℕ → List ℕ
skip_spaces [] = []
skip_spaces (ch ∷ s) =
    let rest = skip_spaces s in if ch == b' ' || leb 9 ch && leb ch 13 then rest else ch ∷ s

-- The value of a digit, below 36, or 36.
unfoldable pub digit_value : ℕ → ℕ
digit_value ch =
    if leb b'0' ch && leb ch b'9'
    then ch - b'0'
    else if leb b'A' ch && leb ch b'Z'
    then ch - b'A' + 10
    else if leb b'a' ch && leb ch b'z'
    then ch - b'a' + 10
    else 36

-- The digits at the start of a text, as a number on top of `high`, and what follows them.
unfoldable pub read_digits : ℕ → ℕ → List ℕ → ℕ × List ℕ
read_digits base high [] = (high, [])
read_digits base high (ch ∷ s) =
    let more = read_digits base (high * base + digit_value ch) s in
    if ltb (digit_value ch) base then more else (high, ch ∷ s)

-- The base of a text of base 0, and the text after its prefix.
unfoldable pub number_base : List ℕ → ℕ × List ℕ
number_base s =
    if peek s == b'0'
    then if (peek (drop 1 s) == b'x' || peek (drop 1 s) == b'X')
        && ltb (digit_value (peek (drop 2 s))) 16
      then (16, drop 2 s)
      else (8, s)
    else (10, s)

-- What a conversion gives: the value, whether `errno` is set, and the text at `end`.
pub record Converted : Type 0 where
  pub value : ℕ
  pub out_of_range : Bool
  pub end_text : List ℕ

-- A sign negates modulo the width; a value that does not fit is the largest that does.
unfoldable pub convert_digits : ℕ → Bool → List ℕ → List ℕ → Converted
convert_digits modulus negative start s =
    let (base, digits) = number_base s in
    if ltb (digit_value (peek digits)) base
    then (let (n, rest) = read_digits base 0 digits in
        if ltb n modulus
        then record {
          value = if negative then (modulus - n) % modulus else n;
          out_of_range = false;
          end_text = rest;
        }
        else record { value = modulus - 1; out_of_range = true; end_text = rest })
    else record { value = 0; out_of_range = false; end_text = start }

-- `strtoul` and `strtoull` with base 0.
unfoldable pub strtoul : ℕ → List ℕ → Converted
strtoul modulus start =
    let s = skip_spaces start in
    if peek s == b'-'
    then convert_digits modulus true start (drop 1 s)
    else if peek s == b'+'
    then convert_digits modulus false start (drop 1 s)
    else convert_digits modulus false start s

unfoldable pub check_number : List ℕ → Converted → ℕ → Outcome ℕ
check_number start converted value =
    if ltb (length converted.end_text) (length start)
    then if converted.out_of_range then fail number_error else ok value
    else fail number_missing

-- The macro, at the modulus of the conversion and that of the type.
unfoldable pub parse_num : ℕ → ℕ → Parser ℕ
parse_num modulus type_modulus start =
    let converted = strtoul modulus start in
    (check_number start converted (converted.value % type_modulus), converted.end_text)

-- `unsigned long` has 32 bits on the target and 64 on a server for simulation.
module _ (ulong_mod : ℕ) where
  unfoldable pub parse_uint : Parser ℕ
  parse_uint = parse_num ulong_mod u32_mod

  unfoldable pub parse_uint32 : Parser ℕ
  parse_uint32 = parse_num ulong_mod u32_mod

  -- The loop at index `i`, with `count` items to come.
  unfoldable pub parse_uint_items : ℕ → ℕ → Parser (List ℕ)
  parse_uint_items i zero s = (ok [], s)
  parse_uint_items i (suc count) s =
      then_parse (if ltb 0 i then parse_whitespace s else (ok tt, s)) (λ _ t.
        then_parse (parse_uint t)
          (λ n u. then_parse (parse_uint_items (suc i) count u) (λ ns v. (ok (n ∷ ns), v))))

  unfoldable pub parse_uint_array : ℕ → Parser (List ℕ)
  parse_uint_array count = parse_uint_items 0 count

unfoldable pub parse_uint64 : Parser ℕ
parse_uint64 = parse_num u64_mod u64_mod
