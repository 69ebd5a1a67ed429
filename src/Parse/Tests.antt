-- ===== src/Parse/Tests.antt =====
-- Runs of server/parse.c and server/utf8_check.c, and their theorems at them.
use pand_ablocks_server.Prelude.{
  ℕ, suc, ◌-◌, ◌≡◌, ◌↔◌, ◌⊎◌, refl, arith, List, [], ◌∷◌, ◌++◌, peek, replicate, leb, All, u32_mod,
  u64_mod,
}
use pand_ablocks_server.Parse.{
  ok, fail, no_name, name_too_long, number_missing, number_error, bad_utf8, then_parse,
  skip_whitespace, parse_whitespace, parse_eos, read_char, starts_with, read_string, parse_char,
  parse_bit,
}
use pand_ablocks_server.Parse.Names.{
  is_alpha, is_digit, valid_name_char, valid_alphanum_char, take_filtered, check_name,
  parse_filtered_name, parse_name, parse_alphanum_name, split_digits, give_back, parse_block_name,
}
use pand_ablocks_server.Parse.BlockNames.{IsBlockName, parse_block_name_iff}
use pand_ablocks_server.Parse.Numbers.{
  skip_spaces, digit_value, read_digits, number_base, convert_digits, strtoul, check_number,
  parse_num, parse_uint, parse_uint_items, parse_uint_array, parse_uint64,
}
use pand_ablocks_server.Parse.Printed.{
  print_before, print_uint, print_more, print_uints, parse_uint_array-print,
}
use pand_ablocks_server.Parse.Utf8.{
  continues, overlong_or_surrogate, overlong_or_large, sequence_length, check_from, utf8_check,
  parse_utf8_string,
}
use pand_ablocks_server.Parse.Scalars.{IsScalar, encode, encode_all}
use pand_ablocks_server.Parse.Accepts.{utf8_check_iff}
use pand_ablocks_server.Parse.Indents.{
  IndentParsers, IndentStack, open_indent, call_end, close_loop, close_indents, move_to, parse_at,
  parse_one_line, first_stack, parse_lines, parse_indented_lines, read_lines, parse_indented_file,
}
use pand_ablocks_server.Parse.Nesting.{IsParsed, parse_one_line-IsParsed, first_stack-IsNested}

program : Unit {0}
unfolding then_parse skip_whitespace parse_whitespace parse_eos read_char starts_with read_string
    parse_char parse_bit is_alpha is_digit valid_name_char valid_alphanum_char take_filtered
    check_name parse_filtered_name parse_name parse_alphanum_name split_digits give_back
    parse_block_name skip_spaces digit_value read_digits number_base convert_digits strtoul
    check_number parse_num parse_uint parse_uint_items parse_uint_array parse_uint64 print_before
    print_uint print_more print_uints continues overlong_or_surrogate overlong_or_large
    sequence_length check_from utf8_check parse_utf8_string encode encode_all open_indent call_end
    close_loop close_indents move_to parse_at parse_one_line parse_lines parse_indented_lines
    read_lines parse_indented_file
program = tt

-- "TTL1.A": the block is TTL, and "1.A" is left; "." is no name; and a name of two is too long for 2.
names :
    (parse_block_name 16 (b'T' ∷ b'L' ∷ b'1' ∷ b'.' ∷ [])
      ≡ (ok (b'T' ∷ b'L' ∷ []), b'1' ∷ b'.' ∷ []))
    × (parse_name 16 (b'.' ∷ []) ≡ (fail no_name, b'.' ∷ []))
    × (parse_name 2 (b'A' ∷ b'B' ∷ []) ≡ (fail name_too_long, []))
unfolding program
names = (refl, refl, refl)

-- "0x1F ", "-1", "017", "x" and a number of 33 bits.
numbers :
    (parse_uint u64_mod (b'0' ∷ b'x' ∷ b'1' ∷ b'F' ∷ b' ' ∷ []) ≡ (ok 31, b' ' ∷ []))
    × (parse_uint u32_mod (b'-' ∷ b'1' ∷ []) ≡ (ok (u32_mod - 1), []))
    × (parse_uint u32_mod (b'0' ∷ b'1' ∷ b'7' ∷ []) ≡ (ok 15, []))
    × (parse_uint u32_mod (b'x' ∷ []) ≡ (fail number_missing, b'x' ∷ []))
    × (parse_uint u32_mod
          (b'0' ∷ b'x' ∷ b'1' ∷ b'0' ∷ b'0' ∷ b'0' ∷ b'0' ∷ b'0' ∷ b'0' ∷ b'0' ∷ b'0' ∷ [])
        ≡ (fail number_error, []))
unfolding program
numbers = (refl, refl, refl, refl, refl)

-- An overlong NUL and a surrogate are refused, the euro sign is not.
texts :
    (parse_utf8_string (0xc0 ∷ 0x80 ∷ []) ≡ (fail bad_utf8, 0xc0 ∷ 0x80 ∷ []))
    × (parse_utf8_string (b'A' ∷ 0xed ∷ 0xa0 ∷ 0x80 ∷ [])
        ≡ (fail bad_utf8, 0xed ∷ 0xa0 ∷ 0x80 ∷ []))
    × (parse_utf8_string (0xe2 ∷ 0x82 ∷ 0xac ∷ []) ≡ (ok (0xe2 ∷ 0x82 ∷ 0xac ∷ []), []))
unfolding program
texts = (refl, refl, refl)

parse_block_name_iff_example :
    (parse_block_name 9 (b'A' ∷ b'1' ∷ []) ≡ (ok (b'A' ∷ []), b'1' ∷ [])) ↔ (
      (digits : List ℕ) × (after : List ℕ) × (b'1' ∷ [] ≡ digits ++ after)
      × IsBlockName 9 (b'A' ∷ b'1' ∷ []) (b'A' ∷ []) digits after)
parse_block_name_iff_example = parse_block_name_iff 9 (b'A' ∷ b'1' ∷ []) (b'A' ∷ []) (b'1' ∷ [])

parse_uint_array-print_example :
    parse_uint_array u32_mod 2 (print_uints (70 ∷ 0 ∷ []) ++ (10 ∷ []))
    ≡ (ok (70 ∷ 0 ∷ []), 10 ∷ [])
unfolding digit_value
parse_uint_array-print_example =
    parse_uint_array-print u32_mod (omega arith) (10 ∷ []) (omega arith) (70 ∷ 0 ∷ [])
      (omega arith, (omega arith, tt))

utf8_check_iff_example :
    (utf8_check (0xe2 ∷ 0x82 ∷ 0xac ∷ []) ≡ [])
    ↔ ((cs : List ℕ) × All IsScalar cs × (0xe2 ∷ 0x82 ∷ 0xac ∷ [] ≡ encode_all cs))
utf8_check_iff_example =
    utf8_check_iff (0xe2 ∷ 0x82 ∷ 0xac ∷ [])
      ((omega arith, omega arith), ((omega arith, omega arith), ((omega arith, omega arith), tt)))

-- Line parsers for trees of names: the state lists what was parsed, and the ends with 0 before.
abbrev names_parsers : IndentParsers ℕ (List (List ℕ))
names_parsers = record {
  has_line = λ p. leb 1 p;
  has_end = λ p. leb 2 p;
  parse_line = λ p line log. (ok (suc p), ([], (p ∷ line) ∷ log));
  end_parse = λ p log. (ok tt, (0 ∷ p ∷ []) ∷ log);
  empty = 0;
  empty_line = refl;
  empty_end = refl;
}

-- "A", " B", " C" and "D": the parsers below B, below C and below A are ended when the next line
-- comes, the parser below D is not.
tree :
    parse_indented_file names_parsers 1
      (b'A' ∷ 10 ∷ b' ' ∷ b'B' ∷ 10 ∷ b' ' ∷ b'C' ∷ 10 ∷ b'D' ∷ [])
      []
    ≡ (
      ok tt,
      (
        4,
        (1 ∷ b'D' ∷ [])
            ∷ (0 ∷ 2 ∷ [])
            ∷ (0 ∷ 3 ∷ [])
            ∷ (2 ∷ b'C' ∷ [])
            ∷ (0 ∷ 3 ∷ [])
            ∷ (2 ∷ b'B' ∷ [])
            ∷ (1 ∷ b'A' ∷ [])
            ∷ [],
      ),
    )
unfolding program
tree = refl

abbrev log_one : List (List ℕ)
log_one = (1 ∷ b'A' ∷ []) ∷ []

abbrev after_one : IndentStack ℕ
after_one = record { sp = 0; indents = replicate 12 0; parsers = 1 ∷ 2 ∷ replicate 10 0 }

parse_one_line-IsParsed_example :
    (((peek (b'A' ∷ []) ≡ b'#') ⊎ (peek (b'A' ∷ []) ≡ 0))
      × (after_one ≡ first_stack names_parsers 1)
      × (log_one ≡ []))
    ⊎ IsParsed names_parsers (first_stack names_parsers 1) 0 (b'A' ∷ []) after_one log_one
unfolding program
parse_one_line-IsParsed_example =
    parse_one_line-IsParsed names_parsers (first_stack names_parsers 1) after_one (b'A' ∷ []) [] []
      log_one (first_stack-IsNested names_parsers 1) refl
