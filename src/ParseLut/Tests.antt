-- ===== src/ParseLut/Tests.antt =====
-- Runs of server/parse_lut.c, among them those of tests/parse_lut_test.c, and its theorems at them.
use pand_ablocks_server.Prelude.{true, ℕ, ◌≡◌, refl, arith, [], ◌∷◌, some}
use pand_ablocks_server.ParseLut.Tokens.{
  token_error, no_operator, no_open, no_close, no_value, no_if, no_else, token_index,
  token_precedence, token_arity, token_reduce, lookup_action,
}
use pand_ablocks_server.ParseLut.{
  word_constant, word_ops, read_char, read_equals, is_constant, simple_token, read_token, reduce,
  push_token, reduce_stack, perform, parse_step, parse_loop, parse_lut, LutResult, stored, failed,
  extract_result, finish,
}
use pand_ablocks_server.ParseLut.Truth.{test_bit, row_constant, row_ops}
use pand_ablocks_server.ParseLut.Returns.{parse_lut_returns}
use pand_ablocks_server.ParseLut.Expressions.{Expr, leaf, negate, binary, implication, print}
use pand_ablocks_server.ParseLut.Rows.{map_option, map_result, parse_lut_row}

program : Unit {0}
unfolding token_index token_precedence token_arity token_reduce lookup_action word_constant word_ops
    read_char read_equals is_constant simple_token read_token reduce push_token reduce_stack perform
    parse_step parse_loop parse_lut extract_result finish row_constant row_ops
program = tt

-- "A", "~(A?B:C)", "A=>B=>C" and "A&B|C".
succeeds :
    (parse_lut word_ops (b'A' ∷ []) ≡ some (stored 0xffff_0000))
    × (parse_lut word_ops (b'~' ∷ b'(' ∷ b'A' ∷ b'?' ∷ b'B' ∷ b':' ∷ b'C' ∷ b')' ∷ [])
        ≡ some (stored 0x00ff_0f0f))
    × (parse_lut word_ops (b'A' ∷ b'=' ∷ b'>' ∷ b'B' ∷ b'=' ∷ b'>' ∷ b'C' ∷ [])
        ≡ some (stored 0xf0ff_f0f0))
    × (parse_lut word_ops (b'A' ∷ b'&' ∷ b'B' ∷ b'|' ∷ b'C' ∷ []) ≡ some (stored 0xfff0_f0f0))
unfolding program
succeeds = (refl, refl, refl, refl)

-- "", "a", ")", "(", "AA", "A:B" and "A?B".
fails :
    (parse_lut word_ops [] ≡ some (failed no_value))
    × (parse_lut word_ops (b'a' ∷ []) ≡ some (failed token_error))
    × (parse_lut word_ops (b')' ∷ []) ≡ some (failed no_open))
    × (parse_lut word_ops (b'(' ∷ []) ≡ some (failed no_close))
    × (parse_lut word_ops (b'A' ∷ b'A' ∷ []) ≡ some (failed no_operator))
    × (parse_lut word_ops (b'A' ∷ b':' ∷ b'B' ∷ []) ≡ some (failed no_if))
    × (parse_lut word_ops (b'A' ∷ b'?' ∷ b'B' ∷ []) ≡ some (failed no_else))
unfolding program
fails = (refl, refl, refl, refl, refl, refl, refl)

parse_lut_returns_example :
    (r : LutResult ℕ) × (parse_lut word_ops (b'A' ∷ b'?' ∷ b'B' ∷ []) ≡ some r)
parse_lut_returns_example = parse_lut_returns word_ops (b'A' ∷ b'?' ∷ b'B' ∷ [])

parse_lut_row_example :
    parse_lut (row_ops 19) (b'A' ∷ b'&' ∷ b'D' ∷ [])
    ≡ map_option (map_result (test_bit 19)) (parse_lut word_ops (b'A' ∷ b'&' ∷ b'D' ∷ []))
parse_lut_row_example = parse_lut_row 19 (b'A' ∷ b'&' ∷ b'D' ∷ []) (omega arith)

constant_a : is_constant b'A' ≡ true
unfolding is_constant
constant_a = refl

constant_b : is_constant b'B' ≡ true
unfolding is_constant
constant_b = refl

-- "(A=>(~B))".
abbrev sample : Expr
sample = binary implication (leaf b'A' constant_a) (negate (leaf b'B' constant_b))

sample_printed : print sample [] ≡ b'(' ∷ b'A' ∷ b'=' ∷ b'>' ∷ b'(' ∷ b'~' ∷ b'B' ∷ b')' ∷ b')' ∷ []
unfolding print
sample_printed = refl
