-- ===== src/Parse.antt =====
-- server/parse.c: parsers of single items. A parser takes the text that is left and gives what it
-- parsed or an error, and in both cases the text that is left then, which the source keeps through
-- `**string`. Texts are lists of characters without the NUL, where `peek` reads `**string`.
pub mod Names
pub mod NameRules
pub mod BlockNames
pub mod Numbers
pub mod Printed
pub mod Utf8
pub mod Ranges
pub mod Scalars
pub mod Accepts
pub mod Indents
pub mod Nesting
mod Tests
use pand_ablocks_server.Prelude.{
  ℕ, zero, suc, ◌+◌, Bool, true, false, ◌||◌, ◌&&◌, List, [], ◌∷◌, ◌++◌, ltb, leb, ◌==◌,
  if◌then◌else◌, length, drop, peek,
}

-- The errors of this file and of server/mac_address.c, by their messages.
pub data ParseError : Type 0 where
  whitespace_expected no_name name_too_long char_expected : ParseError
  number_missing number_error bad_bit not_at_end bad_utf8 : ParseError
  too_much_indent bad_indent cannot_parse : ParseError
  bad_octet comment_too_long too_many_entries : ParseError

pub data Outcome {ℓ} (A : Type ℓ) : Type ℓ where
  ok : A → Outcome A
  fail : ParseError → Outcome A

abbrev pub Parser {ℓ} : Type ℓ → Type ℓ
Parser A = List ℕ → Outcome A × List ℕ

-- `a ?: b`: the second part runs on the state that the first one left, if that was no error.
unfoldable pub then_parse {ℓ κ μ} :
    {A : Type ℓ} {B : Type κ} {S : Type μ} → Outcome A × S → (A → S → Outcome B × S) → Outcome B × S
then_parse (ok a, s) next = next a s
then_parse (fail e, s) next = (fail e, s)

unfoldable pub skip_whitespace : List ℕ → List ℕ
skip_whitespace [] = []
skip_whitespace (ch ∷ s) =
    let rest = skip_whitespace s in if ch == b' ' || ch == b'\t' then rest else ch ∷ s

unfoldable pub parse_whitespace : Parser (Unit {0})
parse_whitespace s =
    let rest = skip_whitespace s in
    (if ltb (length rest) (length s) then ok tt else fail whitespace_expected, rest)

unfoldable pub read_char : List ℕ → ℕ → Bool × List ℕ
read_char s ch = if peek s == ch then (true, drop 1 s) else (false, s)

-- Whether `expected` comes next, as `strncmp` compares it.
unfoldable pub starts_with : List ℕ → List ℕ → Bool
starts_with s [] = true
starts_with [] (e ∷ expected) = false
starts_with (ch ∷ s) (e ∷ expected) = ch == e && starts_with s expected

unfoldable pub read_string : List ℕ → List ℕ → Bool × List ℕ
read_string s expected =
    if starts_with s expected then (true, drop (length expected) s) else (false, s)

unfoldable pub parse_char : ℕ → Parser (Unit {0})
parse_char ch s =
    let (found, rest) = read_char s ch in (if found then ok tt else fail char_expected, rest)

unfoldable pub parse_bit : Parser Bool
parse_bit s =
    if peek s == b'0' || peek s == b'1' then (ok (peek s == b'1'), drop 1 s) else (fail bad_bit, s)

unfoldable pub parse_eos : Parser (Unit {0})
parse_eos s = (if peek s == 0 then ok tt else fail not_at_end, s)
