-- ===== src/Parse/Utf8.antt =====
-- server/utf8_check.c, and the use of it in server/parse.c. A missing character is the NUL, which
-- none of the tests passes.
use pand_ablocks_server.Prelude.{
  ℕ, zero, suc, Bool, not, ◌||◌, ◌&&◌, List, [], ◌∷◌, ltb, ◌==◌, if◌then◌else◌, drop, peek, bit_and,
}
use pand_ablocks_server.Parse.{Parser, ok, fail, bad_utf8}

-- `(ch & 0xc0) != 0x80` negated.
unfoldable pub continues : ℕ → Bool
continues ch = bit_and ch 0xc0 == 0x80

unfoldable pub overlong_or_surrogate : ℕ → ℕ → ℕ → Bool
overlong_or_surrogate a b c =
    a == 0xe0 && bit_and b 0xe0 == 0x80
    || a == 0xed && bit_and b 0xe0 == 0xa0
    || a == 0xef && b == 0xbf && bit_and c 0xfe == 0xbe

unfoldable pub overlong_or_large : ℕ → ℕ → Bool
overlong_or_large a b = a == 0xf0 && bit_and b 0xf0 == 0x80 || a == 0xf4 && ltb 0x8f b || ltb 0xf4 a

-- The number of bytes of the sequence at the start of a text that is not empty; 0 is a `break`.
unfoldable pub sequence_length : List ℕ → ℕ
unfolding continues overlong_or_surrogate overlong_or_large
sequence_length s =
    let a = peek s in
    let b = peek (drop 1 s) in
    let c = peek (drop 2 s) in
    let d = peek (drop 3 s) in
    if ltb a 0x80
    then 1
    else if bit_and a 0xe0 == 0xc0
    then if not (continues b) || bit_and a 0xfe == 0xc0 then 0 else 2
    else if bit_and a 0xf0 == 0xe0
    then if not (continues b) || not (continues c) || overlong_or_surrogate a b c then 0 else 3
    else if bit_and a 0xf8 == 0xf0
    then if not (continues b) || not (continues c) || not (continues d) || overlong_or_large a b
      then 0
      else 4
    else 0

-- The loop, which skips what is left of a sequence before it looks at the next; the result is the
-- text at the pointer that is returned.
unfoldable pub check_from : ℕ → List ℕ → List ℕ
check_from skip [] = []
check_from (suc skip) (ch ∷ s) = check_from skip s
check_from zero (ch ∷ s) =
    let rest = λ (n : ℕ). check_from n s in
    elim (sequence_length (ch ∷ s)) [ zero ↦ ch ∷ s | suc n ↦ rest n ]

unfoldable pub utf8_check : List ℕ → List ℕ
utf8_check s = check_from 0 s

unfoldable pub parse_utf8_string : Parser (List ℕ)
parse_utf8_string s =
    let rest = utf8_check s in ((if peek rest == 0 then ok s else fail bad_utf8), rest)
