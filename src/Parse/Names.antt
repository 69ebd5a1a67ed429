-- ===== src/Parse/Names.antt =====
-- The names of server/parse.c.
use pand_ablocks_server.Prelude.{
  ℕ, zero, suc, Bool, ◌||◌, ◌&&◌, List, [], ◌∷◌, ◌++◌, ltb, leb, ◌==◌, if◌then◌else◌, length,
  is_empty, peek,
}
use pand_ablocks_server.Parse.{Parser, Outcome, ok, fail, no_name, name_too_long}

unfoldable pub is_alpha : ℕ → Bool
is_alpha ch = leb b'A' ch && leb ch b'Z' || leb b'a' ch && leb ch b'z'

unfoldable pub is_digit : ℕ → Bool
is_digit ch = leb b'0' ch && leb ch b'9'

-- The tests come after `isascii`, which the ranges contain.
unfoldable pub valid_name_char : ℕ → Bool
valid_name_char ch = is_alpha ch || ch == b'_'

unfoldable pub valid_alphanum_char : ℕ → Bool
valid_alphanum_char ch = is_alpha ch || ch == b'_' || is_digit ch

-- The loop: at most `room` characters that pass the filter, and what follows them.
unfoldable pub take_filtered : (ℕ → Bool) → ℕ → List ℕ → List ℕ × List ℕ
take_filtered filter_char zero s = ([], s)
take_filtered filter_char (suc room) [] = ([], [])
take_filtered filter_char (suc room) (ch ∷ s) =
    let (name, rest) = take_filtered filter_char room s in
    if filter_char ch then (ch ∷ name, rest) else ([], ch ∷ s)

unfoldable pub check_name : ℕ → List ℕ → Outcome (List ℕ)
check_name max_length name =
    if ltb 0 (length name)
    then if ltb (length name) max_length then ok name else fail name_too_long
    else fail no_name

unfoldable pub parse_filtered_name : (ℕ → Bool) → ℕ → Parser (List ℕ)
parse_filtered_name filter_char max_length s =
    let (name, rest) = take_filtered filter_char max_length s in (check_name max_length name, rest)

unfoldable pub parse_name : ℕ → Parser (List ℕ)
parse_name = parse_filtered_name valid_name_char

unfoldable pub parse_alphanum_name : ℕ → Parser (List ℕ)
parse_alphanum_name max_length s =
    if valid_name_char (peek s)
    then parse_filtered_name valid_alphanum_char max_length s
    else (fail no_name, s)

-- The name without its trailing digits, and those.
unfoldable pub split_digits : List ℕ → List ℕ × List ℕ
split_digits [] = ([], [])
split_digits (ch ∷ s) =
    let (name, digits) = split_digits s in
    if is_empty name && is_digit ch then ([], ch ∷ digits) else (ch ∷ name, digits)

-- Trailing digits are given back.
unfoldable pub give_back : Outcome (List ℕ) × List ℕ → Outcome (List ℕ) × List ℕ
give_back (ok text, s) = let (name, digits) = split_digits text in (ok name, digits ++ s)
give_back (fail e, s) = (fail e, s)

unfoldable pub parse_block_name : ℕ → Parser (List ℕ)
parse_block_name max_length s = give_back (parse_alphanum_name max_length s)
