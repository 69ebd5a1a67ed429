-- ===== src/ParseLut.antt =====
-- server/parse_lut.c: an operator precedence parser that evaluates an expression in the inputs A
-- to E to the 32-bit contents of a five input lookup table. The stacks are lists with the top
-- first; their heights are the two stack pointers.
pub mod Tokens
pub mod Safety
pub mod Reading
pub mod Pops
pub mod Steps
pub mod Returns
pub mod Truth
pub mod Rows
pub mod Expressions
pub mod Rounds
pub mod Evaluates
mod Tests
use pand_ablocks_server.Prelude.{
  ℕ, zero, suc, ◌+◌, ◌-◌, ◌*◌, Bool, true, false, ◌||◌, ◌&&◌, not, List, [], ◌∷◌, Option, none,
  some, bit_and, bit_or, bit_xor, ltb, leb, ◌==◌, if◌then◌else◌, length, drop, get_or, peek,
}
use pand_ablocks_server.ParseLut.Tokens.{
  max_depth, Token, token_constant, token_bra, token_ket, token_not, token_eq, token_and, token_xor,
  token_or, token_implies, token_if, token_else, token_end, token_arity, token_reduce, Status,
  parse_ok, token_error, too_complex, no_value, is_ok, Action, lt, eq, gt, pr, error, lookup_action,
}

-- The operations on values. The code has them on 32-bit words; a row of the truth table has them
-- on truth values.
pub record Ops {ℓ} (V : Type ℓ) : Type ℓ where
  pub constant : ℕ → V
  pub complement : V → V
  pub conj : V → V → V
  pub disj : V → V → V
  pub differ : V → V → V

-- The constants by their character, where 0 stands for any other.
unfoldable pub word_constant : ℕ → ℕ
word_constant ch =
    if ch == b'1'
    then 0xffff_ffff
    else if ch == b'A'
    then 0xffff_0000
    else if ch == b'B'
    then 0xff00_ff00
    else if ch == b'C'
    then 0xf0f0_f0f0
    else if ch == b'D'
    then 0xcccc_cccc
    else if ch == b'E'
    then 0xaaaa_aaaa
    else 0

unfoldable pub word_ops : Ops ℕ
unfolding word_constant
word_ops = record {
  constant = word_constant;
  complement = bit_xor 0xffff_ffff;
  conj = bit_and;
  disj = bit_or;
  differ = bit_xor;
}

-- The character that is read, after blanks, and what follows it.
unfoldable pub read_char : List ℕ → ℕ × List ℕ
read_char [] = (0, [])
read_char (ch ∷ input) = let rest = read_char input in if ch == b' ' then rest else (ch, input)

unfoldable pub is_constant : ℕ → Bool
is_constant ch =
    ch == b'0' || ch == b'1' || ch == b'A' || ch == b'B' || ch == b'C' || ch == b'D' || ch == b'E'

-- The simple operators and the end, by their character.
unfoldable pub simple_token : ℕ → Option Token
simple_token ch =
    if ch == b'('
    then some token_bra
    else if ch == b')'
    then some token_ket
    else if ch == b'~'
    then some token_not
    else if ch == b'&'
    then some token_and
    else if ch == b'|'
    then some token_or
    else if ch == b'^'
    then some token_xor
    else if ch == b'?'
    then some token_if
    else if ch == b':'
    then some token_else
    else if ch == 0
    then some token_end
    else none

-- What the parser works on: the input that is left, the next token and the value of the last
-- constant, and the two stacks.
pub record Parser {ℓ} (V : Type ℓ) : Type ℓ where
  pub input : List ℕ
  pub next_token : Token
  pub value : V
  pub token_stack : List Token
  pub value_stack : List V

abbrev pub is_end : Token → Bool
is_end token_end = true
is_end _ = false

module _ {ℓ} {V : Type ℓ} (o : Ops V) where
  -- The compound operators: =, == and =>.
  unfoldable pub read_equals : Parser V → List ℕ → Parser V
  read_equals p rest =
      if peek rest == b'>'
      then record p { input = drop 1 rest; next_token = token_implies }
      else if peek rest == b'='
      then record p { input = drop 1 rest; next_token = token_eq }
      else record p { input = rest; next_token = token_eq }

  unfoldable pub read_token : Parser V → Status × Parser V
  unfolding read_equals is_constant
  read_token p =
      let (ch, rest) = read_char p.input in
      if is_constant ch
      then (parse_ok, record p { input = rest; next_token = token_constant; value = o.constant ch })
      else if ch == b'='
      then (parse_ok, read_equals p rest)
      else elim (simple_token ch) [
        | some token ↦ (parse_ok, record p { input = rest; next_token = token })
        | none ↦ (token_error, record p { input = rest })
      ]

  -- The value stack after a reduction: `values[0]` is the deepest operand. `none` is a call that
  -- the source rules out, on a token that is not listed or with operands missing.
  unfoldable pub reduce : Token → V → List V → Option (List V)
  reduce token_constant value vs = some (value ∷ vs)
  reduce token_not value (x ∷ vs) = some (o.complement x ∷ vs)
  reduce token_and value (y ∷ x ∷ vs) = some (o.conj x y ∷ vs)
  reduce token_or value (y ∷ x ∷ vs) = some (o.disj x y ∷ vs)
  reduce token_eq value (y ∷ x ∷ vs) = some (o.complement (o.differ x y) ∷ vs)
  reduce token_xor value (y ∷ x ∷ vs) = some (o.differ x y ∷ vs)
  reduce token_implies value (y ∷ x ∷ vs) = some (o.disj (o.complement x) y ∷ vs)
  reduce token_ket value (x ∷ vs) = some (x ∷ vs)
  reduce token_else value (z ∷ y ∷ x ∷ vs) =
      some (o.disj (o.conj x y) (o.conj (o.complement x) z) ∷ vs)
  reduce _ value vs = none

  unfoldable pub push_token : Parser V → Status × Parser V
  push_token p =
      if length p.token_stack == max_depth
      then (too_complex, p)
      else read_token (record p { token_stack = p.next_token ∷ p.token_stack })

  -- A write past the end of the value stack is `none`.
  unfoldable pub reduce_stack : Token → Parser V → Option (Status × Parser V)
  reduce_stack this_token p =
      if ltb (length p.value_stack) (token_arity this_token)
      then some (no_value, p)
      else elim (reduce this_token p.value p.value_stack) [
        | none ↦ none
        | some vs ↦
            if leb (length vs) max_depth
            then some (
              parse_ok,
              record p {
                token_stack = drop (token_reduce this_token) p.token_stack;
                value_stack = vs;
              },
            )
            else none
      ]

  -- With the end as the next token the string's NUL has been read, and to read on is `none`.
  unfoldable pub perform : Token → Action → Parser V → Option (Status × Parser V)
  perform this_token lt p = if is_end p.next_token then none else some (push_token p)
  perform this_token eq p = if is_end p.next_token then none else some (push_token p)
  perform this_token gt p = reduce_stack this_token p
  perform this_token (error status) p = some (status, p)
  perform this_token pr p = none

  -- One round of the loop; `none` is a read below the token stack.
  unfoldable pub parse_step : Parser V → Option (Status × Parser V)
  parse_step p = elim p.token_stack [
    | [] ↦ none
    | this_token ∷ _ ↦ perform this_token (lookup_action this_token p.next_token) p
  ]

  -- Whether the loop goes on.
  abbrev pub busy : Parser V → Bool
  busy p = ltb 1 (length p.token_stack) || not (is_end p.next_token)

  -- The loop, on fuel: `none` is a fault, or fuel that runs out.
  unfoldable pub parse_loop : ℕ → Status → Parser V → Option (Status × Parser V)
  parse_loop zero status p = none
  parse_loop (suc fuel) status p = elim (is_ok status && busy p) [
    | false ↦ some (status, p)
    | true ↦ elim (parse_step p) [ none ↦ none | some (status', p') ↦ parse_loop fuel status' p' ]
  ]

-- The returned status, with the value that is stored if it is `parse_ok`.
pub data LutResult {ℓ} (V : Type ℓ) : Type ℓ where
  stored : V → LutResult V
  failed : Status → LutResult V

module _ {ℓ} {V : Type ℓ} (o : Ops V) where
  unfoldable pub extract_result : List V → LutResult V
  extract_result (r ∷ []) = stored r
  extract_result _ = failed no_value

  abbrev pub start : List ℕ → Parser V
  start input = record {
    input = input;
    next_token = token_end;
    value = o.constant 0;
    token_stack = token_end ∷ [];
    value_stack = [];
  }

  -- The status and the value after the loop.
  unfoldable pub finish : Option (Status × Parser V) → Option (LutResult V)
  finish none = none
  finish (some (status, p)) =
      some (if is_ok status then extract_result p.value_stack else failed status)

  -- Two rounds for each character are enough, as is proved.
  unfoldable pub parse_lut : List ℕ → Option (LutResult V)
  parse_lut input =
      let (status, p) = read_token o (start input) in
      finish (parse_loop o (2 * length input + 4) status p)
