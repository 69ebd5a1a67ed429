-- ===== src/ParseLut/Tokens.antt =====
-- The tokens and the precedence table of server/parse_lut.c.
use pand_ablocks_server.Prelude.{ℕ, Bool, true, false, List, [], ◌∷◌, ltb, if◌then◌else◌, get_or}

abbrev pub max_depth : ℕ
max_depth = 40

-- `enum token_symbol`; the four qualities that a token's number encodes are functions of it.
pub data Token : Type 0 where
  token_constant token_bra token_ket token_not : Token
  token_eq token_and token_xor token_or token_implies : Token
  token_if token_else token_end : Token

unfoldable pub token_index : Token → ℕ
token_index token_constant = 0
token_index token_bra = 1
token_index token_ket = 2
token_index token_not = 3
token_index token_if = 5
token_index token_else = 6
token_index token_end = 7
token_index _ = 4

-- Unused qualities are 0, as in the source.
unfoldable pub token_precedence : Token → ℕ
token_precedence token_eq = 5
token_precedence token_and = 4
token_precedence token_xor = 3
token_precedence token_or = 2
token_precedence token_implies = 1
token_precedence _ = 0

unfoldable pub token_arity : Token → ℕ
token_arity token_constant = 0
token_arity token_ket = 1
token_arity token_not = 1
token_arity token_else = 3
token_arity token_bra = 0
token_arity token_if = 0
token_arity token_end = 0
token_arity _ = 2

unfoldable pub token_reduce : Token → ℕ
token_reduce token_ket = 2
token_reduce token_else = 2
token_reduce token_bra = 0
token_reduce token_if = 0
token_reduce token_end = 0
token_reduce _ = 1

-- `enum parse_lut_status`.
pub data Status : Type 0 where
  parse_ok token_error too_complex no_operator no_open no_close no_value no_if no_else : Status

abbrev pub is_ok : Status → Bool
is_ok parse_ok = true
is_ok _ = false

-- `enum parse_action`: the error codes E1 to E5 are `error` with their status.
pub data Action : Type 0 where
  lt eq gt pr : Action
  error : Status → Action

abbrev e1 : Action
e1 = error no_operator

abbrev e2 : Action
e2 = error no_open

abbrev e3 : Action
e3 = error no_close

abbrev e4 : Action
e4 = error no_if

abbrev e5 : Action
e5 = error no_else

-- The rows and columns are constants, (, ), ~, binary operators, ?, : and the end. The last
-- entry, X in the source, is the number of LT.
abbrev parse_table : List (List Action)
parse_table =
    (e1 ∷ e1 ∷ gt ∷ e1 ∷ gt ∷ gt ∷ gt ∷ gt ∷ [])
    ∷ (lt ∷ lt ∷ eq ∷ lt ∷ lt ∷ lt ∷ e4 ∷ e3 ∷ [])
    ∷ (e1 ∷ e1 ∷ gt ∷ e1 ∷ gt ∷ gt ∷ gt ∷ gt ∷ [])
    ∷ (lt ∷ lt ∷ gt ∷ lt ∷ gt ∷ gt ∷ gt ∷ gt ∷ [])
    ∷ (lt ∷ lt ∷ gt ∷ lt ∷ pr ∷ gt ∷ gt ∷ gt ∷ [])
    ∷ (lt ∷ lt ∷ e5 ∷ lt ∷ lt ∷ lt ∷ eq ∷ e5 ∷ [])
    ∷ (lt ∷ lt ∷ gt ∷ lt ∷ lt ∷ lt ∷ gt ∷ gt ∷ [])
    ∷ (lt ∷ lt ∷ e2 ∷ lt ∷ lt ∷ lt ∷ e4 ∷ lt ∷ [])
    ∷ []

unfoldable pub lookup_action : Token → Token → Action
unfolding token_index token_precedence
lookup_action left right =
    elim (get_or (get_or parse_table (token_index left) []) (token_index right) lt) [
      | pr ↦ if ltb (token_precedence left) (token_precedence right) then lt else gt
      | other ↦ other
    ]
