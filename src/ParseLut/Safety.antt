-- ===== src/ParseLut/Safety.antt =====
-- The parser of server/parse_lut.c keeps its stacks in bounds and always ends.
use pand_ablocks_server.Prelude.{
  ℕ, ◌+◌, ◌≤◌, ◌≡◌, ◌≢◌, arith, Bool, true, false, List, [], ◌∷◌, if◌then◌else◌, length,
}
use pand_ablocks_server.ParseLut.Tokens.{
  max_depth, Token, token_constant, token_bra, token_ket, token_not, token_if, token_else,
  token_end, Status, is_ok, Action, lt, eq, gt, pr, error, lookup_action,
}
use pand_ablocks_server.ParseLut.{Parser}

-- The tokens that begin an operand.
abbrev pub is_prefix : Token → Bool
is_prefix token_constant = true
is_prefix token_bra = true
is_prefix token_not = true
is_prefix _ = false

abbrev pub pushes_action : Action → Bool
pushes_action lt = true
pushes_action eq = true
pushes_action _ = false

-- `t` may stand on the stack above `u`.
abbrev pub pushes : Token → Token → Bool
pushes u t = pushes_action (lookup_action u t)

-- Each token of the stack was pushed on the one below, and the end stands at the bottom alone.
abbrev pub Linked : List Token → Type 0
Linked [] = ⊥
Linked (t ∷ []) = t ≡ token_end
Linked (t ∷ u ∷ ts) = (pushes u t ≡ true) × (t ≢ token_end) × Linked (u ∷ ts)

-- The tokens that `reduce` lists.
abbrev pub reducible : Token → Bool
reducible token_bra = false
reducible token_if = false
reducible token_end = false
reducible _ = true

-- The operands that a token on the stack stands for.
abbrev pub weight : Token → ℕ
weight token_constant = 0
weight token_bra = 0
weight token_ket = 0
weight token_not = 0
weight _ = 1

abbrev pub slots : List Token → ℕ
slots [] = 0
slots (t ∷ ts) = weight t + slots ts

-- The room that is kept for the value to come.
abbrev pub room : Token → Token → ℕ
room token_constant next = 1
room token_ket next = 0
room _ next = if is_prefix next then 1 else 0

abbrev pub top_room : List Token → Token → ℕ
top_room [] next = 0
top_room (t ∷ ts) next = room t next

module _ {ℓ} {V : Type ℓ} where
  pub record IsSafe (p : Parser V) : Type ℓ where
    pub linked : Linked p.token_stack
    pub shallow : length p.token_stack ≤ max_depth
    pub fits : length p.value_stack + top_room p.token_stack p.next_token ≤ slots p.token_stack

pub slots-le-length : (ts : List Token) → slots ts ≤ length ts
slots-le-length [] = omega arith
slots-le-length (t ∷ ts) = ground (arith, slots-le-length ts)

-- What a push does to the room: the new token stands for what it needs.
pub room-push : (u t next : Token) → pushes u t ≡ true → room t next ≤ weight t + room u t
unfolding lookup_action
room-push token_constant token_constant next h = cc h
room-push token_ket token_constant next h = cc h
room-push _ token_constant next h = omega arith
room-push token_constant token_bra next h = cc h
room-push token_ket token_bra next h = cc h
room-push _ token_bra next h = ground arith
room-push token_constant token_not next h = cc h
room-push token_ket token_not next h = cc h
room-push _ token_not next h = ground arith
room-push u token_ket next h = omega arith
room-push u _ next h = ground arith

-- The actions, read off the table.
pub gt_next : (u t : Token) → lookup_action u t ≡ gt → (is_prefix t ≡ false) × (reducible u ≡ true)
unfolding lookup_action
gt_next u t h = ground arith

pub push_not_end : (u t : Token) → pushes u t ≡ true → u ≢ token_end → t ≢ token_end
unfolding lookup_action
push_not_end u t h = ground arith

pub below_ket : (u : Token) → pushes u token_ket ≡ true → u ≡ token_bra
unfolding lookup_action
below_ket u h = ground arith

pub below_else : (u : Token) → pushes u token_else ≡ true → u ≡ token_if
unfolding lookup_action
below_else u h = ground arith

pub not_on_constant : (t : Token) → pushes token_constant t ≡ false
unfolding lookup_action
not_on_constant t = ground arith

pub lookup_not_pr : (u t : Token) → lookup_action u t ≢ pr
unfolding lookup_action
lookup_not_pr u t h = ground arith

pub error_not_ok :
    (u t : Token) (status : Status) → lookup_action u t ≡ error status → is_ok status ≡ false
unfolding lookup_action
error_not_ok u t status h = ground arith
