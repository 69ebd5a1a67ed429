-- ===== src/ParseLut/Expressions.antt =====
-- Expressions of server/parse_lut.c with all their brackets, and the parser's rounds on them.
use pand_ablocks_server.Prelude.{
  ℕ, suc, ◌+◌, ◌≤◌, ◌<◌, ◌≡◌, refl, arith, true, false, List, [], ◌∷◌, ◌++◌, some, ltb, leb, ◌==◌,
  length, drop, inl, inr, ◌⊎◌,
}
use pand_ablocks_server.ParseLut.Tokens.{
  max_depth, Token, token_constant, token_ket, token_eq, token_and, token_xor, token_or,
  token_implies, token_arity, token_reduce, parse_ok, lt, eq, gt, lookup_action,
}
use pand_ablocks_server.ParseLut.{
  Ops, Parser, is_end, is_constant, read_token, reduce, push_token, reduce_stack, perform,
  parse_step, busy,
}

pub data Binary : Type 0 where
  conjunction disjunction equality exclusion implication : Binary

pub data Expr : Type 0 where
  leaf : (ch : ℕ) → is_constant ch ≡ true → Expr
  negate : Expr → Expr
  binary : Binary → Expr → Expr → Expr
  choose : Expr → Expr → Expr → Expr

abbrev pub binary_text : Binary → List ℕ
binary_text conjunction = b'&' ∷ []
binary_text disjunction = b'|' ∷ []
binary_text equality = b'=' ∷ b'=' ∷ []
binary_text exclusion = b'^' ∷ []
binary_text implication = b'=' ∷ b'>' ∷ []

abbrev pub binary_token : Binary → Token
binary_token conjunction = token_and
binary_token disjunction = token_or
binary_token equality = token_eq
binary_token exclusion = token_xor
binary_token implication = token_implies

-- An expression before a text, with brackets round every operation.
unfoldable pub print : Expr → List ℕ → List ℕ
print (leaf ch h) after = ch ∷ after
print (negate x) after = b'(' ∷ b'~' ∷ print x (b')' ∷ after)
print (binary op x y) after = b'(' ∷ print x (binary_text op ++ print y (b')' ∷ after))
print (choose x y z) after = b'(' ∷ print x (b'?' ∷ print y (b':' ∷ print z (b')' ∷ after)))

-- The room that an expression takes on the stacks.
unfoldable pub depth : Expr → ℕ
depth (leaf ch h) = 1
depth (negate x) = 2 + depth x
depth (binary op x y) = 2 + (depth x + depth y)
depth (choose x y z) = 3 + (depth x + depth y + depth z)

module _ {ℓ} {V : Type ℓ} (o : Ops V) where
  abbrev pub binary_value : Binary → V → V → V
  binary_value conjunction x y = o.conj x y
  binary_value disjunction x y = o.disj x y
  binary_value equality x y = o.complement (o.differ x y)
  binary_value exclusion x y = o.differ x y
  binary_value implication x y = o.disj (o.complement x) y

  unfoldable pub evaluate : Expr → V
  evaluate (leaf ch h) = o.constant ch
  evaluate (negate x) = o.complement (evaluate x)
  evaluate (binary op x y) = binary_value op (evaluate x) (evaluate y)
  evaluate (choose x y z) =
      o.disj (o.conj (evaluate x) (evaluate y)) (o.conj (o.complement (evaluate x)) (evaluate z))

  abbrev pub at : List ℕ → Token → V → List Token → List V → Parser V
  at s next v ts vs = record {
    input = s;
    next_token = next;
    value = v;
    token_stack = ts;
    value_stack = vs;
  }

  -- Rounds of the loop without an error.
  pub data Goes : Parser V → Parser V → Type ℓ where
    done : {p : Parser V} → Goes p p
    round :
        {p q r : Parser V}
        → busy o p ≡ true
        → parse_step o p ≡ some (parse_ok, q)
        → Goes q r
        → Goes p r

  pub joined : {p q r : Parser V} → Goes p q → Goes q r → Goes p r
  joined done h = h
  joined (round b e g) h = round b e (joined g h)

  -- A text whose first token ends an operand.
  pub record Follows (s s' : List ℕ) (t : Token) : Type ℓ where
    pub reads :
        (next : Token) (v : V) (ts : List Token) (vs : List V)
        → read_token o (at s next v ts vs) ≡ (parse_ok, at s' t v ts vs)
    pub after_constant : lookup_action token_constant t ≡ gt
    pub after_ket : lookup_action token_ket t ≡ gt

  -- A push of a token, when what is read next is known.
  pub pushes :
      (s : List ℕ) (t u : Token) (v : V) (ts : List Token) (vs : List V) (q : Parser V)
      → ((lookup_action u t ≡ lt) ⊎ (lookup_action u t ≡ eq))
      → is_end t ≡ false
      → length (u ∷ ts) < max_depth
      → read_token o (at s t v (t ∷ u ∷ ts) vs) ≡ (parse_ok, q)
      → parse_step o (at s t v (u ∷ ts) vs) ≡ some (parse_ok, q)
  unfolding parse_step perform push_token
  pushes s t u v ts vs q (inl a) n h e =
      let k : (suc (length ts) == max_depth) ≡ false = ground arith in
      rw (a, perform, n, push_token, k, e) refl
  pushes s t u v ts vs q (inr a) n h e =
      let k : (suc (length ts) == max_depth) ≡ false = ground arith in
      rw (a, perform, n, push_token, k, e) refl

  pub reduces :
      (s : List ℕ) (t u : Token) (v : V) (ts : List Token) (vs vs' : List V)
      → lookup_action u t ≡ gt
      → token_arity u ≤ length vs
      → reduce o u v vs ≡ some vs'
      → length vs' ≤ max_depth
      → parse_step o (at s t v (u ∷ ts) vs)
        ≡ some (parse_ok, at s t v (drop (token_reduce u) (u ∷ ts)) vs')
  unfolding parse_step perform reduce_stack
  reduces s t u v ts vs vs' a h e l =
      let q : ltb (length vs) (token_arity u) ≡ false = ground arith in
      let k : leb (length vs') max_depth ≡ true = ground arith in
      rw (a, perform, reduce_stack, q, e, k) refl

  pub busy_two :
      (s : List ℕ) (t u w : Token) (v : V) (ts : List Token) (vs : List V)
      → busy o (at s t v (u ∷ w ∷ ts) vs) ≡ true
  busy_two s t u w v ts vs = ground arith

  pub busy_next :
      (s : List ℕ) (t : Token) (v : V) (ts : List Token) (vs : List V)
      → is_end t ≡ false
      → busy o (at s t v ts vs) ≡ true
  busy_next s t v ts vs e = ground arith
