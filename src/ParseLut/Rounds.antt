-- ===== src/ParseLut/Rounds.antt =====
-- What server/parse_lut.c does on each part of a bracketed expression.
use pand_ablocks_server.Prelude.{
  ℕ, suc, ◌<◌, ◌≡◌, refl, sym, ap, ◌∙◌, arith, true, false, List, [], ◌∷◌, ◌++◌, some, ◌==◌, length,
  inl, inr, ◌⊎◌,
}
use pand_ablocks_server.ParseLut.Tokens.{
  max_depth, Token, token_constant, token_bra, token_ket, token_not, token_if, token_else,
  token_end, token_arity, token_reduce, Status, parse_ok, lt, eq, gt, lookup_action,
}
use pand_ablocks_server.ParseLut.{
  Ops, Parser, is_end, read_char, read_equals, is_constant, simple_token, read_token, reduce,
}
use pand_ablocks_server.ParseLut.Expressions.{
  Binary, conjunction, disjunction, equality, exclusion, implication, Expr, leaf, negate, binary,
  choose, binary_text, binary_token, binary_value, print, evaluate, at, Goes, done, round, Follows,
  pushes, reduces, busy_two, busy_next,
}

-- A token that an operand may follow.
pub record Accepts (u : Token) : Type 0 where
  pub on_constant : lookup_action u token_constant ≡ lt
  pub on_bra : lookup_action u token_bra ≡ lt

pub before_token : (op : Binary) → Accepts (binary_token op)
unfolding lookup_action
before_token conjunction = record { on_constant = refl; on_bra = refl }
before_token disjunction = record { on_constant = refl; on_bra = refl }
before_token equality = record { on_constant = refl; on_bra = refl }
before_token exclusion = record { on_constant = refl; on_bra = refl }
before_token implication = record { on_constant = refl; on_bra = refl }

pub before_others :
    Accepts token_bra
    × Accepts token_not
    × Accepts token_if
    × Accepts token_else
    × Accepts token_end
unfolding lookup_action
before_others = (
  record { on_constant = refl; on_bra = refl },
  record { on_constant = refl; on_bra = refl },
  record { on_constant = refl; on_bra = refl },
  record { on_constant = refl; on_bra = refl },
  record { on_constant = refl; on_bra = refl },
)

constant_no_blank : (ch : ℕ) → is_constant ch ≡ true → (ch == b' ') ≡ false
unfolding is_constant
constant_no_blank ch h = ground arith

module _ {ℓ} {V : Type ℓ} (o : Ops V) where
  read_constant :
      (ch : ℕ) (s : List ℕ) (next : Token) (v : V) (ts : List Token) (vs : List V)
      → is_constant ch ≡ true
      → read_token o (at o (ch ∷ s) next v ts vs)
        ≡ (parse_ok, at o s token_constant (o.constant ch) ts vs)
  unfolding read_token read_char
  read_constant ch s next v ts vs h = rw (constant_no_blank ch h, h) refl

  pub read_bra :
      (s : List ℕ) (next : Token) (v : V) (ts : List Token) (vs : List V)
      → read_token o (at o (b'(' ∷ s) next v ts vs) ≡ (parse_ok, at o s token_bra v ts vs)
  unfolding read_token read_char is_constant simple_token
  read_bra s next v ts vs = refl

  pub read_not :
      (s : List ℕ) (next : Token) (v : V) (ts : List Token) (vs : List V)
      → read_token o (at o (b'~' ∷ s) next v ts vs) ≡ (parse_ok, at o s token_not v ts vs)
  unfolding read_token read_char is_constant simple_token
  read_not s next v ts vs = refl

  pub Follows-ket : (s : List ℕ) → Follows o (b')' ∷ s) s token_ket
  unfolding read_token read_char is_constant simple_token lookup_action
  Follows-ket s = record { reads = λ next v ts vs. refl; after_constant = refl; after_ket = refl }

  pub Follows-if : (s : List ℕ) → Follows o (b'?' ∷ s) s token_if
  unfolding read_token read_char is_constant simple_token lookup_action
  Follows-if s = record { reads = λ next v ts vs. refl; after_constant = refl; after_ket = refl }

  pub Follows-else : (s : List ℕ) → Follows o (b':' ∷ s) s token_else
  unfolding read_token read_char is_constant simple_token lookup_action
  Follows-else s = record { reads = λ next v ts vs. refl; after_constant = refl; after_ket = refl }

  pub Follows-end : Follows o [] [] token_end
  unfolding read_token read_char is_constant simple_token lookup_action
  Follows-end = record { reads = λ next v ts vs. refl; after_constant = refl; after_ket = refl }

  pub Follows-binary :
      (op : Binary) (s : List ℕ) → Follows o (binary_text op ++ s) s (binary_token op)
  unfolding read_token read_char read_equals is_constant simple_token lookup_action
  Follows-binary conjunction s = record {
    reads = λ next v ts vs. refl;
    after_constant = refl;
    after_ket = refl;
  }
  Follows-binary disjunction s = record {
    reads = λ next v ts vs. refl;
    after_constant = refl;
    after_ket = refl;
  }
  Follows-binary equality s = record {
    reads = λ next v ts vs. refl;
    after_constant = refl;
    after_ket = refl;
  }
  Follows-binary exclusion s = record {
    reads = λ next v ts vs. refl;
    after_constant = refl;
    after_ket = refl;
  }
  Follows-binary implication s = record {
    reads = λ next v ts vs. refl;
    after_constant = refl;
    after_ket = refl;
  }

  -- The state in which an expression begins.
  unfoldable pub first : Expr → List ℕ → Token → V → List Token → List V → Parser V
  first e rest next v ts vs = (read_token o (at o (print e rest) next v ts vs)).1

  ok_pair : {x : Status × Parser V} {q : Parser V} → x ≡ (parse_ok, q) → x ≡ (parse_ok, x.1)
  ok_pair e = e ∙ ap (λ (y : Status × Parser V). (parse_ok, y.1)) (sym e)

  pub first_read :
      (e : Expr) (rest : List ℕ) (next : Token) (v : V) (ts : List Token) (vs : List V)
      → read_token o (at o (print e rest) next v ts vs) ≡ (parse_ok, first e rest next v ts vs)
  unfolding first print
  first_read (leaf ch h) rest next v ts vs = ok_pair (read_constant ch rest next v ts vs h)
  first_read (negate x) rest next v ts vs =
      ok_pair (read_bra (b'~' ∷ print x (b')' ∷ rest)) next v ts vs)
  first_read (binary op x y) rest next v ts vs =
      ok_pair (read_bra (print x (binary_text op ++ print y (b')' ∷ rest))) next v ts vs)
  first_read (choose x y z) rest next v ts vs =
      ok_pair (read_bra (print x (b'?' ∷ print y (b':' ∷ print z (b')' ∷ rest)))) next v ts vs)

  -- The end of a bracket.
  pub close :
      (s s' : List ℕ) (t u : Token) (v : V) (ts : List Token) (vs : List V) (r : V)
      → Follows o s s' t
      → suc (length (u ∷ ts)) < max_depth
      → length vs < max_depth
      → Goes o (at o s token_ket v (token_bra ∷ u ∷ ts) (r ∷ vs)) (at o s' t v (u ∷ ts) (r ∷ vs))
  unfolding lookup_action token_arity token_reduce reduce
  close s s' t u v ts vs r f h l =
      round (busy_next o s token_ket v (token_bra ∷ u ∷ ts) (r ∷ vs) refl)
        (pushes o s token_ket token_bra v (u ∷ ts) (r ∷ vs)
          (at o s' t v (token_ket ∷ token_bra ∷ u ∷ ts) (r ∷ vs)) (inr refl) refl (omega arith)
          (f.reads token_ket v (token_ket ∷ token_bra ∷ u ∷ ts) (r ∷ vs)))
        (round (busy_two o s' t token_ket token_bra v (u ∷ ts) (r ∷ vs))
          (reduces o s' t token_ket v (token_bra ∷ u ∷ ts) (r ∷ vs) (r ∷ vs) f.after_ket
            (omega arith) refl (omega arith))
          done)

  -- From the first token of an expression to the token after it.
  abbrev pub Reaches :
      Expr → List ℕ → List ℕ → Token → Token → V → Token → List Token → List V → Type ℓ
  Reaches e rest s' t next v u ts vs =
      (v' : V) × Goes o (first e rest next v (u ∷ ts) vs)
        (at o s' t v' (u ∷ ts) (evaluate o e ∷ vs))

  -- A bracket is opened before an expression.
  pub opened :
      (e : Expr) (rest : List ℕ) (u : Token) (v : V) (ts : List Token) (vs : List V)
      → lookup_action u token_bra ≡ lt
      → length (u ∷ ts) < max_depth
      → {q : Parser V} → Goes o (first e rest token_bra v (token_bra ∷ u ∷ ts) vs) q
      → Goes o (at o (print e rest) token_bra v (u ∷ ts) vs) q
  opened e rest u v ts vs a h g =
      round (busy_next o (print e rest) token_bra v (u ∷ ts) vs refl)
        (pushes o (print e rest) token_bra u v ts vs
          (first e rest token_bra v (token_bra ∷ u ∷ ts) vs) (inl a) refl h
          (first_read e rest token_bra v (token_bra ∷ u ∷ ts) vs))
        g

  -- A token is pushed before an expression.
  pub pushed :
      (e : Expr) (rest : List ℕ) (t u : Token) (v : V) (ts : List Token) (vs : List V)
      → ((lookup_action u t ≡ lt) ⊎ (lookup_action u t ≡ eq))
      → is_end t ≡ false
      → length (u ∷ ts) < max_depth
      → {q : Parser V} → Goes o (first e rest t v (t ∷ u ∷ ts) vs) q
      → Goes o (at o (print e rest) t v (u ∷ ts) vs) q
  pushed e rest t u v ts vs a n h g =
      round (busy_next o (print e rest) t v (u ∷ ts) vs n)
        (pushes o (print e rest) t u v ts vs (first e rest t v (t ∷ u ∷ ts) vs) a n h
          (first_read e rest t v (t ∷ u ∷ ts) vs))
        g

  pub binary_facts :
      (op : Binary)
      → (lookup_action token_bra (binary_token op) ≡ lt)
        × (lookup_action (binary_token op) token_ket ≡ gt)
        × (is_end (binary_token op) ≡ false)
        × (token_arity (binary_token op) ≡ 2)
        × (token_reduce (binary_token op) ≡ 1)
  unfolding lookup_action token_arity token_reduce
  binary_facts conjunction = (refl, refl, refl, refl, refl)
  binary_facts disjunction = (refl, refl, refl, refl, refl)
  binary_facts equality = (refl, refl, refl, refl, refl)
  binary_facts exclusion = (refl, refl, refl, refl, refl)
  binary_facts implication = (refl, refl, refl, refl, refl)

  pub reduce_binary :
      (op : Binary) (v x y : V) (vs : List V)
      → reduce o (binary_token op) v (y ∷ x ∷ vs) ≡ some (binary_value o op x y ∷ vs)
  unfolding reduce
  reduce_binary conjunction v x y vs = refl
  reduce_binary disjunction v x y vs = refl
  reduce_binary equality v x y vs = refl
  reduce_binary exclusion v x y vs = refl
  reduce_binary implication v x y vs = refl

  pub leaf-Reaches :
      (ch : ℕ) (h : is_constant ch ≡ true) (rest s' : List ℕ) (t next u : Token) (v : V)
      (ts : List Token) (vs : List V)
      → Follows o rest s' t
      → Accepts u
      → length (u ∷ ts) < max_depth
      → length vs < max_depth
      → Reaches (leaf ch h) rest s' t next v u ts vs
  unfolding first print evaluate reduce token_arity token_reduce
  leaf-Reaches ch h rest s' t next u v ts vs f a l k =
      let c = o.constant ch in
      let r = ap (λ (x : Status × Parser V). x.1) (read_constant ch rest next v (u ∷ ts) vs h) in
      (
        c,
        rw r (
            round (busy_next o rest token_constant c (u ∷ ts) vs refl)
              (pushes o rest token_constant u c ts vs (at o s' t c (token_constant ∷ u ∷ ts) vs)
                (inl a.on_constant) refl l (f.reads token_constant c (token_constant ∷ u ∷ ts) vs))
              (round (busy_two o s' t token_constant u c ts vs)
                (reduces o s' t token_constant c (u ∷ ts) vs (c ∷ vs) f.after_constant (omega arith)
                  refl (omega arith))
                done)),
      )
