-- ===== src/ParseLut/Pops.antt =====
-- The token stack when server/parse_lut.c reduces its top.
use pand_ablocks_server.Prelude.{
  suc, ◌+◌, ◌≤◌, ◌<◌, ◌≡◌, ◌≢◌, arith, true, false, List, [], ◌∷◌, length, drop,
}
use pand_ablocks_server.ParseLut.Tokens.{
  Token, token_constant, token_bra, token_ket, token_not, token_eq, token_and, token_xor, token_or,
  token_implies, token_if, token_else, token_end, token_arity, token_reduce,
}
use pand_ablocks_server.ParseLut.Safety.{
  pushes, reducible, is_prefix, Linked, weight, slots, room, top_room, below_ket, below_else,
  not_on_constant,
}

-- The token stack after a reduction of `u` on `ts`.
pub record IsPopped (next u : Token) (ts rest : List Token) : Type 0 where
  pub linked : Linked rest
  pub shorter : length rest < suc (length ts)
  pub freed : slots (u ∷ ts) + 1 ≤ slots rest + token_arity u + room u next
  pub quiet : top_room rest next ≡ 0

quiet_room : (u t next : Token) → pushes u t ≡ true → is_prefix next ≡ false → room u next ≡ 0
quiet_room token_constant t next h g = absurd (cc (not_on_constant t, h))
quiet_room _ t next h g = ground arith

single-IsPopped :
    (next u : Token) (ts : List Token)
    → Linked (u ∷ ts)
    → is_prefix next ≡ false
    → u ≢ token_end
    → weight u + 1 ≤ token_arity u + room u next
    → IsPopped next u ts ts
single-IsPopped next u [] l g ne w = absurd (ne l)
single-IsPopped next u (v ∷ ts) (on, up, l) g ne w = record {
  linked = l;
  shorter = omega arith;
  freed = omega arith;
  quiet = quiet_room v u next on g;
}

double-IsPopped :
    (next u v : Token) (ts : List Token)
    → Linked (u ∷ v ∷ ts)
    → is_prefix next ≡ false
    → v ≢ token_end
    → weight u + weight v + 1 ≤ token_arity u
    → IsPopped next u (v ∷ ts) ts
double-IsPopped next u v [] (on, up, l) g ne w = absurd (ne l)
double-IsPopped next u v (t ∷ ts) (on, up, (under, above, l)) g ne w = record {
  linked = l;
  shorter = omega arith;
  freed = omega arith;
  quiet = quiet_room t v next under g;
}

pub reduced-IsPopped :
    (next u : Token) (ts : List Token)
    → Linked (u ∷ ts)
    → is_prefix next ≡ false
    → reducible u ≡ true
    → IsPopped next u ts (drop (token_reduce u) (u ∷ ts))
unfolding token_reduce token_arity
reduced-IsPopped next token_ket [] l g r = cc l
reduced-IsPopped next token_ket (v ∷ ts) l g r =
    let e = below_ket v l.0 in
    double-IsPopped next token_ket v ts l g (rw e (λ x. cc x)) (rw e (omega arith))
reduced-IsPopped next token_else [] l g r = cc l
reduced-IsPopped next token_else (v ∷ ts) l g r =
    let e = below_else v l.0 in
    double-IsPopped next token_else v ts l g (rw e (λ x. cc x)) (rw e (omega arith))
reduced-IsPopped next token_bra ts l g r = cc r
reduced-IsPopped next token_if ts l g r = cc r
reduced-IsPopped next token_end ts l g r = cc r
reduced-IsPopped next token_constant ts l g r =
    single-IsPopped next token_constant ts l g (λ x. cc x) (omega arith)
reduced-IsPopped next token_not ts l g r =
    single-IsPopped next token_not ts l g (λ x. cc x) (ground arith)
reduced-IsPopped next token_eq ts l g r =
    single-IsPopped next token_eq ts l g (λ x. cc x) (ground arith)
reduced-IsPopped next token_and ts l g r =
    single-IsPopped next token_and ts l g (λ x. cc x) (ground arith)
reduced-IsPopped next token_xor ts l g r =
    single-IsPopped next token_xor ts l g (λ x. cc x) (ground arith)
reduced-IsPopped next token_or ts l g r =
    single-IsPopped next token_or ts l g (λ x. cc x) (ground arith)
reduced-IsPopped next token_implies ts l g r =
    single-IsPopped next token_implies ts l g (λ x. cc x) (ground arith)
