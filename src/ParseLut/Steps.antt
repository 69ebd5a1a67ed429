-- ===== src/ParseLut/Steps.antt =====
-- A round of the parser's loop in server/parse_lut.c keeps the stacks in bounds and uses up input or tokens.
use pand_ablocks_server.Prelude.{
  ℕ, suc, ◌+◌, ◌≤◌, ◌<◌, ◌≡◌, ◌≢◌, refl, arith, true, false, ◌||◌, not, List, [], ◌∷◌, some, ltb,
  ◌==◌, length, drop, Bool-cases, inl, inr, leb,
}
use pand_ablocks_server.ParseLut.Tokens.{
  max_depth, Token, token_constant, token_bra, token_ket, token_not, token_eq, token_and, token_xor,
  token_or, token_implies, token_if, token_else, token_end, token_arity, token_reduce, Status,
  parse_ok, no_value, is_ok, Action, lt, eq, gt, pr, error, lookup_action,
}
use pand_ablocks_server.ParseLut.{
  Ops, Parser, is_end, read_token, reduce, push_token, reduce_stack, perform, parse_step, busy,
}
use pand_ablocks_server.ParseLut.Safety.{
  pushes, reducible, Linked, slots, room, IsSafe, slots-le-length, room-push, gt_next, push_not_end,
  lookup_not_pr, error_not_ok,
}
use pand_ablocks_server.ParseLut.Pops.{reduced-IsPopped}
use pand_ablocks_server.ParseLut.Reading.{pending, left, read_token-IsRead}

abbrev pub measure {ℓ} : {V : Type ℓ} → Parser V → ℕ
measure p = left p + length p.token_stack

pending_two : (t : Token) → t ≢ token_end → pending t ≡ 2
pending_two t ne = ground arith

leb-true : (a b : ℕ) → a ≤ b → leb a b ≡ true
leb-true a b h = ground arith

not_end : (t : Token) → t ≢ token_end → is_end t ≡ false
not_end t h = ground arith

busy_next :
    (u next : Token) (ts : List Token)
    → Linked (u ∷ ts)
    → (ltb 1 (length (u ∷ ts)) || not (is_end next)) ≡ true
    → pushes u next ≡ true
    → next ≢ token_end
busy_next u next [] l b h = ground arith
busy_next u next (v ∷ ts) (on, up, l) b h = push_not_end u next h up

module _ {ℓ} {V : Type ℓ} (o : Ops V) where
  -- What a round comes to.
  pub record IsStep (p : Parser V) (r : Status × Parser V) : Type ℓ where
    pub safe : IsSafe r.1
    pub falls : is_ok r.0 ≡ true → measure r.1 < measure p

  abbrev pub at : Parser V → List Token → Parser V
  at p ts = record p { token_stack = ts }

  push_token-IsStep :
      (p : Parser V) (u : Token) (ts : List Token)
      → IsSafe (at p (u ∷ ts))
      → pushes u p.next_token ≡ true
      → p.next_token ≢ token_end
      → IsStep (at p (u ∷ ts)) (push_token o (at p (u ∷ ts)))
  unfolding push_token
  push_token-IsStep p u ts safe h ne = elim (Bool-cases (suc (length ts) == max_depth)) [
    | inl t ↦ rw t (record { safe = safe; falls = λ x. cc x })
    | inr t ↦
        let q = at p (p.next_token ∷ u ∷ ts) in
        let r = read_token-IsRead o q in
        let next = (read_token o q).1.next_token in
        let fits : length p.value_stack + room p.next_token next ≤ slots (p.next_token ∷ u ∷ ts) =
          omega (arith, room-push u p.next_token next h, safe.fits) in
        let s = safe.shallow in
        let linked = safe.linked in
        let pend : pending p.next_token ≡ 2 = pending_two p.next_token ne in
        rw t (record {
          safe = record {
            linked = rw r.same_tokens (h, ne, linked);
            shallow = rw r.same_tokens (ground (arith, t));
            fits = rw (r.same_tokens, r.same_values) fits;
          };
          falls = λ x. rw r.same_tokens (let c = r.consumed x in omega arith);
        })
  ]

  reduce_lem :
      (u : Token) (value : V) (vs : List V)
      → reducible u ≡ true
      → token_arity u ≤ length vs
      → (rest : List V) × (reduce o u value vs ≡ some rest)
        × (length rest + token_arity u ≡ length vs + 1)
  unfolding reduce token_arity
  reduce_lem token_constant value vs r h = (value ∷ vs, refl, omega arith)
  reduce_lem token_not value (x ∷ vs) r h = (_, refl, omega arith)
  reduce_lem token_ket value (x ∷ vs) r h = (_, refl, omega arith)
  reduce_lem token_and value (y ∷ x ∷ vs) r h = (_, refl, omega arith)
  reduce_lem token_or value (y ∷ x ∷ vs) r h = (_, refl, omega arith)
  reduce_lem token_eq value (y ∷ x ∷ vs) r h = (_, refl, omega arith)
  reduce_lem token_xor value (y ∷ x ∷ vs) r h = (_, refl, omega arith)
  reduce_lem token_implies value (y ∷ x ∷ vs) r h = (_, refl, omega arith)
  reduce_lem token_else value (z ∷ y ∷ x ∷ vs) r h = (_, refl, omega arith)
  reduce_lem token_bra value vs r h = cc r
  reduce_lem token_if value vs r h = cc r
  reduce_lem token_end value vs r h = cc r
  reduce_lem _ value vs r h = absurd (omega arith)

  reduce_stack-IsStep :
      (p : Parser V) (u : Token) (ts : List Token)
      → IsSafe (at p (u ∷ ts))
      → lookup_action u p.next_token ≡ gt
      → (r : Status × Parser V) × (reduce_stack o u (at p (u ∷ ts)) ≡ some r)
        × IsStep (at p (u ∷ ts)) r
  unfolding reduce_stack
  reduce_stack-IsStep p u ts safe h =
      let (g, r) = gt_next u p.next_token h in
      elim (Bool-cases (ltb (length p.value_stack) (token_arity u))) [
        | inl t ↦ ((no_value, at p (u ∷ ts)), rw t refl, record { safe = safe; falls = λ x. cc x })
        | inr t ↦
            let (vs, e, n) = reduce_lem u p.value p.value_stack r (ground (arith, t)) in
            let pop = reduced-IsPopped p.next_token u ts safe.linked g r in
            let rest = drop (token_reduce u) (u ∷ ts) in
            let s = safe.shallow in
            let fits : length vs ≤ slots rest = omega (arith, n, pop.freed, safe.fits) in
            let small : leb (length vs) max_depth ≡ true =
              let b : length vs ≤ max_depth = omega (arith, slots-le-length rest, pop.shorter) in
              leb-true (length vs) max_depth b in
            (
              (parse_ok, record p { token_stack = rest; value_stack = vs }),
              rw (t, e, small) refl,
              record {
                safe = record {
                  linked = pop.linked;
                  shallow = omega (arith, pop.shorter);
                  fits = omega (arith, fits, pop.quiet);
                };
                falls = λ x. omega (arith, pop.shorter);
              },
            )
      ]

  -- A round is defined, whatever the table says.
  abbrev pub IsDefined : Parser V → Type ℓ
  IsDefined p = (r : Status × Parser V) × (parse_step o p ≡ some r) × IsStep p r

  push-IsDefined :
      (p : Parser V) (u : Token) (ts : List Token)
      → IsSafe (at p (u ∷ ts))
      → busy o (at p (u ∷ ts)) ≡ true
      → pushes u p.next_token ≡ true
      → (is_end p.next_token ≡ false) × IsStep (at p (u ∷ ts)) (push_token o (at p (u ∷ ts)))
  push-IsDefined p u ts safe b h =
      let ne : p.next_token ≢ token_end = busy_next u p.next_token ts safe.linked b h in
      (not_end p.next_token ne, push_token-IsStep p u ts safe h ne)

  pub step-IsDefined :
      (p : Parser V) (ts : List Token)
      → IsSafe (at p ts)
      → busy o (at p ts) ≡ true
      → IsDefined (at p ts)
  unfolding parse_step perform
  step-IsDefined p [] safe b = absurd safe.linked
  step-IsDefined p (u ∷ ts) safe b = go (lookup_action u p.next_token) refl
    where
      go : (a : Action) → lookup_action u p.next_token ≡ a → IsDefined (at p (u ∷ ts))
      go lt e =
          let (n, s) = push-IsDefined p u ts safe b (rw e refl) in
          (push_token o (at p (u ∷ ts)), rw (e, n) refl, s)
      go eq e =
          let (n, s) = push-IsDefined p u ts safe b (rw e refl) in
          (push_token o (at p (u ∷ ts)), rw (e, n) refl, s)
      go gt e = let (r, f, s) = reduce_stack-IsStep p u ts safe e in (r, rw e f, s)
      go (error status) e = (
        (status, at p (u ∷ ts)),
        rw e refl,
        record { safe = safe; falls = λ x. cc (x, error_not_ok u p.next_token status e) },
      )
      go pr e = absurd (lookup_not_pr u p.next_token e)
