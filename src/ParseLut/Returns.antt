-- ===== src/ParseLut/Returns.antt =====
-- `parse_lut` of server/parse_lut.c always ends, inside its arrays.
use pand_ablocks_server.Prelude.{
  ℕ, zero, suc, ◌+◌, ◌*◌, ◌≤◌, ◌<◌, ◌≡◌, refl, ◌∙◌, arith, Bool, true, false, ◌&&◌, List, some,
  if◌then◌else◌, length, Bool-cases, inl, inr,
}
use pand_ablocks_server.ParseLut.Tokens.{Token, Status, is_ok, token_end}
use pand_ablocks_server.ParseLut.{
  Ops, Parser, read_token, parse_step, busy, parse_loop, parse_lut, LutResult, failed,
  extract_result, finish, start,
}
use pand_ablocks_server.ParseLut.Safety.{IsSafe, room}
use pand_ablocks_server.ParseLut.Reading.{read_token-IsRead}
use pand_ablocks_server.ParseLut.Steps.{measure, step-IsDefined}

first_room : (next : Token) → 0 + room token_end next ≤ 1
first_room next = ground arith

split_and : (a b : Bool) → (a && b) ≡ true → (a ≡ true) × (b ≡ true)
split_and a b h = ground arith

module _ {ℓ} {V : Type ℓ} (o : Ops V) where
  pub loop_goes :
      (fuel : ℕ) (status : Status) (p : Parser V) (r : Status × Parser V)
      → (is_ok status && busy o p) ≡ true
      → parse_step o p ≡ some r
      → parse_loop o (suc fuel) status p ≡ parse_loop o fuel r.0 r.1
  unfolding parse_loop
  loop_goes fuel status p r t e = rw (t, e, parse_loop) refl

  pub loop_stops :
      (fuel : ℕ) (status : Status) (p : Parser V)
      → (is_ok status && busy o p) ≡ false
      → parse_loop o (suc fuel) status p ≡ some (status, p)
  unfolding parse_loop
  loop_stops fuel status p t = rw (t, parse_loop) refl

  -- Fuel above the measure is enough.
  parse_loop_returns :
      (fuel : ℕ) (status : Status) (p : Parser V)
      → IsSafe p
      → (is_ok status ≡ true → measure p + 1 < fuel)
      → 0 < fuel
      → (r : Status × Parser V) × (parse_loop o fuel status p ≡ some r)
  parse_loop_returns zero status p safe f g = absurd (omega arith)
  parse_loop_returns (suc fuel) status p safe f g = elim (Bool-cases (is_ok status && busy o p)) [
    | inl t ↦
        let (k, b) = split_and (is_ok status) (busy o p) t in
        let enough = f k in
        let (r, e, step) = step-IsDefined o p p.token_stack safe b in
        let (r', e') =
          parse_loop_returns fuel r.0 r.1 step.safe (λ m. let s = step.falls m in omega arith)
            (omega arith) in
        (r', loop_goes fuel status p r t e ∙ e')
    | inr t ↦ ((status, p), loop_stops fuel status p t)
  ]

  -- The loop at the start of `parse_lut`.
  pub loop_returns :
      (input : List ℕ)
      → (r : Status × Parser V) × (parse_loop o
            (2 * length input + 4)
            (read_token o (start o input)).0
            (read_token o (start o input)).1
          ≡ some r)
  loop_returns input =
      let r = read_token-IsRead o (start o input) in
      let s = read_token o (start o input) in
      let safe : IsSafe s.1 = record {
        linked = rw r.same_tokens refl;
        shallow = rw r.same_tokens (omega arith);
        fits = rw (r.same_tokens, r.same_values) (first_room s.1.next_token);
      } in
      let height : length s.1.token_stack ≡ 1 = rw r.same_tokens refl in
      let enough : is_ok s.0 ≡ true → measure s.1 + 1 < 2 * length input + 4 =
        λ k. omega (arith, r.consumed k, height) in
      parse_loop_returns (2 * length input + 4) s.0 s.1 safe enough (omega arith)

  -- For every input `parse_lut` gives a result, so the fuel is enough and no `none` is met: no token
  -- is reduced that `reduce` does not list or whose operands are missing, the stacks stay in their
  -- bounds, and nothing is read past the NUL of the string.
  pub parse_lut_returns : (input : List ℕ) → (r : LutResult V) × (parse_lut o input ≡ some r)
  unfolding parse_lut finish
  parse_lut_returns input =
      let (r, e) = loop_returns input in
      (
        if is_ok r.0 then extract_result o r.1.value_stack else failed r.0,
        rw (e, parse_lut, finish) refl,
      )
