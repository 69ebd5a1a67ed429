-- ===== src/Parse/Nesting.antt =====
-- The indentation stack of server/parse.c from line to line.
use native.Mathlib.Decide.{dec_lt}
use native.Mathlib.Nat.{le_refl}
use pand_ablocks_server.Prelude.{
  ℕ, zero, suc, ◌+◌, ◌-◌, ◌≤◌, ◌<◌, ◌≡◌, refl, sym, ap, ◌∙◌, arith, ◌||◌, List, ltb, ◌==◌,
  if◌then◌else◌, length, peek, get_or, set, Bool-cases, inl, inr, ◌⊎◌, get_or-set_self,
  get_or-set_ne, length-set, ==_iff,
}
use pand_ablocks_server.Parse.{
  Outcome, ok, fail, bad_indent, not_at_end, then_parse, skip_whitespace,
}
use pand_ablocks_server.Parse.Indents.{
  max_indent, IndentParsers, IndentStack, open_indent, call_end, close_loop, close_indents, move_to,
  parse_at, parse_one_line, first_stack,
}

-- The levels up to the top have growing indentations from 0, and there is room for one level more.
pub record IsNested {P : Type 0} (st : IndentStack P) : Type 0 where
  pub room : st.sp ≤ max_indent
  pub indents_room : length st.indents ≡ max_indent + 2
  pub parsers_room : length st.parsers ≡ max_indent + 2
  pub from_zero : get_or st.indents 0 0 ≡ 0
  pub grows : (i j : ℕ) → i < j → j ≤ st.sp → get_or st.indents i 0 < get_or st.indents j 0

-- What a successful part gives.
ok-inv :
    {A B S : Type 0} (r : Outcome A × S) (next : A → S → Outcome B × S) (b : B) (t : S)
    → then_parse r next ≡ (ok b, t)
    → (a : A) × (u : S) × (r ≡ (ok a, u)) × (next a u ≡ (ok b, t))
unfolding then_parse
ok-inv (ok a, u) next b t e = (a, u, refl, e)
ok-inv (fail x, u) next b t e = cc (ap (λ (x : Outcome _ × _). x.0) e)

-- One level more, deeper than those below it.
one_more :
    (f f' : ℕ → ℕ) (n k : ℕ)
    → ((i j : ℕ) → i < j → j ≤ n → f i < f j)
    → f n < k
    → f' (suc n) ≡ k
    → ((i : ℕ) → i < suc n → f' i ≡ f i)
    → (i j : ℕ) → i < j
    → j ≤ suc n
    → f' i < f' j
one_more f f' n k grows deeper top same i j h l = elim (dec_lt n j) [
  | yes p ↦
      let e : j ≡ suc n = omega arith in
      let low : f i ≤ f n = elim (dec_lt i n) [
        | yes q ↦ omega (arith, grows i n q (le_refl n))
        | no q ↦ (let t : i ≡ n = omega arith in rw t (le_refl (f n)))
      ] in
      rw e (omega (arith, top, low, same i (omega arith)))
  | no p ↦ omega (arith, same i (omega arith), same j (omega arith), grows i j h (omega arith))
]

-- A stack whose top level is at an indentation, with the levels below it as they were.
pub record IsPlaced {P : Type 0} (st : IndentStack P) (indent : ℕ) (st' : IndentStack P)
    : Type 0 where
  pub nested : IsNested st'
  pub flush : get_or st'.indents st'.sp 0 ≡ indent
  pub one_level : st'.sp ≤ st.sp + 1
  pub kept : (i : ℕ) → i < st'.sp → get_or st'.indents i 0 ≡ get_or st.indents i 0
  pub same_parsers : st'.parsers ≡ st.parsers

module _ {P S : Type 0} (c : IndentParsers P S) where
  open_indent-IsPlaced :
      (st st' : IndentStack P) (indent : ℕ)
      → IsNested st
      → get_or st.indents st.sp 0 < indent
      → open_indent c st indent ≡ ok st'
      → IsPlaced st indent st'
  unfolding open_indent
  open_indent-IsPlaced st st' indent n deeper e = elim (Bool-cases (ltb st.sp max_indent)) [
    | inr t ↦ absurd (cc (rw t at e))
    | inl t ↦
        let small : st.sp < max_indent = ground (arith, t) in
        let opened : IndentStack P = record st {
          sp = suc st.sp;
          indents = set st.indents (suc st.sp) indent;
        } in
        let f : opened ≡ st' = cc (rw t at e) in
        let top : get_or opened.indents (suc st.sp) 0 ≡ indent =
          get_or-set_self st.indents (suc st.sp) indent 0 (omega (arith, n.indents_room)) in
        let same = λ (i : ℕ) (h : i < suc st.sp).
          get_or-set_ne st.indents (suc st.sp) i indent 0 (λ q. omega arith) in
        rw (sym f) (record {
          nested = record {
            room = omega arith;
            indents_room = length-set st.indents (suc st.sp) indent ∙ n.indents_room;
            parsers_room = n.parsers_room;
            from_zero = same 0 (omega arith) ∙ n.from_zero;
            grows =
                one_more (λ i. get_or st.indents i 0) (λ i. get_or opened.indents i 0) st.sp indent
                  n.grows deeper top same;
          };
          flush = top;
          one_level = omega arith;
          kept = same;
          same_parsers = refl;
        })
  ]

  close_loop_le :
      (st : IndentStack P) (indent sp : ℕ) (s t : S) (sp' : ℕ)
      → close_loop c st indent sp s ≡ (ok sp', t)
      → sp' ≤ sp
  unfolding close_loop
  close_loop_le st indent zero s t sp' e =
      let (_, u, f, g) =
        ok-inv (call_end c (get_or st.parsers 1 c.empty) s) (λ _ t. (ok 0, t)) sp' t e in
      let h : 0 ≡ sp' = cc (ap (λ (x : Outcome ℕ × S). x.0) g) in omega arith
  close_loop_le st indent (suc sp) s t sp' e =
      let (_, u, f, g) =
        ok-inv (call_end c (get_or st.parsers (suc (suc sp)) c.empty) s)
          (λ _ t.
            if ltb indent (get_or st.indents (suc sp) 0)
            then close_loop c st indent sp t
            else (ok (suc sp), t))
          sp' t e in
      elim (Bool-cases (ltb indent (get_or st.indents (suc sp) 0))) [
        | inl b ↦ (let l = close_loop_le st indent sp u t sp' (rw b at g) in omega arith)
        | inr b ↦
            (let h : suc sp ≡ sp' = cc (ap (λ (x : Outcome ℕ × S). x.0) (rw b at g)) in omega arith)
      ]

  close_indents-IsPlaced :
      (st st' : IndentStack P) (indent : ℕ) (s t : S)
      → IsNested st
      → close_indents c st indent s ≡ (ok st', t)
      → IsPlaced st indent st'
  unfolding close_indents
  close_indents-IsPlaced st st' indent s t n e =
      let (sp, u, f, g) =
        ok-inv (close_loop c st indent st.sp s)
          (λ sp t. (
            if indent == get_or st.indents sp 0
                then ok (record st { sp = sp })
                else fail bad_indent,
            t,
          ))
          st' t e in
      let l = close_loop_le st indent st.sp s u sp f in
      let v = ap (λ (x : Outcome (IndentStack P) × S). x.0) g in
      elim (Bool-cases (indent == get_or st.indents sp 0)) [
        | inr b ↦ absurd (cc (rw b at v))
        | inl b ↦
            let w : record st { sp = sp } ≡ st' = cc (rw b at v) in
            let flush : indent ≡ get_or st.indents sp 0 =
              (==_iff indent (get_or st.indents sp 0)).0 b in
            rw (sym w) (record {
              nested = record {
                room = (let r = n.room in omega arith);
                indents_room = n.indents_room;
                parsers_room = n.parsers_room;
                from_zero = n.from_zero;
                grows = λ i j h k. n.grows i j h (omega arith);
              };
              flush = sym flush;
              one_level = omega arith;
              kept = λ i h. refl;
              same_parsers = refl;
            })
      ]

  move_to-IsPlaced :
      (st st' : IndentStack P) (indent : ℕ) (s t : S)
      → IsNested st
      → move_to c st indent s ≡ (ok st', t)
      → IsPlaced st indent st'
  unfolding move_to
  move_to-IsPlaced st st' indent s t n e =
      elim (Bool-cases (ltb (get_or st.indents st.sp 0) indent)) [
        | inl b ↦
            open_indent-IsPlaced st st' indent n (ground (arith, b))
              (ap (λ (x : Outcome (IndentStack P) × S). x.0) (rw b at e))
        | inr b ↦ close_indents-IsPlaced st st' indent s t n (rw b at e)
      ]

  -- What a line that is no comment does: it is placed at its indentation, the parser that was
  -- stored for that level gets it and uses it up, and what that gives is stored one level above.
  pub record IsParsed (st : IndentStack P) (indent : ℕ) (line : List ℕ) (st' : IndentStack P)
      (t : S) : Type 0 where
    pub level : IsPlaced st indent (record st' { parsers = st.parsers })
    pub nested : IsNested st'
    pub next : P
    pub before : S
    pub rest : List ℕ
    pub called : c.parse_line (get_or st.parsers st'.sp c.empty) line before ≡ (ok next, (rest, t))
    pub used_up : peek rest ≡ 0
    pub stored : st'.parsers ≡ set st.parsers (suc st'.sp) next

  built-IsParsed :
      (st placed : IndentStack P) (indent : ℕ) (line rest : List ℕ) (next : P) (s t : S)
      → IsPlaced st indent placed
      → c.parse_line (get_or placed.parsers placed.sp c.empty) line s ≡ (ok next, (rest, t))
      → peek rest ≡ 0
      → IsParsed st indent line
          (record placed { parsers = set placed.parsers (suc placed.sp) next })
          t
  built-IsParsed st placed indent line rest next s t p f z = record {
    level = record {
      nested = record {
        room = p.nested.room;
        indents_room = p.nested.indents_room;
        parsers_room = rw (sym p.same_parsers) p.nested.parsers_room;
        from_zero = p.nested.from_zero;
        grows = p.nested.grows;
      };
      flush = p.flush;
      one_level = p.one_level;
      kept = p.kept;
      same_parsers = refl;
    };
    nested = record {
      room = p.nested.room;
      indents_room = p.nested.indents_room;
      parsers_room = length-set placed.parsers (suc placed.sp) next ∙ p.nested.parsers_room;
      from_zero = p.nested.from_zero;
      grows = p.nested.grows;
    };
    next = next;
    before = s;
    rest = rest;
    called = rw (sym p.same_parsers) f;
    used_up = z;
    stored = rw p.same_parsers refl;
  }

  parse_at-IsParsed :
      (st placed st' : IndentStack P) (indent : ℕ) (line rest : List ℕ) (s t : S)
      → IsPlaced st indent placed
      → parse_at c placed line s ≡ (ok st', (rest, t))
      → IsParsed st indent line st' t
  unfolding parse_at
  parse_at-IsParsed st placed st' indent line rest s t p e =
      elim (Bool-cases (c.has_line (get_or placed.parsers placed.sp c.empty))) [
        | inr b ↦ absurd (cc (ap (λ (x : Outcome (IndentStack P) × (List ℕ × S)). x.0) (rw b at e)))
        | inl b ↦
            let (next, (rest', u), f, g) =
              ok-inv (c.parse_line (get_or placed.parsers placed.sp c.empty) line s)
                (λ next x.
                  if peek x.0 == 0
                  then (
                    ok (record placed { parsers = set placed.parsers (suc placed.sp) next }),
                    (x.0, x.1),
                  )
                  else (fail not_at_end, (x.0, x.1)))
                st' (rest, t) (rw b at e) in
            elim (Bool-cases (peek rest' == 0)) [
              | inr d ↦
                  absurd (cc (ap (λ (x : Outcome (IndentStack P) × (List ℕ × S)). x.0) (rw d at g)))
              | inl d ↦
                  let g' = rw d at g in
                  let w : record placed { parsers = set placed.parsers (suc placed.sp) next }
                      ≡ st' =
                    cc (ap (λ (x : Outcome (IndentStack P) × (List ℕ × S)). x.0) g') in
                  let v : u ≡ t = ap (λ (x : Outcome (IndentStack P) × (List ℕ × S)). x.1.1) g' in
                  rw (sym w, sym v)
                    (built-IsParsed st placed indent line rest' next s u p f
                      ((==_iff (peek rest') 0).0 d))
            ]
      ]

  moved :
      (m : Outcome (IndentStack P) × S) (placed : IndentStack P) (text text' : List ℕ) (u : S)
      → ◌≡◌ {A = Outcome (IndentStack P) × (List ℕ × S)} (m.0, (text, m.1)) (ok placed, (text', u))
      → m ≡ (ok placed, u)
  moved m placed text text' u f =
      ap (λ (x : Outcome (IndentStack P) × (List ℕ × S)). (x.0, x.1.1)) f

  -- A line that is parsed without an error, from a stack whose indentations grow from 0 and which
  -- has room for the next level, leaves such a stack again. If it is blank or a comment the stack is
  -- as it was; if not, its indentation is that of a level in use or of a new one, the levels below
  -- are kept, and the parser that was stored for that level gets the line, uses all of it, and gives
  -- the parser that is stored for the level above.
  pub parse_one_line-IsParsed :
      (st st' : IndentStack P) (line rest : List ℕ) (s t : S)
      → IsNested st
      → parse_one_line c st line s ≡ (ok st', (rest, t))
      → let text = skip_whitespace line in
        (((peek text ≡ b'#') ⊎ (peek text ≡ 0)) × (st' ≡ st) × (t ≡ s))
        ⊎ IsParsed st (length line - length text) text st' t
  unfolding parse_one_line
  parse_one_line-IsParsed st st' line rest s t n e =
      let text = skip_whitespace line in
      elim (Bool-cases (peek text == b'#' || peek text == 0)) [
        | inl b ↦ inl (
          ground (arith, b),
          sym (cc (ap (λ (x : Outcome (IndentStack P) × (List ℕ × S)). x.0) (rw b at e))),
          sym (ap (λ (x : Outcome (IndentStack P) × (List ℕ × S)). x.1.1) (rw b at e)),
        )
        | inr b ↦
            let m = move_to c st (length line - length text) s in
            let (placed, (text', u), f, g) =
              ok-inv (m.0, (text, m.1)) (λ st' x. parse_at c st' x.0 x.1) st' (rest, t)
                (rw b at e) in
            let h : m ≡ (ok placed, u) = moved m placed text text' u f in
            let q : text ≡ text' = ap (λ (x : Outcome (IndentStack P) × (List ℕ × S)). x.1.0) f in
            inr (
              parse_at-IsParsed st placed st' (length line - length text) text rest u t
                (move_to-IsPlaced st placed (length line - length text) s u n h)
                (ap (λ x. parse_at c placed x u) q ∙ g))
      ]

-- At the start of a file.
pub first_stack-IsNested :
    {P S : Type 0} (c : IndentParsers P S) (parser : P) → IsNested (first_stack c parser)
first_stack-IsNested c parser = record {
  room = omega arith;
  indents_room = omega arith;
  parsers_room = omega arith;
  from_zero = refl;
  grows = λ i j h k. absurd (omega arith);
}
