-- ===== src/Parse/Indents.antt =====
-- The indented file parser of server/parse.c. What the parsers of the single lines do is a
-- parameter: they work on a state of their own, which the contexts of the source point to.
use pand_ablocks_server.Prelude.{
  ℕ, zero, suc, ◌+◌, ◌-◌, ◌≡◌, Bool, false, ◌||◌, List, [], ◌∷◌, ltb, ◌==◌, if◌then◌else◌, length,
  peek, get_or, set, replicate,
}
use pand_ablocks_server.Parse.{
  Outcome, ok, fail, too_much_indent, bad_indent, cannot_parse, not_at_end, then_parse,
  skip_whitespace,
}

abbrev pub max_indent : ℕ
max_indent = 10

abbrev pub max_line_length : ℕ
max_line_length = 256

-- `struct indent_parser`, with its context: whether the two pointers are set, and what they do. A
-- line parser gives the parser of the lines below it. `empty` has neither pointer.
pub record IndentParsers (P S : Type 0) : Type 0 where
  pub has_line : P → Bool
  pub has_end : P → Bool
  pub parse_line : P → List ℕ → S → Outcome P × (List ℕ × S)
  pub end_parse : P → S → Outcome (Unit {0}) × S
  pub empty : P
  pub empty_line : has_line empty ≡ false
  pub empty_end : has_end empty ≡ false

-- `struct indent_state` for each level, as two arrays, and the top level.
pub record IndentStack (P : Type 0) : Type 0 where
  pub sp : ℕ
  pub indents : List ℕ
  pub parsers : List P

module _ {P S : Type 0} (c : IndentParsers P S) where
  abbrev pub parser_at : IndentStack P → ℕ → P
  parser_at st level = get_or st.parsers level c.empty

  unfoldable pub open_indent : IndentStack P → ℕ → Outcome (IndentStack P)
  open_indent st indent =
      if ltb st.sp max_indent
      then ok (record st { sp = suc st.sp; indents = set st.indents (suc st.sp) indent })
      else fail too_much_indent

  -- `state->parser.end`, if it is set.
  unfoldable pub call_end : P → S → Outcome (Unit {0}) × S
  call_end parser s = if c.has_end parser then c.end_parse parser s else (ok tt, s)

  -- The loop from level `sp`; it ends at the lowest level, where the indentation is 0.
  unfoldable pub close_loop : IndentStack P → ℕ → ℕ → S → Outcome ℕ × S
  close_loop st indent zero s = then_parse (call_end (parser_at st 1) s) (λ _ t. (ok 0, t))
  close_loop st indent (suc sp) s = then_parse (call_end (parser_at st (suc (suc sp))) s) (λ _ t.
      let below = close_loop st indent sp t in
      if ltb indent (get_or st.indents (suc sp) 0) then below else (ok (suc sp), t))

  unfoldable pub close_indents : IndentStack P → ℕ → S → Outcome (IndentStack P) × S
  close_indents st indent s = then_parse (close_loop st indent st.sp s) (λ sp t.
      (if indent == get_or st.indents sp 0 then ok (record st { sp = sp }) else fail bad_indent, t))

  unfoldable pub move_to : IndentStack P → ℕ → S → Outcome (IndentStack P) × S
  move_to st indent s =
      if ltb (get_or st.indents st.sp 0) indent
      then (open_indent st indent, s)
      else close_indents st indent s

  -- The parser of the level gets the line, which it must use up, and the level above its result.
  unfoldable pub parse_at : IndentStack P → List ℕ → S → Outcome (IndentStack P) × (List ℕ × S)
  parse_at st line s =
      if c.has_line (parser_at st st.sp)
      then then_parse (c.parse_line (parser_at st st.sp) line s) (λ next (rest, t).
        if peek rest == 0
        then (ok (record st { parsers = set st.parsers (suc st.sp) next }), (rest, t))
        else (fail not_at_end, (rest, t)))
      else (fail cannot_parse, (line, s))

  unfoldable pub parse_one_line :
      IndentStack P → List ℕ → S → Outcome (IndentStack P) × (List ℕ × S)
  parse_one_line st line_in s =
      let line = skip_whitespace line_in in
      let indent = length line_in - length line in
      if peek line == b'#' || peek line == 0
      then (ok st, (line, s))
      else (let (moved, t) = move_to st indent s in
          then_parse (moved, (line, t)) (λ st' (rest, u). parse_at st' rest u))

  abbrev pub first_stack : P → IndentStack P
  first_stack parser = record {
    sp = 0;
    indents = replicate (max_indent + 2) 0;
    parsers = set (replicate (max_indent + 2) c.empty) 0 parser;
  }

  -- The loop over the lines; the number of the last line tells the error's.
  unfoldable pub parse_lines :
      IndentStack P → ℕ → List (List ℕ) → S → Outcome (IndentStack P) × (ℕ × S)
  parse_lines st line_no [] s = (ok st, (line_no, s))
  parse_lines st line_no (line ∷ lines) s =
      let (parsed, (_, t)) = parse_one_line st line s in
      then_parse (parsed, (suc line_no, t)) (λ st' (n, u). parse_lines st' n lines u)

  -- After the last line only the outermost parser is ended, and its result is dropped.
  unfoldable pub parse_indented_lines : P → List (List ℕ) → S → Outcome (Unit {0}) × (ℕ × S)
  parse_indented_lines parser lines s =
      then_parse (parse_lines (first_stack parser) 0 lines s)
        (λ _ (n, t). (ok tt, (n, (call_end parser t).1)))

-- The lines that `fgets` gives with room for a line and its NUL: a longer line comes in pieces. The
-- newline is dropped.
unfoldable pub read_lines : ℕ → List ℕ → List (List ℕ)
read_lines room [] = []
read_lines zero (ch ∷ content) = []
read_lines (suc room) (ch ∷ content) =
    let fresh = read_lines (max_line_length - 1) content in
    let more = read_lines room content in
    if ch == b'\n' then [] ∷ fresh else elim room [
      | zero ↦ (ch ∷ []) ∷ fresh
      | suc _ ↦ elim more [ [] ↦ (ch ∷ []) ∷ [] | line ∷ lines ↦ (ch ∷ line) ∷ lines ]
    ]

-- `parse_indented_file` on the content of the file.
unfoldable pub parse_indented_file :
    {P S : Type 0} → IndentParsers P S → P → List ℕ → S → Outcome (Unit {0}) × (ℕ × S)
parse_indented_file c parser content s =
    parse_indented_lines c parser (read_lines (max_line_length - 1) content) s
