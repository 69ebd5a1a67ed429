-- ===== src/Config/Lines.antt =====
-- server/config_server.c: what a table command reads, writes and answers.
use pand_ablocks_server.Prelude.{
  ℕ, ◌≡◌, refl, Bool, true, false, List, [], ◌∷◌, Option, none, some, ◌++◌, if◌then◌else◌, ap,
}
use pand_ablocks_server.Parse.{read_char, parse_eos}
use pand_ablocks_server.Config.PutTable.{
  CommandError, unexpected_eof, served, PutTableWriter, granted, refused, or_error, to_error,
  is_success, Put, put_lines, do_put_table, dummy_table_writer, PutTable, choose_writer,
  parse_table_command, process_put_table_command,
}

-- The lines before the first empty one, those after it, and whether there is one.
unfoldable pub table_lines : List (List ℕ) → List (List ℕ)
table_lines [] = []
table_lines ([] ∷ lines) = []
table_lines ((c ∷ cs) ∷ lines) = (c ∷ cs) ∷ table_lines lines

unfoldable pub lines_after : List (List ℕ) → List (List ℕ)
lines_after [] = []
lines_after ([] ∷ lines) = lines
lines_after ((c ∷ cs) ∷ lines) = lines_after lines

unfoldable pub has_end : List (List ℕ) → Bool
has_end [] = false
has_end ([] ∷ lines) = true
has_end ((c ∷ cs) ∷ lines) = has_end lines

-- The error of the lines.
unfoldable pub lines_error : {E : Type 0} → Option E → Bool → Option (CommandError E)
lines_error (some e) ended = some (served e)
lines_error none true = none
lines_error none false = some unexpected_eof

-- The format of a command: an addition to the table, and base 64.
unfoldable pub table_format : Bool → Bool → List ℕ
table_format append binary =
    (if append then b'<' ∷ [] else []) ++ (if binary then b'B' ∷ [] else [])

module _ {S E : Type 0} where
  -- The lines written one after another, up to the first that is an error.
  unfoldable pub write_all : PutTableWriter S E → List (List ℕ) → S → Option E × S
  write_all writer [] s = (none, s)
  write_all writer (line ∷ lines) s =
      let (error, s') = writer.write line s in
      elim error [ some e ↦ (some e, s') | none ↦ write_all writer lines s' ]

  put_lines_failed :
      (writer : PutTableWriter S E) (e : CommandError E) (lines : List (List ℕ)) (s : S)
      → put_lines writer (some e) lines s ≡ (some e, (s, lines_after lines))
  unfolding put_lines lines_after or_error
  put_lines_failed writer e [] s = refl
  put_lines_failed writer e ([] ∷ lines) s = refl
  put_lines_failed writer e ((c ∷ cs) ∷ lines) s = put_lines_failed writer e lines s

  pub put_lines_lem :
      (writer : PutTableWriter S E) (lines : List (List ℕ)) (s : S)
      → let (error, s') = write_all writer (table_lines lines) s in
        put_lines writer none lines s ≡ (lines_error error (has_end lines), (s', lines_after lines))
  unfolding put_lines lines_after table_lines has_end write_all lines_error or_error to_error
  put_lines_lem writer [] s = refl
  put_lines_lem writer ([] ∷ lines) s = refl
  put_lines_lem writer ((c ∷ cs) ∷ lines) s =
      let (error, s') = writer.write (c ∷ cs) s in
      elim error
        as (λ error. put_lines writer (to_error error) lines s' ≡ (
          lines_error
              (elim error as (λ _. Option E × S) [
                | some e ↦ (some e, s')
                | none ↦ write_all writer (table_lines lines) s'
              ]).0
              (has_end lines),
          (
            (elim error as (λ _. Option E × S) [
              | some e ↦ (some e, s')
              | none ↦ write_all writer (table_lines lines) s'
            ]).1,
            lines_after lines,
          ),
        )) [
          | none ↦ put_lines_lem writer lines s'
          | some e ↦ put_lines_failed writer (served e) lines s'
        ]

  -- The state that a writer leaves of the lines, its error, and what closing it adds.
  unfoldable pub written : PutTableWriter S E → List (List ℕ) → S → Option (CommandError E) × S
  written writer lines s =
      let (error, s1) = write_all writer (table_lines lines) s in
      let put_error = lines_error error (has_end lines) in
      let (close_error, s2) = writer.close (is_success put_error) s1 in
      (or_error put_error (to_error close_error), s2)

  parse_table_command-format :
      (put_table : PutTable S E) (name : List ℕ) (append binary : Bool) (s : S)
      → parse_table_command put_table name (table_format append binary) s
        ≡ choose_writer (put_table name append binary s)
  unfolding parse_table_command table_format read_char parse_eos
  parse_table_command-format put_table name true true s = refl
  parse_table_command-format put_table name true false s = refl
  parse_table_command-format put_table name false true s = refl
  parse_table_command-format put_table name false false s = refl

  write_all-dummy :
      (lines : List (List ℕ)) (s : S) → write_all dummy_table_writer lines s ≡ (none, s)
  unfolding write_all
  write_all-dummy [] s = refl
  write_all-dummy (line ∷ lines) s = write_all-dummy lines s

  -- A table command whose format is good and that is refused changes nothing but what `put_table` does,
  -- and answers its error.
  pub refused_put_table :
      (put_table : PutTable S E) (e : E) (lines : List (List ℕ)) (name : List ℕ)
      (append binary : Bool) (s s1 : S)
      → put_table name append binary s ≡ (refused e, s1)
      → process_put_table_command put_table lines name (table_format append binary) s
        ≡ (some (served e), (s1, lines_after lines))
  unfolding choose_writer or_error process_put_table_command lines_after do_put_table
  refused_put_table put_table e lines name append binary s s1 h =
      rw
        (
          process_put_table_command,
          parse_table_command-format put_table name append binary s,
          h,
          do_put_table,
          put_lines_lem dummy_table_writer lines s1,
          write_all-dummy (table_lines lines) s1,
        )
        refl

  -- A table command whose format is good and which is granted a writer writes the lines before the
  -- first empty one in their order, up to the first that is an error, and then closes the writer,
  -- with success exactly if no line was an error and there is an empty one. It answers the first
  -- of the errors of a line, of the end of the input and of closing, and the lines left are those
  -- after the empty line, or none.
  pub process_put_table_command_lem :
      (put_table : PutTable S E) (writer : PutTableWriter S E) (lines : List (List ℕ))
      (name : List ℕ) (append binary : Bool) (s s1 : S)
      → put_table name append binary s ≡ (granted writer, s1)
      → process_put_table_command put_table lines name (table_format append binary) s
        ≡ ((written writer lines s1).0, ((written writer lines s1).1, lines_after lines))
  unfolding process_put_table_command do_put_table parse_table_command table_format written
      choose_writer or_error
  process_put_table_command_lem put_table writer lines name append binary s s1 h =
      rw (
        parse_table_command-format put_table name append binary s,
        h,
        put_lines_lem writer lines s1,
      )

  -- However a table command fails or not, the lines it reads are those up to and including the
  -- first empty line, or all if there is none: the next command starts after them.
  pub process_put_table_command-lines_after :
      (put_table : PutTable S E) (lines : List (List ℕ)) (name format : List ℕ) (s : S)
      → (process_put_table_command put_table lines name format s).1.1 ≡ lines_after lines
  unfolding process_put_table_command do_put_table
  process_put_table_command-lines_after put_table lines name format s =
      let (error, (writer, s1)) = parse_table_command put_table name format s in
      let e : put_lines writer none lines s1 ≡ _ = put_lines_lem writer lines s1 in
      ap (λ (r : Put S E). r.1.1) e
