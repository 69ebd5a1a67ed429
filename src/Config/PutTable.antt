-- ===== src/Config/PutTable.antt =====
-- server/config_server.c: the command `name<format`, with the lines that follow it. What serves the
-- command and where the lines come from are interfaces; a list of lines is all that the connection
-- sends, and ends with the end of the input.
use pand_ablocks_server.Prelude.{ℕ, Bool, true, false, List, [], ◌∷◌, Option, none, some}
use pand_ablocks_server.Parse.{ParseError, ok, fail, read_char, parse_eos}

-- `unexpected_eof` and a malformed format, or an error of what serves the command.
pub data CommandError (E : Type 0) : Type 0 where
  unexpected_eof unexpected_text unknown_command : CommandError E
  bad_format : ParseError → CommandError E
  served : E → CommandError E

-- `struct put_table_writer`; `S` is the state that its functions change, `none` is no error.
pub record PutTableWriter (S E : Type 0) : Type 0 where
  pub write : List ℕ → S → Option E × S
  pub close : Bool → S → Option E × S

-- What `put_table` gives.
pub data PutTableGrant (S E : Type 0) : Type 0 where
  granted : PutTableWriter S E → PutTableGrant S E
  refused : E → PutTableGrant S E

-- `a ?: b` for an error that is there and one that is computed later.
unfoldable pub or_error {ℓ} : {E : Type ℓ} → Option E → Option E → Option E
or_error (some e) later = some e
or_error none later = later

unfoldable pub to_error : {E : Type 0} → Option E → Option (CommandError E)
to_error none = none
to_error (some e) = some (served e)

unfoldable pub is_success {ℓ} : {E : Type ℓ} → Option E → Bool
is_success none = true
is_success (some e) = false

-- A table that is written: the error, the state then, and the lines that are left.
abbrev pub Put : Type 0 → Type 0 → Type 0
Put S E = Option (CommandError E) × (S × List (List ℕ))

abbrev pub PutTable : Type 0 → Type 0 → Type 0
PutTable S E = List ℕ → Bool → Bool → S → PutTableGrant S E × S

module _ {S E : Type 0} where
  -- The loop, with the error so far.
  unfoldable pub put_lines :
      PutTableWriter S E → Option (CommandError E) → List (List ℕ) → S → Put S E
  put_lines writer error [] s = (or_error error (some unexpected_eof), (s, []))
  put_lines writer error ([] ∷ lines) s = (error, (s, lines))
  put_lines writer (some e) ((c ∷ cs) ∷ lines) s = put_lines writer (some e) lines s
  put_lines writer none ((c ∷ cs) ∷ lines) s =
      let (error, s') = writer.write (c ∷ cs) s in put_lines writer (to_error error) lines s'

  unfoldable pub do_put_table : PutTableWriter S E → List (List ℕ) → S → Put S E
  do_put_table writer lines s = put_lines writer none lines s

  abbrev pub dummy_table_writer : PutTableWriter S E
  dummy_table_writer = record { write = λ line s. (none, s); close = λ write_ok s. (none, s) }

  -- The writer once the format is known to be good.
  unfoldable pub choose_writer :
      PutTableGrant S E × S → (Option (CommandError E) × (PutTableWriter S E × S))
  choose_writer (granted writer, s) = (none, (writer, s))
  choose_writer (refused e, s) = (some (served e), (dummy_table_writer, s))

  unfoldable pub parse_table_command :
      PutTable S E → List ℕ → List ℕ → S → (Option (CommandError E) × (PutTableWriter S E × S))
  parse_table_command put_table command format s =
      let (append, format1) = read_char format b'<' in
      let (binary, format2) = read_char format1 b'B' in
      elim ((parse_eos format2).0) [
        | fail e ↦ (some (bad_format e), (dummy_table_writer, s))
        | ok _ ↦ choose_writer (put_table command append binary s)
      ]

  unfoldable pub process_put_table_command :
      PutTable S E → List (List ℕ) → List ℕ → List ℕ → S → Put S E
  process_put_table_command put_table lines name format s =
      let (error, (writer, s1)) = parse_table_command put_table name format s in
      let (put_error, (s2, rest)) = do_put_table writer lines s1 in
      let (close_error, s3) = writer.close (is_success put_error) s2 in
      (or_error error (or_error put_error (to_error close_error)), (s3, rest))
