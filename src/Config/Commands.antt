-- ===== src/Config/Commands.antt =====
-- server/config_server.c: the dispatch of a command line and its answer, over the command sets that
-- serve system and entity commands. The output is the list of the characters that are written; the
-- input is the list of the lines that the connection sends.
pub mod Answers
use pand_ablocks_server.Prelude.{
  ℕ, zero, suc, Bool, true, false, ◌||◌, List, [], ◌∷◌, ◌++◌, Option, none, some, ◌==◌,
  if◌then◌else◌, is_empty,
}
use pand_ablocks_server.Config.PutTable.{
  CommandError, unexpected_text, unknown_command, served, PutTableGrant, to_error, Put, PutTable,
  process_put_table_command,
}

pub data Response : Type 0 where
  response_error response_one response_many : Response

-- What a `get` leaves in its `struct connection_result`: the strings given to `write_many`, in order,
-- and the string and kind of the response; and the error that it returns.
pub record GetReply (E : Type 0) : Type 0 where
  pub many : List (List ℕ)
  pub string : List ℕ
  pub response : Response
  pub error : Option E

-- `struct config_command_set`, on a state `S`.
pub record CommandSet (S E : Type 0) : Type 0 where
  pub get : List ℕ → S → GetReply E × S
  pub put : List ℕ → List ℕ → S → Option E × S
  pub put_table : PutTable S E

-- The part before the first of `?`, `=` and `<`, and that character with what follows.
unfoldable pub split_command : List ℕ → List ℕ × List ℕ
split_command [] = ([], [])
split_command (ch ∷ s) =
    let (name, rest) = split_command s in
    if ch == b'?' || ch == b'=' || ch == b'<' then ([], ch ∷ s) else (ch ∷ name, rest)

-- What a command writes, the state then, and the lines that are left.
abbrev pub Done : Type 0 → Type 0
Done S = List ℕ × (S × List (List ℕ))

unfoldable pub write_many_results : List (List ℕ) → List ℕ
write_many_results [] = []
write_many_results (result ∷ many) = b'!' ∷ (result ++ (b'\n' ∷ write_many_results many))

module _ {E : Type 0} (error_format : CommandError E → List ℕ) where
  unfoldable pub report_error : CommandError E → List ℕ
  report_error e = b'E' ∷ b'R' ∷ b'R' ∷ b' ' ∷ (error_format e ++ (b'\n' ∷ []))

  unfoldable pub report_status : Option (CommandError E) → List ℕ
  report_status (some e) = report_error e
  report_status none = b'O' ∷ b'K' ∷ b'\n' ∷ []

  -- The end of the answer, where `none` is the failed assertion.
  unfoldable pub write_response : GetReply E → Option (List ℕ)
  write_response reply = elim reply.error [
    | some e ↦ some (report_error (served e))
    | none ↦ elim reply.response [
      | response_one ↦ some (b'O' ∷ b'K' ∷ b' ' ∷ b'=' ∷ (reply.string ++ (b'\n' ∷ [])))
      | response_many ↦ some (b'.' ∷ b'\n' ∷ [])
      | response_error ↦ none
    ]
  ]

module _ {S E : Type 0} (error_format : CommandError E → List ℕ) where
  unfoldable pub read_reply : GetReply E × S → Option (List ℕ × S)
  read_reply (reply, s) = elim (write_response error_format reply) [
    | none ↦ none
    | some out ↦ some (write_many_results reply.many ++ out, s)
  ]

  unfoldable pub do_read_command : CommandSet S E → List ℕ → List ℕ → S → Option (List ℕ × S)
  do_read_command command_set command value s =
      if is_empty value
      then read_reply (command_set.get command s)
      else some (report_error error_format unexpected_text, s)

  unfoldable pub do_write_command : CommandSet S E → List ℕ → List ℕ → S → List ℕ × S
  do_write_command command_set command value s =
      let (error, s') = command_set.put command value s in
      (report_status error_format (to_error error), s')

  unfoldable pub do_table_command : CommandSet S E → List ℕ → List ℕ → List (List ℕ) → S → Done S
  do_table_command command_set command format lines s =
      let (error, (s', rest)) =
        process_put_table_command command_set.put_table lines command format s in
      (report_status error_format error, (s', rest))

  -- The command once it is split.
  unfoldable pub run_command :
      CommandSet S E → List ℕ × List ℕ → List (List ℕ) → S → Option (Done S)
  run_command command_set (command, []) lines s =
      some (report_error error_format unknown_command, (s, lines))
  run_command command_set (command, ch ∷ value) lines s =
      if ch == b'?'
      then elim (do_read_command command_set command value s) [
        | none ↦ none
        | some (out, s') ↦ some (out, (s', lines))
      ]
      else if ch == b'='
      then (let (out, s') = do_write_command command_set command value s in some (out, (s', lines)))
      else if ch == b'<'
      then some (do_table_command command_set command value lines s)
      else some (report_error error_format unknown_command, (s, lines))

  module _ (system_commands entity_commands : CommandSet S E) where
    unfoldable pub process_config_command : List ℕ → List (List ℕ) → S → Option (Done S)
    process_config_command [] lines s = run_command entity_commands (split_command []) lines s
    process_config_command (ch ∷ command) lines s =
        if ch == b'*'
        then run_command system_commands (split_command command) lines s
        else run_command entity_commands (split_command (ch ∷ command)) lines s

    -- The loop over the lines of a connection, on fuel; `none` is the failed assertion or fuel that
    -- ran out.
    unfoldable pub process_config_lines : ℕ → List (List ℕ) → S → Option (List ℕ × S)
    process_config_lines fuel [] s = some ([], s)
    process_config_lines zero (line ∷ lines) s = none
    process_config_lines (suc fuel) (line ∷ lines) s = elim (process_config_command line lines s) [
      | none ↦ none
      | some (out, (s', rest)) ↦ elim (process_config_lines fuel rest s') [
        | none ↦ none
        | some (more, s'') ↦ some (out ++ more, s'')
      ]
    ]
