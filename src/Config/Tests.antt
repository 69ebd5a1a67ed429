-- ===== src/Config/Tests.antt =====
-- Runs of server/config_server.c, and its theorems at them.
use pand_ablocks_server.Prelude.{ℕ, ◌≡◌, refl, Bool, true, false, List, [], ◌∷◌, Option, none, some}
use pand_ablocks_server.Parse.{read_char, parse_eos}
use pand_ablocks_server.Config.Changes.{
  in_change_set, get_change_index, update_from, update_change_index, reset_from, reset_change_index,
  first_watch, Event, changed, other_index, reported_set, reset_set, next_watch, run_watch,
  is_reported,
}
use pand_ablocks_server.Config.Reports.{is_pending, stays_pending, has_change}
use pand_ablocks_server.Config.PutTable.{
  CommandError, unexpected_eof, served, PutTableWriter, granted, or_error, to_error, is_success,
  put_lines, do_put_table, PutTable, choose_writer, parse_table_command, process_put_table_command,
}
use pand_ablocks_server.Config.Lines.{
  table_lines, lines_after, has_end, write_all, lines_error, table_format, written,
  process_put_table_command_lem, process_put_table_command-lines_after,
}
use pand_ablocks_server.Config.Commands.{
  response_one, CommandSet, split_command, write_many_results, report_error, report_status,
  write_response, read_reply, do_read_command, do_write_command, do_table_command, run_command,
  process_config_command, process_config_lines,
}
use pand_ablocks_server.Config.Commands.Answers.{is_table_command, count_commands}

program : Unit {0}
unfolding in_change_set get_change_index update_from update_change_index reset_from
    reset_change_index next_watch run_watch is_reported is_pending stays_pending has_change
    read_char parse_eos or_error to_error is_success put_lines do_put_table choose_writer
    parse_table_command process_put_table_command table_lines lines_after has_end write_all
    lines_error table_format written split_command write_many_results report_error report_status
    write_response read_reply do_read_command do_write_command do_table_command run_command
    process_config_command process_config_lines is_table_command count_commands
program = tt

-- A change is reported once, unless it is made while the report is.
abbrev events : List Event
events = changed ∷ reported_set 127 ∷ other_index ∷ reset_set 32 ∷ reported_set 1 ∷ []

pending_runs :
    (is_pending 5 true events ≡ true)
    × (is_pending 0 true events ≡ false)
    × ((run_watch events first_watch).context ≡ 4 ∷ 2 ∷ 2 ∷ 2 ∷ 2 ∷ 0 ∷ 2 ∷ [])
    × ((run_watch events first_watch).update_index ≡ 1)
unfolding program
pending_runs = (refl, refl, refl, refl)

-- A store of lines that refuses those of one character, and logs how it is closed.
abbrev log_line : List ℕ → List (List ℕ) → Option ℕ × List (List ℕ)
log_line (c ∷ []) s = (some c, s)
log_line line s = (none, line ∷ s)

abbrev log_close : Bool → List (List ℕ) → Option ℕ × List (List ℕ)
log_close true s = (none, (b'C' ∷ []) ∷ s)
log_close false s = (none, (b'A' ∷ []) ∷ s)

abbrev log_writer : PutTableWriter (List (List ℕ)) ℕ
log_writer = record { write = log_line; close = log_close }

abbrev log_table : PutTable (List (List ℕ)) ℕ
log_table name append binary s = (granted log_writer, s)

abbrev two_lines : List (List ℕ)
two_lines = (1 ∷ 2 ∷ []) ∷ (3 ∷ 4 ∷ []) ∷ [] ∷ (5 ∷ []) ∷ []

abbrev bad_line : List (List ℕ)
bad_line = (1 ∷ 2 ∷ []) ∷ (3 ∷ []) ∷ (4 ∷ 4 ∷ []) ∷ [] ∷ (5 ∷ []) ∷ []

put_table_runs :
    (process_put_table_command log_table two_lines [] [] []
      ≡ (none, ((b'C' ∷ []) ∷ (3 ∷ 4 ∷ []) ∷ (1 ∷ 2 ∷ []) ∷ [], (5 ∷ []) ∷ [])))
    × (process_put_table_command log_table bad_line [] (b'B' ∷ []) []
        ≡ (some (served 3), ((b'A' ∷ []) ∷ (1 ∷ 2 ∷ []) ∷ [], (5 ∷ []) ∷ [])))
    × ((process_put_table_command log_table two_lines [] (b'X' ∷ []) []).1 ≡ ([], (5 ∷ []) ∷ []))
    × ((process_put_table_command log_table ((1 ∷ 2 ∷ []) ∷ []) [] [] []).0 ≡ some unexpected_eof)
unfolding program
put_table_runs = (refl, refl, refl, refl)

process_put_table_command_lem_example :
    process_put_table_command log_table bad_line [] (table_format true false) [] ≡ (
      (written log_writer bad_line []).0,
      ((written log_writer bad_line []).1, lines_after bad_line),
    )
process_put_table_command_lem_example =
    process_put_table_command_lem log_table log_writer bad_line [] true false [] [] refl

process_put_table_command-lines_after_example :
    (process_put_table_command log_table bad_line [] (b'X' ∷ []) []).1.1 ≡ lines_after bad_line
process_put_table_command-lines_after_example =
    process_put_table_command-lines_after log_table bad_line [] (b'X' ∷ []) []

-- Commands whose `get` answers its name, and whose `put` and tables keep what they are given.
abbrev echo_set : CommandSet (List (List ℕ)) ℕ
echo_set = record {
  get = λ name s. (record { many = s; string = name; response = response_one; error = none }, s);
  put = λ name value s. (none, value ∷ s);
  put_table = log_table;
}

abbrev message : CommandError ℕ → List ℕ
message e = b'?' ∷ []

-- A=7, T< with a line, *B? and a line that is no command.
abbrev session : List (List ℕ)
session =
    (b'A' ∷ b'=' ∷ b'7' ∷ [])
    ∷ (b'T' ∷ b'<' ∷ [])
    ∷ (b'1' ∷ b'?' ∷ [])
    ∷ []
    ∷ (b'*' ∷ b'B' ∷ b'?' ∷ [])
    ∷ (b'X' ∷ [])
    ∷ []

session_runs : count_commands false session ≡ 4
unfolding program
session_runs = refl
