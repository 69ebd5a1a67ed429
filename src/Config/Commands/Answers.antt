-- ===== src/Config/Commands/Answers.antt =====
-- server/config_server.c: every command line of a connection is answered once, in order.
use pand_ablocks_server.Prelude.{
  ℕ, suc, ◌≡◌, ◌≢◌, Bool, true, false, List, [], ◌∷◌, ◌++◌, Option, none, some, ◌==◌, if◌then◌else◌,
  peek,
}
use pand_ablocks_server.Config.PutTable.{CommandError}
use pand_ablocks_server.Config.Lines.{lines_after}
use pand_ablocks_server.Config.Commands.{
  response_error, CommandSet, split_command, Done, write_many_results,
}

-- The last line of an answer.
pub data FinalLine : List ℕ → Type 0 where
  plain : FinalLine (b'O' ∷ b'K' ∷ b'\n' ∷ [])
  one_value : (v : List ℕ) → FinalLine (b'O' ∷ b'K' ∷ b' ' ∷ b'=' ∷ (v ++ (b'\n' ∷ [])))
  end_of_many : FinalLine (b'.' ∷ b'\n' ∷ [])
  error_line : (m : List ℕ) → FinalLine (b'E' ∷ b'R' ∷ b'R' ∷ b' ' ∷ (m ++ (b'\n' ∷ [])))

-- Lines of results, and a last line.
pub data IsAnswer : List ℕ → Type 0 where
  answer :
      (many : List (List ℕ)) (last : List ℕ)
      → FinalLine last
      → IsAnswer (write_many_results many ++ last)

-- So many answers, one after another.
pub data AreAnswers : ℕ → List ℕ → Type 0 where
  no_answer : AreAnswers 0 []
  one_more :
      {n : ℕ} (a out : List ℕ) → IsAnswer a → AreAnswers n out → AreAnswers (suc n) (a ++ out)

-- Whether the first separator of a command line is that of a table.
unfoldable pub is_table_command : List ℕ → Bool
is_table_command line = peek (split_command line).1 == b'<'

-- The command lines among the lines, where `skipping` says that those of a table come first.
unfoldable pub count_commands : Bool → List (List ℕ) → ℕ
count_commands skipping [] = 0
count_commands true ([] ∷ lines) = count_commands false lines
count_commands true ((c ∷ cs) ∷ lines) = count_commands true lines
count_commands false (line ∷ lines) = suc (count_commands (is_table_command line) lines)

-- What a `get` promises: a response, if there is no error.
unfoldable pub Responds : {S E : Type 0} → CommandSet S E → Type 0
Responds {S = S} command_set =
    (name : List ℕ) (s : S)
    → (command_set.get name s).0.error ≡ none
    → (command_set.get name s).0.response ≢ response_error

module _ {S E : Type 0} (error_format : CommandError E → List ℕ) where
  -- An answer, with the lines that are left.
  unfoldable Answered : Bool → List (List ℕ) → Option (Done S) → Type 0
  Answered is_table lines none = ⊥
  Answered is_table lines (some (out, (s, rest))) =
      IsAnswer out × (rest ≡ (if is_table then lines_after lines else lines))
