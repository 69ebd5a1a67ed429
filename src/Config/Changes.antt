-- ===== src/Config/Changes.antt =====
-- server/config_server.c: the change index. Every change of a field takes a fresh index, and a
-- connection keeps for each group of changes the index of its last report.
use pand_ablocks_server.Prelude.{
  ℕ, suc, ◌-◌, ◌^◌, Bool, not, List, [], ◌∷◌, ltb, ◌==◌, if◌then◌else◌, add64, u64_mod, bit_and,
  replicate, get_or,
}

abbrev pub change_set_size : ℕ
change_set_size = 7

unfoldable pub in_change_set : ℕ → ℕ → Bool
in_change_set change_set i = not (bit_and change_set (2 ^ i) == 0)

-- The value that is returned is the global index then.
unfoldable pub get_change_index : ℕ → ℕ
get_change_index global_change_index = add64 global_change_index 1

-- What the update leaves: the global index, the indices of the connection and those reported.
pub record ChangeUpdate : Type 0 where
  pub change_index : ℕ
  pub context : List ℕ
  pub reported : List ℕ

-- The loop from group `i` on: the reported indices and those of the connection.
unfoldable pub update_from : ℕ → ℕ → ℕ → List ℕ → List ℕ × List ℕ
update_from change_set change_index i [] = ([], [])
update_from change_set change_index i (seen ∷ context) =
    let (reported, indices) = update_from change_set change_index (suc i) context in
    if in_change_set change_set i
    then (seen ∷ reported, change_index ∷ indices)
    else ((u64_mod - 1) ∷ reported, seen ∷ indices)

unfoldable pub update_change_index : ℕ → List ℕ → ℕ → ChangeUpdate
update_change_index global_change_index context change_set =
    let change_index = get_change_index global_change_index in
    let (reported, indices) = update_from change_set change_index 0 context in
    record { change_index = change_index; context = indices; reported = reported }

unfoldable pub reset_from : ℕ → ℕ → List ℕ → List ℕ
reset_from change_set i [] = []
reset_from change_set i (seen ∷ context) =
    (if in_change_set change_set i then 0 else seen) ∷ reset_from change_set (suc i) context

unfoldable pub reset_change_index : List ℕ → ℕ → List ℕ
reset_change_index context change_set = reset_from change_set 0 context

-- A field that is in one group of changes, and one connection.
pub record Watch : Type 0 where
  pub global_change_index : ℕ
  pub update_index : ℕ
  pub context : List ℕ

-- The field and the connection when they are created.
abbrev pub first_watch : Watch
first_watch = record {
  global_change_index = 0;
  update_index = 1;
  context = replicate change_set_size 0;
}

-- What happens: the field changes; another field changes or another connection reports; and the
-- connection reports the changes of a set, or resets them.
pub data Event : Type 0 where
  changed other_index : Event
  reported_set reset_set : ℕ → Event

unfoldable pub next_watch : Event → Watch → Watch
next_watch changed w =
    let index = get_change_index w.global_change_index in
    record w { global_change_index = index; update_index = index }
next_watch other_index w = record w { global_change_index = get_change_index w.global_change_index }
next_watch (reported_set change_set) w =
    let update = update_change_index w.global_change_index w.context change_set in
    record w { global_change_index = update.change_index; context = update.context }
next_watch (reset_set change_set) w = record w { context = reset_change_index w.context change_set }

unfoldable pub run_watch : List Event → Watch → Watch
run_watch [] w = w
run_watch (e ∷ es) w = run_watch es (next_watch e w)

-- `changes[i] = update_index > report_index`, for the report index that an update gave.
unfoldable pub is_reported : ℕ → ℕ → List ℕ → Bool
is_reported update_index group reported = ltb (get_or reported group 0) update_index
