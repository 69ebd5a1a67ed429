-- ===== src/Config/Reports.antt =====
-- server/config_server.c: a connection is told of every change of a field.
use pand_ablocks_server.Prelude.{
  ℕ, ◌+◌, ◌≤◌, ◌<◌, ◌≡◌, Bool, true, false, List, [], ◌∷◌, ltb, if◌then◌else◌, length, get_or,
}
use pand_ablocks_server.Config.Changes.{
  in_change_set, Watch, Event, changed, other_index, reported_set, reset_set,
}

-- Whether the field has changed since the connection's last report of the group, after an event,
-- where `was` says so of the time before.
unfoldable pub stays_pending : ℕ → Bool → Event → Bool
stays_pending group was changed = true
stays_pending group was other_index = was
stays_pending group was (reported_set cs) = if in_change_set cs group then false else was
stays_pending group was (reset_set cs) = if in_change_set cs group then true else was

unfoldable pub is_pending : ℕ → Bool → List Event → Bool
is_pending group was [] = was
is_pending group was (e ∷ es) = is_pending group (stays_pending group was e) es

-- Whether no event is the connection's own.
unfoldable pub AreForeign : List Event → Type 0
AreForeign [] = Unit
AreForeign (changed ∷ es) = AreForeign es
AreForeign (other_index ∷ es) = AreForeign es
AreForeign (reported_set cs ∷ es) = ⊥
AreForeign (reset_set cs ∷ es) = ⊥

unfoldable pub has_change : List Event → Bool
has_change [] = false
has_change (changed ∷ es) = true
has_change (other_index ∷ es) = has_change es
has_change (reported_set cs ∷ es) = has_change es
has_change (reset_set cs ∷ es) = has_change es

-- The field's index against that of the connection says whether a change is pending.
unfoldable pub KnowsChanges : ℕ → Bool → Watch → Type 0
KnowsChanges group was w =
    (group < length w.context)
    × (1 ≤ w.update_index)
    × (w.update_index ≤ w.global_change_index + 1)
    × (get_or w.context group 0 ≤ w.global_change_index)
    × (ltb (get_or w.context group 0) w.update_index ≡ was)
