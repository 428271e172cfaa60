-- ===== src/Tests/State.antt =====
-- Runs of src/icepick/batcher/state.py.
use icepick.Prelude.{◌≡◌, ◌↔◌, refl, Option, none, some, [], ◌∷◌}
use icepick.Batcher.Disk.{
  saved, sliced, mounted, cascade_done, passk_done, ready, StateName, HistoryEntry, BatchState,
  BatchDir, new_dir,
}
use icepick.Batcher.State.{
  read_state, no_state, refused, index_error, check_transition, next_state, transition, update,
  write_files,
}
use icepick.Batcher.State.Machine.{Step, check_transition-Step}
use icepick.Batcher.State.History.{IsTrace, transition-IsTrace, transition-ready}

check_transition-Step_example :
    (check_transition (some sliced) mounted ≡ none) ↔ Step (some sliced) mounted
check_transition-Step_example = check_transition-Step (some sliced) mounted refl

abbrev entry : Option StateName → StateName → HistoryEntry
entry from to = record { from = from; to = to; at = "noon"; note = "" }

abbrev done : BatchState
done = record no_state {
  state = some ready;
  history =
      entry none sliced
      ∷ entry (some sliced) mounted
      ∷ entry (some mounted) cascade_done
      ∷ entry (some cascade_done) passk_done
      ∷ entry (some passk_done) ready
      ∷ [];
}

abbrev done_dir : BatchDir
done_dir = record new_dir { state = saved done }

abbrev first : BatchState
unfolding next_state update
first = next_state "batch0" sliced "" "noon" [] no_state

abbrev first_dir : BatchDir
unfolding write_files
first_dir = write_files "batch0" sliced "" "noon" [] first new_dir

transition-IsTrace_example : IsTrace first × (read_state first_dir.state ≡ first)
unfolding transition read_state next_state check_transition write_files update
transition-IsTrace_example = transition-IsTrace "batch0" sliced "" "noon" [] new_dir refl refl

abbrev passk_state : BatchState
passk_state = record no_state { state = some passk_done }

abbrev passk_dir : BatchDir
passk_dir = record new_dir { state = saved passk_state }

abbrev last : BatchState
unfolding next_state update
last = next_state "batch0" ready "" "noon" [] passk_state

abbrev last_dir : BatchDir
unfolding write_files
last_dir = write_files "batch0" ready "" "noon" [] last passk_dir

transition-ready_example : transition "batch0" mounted "" "noon" [] done_dir ≡ refused index_error
unfolding read_state
transition-ready_example =
    transition-ready "batch0" mounted "" "noon" [] done_dir refl (λ e. cc (e))
