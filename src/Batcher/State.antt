-- ===== src/Batcher/State.antt =====
-- src/icepick/batcher/state.py: the state machine of a batch and its two files.
pub mod Machine
pub mod History
use icepick.Prelude.{
  ℕ, ◌+◌, String, Bool, true, false, Option, none, some, List, [], ◌∷◌, ◌++◌, not, str_eq, keep,
  ◌==◌, if◌then◌else◌, leb,
}
use icepick.Prelude.Dict.{Dict, lookup, or_else}
use icepick.Batcher.Disk.{
  Stored, absent, corrupt, saved, StateName, sliced, mounted, cascade_done, passk_done, ready,
  frozen, unknown, HistoryEntry, BatchState, Manifest, BatchDir, Counts, Batches, batch_label,
}

abbrev pub no_state : BatchState
no_state = record {
  state = none;
  updated_at = none;
  created_at = none;
  history = [];
  frozen_note = none;
  extra = [];
}

-- `_read_state`: a missing file and one that is not JSON both read as no state at all.
unfoldable pub read_state : Stored BatchState → BatchState
read_state absent = no_state
read_state corrupt = no_state
read_state (saved s) = s

-- `ValueError` by its cause; `index_error` is the one that building the message of an illegal
-- transition raises where the current state has no successor.
pub data TransitionError : Type 0 where
  unknown_state freeze_ready illegal first_not_sliced index_error : TransitionError

pub data Transitioned : Type 0 where
  moved : BatchState → BatchDir → Transitioned
  refused : TransitionError → Transitioned

-- `_STATE_IDX`
abbrev pub state_index : StateName → Option ℕ
state_index sliced = some 0
state_index mounted = some 1
state_index cascade_done = some 2
state_index passk_done = some 3
state_index ready = some 4
state_index frozen = none
state_index (unknown _) = none

-- `_STATE_IDX.get(current, -1) + 1`
abbrev pub next_index : StateName → ℕ
next_index current = elim (state_index current) [ none ↦ 0 | some i ↦ i + 1 ]

-- `to in STATES_ALL`
abbrev pub is_known : StateName → Bool
is_known (unknown _) = false
is_known _ = true

abbrev pub same_state : StateName → StateName → Bool
same_state sliced sliced = true
same_state mounted mounted = true
same_state cascade_done cascade_done = true
same_state passk_done passk_done = true
same_state ready ready = true
same_state frozen frozen = true
same_state (unknown s) (unknown t) = str_eq s t
same_state _ _ = false

abbrev pub is_state : Option StateName → StateName → Bool
is_state none to = false
is_state (some s) to = same_state s to

abbrev has_index : StateName → ℕ → Bool
has_index to n = elim (state_index to) [ none ↦ false | some i ↦ i == n ]

-- A linear target against the current state.
check_linear : Option StateName → StateName → Option TransitionError
check_linear none sliced = none
check_linear none _ = some first_not_sliced
check_linear (some frozen) to = none
check_linear (some current) to =
    if has_index to (next_index current)
    then none
    else if leb 5 (next_index current)
    then some index_error
    else some illegal

-- The validation in `transition`, after the guard for the state that is there already.
unfoldable pub check_transition : Option StateName → StateName → Option TransitionError
unfolding check_linear
check_transition (some ready) frozen = some freeze_ready
check_transition current frozen = none
check_transition current to = check_linear current to

-- `data.update(extra)`, for an `extra` that names none of the other fields of the state, which it would
-- replace; those of the callers, in daemon.py, name `mount_run_dir`, `cascade_data` and `passk_counts`.
unfoldable pub update : Dict String → Dict String → Dict String
update d extra = extra ++ d

abbrev counts_of : Stored Manifest → Option Counts
counts_of absent = none
counts_of corrupt = none
counts_of (saved m) = some m.counts

module _ (batch_name : String) (to : StateName) (note now_iso : String) (extra : Dict String) where
  -- The new state that `transition` writes.
  unfoldable pub next_state : BatchState → BatchState
  unfolding update
  next_state s = record {
    state = some to;
    updated_at = some now_iso;
    created_at = or_else s.created_at (some now_iso);
    history = s.history ++ record { from = s.state; to = to; at = now_iso; note = note } ∷ [];
    frozen_note =
        if same_state to frozen
        then some (record { reason = note; from_state = s.state; at = now_iso })
        else s.frozen_note;
    extra = update s.extra extra;
  }

  -- state.json through state.tmp, and on READY the flag file.
  unfoldable pub write_files : BatchState → BatchDir → BatchDir
  write_files s d =
      let d' = record d { state = saved s; tmp = keep (λ t. not (str_eq t "state.tmp")) d.tmp } in
      if same_state to ready
      then record d' {
        ready_flag =
            some (record { batch = batch_name; counts = counts_of d.slice_manifest; at = now_iso });
      }
      else d'

  -- `transition`, on the files of one batch directory.
  unfoldable pub transition : BatchDir → Transitioned
  transition d =
      let s = read_state d.state in
      let s' = next_state s in
      if not (is_known to)
      then refused unknown_state
      else if is_state s.state to
      then moved s d
      else elim (check_transition s.state to) [
        | some e ↦ refused e
        | none ↦ moved s' (write_files s' d)
      ]
