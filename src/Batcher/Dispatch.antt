-- ===== src/Batcher/Dispatch.antt =====
-- The dispatch of a batch to its next stage: `_advance_batch` of src/icepick/batcher/daemon.py. What
-- the stages run is a subprocess, so that their outcomes, and whether a slot is free, are given.
pub mod Moves
pub mod Forward
use Prim.Native.String.{◌++◌}
use icepick.Prelude.{
  ℕ, zero, ◌+◌, String, Bool, true, false, Option, none, some, List, [], ◌∷◌, map, str_eq,
  if◌then◌else◌,
}
use icepick.Prelude.Dict.{Dict, lookup, or_else}
use icepick.Batcher.Disk.{
  Stored, absent, corrupt, saved, StateName, BatchState, BatchDir, Batches, Manifest, dir?, put_dir,
  batch_label,
}
use icepick.Batcher.State.{TransitionError, Transitioned, moved, refused, read_state, transition}
use icepick.Batcher.Stages.{StageOutcome, Retried, is_retryable, with_retries}
use icepick.Batcher.World.{World, dir_or_new}
use icepick.Batcher.Queue.{Daemon, Event, Halt, emit, set_halt, add_spend}

-- What a tick returns.
pub data Tag : Type 0 where
  disarmed halted mounted frozen waiting_cascade cascade_done waiting_qwen passk_done ready : Tag
  unknown_state : Option StateName → Tag
  sliced slice_aborted held_remainder waiting_journal : Tag

-- A tick returns a tag or raises: the `ValueError` or `IndexError` of a transition, or the
-- `IndexError` of `pending[0]` in `cut_slice`.
pub data Acted : Type 0 where
  acted : Tag → Daemon → Acted
  raised : TransitionError → Daemon → Acted
  empty_slice : Daemon → Acted

-- What a dispatch sees of the world outside: the outcome of the mount for the uids of the manifest,
-- those of the attempts of the two other stages, whether their slots are free (`none` where the check
-- raises), the last run directory under intake/runs, `str.lower`, and the texts that json.dumps and
-- the format of a sum of dollars give.
pub record Outside : Type 0 where
  pub run_mount : List String → StageOutcome
  pub cascade_slot : Option Bool
  pub last_intake_run : Option String
  pub run_cascade : ℕ → StageOutcome
  pub qwen_slot : Option Bool
  pub run_passk : ℕ → StageOutcome
  pub lower : String → String
  pub cascade_data : StageOutcome → String
  pub cost_guard : String → ℕ → String

abbrev pub backoffs : List ℕ
backoffs = 30 ∷ 120 ∷ 480 ∷ []

abbrev text_or_empty : Option String → String
text_or_empty none = ""
text_or_empty (some s) = s

abbrev number_or_zero : Option ℕ → ℕ
number_or_zero none = 0
number_or_zero (some n) = n

abbrev pub with_dir : ℕ → BatchDir → Daemon → Daemon
with_dir n b d = record d { world = record d.world { batches = put_dir n b d.world.batches } }

module _ (n : ℕ) (now : String) where
  -- `transition` on the batch's directory.
  unfoldable pub move : StateName → String → Dict String → Daemon → (Daemon → Acted) → Acted
  move to note extra d next =
      elim (transition (batch_label n) to note now extra (dir_or_new (dir? n d.world.batches))) [
        | refused e ↦ raised e d
        | moved s b ↦ next (with_dir n b d)
      ]

  -- A transition to FROZEN and the event for it.
  unfoldable pub freeze : String → Daemon → Acted
  freeze reason d =
      move StateName.frozen reason [] d (λ d. acted Tag.frozen (emit (Event.frozen n) d))

  abbrev pub failure : StageOutcome → String
  failure o = o.kind ++ ": " ++ o.detail

  module _ (out : Outside) where
    unfoldable pub after_mount : StageOutcome → Daemon → Acted
    after_mount o d =
        if o.ok
        then move StateName.mounted ("mount_ok: " ++ o.detail)
            (("mount_run_dir", text_or_empty (lookup "run_dir" o.values)) ∷ []) d
            (acted Tag.mounted)
        else freeze (failure o) d

    mount_of : Stored Manifest → Daemon → Acted
    mount_of absent d = freeze "mount_setup_failed: cannot read slice_manifest" d
    mount_of corrupt d = freeze "mount_setup_failed: cannot read slice_manifest" d
    mount_of (saved m) d = after_mount (out.run_mount (map (λ e. e.uid) m.entries)) d

    -- `_do_mount`
    unfoldable pub do_mount : BatchDir → Daemon → Acted
    unfolding mount_of
    do_mount b d = mount_of b.slice_manifest d

    -- The handoff records are found: in the run directory that the mount has noted, or else in the
    -- last one under intake/runs.
    abbrev pub has_handoff : BatchState → Bool
    has_handoff s =
        if str_eq (text_or_empty (lookup "mount_run_dir" s.extra)) ""
        then elim out.last_intake_run [ none ↦ false | some _ ↦ true ]
        else true

    unfoldable pub after_cascade : StageOutcome → Daemon → Acted
    after_cascade o d =
        let cost = number_or_zero o.cost_usd in
        let reason = out.cost_guard (batch_label n) cost in
        if o.ok
        then move StateName.cascade_done ("cascade_ok: " ++ o.detail)
            (("cascade_data", out.cascade_data o) ∷ []) (add_spend cost now d)
            (acted Tag.cascade_done)
        else if str_eq o.kind "cost_guard_tripped"
        then move StateName.frozen reason [] d
            (λ d. acted Tag.frozen (emit (Event.frozen n) (set_halt reason now d)))
        else freeze ("retries_exhausted: " ++ failure o) d

    start_cascade : BatchState → Daemon → Acted
    start_cascade s d =
        if has_handoff s
        then after_cascade
            (with_retries (is_retryable out.lower) backoffs out.run_cascade 2).outcome d
        else freeze "cascade_setup_failed: cannot locate handoff records" d

    cascade_if : Option Bool → BatchState → Daemon → Acted
    cascade_if none s d = acted Tag.waiting_cascade d
    cascade_if (some false) s d = acted Tag.waiting_cascade d
    cascade_if (some true) s d = start_cascade s d

    -- `_do_cascade`
    unfoldable pub do_cascade : BatchState → Daemon → Acted
    unfolding cascade_if start_cascade
    do_cascade s d = cascade_if out.cascade_slot s d

    unfoldable pub after_passk : StageOutcome → Daemon → Acted
    after_passk o d =
        if o.ok
        then move StateName.passk_done ("passk_ok: " ++ o.detail)
            (("passk_counts", text_or_empty (lookup "counts" o.values)) ∷ []) d
            (acted Tag.passk_done)
        else if str_eq o.kind "qwen_slot_busy"
        then acted Tag.waiting_qwen d
        else freeze ("passk_interrupted: " ++ failure o) d

    passk_if : Option Bool → Daemon → Acted
    passk_if none d = acted Tag.waiting_qwen d
    passk_if (some false) d = acted Tag.waiting_qwen d
    passk_if (some true) d =
        after_passk (with_retries (is_retryable out.lower) backoffs out.run_passk 2).outcome d

    -- `_do_passk`
    unfoldable pub do_passk : Daemon → Acted
    unfolding passk_if
    do_passk d = passk_if out.qwen_slot d

    -- `_do_ready`
    unfoldable pub do_ready : Daemon → Acted
    do_ready d =
        move StateName.ready "all stages complete" [] d
          (λ d. acted Tag.ready (emit (Event.ready n) d))

    unfoldable pub dispatch : Option StateName → BatchDir → Daemon → Acted
    dispatch (some StateName.sliced) b d = do_mount b d
    dispatch (some StateName.mounted) b d = do_cascade (read_state b.state) d
    dispatch (some StateName.cascade_done) b d = do_passk d
    dispatch (some StateName.passk_done) b d = do_ready d
    dispatch other b d = acted (Tag.unknown_state other) d

    -- `_advance_batch`
    unfoldable pub advance_batch : Daemon → Acted
    unfolding dispatch
    advance_batch d =
        let b = dir_or_new (dir? n d.world.batches) in dispatch (read_state b.state).state b d
