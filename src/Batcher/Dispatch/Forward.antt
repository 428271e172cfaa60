-- ===== src/Batcher/Dispatch/Forward.antt =====
-- Where a dispatch of src/icepick/batcher/daemon.py takes a batch.
use icepick.Prelude.{
  ℕ, ◌≡◌, inl, inr, refl, String, Bool, true, false, Option, none, some, [], str_eq, Bool-cases,
}
use icepick.Batcher.Disk.{Stored, absent, corrupt, saved, StateName, BatchState, Manifest}
use icepick.Batcher.State.{read_state, check_transition}
use icepick.Batcher.Stages.{StageOutcome}
use icepick.Batcher.Queue.{Daemon, emit, set_halt, add_spend, save_queue}
use icepick.Batcher.Dispatch.{
  Tag, acted, Outside, after_mount, mount_of, do_mount, has_handoff, after_cascade, start_cascade,
  cascade_if, do_cascade, after_passk, passk_if, do_passk, do_ready, dispatch, advance_batch,
  failure,
}
use icepick.Batcher.Dispatch.Moves.{
  state_in, mounts, cascades, passes, ends, freezes, waits_for_cascade, waits_for_qwen, Goes,
  dir_of, move_passes, freeze-Goes, MayGo, may_go,
}

module _ (n : ℕ) (now : String) where
  module _ (out : Outside) where
    after_mount-Goes :
        (o : StageOutcome) (d : Daemon)
        → MayGo n now StateName.frozen d
        → MayGo n now StateName.mounted d
        → Goes n now StateName.sliced d (after_mount n now out o d)
    unfolding after_mount
    after_mount-Goes o d stop go = elim (Bool-cases o.ok) [
      | inl good ↦
          let (b, e, h) =
            move_passes n now StateName.mounted _ _ d (acted Tag.mounted) refl go.0 go.1 in
          rw good (Tag.mounted, _, e, mounts b h, record { next = refl; file = inl (refl, refl) })
      | inr bad ↦ rw bad (freeze-Goes n now StateName.sliced (failure n now o) d stop.0 stop.1)
    ]

    mount_of-Goes :
        (m : Stored Manifest) (d : Daemon)
        → MayGo n now StateName.frozen d
        → MayGo n now StateName.mounted d
        → Goes n now StateName.sliced d (mount_of n now out m d)
    unfolding mount_of
    mount_of-Goes absent d stop go = freeze-Goes n now StateName.sliced _ d stop.0 stop.1
    mount_of-Goes corrupt d stop go = freeze-Goes n now StateName.sliced _ d stop.0 stop.1
    mount_of-Goes (saved m) d stop go = after_mount-Goes _ d stop go

    after_cascade-Goes :
        (o : StageOutcome) (d : Daemon)
        → MayGo n now StateName.frozen d
        → MayGo n now StateName.cascade_done d
        → Goes n now StateName.mounted d (after_cascade n now out o d)
    unfolding after_cascade add_spend set_halt save_queue emit
    after_cascade-Goes o d stop go = elim (Bool-cases o.ok) [
      | inl good ↦
          let (b, e, h) =
            move_passes n now StateName.cascade_done _ _ (add_spend _ now d)
              (acted Tag.cascade_done) refl go.0 go.1 in
          rw good (Tag.cascade_done, _, e, cascades b h, record { next = refl; file = inr refl })
      | inr bad ↦ elim (Bool-cases (str_eq o.kind "cost_guard_tripped")) [
        | inl dear ↦
            let (b, e, h) = move_passes n now StateName.frozen _ [] d _ refl stop.0 stop.1 in
            rw (bad, dear) (Tag.frozen, _, e, freezes b h, record { next = refl; file = inr refl })
        | inr other ↦ rw (bad, other) (freeze-Goes n now StateName.mounted _ d stop.0 stop.1)
      ]
    ]

    start_cascade-Goes :
        (s : BatchState) (d : Daemon)
        → MayGo n now StateName.frozen d
        → MayGo n now StateName.cascade_done d
        → Goes n now StateName.mounted d (start_cascade n now out s d)
    unfolding start_cascade
    start_cascade-Goes s d stop go = elim (Bool-cases (has_handoff n now out s)) [
      | inl there ↦ rw there (after_cascade-Goes _ d stop go)
      | inr nowhere ↦ rw nowhere (freeze-Goes n now StateName.mounted _ d stop.0 stop.1)
    ]

    cascade_if-Goes :
        (slot : Option Bool) (s : BatchState) (d : Daemon)
        → MayGo n now StateName.frozen d
        → MayGo n now StateName.cascade_done d
        → Goes n now StateName.mounted d (cascade_if n now out slot s d)
    unfolding cascade_if
    cascade_if-Goes none s d stop go = (
      Tag.waiting_cascade,
      d,
      refl,
      waits_for_cascade,
      record { next = refl; file = inl (refl, refl) },
    )
    cascade_if-Goes (some false) s d stop go = (
      Tag.waiting_cascade,
      d,
      refl,
      waits_for_cascade,
      record { next = refl; file = inl (refl, refl) },
    )
    cascade_if-Goes (some true) s d stop go = start_cascade-Goes s d stop go

    after_passk-Goes :
        (o : StageOutcome) (d : Daemon)
        → MayGo n now StateName.frozen d
        → MayGo n now StateName.passk_done d
        → Goes n now StateName.cascade_done d (after_passk n now out o d)
    unfolding after_passk
    after_passk-Goes o d stop go = elim (Bool-cases o.ok) [
      | inl good ↦
          let (b, e, h) =
            move_passes n now StateName.passk_done _ _ d (acted Tag.passk_done) refl go.0 go.1 in
          rw good
            (Tag.passk_done, _, e, passes b h, record { next = refl; file = inl (refl, refl) })
      | inr bad ↦ elim (Bool-cases (str_eq o.kind "qwen_slot_busy")) [
        | inl busy ↦
            rw (bad, busy)
              (
                Tag.waiting_qwen,
                d,
                refl,
                waits_for_qwen,
                record { next = refl; file = inl (refl, refl) },
              )
        | inr other ↦ rw (bad, other) (freeze-Goes n now StateName.cascade_done _ d stop.0 stop.1)
      ]
    ]

    passk_if-Goes :
        (slot : Option Bool) (d : Daemon)
        → MayGo n now StateName.frozen d
        → MayGo n now StateName.passk_done d
        → Goes n now StateName.cascade_done d (passk_if n now out slot d)
    unfolding passk_if
    passk_if-Goes none d stop go =
        (Tag.waiting_qwen, d, refl, waits_for_qwen, record { next = refl; file = inl (refl, refl) })
    passk_if-Goes (some false) d stop go =
        (Tag.waiting_qwen, d, refl, waits_for_qwen, record { next = refl; file = inl (refl, refl) })
    passk_if-Goes (some true) d stop go = after_passk-Goes _ d stop go

    do_ready-Goes :
        (d : Daemon)
        → MayGo n now StateName.ready d
        → Goes n now StateName.passk_done d (do_ready n now out d)
    unfolding do_ready emit
    do_ready-Goes d go =
        let (b, e, h) = move_passes n now StateName.ready _ [] d _ refl go.0 go.1 in
        (Tag.ready, _, e, ends b h, record { next = refl; file = inl (refl, refl) })

    -- The states from which a batch is dispatched.
    abbrev pub is_working : StateName → Bool
    is_working StateName.sliced = true
    is_working StateName.mounted = true
    is_working StateName.cascade_done = true
    is_working StateName.passk_done = true
    is_working _ = false

    -- A dispatch of a batch that is in one of the four working states never raises. It takes the batch
    -- to the next stage, or to FROZEN, or leaves it to wait for a slot, and
    -- returns the tag that says which; no other batch directory is touched, and the next number is
    -- kept, in memory and in the file.
    pub advance_batch-Goes :
        (s : StateName) (d : Daemon)
        → state_in (dir_of n now d) ≡ some s
        → is_working s ≡ true
        → Goes n now s d (advance_batch n now out d)
    unfolding advance_batch dispatch do_mount do_cascade do_passk check_transition
    advance_batch-Goes StateName.sliced d e w = rw e (
        mount_of-Goes (dir_of n now d).slice_manifest d
          (may_go n now StateName.sliced StateName.frozen d e refl refl)
          (may_go n now StateName.sliced StateName.mounted d e refl refl))
    advance_batch-Goes StateName.mounted d e w = rw e (
        cascade_if-Goes out.cascade_slot (read_state (dir_of n now d).state) d
          (may_go n now StateName.mounted StateName.frozen d e refl refl)
          (may_go n now StateName.mounted StateName.cascade_done d e refl refl))
    advance_batch-Goes StateName.cascade_done d e w = rw e (
        passk_if-Goes out.qwen_slot d
          (may_go n now StateName.cascade_done StateName.frozen d e refl refl)
          (may_go n now StateName.cascade_done StateName.passk_done d e refl refl))
    advance_batch-Goes StateName.passk_done d e w =
        rw e (do_ready-Goes d (may_go n now StateName.passk_done StateName.ready d e refl refl))
    advance_batch-Goes StateName.ready d e w = cc
    advance_batch-Goes StateName.frozen d e w = cc
    advance_batch-Goes (StateName.unknown u) d e w = cc
