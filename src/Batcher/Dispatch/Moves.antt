-- ===== src/Batcher/Dispatch/Moves.antt =====
-- One transition of a batch by the dispatch of src/icepick/batcher/daemon.py.
use icepick.Prelude.{ℕ, ◌≡◌, ◌⊎◌, inl, refl, String, true, false, Option, none, some, [], arith}
use icepick.Prelude.Dict.{Dict}
use icepick.Batcher.Disk.{
  saved, StateName, BatchState, BatchDir, Batches, dir?, put_dir, batch_label,
}
use icepick.Batcher.State.{
  read_state, moved, is_known, is_state, check_transition, next_state, write_files, transition,
}
use icepick.Batcher.World.{dir_or_new}
use icepick.Batcher.Queue.{Daemon, emit}
use icepick.Batcher.Dispatch.{Tag, Acted, acted, with_dir, move, freeze}

abbrev pub state_in : BatchDir → Option StateName
state_in b = (read_state b.state).state

pub transition_passes :
    (name : String) (to : StateName) (note now : String) (extra : Dict String) (b : BatchDir)
    → is_known to ≡ true
    → is_state (state_in b) to ≡ false
    → check_transition (state_in b) to ≡ none
    → (s : BatchState) × (b' : BatchDir) × (transition name to note now extra b ≡ moved s b')
      × (state_in b' ≡ some to)
unfolding transition write_files next_state read_state
transition_passes name to note now extra b known away pass = (
  next_state name to note now extra (read_state b.state),
  write_files name to note now extra (next_state name to note now extra (read_state b.state)) b,
  ground arith,
  ground arith,
)

-- What a dispatch of batch `n` makes of a batch: the tag that is returned, and the directories.
pub data IsDispatched (n : ℕ) (bs : Batches) : StateName → Tag → Batches → Type 0 where
  mounts :
      (b : BatchDir)
      → state_in b ≡ some StateName.mounted
      → IsDispatched n bs StateName.sliced Tag.mounted (put_dir n b bs)
  cascades :
      (b : BatchDir)
      → state_in b ≡ some StateName.cascade_done
      → IsDispatched n bs StateName.mounted Tag.cascade_done (put_dir n b bs)
  passes :
      (b : BatchDir)
      → state_in b ≡ some StateName.passk_done
      → IsDispatched n bs StateName.cascade_done Tag.passk_done (put_dir n b bs)
  ends :
      (b : BatchDir)
      → state_in b ≡ some StateName.ready
      → IsDispatched n bs StateName.passk_done Tag.ready (put_dir n b bs)
  freezes :
      {s : StateName}
      → (b : BatchDir) → state_in b ≡ some StateName.frozen
      → IsDispatched n bs s Tag.frozen (put_dir n b bs)
  waits_for_cascade : IsDispatched n bs StateName.mounted Tag.waiting_cascade bs
  waits_for_qwen : IsDispatched n bs StateName.cascade_done Tag.waiting_qwen bs

-- The next number is kept, in memory and, when the file agreed with memory, in the file.
pub record KeepsNumber (d d' : Daemon) : Type 0 where
  pub next : d'.queue.next_batch_number ≡ d.queue.next_batch_number
  pub file :
      (d'.queue_file ≡ d.queue_file) × (d'.queue ≡ d.queue) ⊎ (d'.queue_file ≡ saved d'.queue)

module _ (n : ℕ) (now : String) where
  -- A dispatch that does not raise.
  abbrev pub Goes : StateName → Daemon → Acted → Type 0
  Goes s d r =
      (t : Tag) × (d' : Daemon) × (r ≡ acted t d')
      × IsDispatched n d.world.batches s t d'.world.batches
      × KeepsNumber d d'

  abbrev pub dir_of : Daemon → BatchDir
  dir_of d = dir_or_new (dir? n d.world.batches)

  pub move_passes :
      (to : StateName) (note : String) (extra : Dict String) (d : Daemon) (next : Daemon → Acted)
      → is_known to ≡ true
      → is_state (state_in (dir_of d)) to ≡ false
      → check_transition (state_in (dir_of d)) to ≡ none
      → (b : BatchDir) × (move n now to note extra d next ≡ next (with_dir n b d))
        × (state_in b ≡ some to)
  unfolding move
  move_passes to note extra d next known away pass =
      let (s, b, e, h) =
        transition_passes (batch_label n) to note now extra (dir_of d) known away pass in
      (b, rw (e, move) refl, h)

  pub freeze-Goes :
      (s : StateName) (reason : String) (d : Daemon)
      → is_state (state_in (dir_of d)) StateName.frozen ≡ false
      → check_transition (state_in (dir_of d)) StateName.frozen ≡ none
      → Goes s d (freeze n now reason d)
  unfolding freeze emit
  freeze-Goes s reason d away pass =
      let (b, e, h) = move_passes StateName.frozen reason [] d _ refl away pass in
      (Tag.frozen, _, e, freezes b h, record { next = refl; file = inl (refl, refl) })

  -- A batch that is in a state from which the machine goes on.
  abbrev pub MayGo : StateName → Daemon → Type 0
  MayGo to d =
      (is_state (state_in (dir_of d)) to ≡ false)
      × (check_transition (state_in (dir_of d)) to ≡ none)

  pub may_go :
      (s to : StateName) (d : Daemon)
      → state_in (dir_of d) ≡ some s
      → is_state (some s) to ≡ false
      → check_transition (some s) to ≡ none
      → MayGo to d
  may_go s to d e away pass = rw e (away, pass)
