-- ===== src/Batcher/Run/Invariant.antt =====
-- What every run of src/icepick/batcher/daemon.py keeps.
use icepick.Prelude.{ℕ, ◌≡◌, ◌⊎◌, inl, inr, refl, String, Option, List, [], ◌∷◌, Bool-cases}
use icepick.Batcher.Identity.{Row, Primitives}
use icepick.Batcher.Journal.{Bytes}
use icepick.Batcher.Slicer.{SliceConfig}
use icepick.Batcher.Queue.{Daemon}
use icepick.Batcher.Dispatch.{Tag, Acted, acted, raised, empty_slice}
use icepick.Batcher.Tick.{tick}
use icepick.Batcher.Tick.Numbered.{IsNumbered, tick-IsNumbered}
use icepick.Batcher.Run.{Round, failed, Ran, after_tick, run_forever}

module _ (config : SliceConfig) (recheck poll : ℕ) where
  -- The run has not been ended by an exception, or what it leaves has its batches numbered.
  abbrev pub IsSound : Ran → Type 0
  IsSound r = (r.ending ≡ failed) ⊎ IsNumbered r.daemon

  after_tick-IsSound :
      (a : Acted) (rest : Daemon → Ran)
      → ((t : Tag) (d : Daemon) → a ≡ acted t d → IsNumbered d)
      → ((d : Daemon) → IsNumbered d → IsSound (rest d))
      → IsSound (after_tick config recheck poll a rest)
  unfolding after_tick
  after_tick-IsSound (raised e d) rest h k = inl refl
  after_tick-IsSound (empty_slice d) rest h k = inl refl
  after_tick-IsSound (acted Tag.disarmed d) rest h k = inr (h Tag.disarmed d refl)
  after_tick-IsSound (acted t d) rest h k = k d (h t d refl)

  module _ (prims : Primitives) (loads : Bytes → Option Row) (path : String) where
    -- However long the daemon runs and whatever it meets, unless an exception ends the run, every
    -- batch directory stays below the next number.
    pub run_forever-IsNumbered :
        (rs : List Round) (d : Daemon)
        → IsNumbered d
        → IsSound (run_forever config recheck poll prims loads path rs d)
    unfolding run_forever
    run_forever-IsNumbered [] d h = inr h
    run_forever-IsNumbered (r ∷ rs) d h = elim (Bool-cases r.stop) [
      | inl stopped ↦ rw stopped (inr h)
      | inr on ↦ rw on (
          after_tick-IsSound (tick config r.moment prims loads path d)
            (run_forever config recheck poll prims loads path rs)
            (λ t d' e. tick-IsNumbered config r.moment prims loads path d d' t h e)
            (λ d' n. run_forever-IsNumbered rs d' n))
    ]
