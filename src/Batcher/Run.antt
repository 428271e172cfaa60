-- ===== src/Batcher/Run.antt =====
-- `run_forever` of src/icepick/batcher/daemon.py, over the moments at which it wakes up.
pub mod Invariant
use icepick.Prelude.{ℕ, String, Bool, true, false, Option, List, [], ◌∷◌, if◌then◌else◌}
use icepick.Batcher.Identity.{Row, Primitives}
use icepick.Batcher.Journal.{Bytes}
use icepick.Batcher.Slicer.{SliceConfig}
use icepick.Batcher.Queue.{Daemon}
use icepick.Batcher.Dispatch.{Tag, Acted, acted, raised, empty_slice}
use icepick.Batcher.Tick.{Moment, tick}

-- `stop` tells whether a signal has come before this round.
pub record Round : Type 0 where
  pub stop : Bool
  pub moment : Moment

-- The loop has ended, by a signal or because the daemon is disarmed, or an exception has ended it, or
-- it is still running when the rounds are over.
pub data Ending : Type 0 where
  by_signal disarmed failed running : Ending

-- The daemon as the loop leaves it, and the seconds it slept.
pub record Ran : Type 0 where
  pub ending : Ending
  pub daemon : Daemon
  pub sleeps : List ℕ

module _ (config : SliceConfig) (qwen_recheck poll : ℕ) where
  -- "Determine sleep duration based on tag."
  abbrev pub sleep_for : Tag → ℕ
  sleep_for Tag.waiting_qwen = qwen_recheck
  sleep_for Tag.waiting_cascade = qwen_recheck
  sleep_for _ = poll

  abbrev pub after_sleep : ℕ → Ran → Ran
  after_sleep s r = record r { sleeps = s ∷ r.sleeps }

  abbrev pub ended : Ending → Daemon → Ran
  ended e d = record { ending = e; daemon = d; sleeps = [] }

  -- The rest of a round, when its tick has returned; `rest` is what the later rounds make of the daemon.
  unfoldable pub after_tick : Acted → (Daemon → Ran) → Ran
  after_tick (raised e d) rest = ended failed d
  after_tick (empty_slice d) rest = ended failed d
  after_tick (acted Tag.disarmed d) rest = ended disarmed d
  after_tick (acted t d) rest = after_sleep (sleep_for t) (rest d)

  module _ (prims : Primitives) (loads : Bytes → Option Row) (journal_path : String) where
    unfoldable pub run_forever : List Round → Daemon → Ran
    run_forever [] d = ended running d
    run_forever (r ∷ rs) d =
        if r.stop
        then ended by_signal d
        else after_tick (tick config r.moment prims loads journal_path d) (run_forever rs)
