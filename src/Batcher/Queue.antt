-- ===== src/Batcher/Queue.antt =====
-- The queue state of src/icepick/batcher/daemon.py: queue_state.json, its checks at startup, and what
-- the daemon writes into it. The text of STATUS.md is left out.
pub mod Startup
use icepick.Prelude.{
  ℕ, ◌+◌, String, Bool, true, false, not, ◌&&◌, Option, none, some, List, [], ◌∷◌, ◌++◌, leb, ◌==◌,
  str_eq, if◌then◌else◌,
}
use icepick.Prelude.Dict.{Dict}
use icepick.Batcher.Disk.{Stored, absent, corrupt, saved, Batches, Counts, max_batch_number}
use icepick.Batcher.Slicer.{SliceConfig, Abort}
use icepick.Batcher.World.{World}
use icepick.Batcher.Recover.{Recovery, recover_pending_slice, restart}

pub record Halt : Type 0 where
  pub reason : String
  pub at : String

-- queue_state.json: the identity fields of the configuration in it, `next_batch_number` with 10 for a
-- missing one, and the spend in ten-thousandths of a dollar.
pub record QueueState : Type 0 where
  pub campaign_source : Option String
  pub slice_size : Option ℕ
  pub next_batch_number : ℕ
  pub halt : Option Halt
  pub spend_usd_total : ℕ
  pub updated_at : String

-- A line of events.jsonl.
pub data Event : Type 0 where
  halt_set : String → Event
  frozen ready : ℕ → Event
  held_remainder : ℕ → Event
  slice_aborted : Abort → Event

pub record WatchCounter : Type 0 where
  pub ingested : ℕ
  pub malformed : ℕ

-- `BatcherDaemon`: its fields and the files behind them.
pub record Daemon : Type 0 where
  pub world : World
  pub queue : QueueState
  pub queue_file : Stored QueueState
  pub events : List Event
  pub skip_counts : Counts
  pub watch_counters : Dict WatchCounter

-- `_set_halt`, `_add_spend` and `_inc_batch_number` change the queue state and save it.
unfoldable pub save_queue : QueueState → Daemon → Daemon
save_queue q d = record d { queue = q; queue_file = saved q }

unfoldable pub emit : Event → Daemon → Daemon
emit e d = record d { events = d.events ++ e ∷ [] }

unfoldable pub set_halt : String → String → Daemon → Daemon
unfolding save_queue emit
set_halt reason now d = emit (halt_set reason) (
    save_queue
      (record d.queue { halt = some (record { reason = reason; at = now }); updated_at = now }) d)

unfoldable pub add_spend : ℕ → String → Daemon → Daemon
unfolding save_queue
add_spend cost now d =
    save_queue
      (record d.queue { spend_usd_total = d.queue.spend_usd_total + cost; updated_at = now }) d

unfoldable pub inc_batch_number : String → Daemon → Daemon
unfolding save_queue
inc_batch_number now d =
    save_queue
      (record d.queue { next_batch_number = d.queue.next_batch_number + 1; updated_at = now }) d

pub data StartError : Type 0 where
  lock_held identity_mismatch numbering_mismatch ledger_unreadable : StartError

pub data LoadedQueue : Type 0 where
  queue_loaded : QueueState → LoadedQueue
  queue_refused : StartError → LoadedQueue

abbrev is_text : Option String → String → Bool
is_text none s = false
is_text (some t) s = str_eq t s

abbrev is_number : Option ℕ → ℕ → Bool
is_number none n = false
is_number (some m) n = m == n

-- `check_identity` of src/icepick/batcher/config.py finds no mismatch.
unfoldable pub check_identity : SliceConfig → QueueState → Bool
check_identity config q =
    is_text q.campaign_source config.campaign_source && is_number q.slice_size config.slice_size

abbrev reaches : Option ℕ → ℕ → Bool
reaches none n = false
reaches (some m) n = leb n m

abbrev first_queue : SliceConfig → String → QueueState
first_queue config now = record {
  campaign_source = some config.campaign_source;
  slice_size = some config.slice_size;
  next_batch_number = 10;
  halt = none;
  spend_usd_total = 0;
  updated_at = now;
}

-- `_load_or_create_queue_state`: a file that is missing or is not JSON is created anew. The fields of
-- the configuration that are no identity fields, which it refreshes, are left out.
unfoldable pub load_or_create : SliceConfig → String → Stored QueueState → Batches → LoadedQueue
load_or_create config now absent batches = queue_loaded (first_queue config now)
load_or_create config now corrupt batches = queue_loaded (first_queue config now)
load_or_create config now (saved q) batches =
    if not (check_identity config q)
    then queue_refused identity_mismatch
    else if reaches (max_batch_number batches) q.next_batch_number
    then queue_refused numbering_mismatch
    else queue_loaded q

pub data Started : Type 0 where
  started : Daemon → Recovery → Started
  refused : StartError → Started

abbrev pub no_counts : Counts
no_counts = record { accepted = 0; replay_skips = 0; stmt_skips = 0; warns = 0 }

-- `startup`, on what is on disk; `locked` tells whether another process has the lock.
unfoldable pub startup :
    SliceConfig → String → Bool → Stored QueueState → List Event → World → Started
startup config now locked file events disk =
    if locked then refused lock_held else elim (load_or_create config now file disk.batches) [
      | queue_refused e ↦ refused e
      | queue_loaded q ↦ elim (restart disk) [
        | none ↦ refused ledger_unreadable
        | some w ↦
            let r = recover_pending_slice w in
            started
              (record {
                world = r.0;
                queue = q;
                queue_file = saved q;
                events = events;
                skip_counts = no_counts;
                watch_counters = [];
              })
              r.1
      ]
    ]
