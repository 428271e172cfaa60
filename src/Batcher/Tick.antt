-- ===== src/Batcher/Tick.antt =====
-- `tick` and `run_forever` of src/icepick/batcher/daemon.py. The text of STATUS.md, which a tick
-- rewrites, is left out.
pub mod Lowest
pub mod InFlight
pub mod Numbered
use icepick.Prelude.{
  ℕ, ◌+◌, String, Bool, true, false, not, ◌&&◌, Option, none, some, List, [], ◌∷◌, ltb,
  if◌then◌else◌,
}
use Prim.Native.String.{◌++◌}
use icepick.Batcher.Identity.{Row, Primitives}
use icepick.Batcher.Journal.{Bytes}
use icepick.Batcher.Disk.{StateName, Counts, BatchDir, Batches, new_dir}
use icepick.Batcher.State.{read_state}
use icepick.Batcher.Slicer.{SliceConfig, Abort}
use icepick.Batcher.Cut
use icepick.Batcher.Cut.{SliceOutcome, cut_slice}
use icepick.Batcher.World.{World}
use icepick.Batcher.Queue.{Daemon, Event, Halt, QueueState, emit, set_halt, inc_batch_number}
use icepick.Batcher.Watch.{WatchJournal, ingest_watch_journals}
use icepick.Batcher.Dispatch.{Tag, Acted, acted, raised, empty_slice, Outside, move, advance_batch}

-- What a tick sees of the world outside.
pub record Moment : Type 0 where
  pub armed : Bool
  pub now : String
  pub journal : Bytes
  pub run_concluded : Bool
  pub watched : List WatchJournal
  pub stages : Outside

-- A batch that is neither READY nor FROZEN.
abbrev pub is_open : Option StateName → Bool
is_open (some StateName.ready) = false
is_open (some StateName.frozen) = false
is_open _ = true

abbrev lower_of : ℕ → Option ℕ → Option ℕ
lower_of n none = some n
lower_of n (some m) = if ltb m n then some m else some n

-- `_find_in_flight`: the lowest number among the open batches.
unfoldable pub find_in_flight : Batches → Option ℕ
find_in_flight [] = none
find_in_flight ((n, b) ∷ bs) =
    let rest = find_in_flight bs in
    if is_open (read_state b.state).state then lower_of n rest else rest

unfoldable pub add_counts : Counts → Daemon → Daemon
add_counts c d = record d {
  skip_counts = record {
    accepted = 0;
    replay_skips = d.skip_counts.replay_skips + c.replay_skips;
    stmt_skips = d.skip_counts.stmt_skips + c.stmt_skips;
    warns = d.skip_counts.warns + c.warns;
  };
}

-- The `detail` of an aborted slice.
abbrev detail_of : Abort → String
detail_of (Abort.no_candidate n) = "journal_row_invalid"
detail_of (Abort.no_statement n) = "journal_row_invalid"
detail_of (Abort.uid_conflict e p) = "uid_conflict"
detail_of (Abort.stmt_conflict e p) = "stmt_conflict"
detail_of (Abort.batch_dir_conflict n) = "batch_dir_conflict"

module _ (config : SliceConfig) (m : Moment) where
  -- What a tick does with the outcome of `cut_slice` for batch `n`.
  unfoldable pub after_cut : ℕ → SliceOutcome → Daemon → Acted
  after_cut n (Cut.corrupted line) d =
      let reason : String = "slice_abort:journal_corruption" in
      acted Tag.slice_aborted (emit (Event.halt_set reason) (set_halt reason m.now d))
  after_cut n Cut.index_error d = empty_slice d
  after_cut n (Cut.sliced c) d =
      move n m.now StateName.sliced "slice committed" [] (inc_batch_number m.now (add_counts c d))
        (acted Tag.sliced)
  after_cut n (Cut.insufficient k c) d =
      let d' = add_counts c d in
      if m.run_concluded && ltb 0 k
      then acted Tag.held_remainder (emit (Event.held_remainder k) d')
      else acted Tag.waiting_journal d'
  after_cut n (Cut.aborted a) d =
      acted Tag.slice_aborted
        (emit (Event.slice_aborted a) (set_halt ("slice_abort:" ++ detail_of a) m.now d))

  module _ (prims : Primitives) (loads : Bytes → Option Row) (journal_path : String) where
    unfoldable pub try_slice : Daemon → Acted
    try_slice d =
        let n = d.queue.next_batch_number in
        let (w, outcome) = cut_slice prims loads config journal_path n m.now m.journal d.world in
        after_cut n outcome (record d { world = w })

    unfoldable pub work : Option ℕ → Daemon → Acted
    work (some n) d = advance_batch n m.now m.stages d
    work none d = try_slice d

    unfoldable pub ingest : Daemon → Daemon
    ingest d =
        let r = ingest_watch_journals prims loads m.now m.watched (d.world, d.watch_counters) in
        record d { world = r.0; watch_counters = r.1 }

    unfoldable pub unless_halted : Option Halt → Daemon → Acted
    unless_halted (some h) d = acted Tag.halted d
    unless_halted none d = work (find_in_flight d.world.batches) d

    -- `tick`
    unfoldable pub tick : Daemon → Acted
    unfolding unless_halted
    tick d =
        let d' = ingest d in
        if m.armed then unless_halted d'.queue.halt d' else acted Tag.disarmed d
