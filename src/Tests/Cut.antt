-- ===== src/Tests/Cut.antt =====
-- Runs of `cut_slice` and of the recovery in src/icepick/batcher/slicer.py.
use icepick.Prelude.{◌≡◌, refl, arith, none, some}
use icepick.Batcher.Identity.{
  is_space, split, join, compute_uid, stmt_key, content_hash, first_chars,
}
use icepick.Batcher.Journal
use icepick.Batcher.Journal.{read_new, read_lines, get, lines_of, advance, ends_with_newline}
use icepick.Batcher.Ledger.{empty, Ledger, index_row, check, append_all, to_write}
use icepick.Batcher.Ledger
use icepick.Batcher.Disk.{batch_label, dir?, Counts}
use icepick.Batcher.Slicer.{
  skip, start, scan, scan_row, intra_check, verdict, accept, handle, on_stmt_conflict, entry_of,
}
use icepick.Batcher.World.{World, Plan, commit}
use icepick.Batcher.Cut.{
  insufficient, counts_of, plan_from, plan_of, plan, is_committed, commit_slice, after_scan,
  after_read, cut_slice, SliceOutcome,
}
use icepick.Batcher.Cut.Sliced.{IsExact, cut_slice-sliced}
use icepick.Batcher.Cut.Forget.{cut_slice-idle, cut_slice-forgets}
use icepick.Batcher.Recover.{recovered, recover_pending_slice, restart}
use icepick.Batcher.Recover.Crash.{crashed, IsAsCommitted, recover-crashed}
use icepick.Tests.Data.{prims, loads, config, journal, world, two, batch3}

abbrev full : World × SliceOutcome
full = cut_slice prims loads (config 2 skip) "j" 0 "noon" journal world

cut_slice-sliced_example :
    (p : Plan) × (full.0
      ≡ commit p (record world { cursor = (read_new loads "j" none journal world.cursor).cursor }))
    × (p.batch_no ≡ 0)
    × (two.accepted ≡ 2)
    × IsExact (config 2 skip) p
unfolding cut_slice after_read after_scan commit_slice is_committed plan plan_of plan_from read_new
    read_lines get lines_of advance ends_with_newline Journal.is_blank scan scan_row verdict
    intra_check check handle on_stmt_conflict accept entry_of compute_uid first_chars stmt_key split
    join is_space content_hash dir?
cut_slice-sliced_example =
    cut_slice-sliced prims loads (config 2 skip) "j" 0 "noon" journal world full.0 two refl

abbrev short : World × SliceOutcome
short = cut_slice prims loads (config 3 skip) "j" 0 "noon" journal world

abbrev zero_counts : Counts
zero_counts = record { accepted = 0; replay_skips = 0; stmt_skips = 0; warns = 0 }

cut_slice-idle_example : short.0 ≡ record world {
  cursor = record world.cursor {
    state = (read_new loads "j" none journal world.cursor).cursor.state;
  };
}
unfolding cut_slice after_read after_scan commit_slice is_committed plan plan_of plan_from read_new
    read_lines get lines_of advance ends_with_newline Journal.is_blank scan scan_row verdict
    intra_check check handle on_stmt_conflict accept entry_of compute_uid first_chars stmt_key split
    join is_space content_hash dir?
cut_slice-idle_example =
    cut_slice-idle prims loads (config 3 skip) "j" 0 "noon" journal world short.0
      (insufficient 2 zero_counts) refl tt

cut_slice-forgets_example :
    (cut_slice prims loads (config 3 skip) "j" 0 "noon" journal short.0).1
    ≡ insufficient 0 (counts_of 0 start)
unfolding cut_slice after_read after_scan commit_slice is_committed plan plan_of plan_from read_new
    read_lines get lines_of advance ends_with_newline Journal.is_blank scan scan_row verdict
    intra_check check handle on_stmt_conflict accept entry_of compute_uid first_chars stmt_key split
    join is_space content_hash dir?
cut_slice-forgets_example =
    cut_slice-forgets prims loads (config 3 skip) "j" 0 "noon" journal world short.0 2 zero_counts
      (omega arith) (omega arith) refl

-- The process dies between the two rows of the ledger.
recover-crashed_example :
    (v : World) × (restart (crashed 1 batch3 world) ≡ some v)
    × ((recover_pending_slice v).1 ≡ recovered 3)
    × IsAsCommitted batch3 world (recover_pending_slice v).0
unfolding get Journal.load Ledger.load Ledger.load_lines batch_label
recover-crashed_example =
    recover-crashed 1 batch3 world tt ((tt, refl), refl) refl (refl, (refl, tt)) (omega arith)
      (omega arith)
