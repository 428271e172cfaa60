-- ===== src/Tests/Daemon.antt =====
-- Runs of src/icepick/batcher/daemon.py and of `with_retries` in src/icepick/batcher/stages.py.
use icepick.Prelude.{
  arith, ℕ, ◌≡◌, refl, true, false, none, some, List, [], ◌∷◌, All, ◌==◌, if◌then◌else◌,
}
use icepick.Batcher.Journal
use icepick.Batcher.Journal.{JournalRow}
use icepick.Batcher.Journal.{read_new, read_lines, get, lines_of, advance, ends_with_newline}
use icepick.Batcher.Identity.{
  is_space, split, join, compute_uid, stmt_key, content_hash, first_chars,
}
use icepick.Batcher.Ledger.{check}
use icepick.Batcher.Disk.{saved, StateName, BatchDir, Batches, new_dir, dir?, put_dir}
use icepick.Batcher.State.{no_state, read_state, transition, check_transition}
use icepick.Batcher.Stages.{StageOutcome, is_retryable, with_retries, backoff}
use icepick.Batcher.Stages.Retries.{StopsAt, with_retries-StopsAt}
use icepick.Batcher.Slicer.{
  skip, scan, scan_row, intra_check, verdict, accept, handle, on_stmt_conflict, entry_of,
}
use icepick.Batcher.World.{
  update_dir, make_dir, write_records, write_manifest, append_ledger, log_skips, move_cursor,
  prepare, commit,
}
use icepick.Batcher.Recover.Crash.{crashed}
use icepick.Batcher.Queue.{
  add_spend, save_queue, inc_batch_number, QueueState, Daemon, no_counts, check_identity, refused,
  numbering_mismatch, startup,
}
use icepick.Batcher.Queue.Startup.{startup-crashed}
use icepick.Batcher.Watch.{ingest_watch_journals, Ingested, ingest_rows}
use icepick.Batcher.Watch.Covered.{IsCovered, ingest_rows-IsCovered}
use icepick.Batcher.Dispatch.{
  Outside, move, Tag, Acted, acted, dispatch, do_cascade, after_cascade, advance_batch,
}
use icepick.Batcher.Dispatch.Moves.{Goes}
use icepick.Batcher.Dispatch.Forward.{advance_batch-Goes}
use icepick.Batcher.Tick.{
  Moment, tick, work, try_slice, after_cut, ingest, find_in_flight, add_counts,
}
use icepick.Batcher.Cut.{
  plan_from, plan_of, plan, is_committed, commit_slice, after_scan, after_read, cut_slice,
}
use icepick.Batcher.Tick.InFlight.{OnlyTouches, tick-in_flight, tick-stuck}
use icepick.Batcher.Tick.Numbered.{IsNumbered, tick-IsNumbered}
use icepick.Batcher.Run.{Round, run_forever}
use icepick.Batcher.Run.Invariant.{IsSound, run_forever-IsNumbered}
use icepick.Tests.Data.{prims, config, world, journal_row, loads, journal, batch3}

abbrev good : StageOutcome
good = record {
  ok = true;
  kind = "ok";
  detail = "";
  cost_usd = some 12;
  values = [];
  attempts = none;
}

abbrev overloaded : StageOutcome
overloaded = record good { ok = false; kind = "exec_failed"; detail = "HTTP 529" }

-- The first attempt meets an overloaded server.
abbrev second_time : ℕ → StageOutcome
second_time n = if n == 1 then overloaded else good

with_retries-StopsAt_example :
    (count : ℕ) × StopsAt
      (is_retryable prims.lower)
      (30 ∷ 120 ∷ 480 ∷ [])
      second_time
      2
      1
      count
      (with_retries (is_retryable prims.lower) (30 ∷ 120 ∷ 480 ∷ []) second_time 2)
with_retries-StopsAt_example =
    with_retries-StopsAt (is_retryable prims.lower) (30 ∷ 120 ∷ 480 ∷ []) second_time 2

retries_test :
    (with_retries (is_retryable prims.lower) (30 ∷ 120 ∷ 480 ∷ []) second_time 2).sleeps ≡ 30 ∷ []
unfolding with_retries is_retryable backoff
retries_test = refl

abbrev queue : QueueState
queue = record {
  campaign_source = some "campaign";
  slice_size = some 2;
  next_batch_number = 3;
  halt = none;
  spend_usd_total = 0;
  updated_at = "noon";
}

startup-crashed_example :
    startup (config 2 skip) "noon" false (saved queue) [] (crashed 1 batch3 world)
    ≡ refused numbering_mismatch
unfolding check_identity
startup-crashed_example =
    startup-crashed (config 2 skip) "noon" queue [] 1 batch3 world refl refl tt

abbrev ingested : Ingested
ingested = record { world = world; counter = record { ingested = 0; malformed = 0 } }

abbrev watched : List JournalRow
watched = journal_row 1 "a" ∷ journal_row 2 "b" ∷ []

abbrev after_watch : Ingested
after_watch = ingest_rows prims "batch9" "w" "noon" "campaign" watched ingested

ingest_rows-IsCovered_example :
    All (IsCovered prims "batch9" "w" "noon" "campaign" after_watch.world.ledger) watched
ingest_rows-IsCovered_example =
    ingest_rows-IsCovered prims "batch9" "w" "noon" "campaign" watched ingested (λ uid. refl)

abbrev outside : Outside
outside = record {
  run_mount = λ uids. good;
  cascade_slot = some true;
  last_intake_run = some "run";
  run_cascade = second_time;
  qwen_slot = none;
  run_passk = second_time;
  lower = λ s. s;
  cascade_data = λ o. "{}";
  cost_guard = λ label cost. "cost_guard";
}

abbrev mounted_dir : BatchDir
mounted_dir = record new_dir { state = saved (record no_state { state = some StateName.mounted }) }

abbrev daemon : Batches → Daemon
daemon bs = record {
  world = record world { batches = bs };
  queue = queue;
  queue_file = saved queue;
  events = [];
  skip_counts = no_counts;
  watch_counters = [];
}

abbrev busy : Daemon
busy = daemon ((2, mounted_dir) ∷ [])

advance_batch-Goes_example :
    Goes 2 "noon" StateName.mounted busy (advance_batch 2 "noon" outside busy)
unfolding read_state dir?
advance_batch-Goes_example = advance_batch-Goes 2 "noon" outside StateName.mounted busy refl refl

abbrev moment : Moment
moment = record {
  armed = true;
  now = "noon";
  journal = journal;
  run_concluded = false;
  watched = [];
  stages = outside;
}

abbrev daemon_of : Acted → Daemon
daemon_of (acted t d) = d
daemon_of _ = busy

-- An idle daemon cuts the third batch.
abbrev after_tick : Daemon
after_tick = daemon_of (tick (config 2 skip) moment prims loads "j" (daemon []))

tick-IsNumbered_example : IsNumbered after_tick
unfolding tick work try_slice after_cut ingest ingest_watch_journals find_in_flight move transition
    read_state check_transition inc_batch_number add_counts cut_slice after_read after_scan
    commit_slice is_committed plan plan_of plan_from read_new read_lines get lines_of advance
    ends_with_newline Journal.is_blank scan scan_row verdict intra_check check handle
    on_stmt_conflict accept entry_of compute_uid first_chars stmt_key split join is_space
    content_hash commit prepare make_dir write_records write_manifest append_ledger log_skips
    move_cursor update_dir dir? put_dir
tick-IsNumbered_example =
    tick-IsNumbered (config 2 skip) moment prims loads "j" (daemon []) after_tick Tag.sliced tt refl

-- A busy daemon takes the second batch through the cascade.
abbrev after_busy : Daemon
after_busy = daemon_of (tick (config 2 skip) moment prims loads "j" busy)

tick-in_flight_example :
    OnlyTouches 2 ((2, mounted_dir) ∷ []) after_busy.world.batches
    × (after_busy.queue.next_batch_number ≡ 3)
unfolding tick work ingest ingest_watch_journals find_in_flight read_state advance_batch dispatch
    do_cascade after_cascade with_retries is_retryable add_spend save_queue move transition
    check_transition dir? put_dir
tick-in_flight_example =
    tick-in_flight (config 2 skip) moment prims loads "j" 2 busy after_busy Tag.cascade_done refl
      refl (record { there = refl; lowest = (λ is_open. omega arith, tt) }) refl

-- The directory of the second batch has been made, and the daemon has died before its first transition.
abbrev lost : Daemon
lost = daemon ((2, new_dir) ∷ [])

tick-stuck_example :
    (d' : Daemon) × (tick (config 2 skip) moment prims loads "j" lost
      ≡ acted (Tag.unknown_state none) d')
    × (d'.world.batches ≡ lost.world.batches)
    × (d'.queue ≡ lost.queue)
    × (d'.queue_file ≡ lost.queue_file)
unfolding find_in_flight read_state dir?
tick-stuck_example =
    tick-stuck (config 2 skip) moment prims loads "j" 2 lost refl refl
      (record { there = refl; lowest = (λ is_open. omega arith, tt) }) refl

-- Two rounds, and then a signal.
abbrev rounds : List Round
rounds =
    record { stop = false; moment = moment }
    ∷ record { stop = false; moment = moment }
    ∷ record { stop = true; moment = moment }
    ∷ []

run_forever-IsNumbered_example :
    IsSound
      (config 2 skip)
      45
      60
      (run_forever (config 2 skip) 45 60 prims loads "j" rounds (daemon []))
run_forever-IsNumbered_example =
    run_forever-IsNumbered (config 2 skip) 45 60 prims loads "j" rounds (daemon []) tt
