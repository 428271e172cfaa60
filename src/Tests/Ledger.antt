-- ===== src/Tests/Ledger.antt =====
-- Runs of src/icepick/batcher/ledger.py.
use icepick.Prelude.{
  length, List, [], ◌∷◌, ◌++◌, none, some, true, false, ◌≡◌, ◌⊎◌, refl, foldl, take,
}
use icepick.Batcher.JsonLines.{row, malformed, empty_file, append_rows}
use icepick.Batcher.Ledger.{
  empty, index_row, check, to_write, append_all, loaded, failed, ledger_corruption, load,
  load_lines,
}
use icepick.Batcher.Ledger.Reload.{IsClean, load-append_all}
use icepick.Batcher.Ledger.Append.{append_all-resume}
use icepick.Batcher.Ledger.Check.{verdict_of, check-eq-verdict_of}
use icepick.Batcher.Ledger.Torn.{append_all_torn}
use icepick.Batcher.Backfill.{
  PastRow, Source, backfill, backfill_source, open_source, after_read, append_rows_of, past_rows,
  gather, past_row, size,
}
use icepick.Batcher.Backfill.Again.{backfill_again}
use icepick.Tests.Data.{prims, two_rows, torn_file, torn}

load-append_all_example :
    (load (append_all two_rows (empty, empty_file)).1
      ≡ loaded (append_all two_rows (empty, empty_file)).0)
    × IsClean (append_all two_rows (empty, empty_file)).1
unfolding load load_lines
load-append_all_example = load-append_all two_rows empty empty_file (tt, refl) refl

append_all-resume_example :
    append_all two_rows (
      foldl index_row empty (take 1 (to_write empty two_rows)),
      append_rows (take 1 (to_write empty two_rows)) empty_file,
    )
    ≡ append_all two_rows (empty, empty_file)
append_all-resume_example = append_all-resume 1 two_rows empty empty_file (refl, (refl, tt))

check-eq-verdict_of_example :
    check (foldl index_row empty two_rows) "v" "v" "other" ≡ verdict_of two_rows "v" "v" "other"
check-eq-verdict_of_example = check-eq-verdict_of two_rows "v" "v" "other"

append_all_torn_example :
    (load (append_all two_rows (torn, torn_file)).1 ≡ loaded torn)
    ⊎ (load (append_all two_rows (torn, torn_file)).1 ≡ failed ledger_corruption)
unfolding load load_lines to_write index_row
append_all_torn_example =
    append_all_torn two_rows torn torn_file ((tt, tt), refl) refl (λ e. cc (e))

abbrev past : PastRow
past = record {
  statement = none;
  question = some "q";
  problem = none;
  source = none;
  uid = some "u";
  dumped = "{}";
}

abbrev sources : List Source
sources =
    record {
      label = "batch1";
      abs_path = "a";
      warn_only = false;
      file = some (record { lines = row past ∷ []; tail = none });
    }
    ∷ record { label = "batch2"; abs_path = "b"; warn_only = true; file = none }
    ∷ []

backfill_again_example :
    (backfill prims "later" sources
      ((backfill prims "noon" sources ((empty, empty_file), [])).0, [])).0
    ≡ (backfill prims "noon" sources ((empty, empty_file), [])).0
backfill_again_example = backfill_again prims "noon" "later" sources (empty, empty_file) [] []

-- The row is written once.
backfilled_test : length (backfill prims "noon" sources ((empty, empty_file), [])).0.1.lines ≡ 1
unfolding backfill backfill_source open_source after_read append_rows_of past_rows gather past_row
    size append_all to_write
backfilled_test = refl

-- A line that is a JSON array ends the backfill; what the sources in front of it brought stays.
abbrev with_array : List Source
with_array =
    sources
    ++ record {
      label = "batch3";
      abs_path = "c";
      warn_only = false;
      file = some (record { lines = row past ∷ malformed ∷ []; tail = none });
    }
      ∷ []

raised_test :
    backfill prims "noon" with_array ((empty, empty_file), [])
    ≡ ((backfill prims "noon" sources ((empty, empty_file), [])).0, none)
unfolding backfill backfill_source open_source after_read append_rows_of past_rows gather past_row
    size append_all to_write
raised_test = refl
