-- ===== src/Batcher/World.antt =====
-- What src/icepick/batcher/ keeps in memory and on disk, and the steps by which `cut_slice` of
-- slicer.py commits a slice to it.
use icepick.Prelude.{ℕ, String, not, Option, none, some, List, ◌++◌, map, keep, str_eq}
use icepick.Batcher.Identity.{Candidate}
use icepick.Batcher.JsonLines.{JsonLines}
use icepick.Batcher.Journal
use icepick.Batcher.Journal.{JournalRow, CursorStore, advance}
use icepick.Batcher.Ledger.{Ledger, LedgerRow, append_all}
use icepick.Batcher.Disk.{saved, Note, Manifest, BatchDir, new_dir, Batches, dir?, put_dir}

-- A line of cross_source_skips.jsonl.
pub record LoggedSkip : Type 0 where
  pub skipped : Note
  pub batch : String
  pub sliced_at : String

-- `ledger` and `cursor.state` are in memory, all else is on disk.
pub record World : Type 0 where
  pub ledger : Ledger
  pub ledger_file : JsonLines LedgerRow
  pub skip_log : List LoggedSkip
  pub cursor : CursorStore
  pub batches : Batches

-- What a commit writes.
pub record Plan : Type 0 where
  pub batch_no : ℕ
  pub records : List Candidate
  pub manifest : Manifest
  pub ledger_rows : List LedgerRow

abbrev pub dir_or_new : Option BatchDir → BatchDir
dir_or_new none = new_dir
dir_or_new (some d) = d

-- A change to the files of one batch directory.
unfoldable pub update_dir : ℕ → (BatchDir → BatchDir) → Batches → Batches
update_dir n f bs = put_dir n (f (dir_or_new (dir? n bs))) bs

-- 6a. `batch_dir.mkdir`, which leaves a directory that is there as it is.
unfoldable pub make_dir : ℕ → World → World
make_dir n w = record w { batches = update_dir n (λ d. d) w.batches }

-- 6b. slice_records.jsonl, through a file that is renamed.
unfoldable pub write_records : Plan → World → World
write_records p w = record w {
  batches =
      update_dir p.batch_no
        (λ d. record d {
          slice_records = some p.records;
          tmp = keep (λ t. not (str_eq t "slice_records.jsonl.tmp")) d.tmp;
        })
        w.batches;
}

-- 6c. slice_manifest.json, through a file that is renamed.
unfoldable pub write_manifest : Plan → World → World
write_manifest p w = record w {
  batches =
      update_dir p.batch_no
        (λ d. record d {
          slice_manifest = saved p.manifest;
          tmp = keep (λ t. not (str_eq t "slice_manifest.json.tmp")) d.tmp;
        })
        w.batches;
}

-- 6d. `ledger.append_all`
unfoldable pub append_ledger : List LedgerRow → World → World
append_ledger rows w =
    let (ledger, file) = append_all rows (w.ledger, w.ledger_file) in
    record w { ledger = ledger; ledger_file = file }

-- 6e. `ledger.log_skip` for each skip
unfoldable pub log_skips : String → String → List Note → World → World
log_skips batch at skips w = record w {
  skip_log = w.skip_log ++ map (λ n. record { skipped = n; batch = batch; sliced_at = at }) skips;
}

-- 6f. `cursor.advance` and `cursor.save`
unfoldable pub move_cursor : String → ℕ → ℕ → World → World
move_cursor path line byte w = record w { cursor = Journal.save (advance w.cursor path line byte) }

-- The steps up to the manifest, before the point of no return.
unfoldable pub prepare : Plan → World → World
prepare p w = write_manifest p (write_records p (make_dir p.batch_no w))

-- All steps of a commit.
unfoldable pub commit : Plan → World → World
commit p w =
    let m = p.manifest in
    move_cursor m.journal_path m.through_line m.through_byte
      (log_skips m.batch m.created_at m.skips (append_ledger p.ledger_rows (prepare p w)))
