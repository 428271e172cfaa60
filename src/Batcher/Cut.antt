-- ===== src/Batcher/Cut.antt =====
-- `cut_slice` of src/icepick/batcher/slicer.py: the read, the scan and the commit together.
pub mod Sliced
pub mod Forget
use icepick.Prelude.{
  ℕ, ◌+◌, String, Bool, true, false, Option, none, some, List, [], ◌∷◌, pos, map, length, ltb,
  if◌then◌else◌,
}
use icepick.Batcher.Identity.{Row, Primitives}
use icepick.Batcher.Journal.{Bytes, JournalRow, Outcome, rows, journal_corruption, Read, read_new}
use icepick.Batcher.Ledger.{LedgerRow}
use icepick.Batcher.Disk.{
  Stored, absent, corrupt, saved, Manifest, ManifestEntry, Counts, BatchDir, dir?, batch_label,
}
use icepick.Batcher.Slicer.{
  SliceConfig, Entry, Scan, start, Abort, batch_dir_conflict, Scanned, go_on, give_up, scan,
}
use icepick.Batcher.World.{World, Plan, make_dir, commit}

-- A `SliceOutcome`, or what `cut_slice` raises: `JournalCorruption` from the read, and `IndexError`
-- from `pending[0]`.
pub data SliceOutcome : Type 0 where
  sliced : Counts → SliceOutcome
  insufficient : ℕ → Counts → SliceOutcome
  aborted : Abort → SliceOutcome
  corrupted : ℕ → SliceOutcome
  index_error : SliceOutcome

abbrev pub manifest_entry : Entry → ManifestEntry
manifest_entry e = record {
  uid = e.uid;
  stmt_key = e.stmt_key;
  content_hash = e.content_hash;
  journal_line = e.journal_row.line_no;
}

abbrev pub ledger_row : String → String → String → Entry → LedgerRow
ledger_row label journal_path now e = record {
  uid = e.uid;
  stmt_key = e.stmt_key;
  content_hash = e.content_hash;
  batch = label;
  source_journal = journal_path;
  journal_line = pos e.journal_row.line_no;
  sliced_at = now;
  warn_only = false;
}

abbrev pub counts_of : ℕ → Scan → Counts
counts_of accepted s = record {
  accepted = accepted;
  replay_skips = s.replay_skips;
  stmt_skips = s.stmt_skips;
  warns = s.warns;
}

module _ (config : SliceConfig) (journal_path : String) (batch_no : ℕ) (now : String) where
  -- What the commit writes of a full slice, from its first entry and the row that filled it.
  unfoldable pub plan_from : Scan → Entry → JournalRow → Plan
  plan_from s first through = record {
    batch_no = batch_no;
    records = map (λ e. e.record_of) s.pending;
    manifest = record {
      batch = batch_label batch_no;
      campaign_source = config.campaign_source;
      slice_size = config.slice_size;
      journal_path = journal_path;
      from_line = first.journal_row.line_no;
      through_line = through.line_no;
      through_byte = through.byte_end;
      created_at = now;
      entries = map manifest_entry s.pending;
      skips = s.skips;
      warnings = s.warnings;
      counts = counts_of config.slice_size s;
    };
    ledger_rows = map (ledger_row (batch_label batch_no) journal_path now) s.pending;
  }

  unfoldable pub plan_of : Scan → List Entry → Option JournalRow → Option Plan
  plan_of s [] through = none
  plan_of s (first ∷ _) none = none
  plan_of s (first ∷ _) (some through) = some (plan_from s first through)

  -- `none` where `pending[0]` raises.
  unfoldable pub plan : Scan → Option Plan
  unfolding plan_of
  plan s = plan_of s s.pending s.through_row

abbrev exists : Stored Manifest → Bool
exists absent = false
exists _ = true

-- The directory is there and has a manifest.
unfoldable pub is_committed : Option BatchDir → Bool
is_committed none = false
is_committed (some d) = exists d.slice_manifest

module _ (prims : Primitives) (loads : Bytes → Option Row) (config : SliceConfig)
    (journal_path : String) (batch_no : ℕ) (now : String) where
  -- Step 6, on a full slice.
  unfoldable pub commit_slice : Scan → World → World × SliceOutcome
  commit_slice s w =
      if is_committed (dir? batch_no w.batches)
      then (w, aborted (batch_dir_conflict batch_no))
      else elim (plan config journal_path batch_no now s) [
        | none ↦ (make_dir batch_no w, index_error)
        | some p ↦ (commit p w, sliced (counts_of config.slice_size s))
      ]

  unfoldable pub after_scan : Scanned → World → World × SliceOutcome
  after_scan (give_up a) w = (w, aborted a)
  after_scan (go_on s) w =
      let size = length s.pending in
      if ltb size config.slice_size
      then (w, insufficient size (counts_of 0 s))
      else commit_slice s w

  unfoldable pub after_read : Outcome → World → World × SliceOutcome
  after_read (journal_corruption n) w = (w, corrupted n)
  after_read (rows js) w = after_scan (scan prims config (batch_label batch_no) w.ledger js start) w

  -- `cut_slice`, on a journal that holds `content`. The read moves the cursor in memory, whatever
  -- comes after it.
  unfoldable pub cut_slice : Bytes → World → World × SliceOutcome
  cut_slice content w =
      let r = read_new loads journal_path none content w.cursor in
      after_read r.outcome (record w { cursor = r.cursor })
