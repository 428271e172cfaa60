-- ===== src/Batcher/Recover.antt =====
-- `recover_pending_slice` of src/icepick/batcher/slicer.py, and what a restart loads.
pub mod Crash
use icepick.Prelude.{
  ℕ, ◌+◌, String, Bool, true, false, ◌||◌, Option, none, some, List, [], ◌∷◌, pos, map, ltb,
  if◌then◌else◌,
}
use icepick.Batcher.Journal
use icepick.Batcher.Journal.{Position, get}
use icepick.Batcher.Ledger
use icepick.Batcher.Ledger.{LedgerRow, Loaded, loaded, failed}
use icepick.Batcher.Disk.{
  Stored, absent, corrupt, saved, ManifestEntry, Manifest, BatchDir, dir?, put_dir,
  max_batch_number, batch_label,
}
use icepick.Batcher.World.{World, update_dir, append_ledger, log_skips, move_cursor}

-- The dictionary that `recover_pending_slice` returns.
pub data Recovery : Type 0 where
  nothing : Recovery
  recovered recomputable unreadable : ℕ → Recovery

abbrev pub row_of_entry : String → Manifest → ManifestEntry → LedgerRow
row_of_entry label m e = record {
  uid = e.uid;
  stmt_key = e.stmt_key;
  content_hash = e.content_hash;
  batch = label;
  source_journal = m.journal_path;
  journal_line = pos e.journal_line;
  sliced_at = m.created_at;
  warn_only = false;
}

-- Step f: the cursor is moved only if it is behind the span of the manifest.
unfoldable pub catch_up : Manifest → World → World
catch_up m w =
    let p = get w.cursor m.journal_path in
    if ltb p.line_count m.through_line || ltb p.byte_offset m.through_byte
    then move_cursor m.journal_path m.through_line m.through_byte w
    else w

-- Steps d to f from the manifest.
unfoldable pub redo : ℕ → Manifest → World → World
redo n m w = catch_up m (
    log_skips (batch_label n) m.created_at m.skips
      (append_ledger (map (row_of_entry (batch_label n) m) m.entries) w))

recover_manifest : ℕ → Stored Manifest → World → World × Recovery
recover_manifest n absent w =
    (record w { batches = update_dir n (λ d. record d { tmp = [] }) w.batches }, recomputable n)
recover_manifest n corrupt w = (w, unreadable n)
recover_manifest n (saved m) w = (redo n m w, recovered n)

recover_dir : ℕ → Option BatchDir → World → World × Recovery
recover_dir n none w = (w, nothing)
recover_dir n (some d) w = recover_manifest n d.slice_manifest w

recover_number : Option ℕ → World → World × Recovery
recover_number none w = (w, nothing)
recover_number (some n) w = recover_dir n (dir? n w.batches) w

-- `recover_pending_slice`: only the highest-numbered directory is looked at.
unfoldable pub recover_pending_slice : World → World × Recovery
unfolding recover_number recover_dir recover_manifest
recover_pending_slice w = recover_number (max_batch_number w.batches) w

-- A new process has what the files hold: `Ledger.load` and `CursorStore.load`.
unfoldable pub restart : World → Option World
restart w = elim (Ledger.load w.ledger_file) [
  | loaded l ↦ some (record w { ledger = l; cursor = Journal.load w.cursor })
  | failed e ↦ none
]
