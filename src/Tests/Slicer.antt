-- ===== src/Tests/Slicer.antt =====
-- Runs of the scan in src/icepick/batcher/slicer.py.
use icepick.Prelude.{ℕ, ◌≤◌, ◌≡◌, ◌⊎◌, refl, List, [], ◌∷◌, length, map}
use icepick.Batcher.Identity.{
  is_space, split, join, compute_uid, stmt_key, content_hash, first_chars,
}
use icepick.Batcher.Journal.{JournalRow}
use icepick.Batcher.Ledger.{empty, Ledger, Kind, index_row, check}
use icepick.Batcher.Disk.{batch_label}
use icepick.Batcher.Slicer.{
  skip, allow, Scan, start, go_on, give_up, Scanned, scan, scan_row, intra_check, verdict, accept,
  handle, on_stmt_conflict, entry_of,
}
use icepick.Batcher.Slicer.Pending.{IsSlice}
use icepick.Batcher.Slicer.Exact.{scan-IsSlice}
use icepick.Batcher.Slicer.Novel.{IsNovel, scan-IsNovel}
use icepick.Batcher.Slicer.Allow.{picks, entries_of, scan-allow}
use icepick.Tests.Data.{prims, config, journal_row, ledger_row}

batch_label_test : batch_label 120 ≡ "batch120"
unfolding batch_label
batch_label_test = refl

stmt_key_test : stmt_key prims " If  n is\teven" ≡ "If n is even"
unfolding stmt_key split join is_space
stmt_key_test = refl

-- The second row repeats the first, the fourth is not looked at.
abbrev four_rows : List JournalRow
four_rows = journal_row 1 "a" ∷ journal_row 2 "a" ∷ journal_row 3 "b" ∷ journal_row 4 "c" ∷ []

abbrev scan_of : Scanned → Scan
scan_of (go_on s) = s
scan_of (give_up a) = start

abbrev filled : Scan
filled = scan_of (scan prims (config 2 skip) "batch0" empty four_rows start)

scan-IsSlice_example :
    (m : ℕ) × IsSlice 2 m filled × (m ≤ 4) × ((2 ≤ length filled.pending) ⊎ (m ≡ 4))
unfolding scan scan_row verdict intra_check check handle on_stmt_conflict accept entry_of
    compute_uid first_chars stmt_key split join is_space content_hash
scan-IsSlice_example = scan-IsSlice prims (config 2 skip) "batch0" empty four_rows filled refl

-- The ledger has the statement "a" under another uid.
abbrev known : Ledger
known = index_row empty (ledger_row "a" "batch0")

abbrev novel : Scan
novel = scan_of (scan prims (config 2 skip) "batch1" known four_rows start)

scan-IsNovel_example : IsNovel known novel
unfolding scan scan_row verdict intra_check check handle on_stmt_conflict accept entry_of
    compute_uid first_chars stmt_key split join is_space content_hash index_row
scan-IsNovel_example =
    scan-IsNovel prims (config 2 skip) "batch1" known four_rows novel (λ e. cc (e)) refl

-- " b" has another uid than "b" and the same statement key; the ledger has a row with its uid.
abbrev blocking : Ledger
blocking = index_row empty (record (ledger_row "b" "batch0") {
  uid = compute_uid prims (config 2 allow).campaign_source " b";
  stmt_key = "other";
})

abbrev same_statement : List JournalRow
same_statement = journal_row 1 "b" ∷ journal_row 2 " b" ∷ []

abbrev allowed : Scan
allowed = scan_of (scan prims (config 2 allow) "batch1" blocking same_statement start)

scan-allow_example :
    allowed.pending
    ≡ picks 2 blocking [] (entries_of prims (config 2 allow) "batch1" blocking same_statement)
unfolding scan scan_row verdict intra_check check handle on_stmt_conflict accept entry_of
    compute_uid first_chars stmt_key split join is_space content_hash index_row
scan-allow_example =
    scan-allow prims (config 2 allow) "batch1" blocking same_statement allowed refl refl

-- The second row is in the slice, although the ledger calls it a uid conflict.
blocked_test :
    (map (λ e. (check blocking e.uid e.stmt_key e.content_hash).kind) allowed.pending)
    ≡ (Kind.new ∷ Kind.uid_conflict ∷ [])
unfolding scan scan_row verdict intra_check check handle on_stmt_conflict accept entry_of
    compute_uid first_chars stmt_key split join is_space content_hash index_row
blocked_test = refl
