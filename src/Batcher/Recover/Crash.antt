-- ===== src/Batcher/Recover/Crash.antt =====
-- A crash in the middle of a commit, a restart and `recover_pending_slice`:
-- src/icepick/batcher/slicer.py.
use icepick.Prelude.{
  ℕ, ◌≤◌, ◌≡◌, refl, sym, ap, ◌∙◌, String, some, List, map, foldl, keep, not, str_eq, take, arith,
  str_eq_refl,
}
use icepick.Batcher.JsonLines.{JsonLines, append_rows}
use icepick.Batcher.Journal
use icepick.Batcher.Journal.{Position, CursorStore, get}
use icepick.Batcher.Ledger
use icepick.Batcher.Ledger.{Ledger, LedgerRow, index_row, to_write, append_all, loaded}
use icepick.Batcher.Ledger.Reload.{IsClean, load-append_rows}
use icepick.Batcher.Ledger.Append.{IsDistinct, append_all-resume}
use icepick.Batcher.Disk.{
  saved, Note, Manifest, BatchDir, Batches, dir?, put_dir, max_batch_number, batch_label,
}
use icepick.Batcher.Disk.Numbers.{dir?-put_dir, put_dir-put_dir, IsBelow, max_batch_number-put_dir}
use icepick.Batcher.World.{
  World, Plan, dir_or_new, update_dir, make_dir, write_records, write_manifest, append_ledger,
  log_skips, move_cursor, prepare, commit,
}
use icepick.Batcher.Recover.{
  Recovery, recovered, row_of_entry, redo, recover_pending_slice, restart, catch_up, recover_number,
  recover_manifest,
}

-- The ledger in memory is what the ledger file holds.
abbrev pub IsInSync : World → Type 0
IsInSync w = IsClean w.ledger_file × (Ledger.load w.ledger_file ≡ loaded w.ledger)

-- The manifest tells what the commit appends to the ledger.
abbrev pub IsTold : Plan → Type 0
IsTold p = p.ledger_rows ≡ map (row_of_entry (batch_label p.batch_no) p.manifest) p.manifest.entries

-- The disk when the process dies after `m` of the rows that step d writes.
unfoldable pub crashed : ℕ → Plan → World → World
crashed m p w = record (prepare p w) {
  ledger_file = append_rows (take m (to_write w.ledger p.ledger_rows)) w.ledger_file;
}

update_dir-update_dir :
    (n : ℕ) (f g : BatchDir → BatchDir) (bs : Batches)
    → update_dir n g (update_dir n f bs) ≡ update_dir n (λ d. g (f d)) bs
unfolding update_dir
update_dir-update_dir n f g bs = rw (dir?-put_dir, put_dir-put_dir) (ground arith)

abbrev without_tmp : String → BatchDir → BatchDir
without_tmp name d = record d { tmp = keep (λ t. not (str_eq t name)) d.tmp }

-- What the steps up to the manifest make of the directory.
abbrev written : Plan → BatchDir → BatchDir
written p d =
    record (without_tmp "slice_manifest.json.tmp" (without_tmp "slice_records.jsonl.tmp" d)) {
      slice_records = some p.records;
      slice_manifest = saved p.manifest;
    }

batches-prepare :
    (p : Plan) (w : World) → (prepare p w).batches ≡ update_dir p.batch_no (written p) w.batches
unfolding prepare make_dir write_records write_manifest
batches-prepare p w = rw (update_dir-update_dir, update_dir-update_dir)

-- The steps up to the manifest change one directory, which then holds the manifest.
pub prepared :
    (p : Plan) (w : World)
    → (d : BatchDir) × ((prepare p w).batches ≡ put_dir p.batch_no d w.batches)
      × (d.slice_manifest ≡ saved p.manifest)
unfolding update_dir
prepared p w = (written p (dir_or_new (dir? p.batch_no w.batches)), batches-prepare p w, refl)

-- All else is as it was.
prepare-rest :
    (p : Plan) (w : World)
    → ((prepare p w).ledger_file ≡ w.ledger_file)
      × ((prepare p w).ledger ≡ w.ledger)
      × ((prepare p w).cursor ≡ w.cursor)
unfolding prepare make_dir write_records write_manifest
prepare-rest p w = (refl, refl, refl)

-- What `recover_pending_slice` finds of a crash after the manifest.
recover-prepared :
    (p : Plan) (w v : World)
    → IsBelow p.batch_no w.batches
    → v.batches ≡ (prepare p w).batches
    → recover_pending_slice v ≡ (redo p.batch_no p.manifest v, recovered p.batch_no)
unfolding recover_pending_slice
recover-prepared p w v h e =
    let (d, put, has) = prepared p w in
    let largest : max_batch_number v.batches ≡ some p.batch_no =
      rw (e, put) (max_batch_number-put_dir p.batch_no d w.batches h) in
    let there : dir? p.batch_no v.batches ≡ some d = rw (e, put, dir?-put_dir) (ground arith) in
    rw (largest, there, recover_number) (ap (λ m. recover_manifest p.batch_no m v) has)

-- What the last steps do to each part of the world.
redo-parts :
    (n : ℕ) (m : Manifest) (w : World)
    → let ledgers =
        append_all (map (row_of_entry (batch_label n) m) m.entries) (w.ledger, w.ledger_file) in
      ((redo n m w).ledger ≡ ledgers.0)
      × ((redo n m w).ledger_file ≡ ledgers.1)
      × ((redo n m w).batches ≡ w.batches)
unfolding redo catch_up log_skips append_ledger move_cursor
redo-parts n m w = (ground arith, ground arith, ground arith)

pub commit-parts :
    (p : Plan) (w : World)
    → let ledgers = append_all p.ledger_rows (w.ledger, w.ledger_file) in
      ((commit p w).ledger ≡ ledgers.0)
      × ((commit p w).ledger_file ≡ ledgers.1)
      × ((commit p w).batches ≡ (prepare p w).batches)
unfolding commit log_skips append_ledger move_cursor prepare make_dir write_records write_manifest
commit-parts p w = (refl, refl, refl)

abbrev pub end_of : Manifest → Position
end_of m = record { line_count = m.through_line; byte_offset = m.through_byte }

get-move_cursor :
    (path : String) (line byte : ℕ) (w : World)
    → get (move_cursor path line byte w).cursor path
      ≡ record { line_count = line; byte_offset = byte }
unfolding move_cursor Journal.save Journal.advance get
get-move_cursor path line byte w = rw (str_eq_refl path)

-- Moving the cursor only if it is behind brings it to the end of the span.
get-catch_up :
    (m : Manifest) (w : World)
    → (get w.cursor m.journal_path).line_count ≤ m.through_line
    → (get w.cursor m.journal_path).byte_offset ≤ m.through_byte
    → get (catch_up m w).cursor m.journal_path ≡ end_of m
unfolding catch_up
get-catch_up m w hl hb =
    ground (arith, get-move_cursor m.journal_path m.through_line m.through_byte w)

cursor-log_skips :
    (b t : String) (ns : List Note) (rows : List LedgerRow) (w : World)
    → (log_skips b t ns (append_ledger rows w)).cursor ≡ w.cursor
unfolding log_skips append_ledger
cursor-log_skips b t ns rows w = refl

get-redo :
    (n : ℕ) (m : Manifest) (w : World)
    → (get w.cursor m.journal_path).line_count ≤ m.through_line
    → (get w.cursor m.journal_path).byte_offset ≤ m.through_byte
    → get (redo n m w).cursor m.journal_path ≡ end_of m
unfolding redo
get-redo n m w hl hb =
    let rows = map (row_of_entry (batch_label n) m) m.entries in
    let same = cursor-log_skips (batch_label n) m.created_at m.skips rows w in
    get-catch_up m _ (rw same hl) (rw same hb)

restart-crashed :
    (m : ℕ) (p : Plan) (w : World)
    → IsInSync w
    → restart (crashed m p w)
      ≡ some (record (crashed m p w) {
        ledger = foldl index_row w.ledger (take m (to_write w.ledger p.ledger_rows));
        cursor = Journal.load w.cursor;
      })
unfolding restart crashed
restart-crashed m p w sync =
    rw
      (
        load-append_rows (take m (to_write w.ledger p.ledger_rows)) w.ledger w.ledger_file sync.0
            sync.1,
        restart,
      )
      (rw (prepare-rest p w).2)

get-commit :
    (p : Plan) (w : World) → get (commit p w).cursor p.manifest.journal_path ≡ end_of p.manifest
unfolding commit
get-commit p w =
    get-move_cursor p.manifest.journal_path p.manifest.through_line p.manifest.through_byte _

-- The parts of the world that decide what is batched from now on.
abbrev pub IsAsCommitted : Plan → World → World → Type 0
IsAsCommitted p w u =
    (u.ledger ≡ (commit p w).ledger)
    × (u.ledger_file ≡ (commit p w).ledger_file)
    × (u.batches ≡ (commit p w).batches)
    × (get u.cursor p.manifest.journal_path ≡ get (commit p w).cursor p.manifest.journal_path)

-- A process may die in a commit once the manifest is written, after any number `m` of the rows that
-- go to the ledger, each of them whole. When the batch has the highest number, the ledger in memory was
-- that of its clean file, the manifest tells the rows, no two of them share uid and batch, and the saved
-- cursor is not past the slice, then the ledger and the cursor load again, the recovery reports the
-- batch, and the ledger, its file, the batch directories and the position in the journal are those of
-- the commit that was not interrupted.
pub recover-crashed :
    (m : ℕ) (p : Plan) (w : World)
    → IsBelow p.batch_no w.batches
    → IsInSync w
    → IsTold p
    → IsDistinct p.ledger_rows
    → (get (Journal.load w.cursor) p.manifest.journal_path).line_count ≤ p.manifest.through_line
    → (get (Journal.load w.cursor) p.manifest.journal_path).byte_offset ≤ p.manifest.through_byte
    → (v : World) × (restart (crashed m p w) ≡ some v)
      × ((recover_pending_slice v).1 ≡ recovered p.batch_no)
      × IsAsCommitted p w (recover_pending_slice v).0
unfolding crashed
recover-crashed m p w below sync told distinct hl hb =
    let ws = take m (to_write w.ledger p.ledger_rows) in
    let v : World = record (crashed m p w) {
      ledger = foldl index_row w.ledger ws;
      cursor = Journal.load w.cursor;
    } in
    let found = recover-prepared p w v below refl in
    let parts = redo-parts p.batch_no p.manifest v in
    let whole = commit-parts p w in
    let resumed : append_all
          (map (row_of_entry (batch_label p.batch_no) p.manifest) p.manifest.entries)
          (v.ledger, v.ledger_file)
        ≡ append_all p.ledger_rows (w.ledger, w.ledger_file) =
      rw (← told) (append_all-resume m p.ledger_rows w.ledger w.ledger_file distinct) in
    let there : get (redo p.batch_no p.manifest v).cursor p.manifest.journal_path
        ≡ end_of p.manifest =
      get-redo p.batch_no p.manifest v hl hb in
    (
      v,
      restart-crashed m p w sync,
      ap (λ (r : World × Recovery). r.1) found,
      rw found (
        parts.0 ∙ ap (λ (r : Ledger × JsonLines LedgerRow). r.0) resumed ∙ sym whole.0,
        parts.1 ∙ ap (λ (r : Ledger × JsonLines LedgerRow). r.1) resumed ∙ sym whole.1,
        parts.2 ∙ sym whole.2,
        there ∙ sym (get-commit p w),
      ),
    )
