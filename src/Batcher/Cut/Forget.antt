-- ===== src/Batcher/Cut/Forget.antt =====
-- What `cut_slice` of src/icepick/batcher/slicer.py leaves behind when it cuts no slice.
use mathlib.Core.Path.{subst}
use mathlib.Core.List.{append-nil}
use icepick.Prelude.{
  ℕ, ◌+◌, ◌≤◌, ◌<◌, ◌≡◌, inl, inr, refl, sym, ap, ◌∙◌, String, Option, none, List, [], ◌∷◌, ◌++◌,
  arith, drop, length, length-append, ltb, Bool-cases, Option-cases,
}
use icepick.Batcher.Identity.{Row, Primitives}
use icepick.Batcher.Journal
use icepick.Batcher.Journal.{
  Bytes, JournalRow, CursorStore, Outcome, rows, journal_corruption, prepend, Read, get, read_new,
  read_lines,
}
use icepick.Batcher.Journal.Resume.{read_new-resume}
use icepick.Batcher.Disk.{Counts, dir?, batch_label}
use icepick.Batcher.Slicer.{SliceConfig, Scan, start, Scanned, go_on, give_up, scan}
use icepick.Batcher.World.{World}
use icepick.Batcher.Cut.{
  SliceOutcome, sliced, insufficient, index_error, counts_of, plan, is_committed, commit_slice,
  after_scan, after_read, cut_slice,
}

read_lines-file :
    (loads : Bytes → Option Row) (path : String) (limit : Option ℕ) (found n p : ℕ)
    (ls : List Bytes) (c : CursorStore)
    → (read_lines loads path limit found n p ls c).cursor.file ≡ c.file
unfolding read_lines Journal.advance
read_lines-file loads path limit found n p [] c = refl
read_lines-file loads path limit found n p (raw ∷ rest) c =
    let c' = Journal.advance c path (n + 1) (p + length raw) in
    ground (
      arith,
      read_lines-file loads path limit found (n + 1) (p + length raw) rest c',
      read_lines-file loads path limit (found + 1) (n + 1) (p + length raw) rest c',
    )

prepend-all : (js : List JournalRow) (o : Outcome) → prepend js o ≡ rows js → o ≡ rows []
prepend-all js (journal_corruption n) h = cc
prepend-all js (rows []) h = refl
prepend-all js (rows (k ∷ ks)) h =
    let same : length (js ++ k ∷ ks) ≡ length js = ap length (ground (arith, h)) in
    absurd (omega (arith, same, length-append js (k ∷ ks)))

-- A second read of the same journal returns no row.
read_again :
    (loads : Bytes → Option Row) (path : String) (content : Bytes) (c : CursorStore)
    (js : List JournalRow)
    → (get c path).byte_offset ≤ length content
    → (read_new loads path none content c).outcome ≡ rows js
    → (read_new loads path none content (read_new loads path none content c).cursor).outcome
      ≡ rows []
read_again loads path content c js h ok =
    let later = (read_new loads path none content c).cursor in
    let whole : (read_new loads path none content c).outcome
        ≡ prepend js (read_new loads path none content later).outcome =
      subst
        (λ l.
          (read_new loads path none l c).outcome
          ≡ prepend js (read_new loads path none l later).outcome)
        (append-nil content)
        (ap (λ (r : Read). r.outcome) (read_new-resume loads path content [] c js h ok)) in
    prepend-all js (read_new loads path none content later).outcome (sym whole ∙ ok)

-- The slice was not cut, and `pending[0]` has not raised.
abbrev pub IsIdle : SliceOutcome → Type 0
IsIdle (sliced c) = ⊥
IsIdle index_error = ⊥
IsIdle _ = Unit

module _ (prims : Primitives) (loads : Bytes → Option Row) (config : SliceConfig) (path : String)
    (n : ℕ) (now : String) where
  commit_slice-idle :
      (s : Scan) (w w' : World) (o : SliceOutcome)
      → commit_slice prims loads config path n now s w ≡ (w', o)
      → IsIdle o
      → w' ≡ w
  unfolding commit_slice
  commit_slice-idle s w w' (sliced c) e idle = absurd idle
  commit_slice-idle s w w' index_error e idle = absurd idle
  commit_slice-idle s w w' o e idle = elim (Bool-cases (is_committed (dir? n w.batches))) [
    | inl taken ↦ ground arith
    | inr free ↦ elim (Option-cases (plan config path n now s)) [
      | inl raises ↦ ground arith
      | inr (p, made) ↦ ground arith
    ]
  ]

  after_scan-idle :
      (r : Scanned) (w w' : World) (o : SliceOutcome)
      → after_scan prims loads config path n now r w ≡ (w', o)
      → IsIdle o
      → w' ≡ w
  unfolding after_scan
  after_scan-idle (give_up a) w w' o e idle = ground arith
  after_scan-idle (go_on s) w w' o e idle =
      elim (Bool-cases (ltb (length s.pending) config.slice_size)) [
        | inl short ↦ ground arith
        | inr enough ↦ commit_slice-idle s w w' o (ground arith) idle
      ]

  after_read-idle :
      (r : Outcome) (w w' : World) (o : SliceOutcome)
      → after_read prims loads config path n now r w ≡ (w', o)
      → IsIdle o
      → w' ≡ w
  unfolding after_read
  after_read-idle (journal_corruption l) w w' o e idle = ground arith
  after_read-idle (rows js) w w' o e idle =
      after_scan-idle (scan prims config (batch_label n) w.ledger js start) w w' o e idle

  -- When `cut_slice` returns that the rows are too few or that the slice is aborted, or raises that
  -- the journal is corrupt, no file has been written and the ledger is as it was; at most the cursor
  -- in memory has moved, to where the read has left it.
  pub cut_slice-idle :
      (content : Bytes) (w w' : World) (o : SliceOutcome)
      → cut_slice prims loads config path n now content w ≡ (w', o)
      → IsIdle o
      → w' ≡ record w {
        cursor = record w.cursor {
          state = (read_new loads path none content w.cursor).cursor.state;
        };
      }
  unfolding cut_slice read_new
  cut_slice-idle content w w' o e idle =
      let r = read_new loads path none content w.cursor in
      let kept =
        read_lines-file loads path none 0 (get w.cursor path).line_count
          (get w.cursor path).byte_offset
          (Journal.lines_of (drop (get w.cursor path).byte_offset content)) w.cursor in
      after_read-idle r.outcome (record w { cursor = r.cursor }) w' o e idle
      ∙ ap (λ f. record w { cursor = record r.cursor { file = f } }) kept

  after_read-insufficient :
      (r : Outcome) (w w' : World) (k : ℕ) (c : Counts)
      → after_read prims loads config path n now r w ≡ (w', insufficient k c)
      → (js : List JournalRow) × (r ≡ rows js)
  unfolding after_read
  after_read-insufficient (journal_corruption l) w w' k c e = ground arith
  after_read-insufficient (rows js) w w' k c e = (js, refl)

  -- The rows of a slice that was too short are forgotten: after such an outcome on a journal that the
  -- cursor is not past the end of, a second call on the same journal finds no row at all, when the
  -- slice takes at least one.
  pub cut_slice-forgets :
      (content : Bytes) (w w' : World) (k : ℕ) (c : Counts)
      → 0 < config.slice_size
      → (get w.cursor path).byte_offset ≤ length content
      → cut_slice prims loads config path n now content w ≡ (w', insufficient k c)
      → (cut_slice prims loads config path n now content w').1 ≡ insufficient 0 (counts_of 0 start)
  unfolding cut_slice after_read after_scan scan
  cut_slice-forgets content w w' k c size h e =
      let r = read_new loads path none content w.cursor in
      let w0 : World = record w { cursor = r.cursor } in
      let same : w' ≡ w0 = after_read-idle r.outcome w0 w' (insufficient k c) e tt in
      let (js, ok) = after_read-insufficient r.outcome w0 w' k c e in
      rw (same, read_again loads path content w.cursor js h ok) (ground arith)
