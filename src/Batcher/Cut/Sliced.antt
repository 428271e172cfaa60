-- ===== src/Batcher/Cut/Sliced.antt =====
-- What `cut_slice` of src/icepick/batcher/slicer.py has done, by its outcome.
use icepick.Prelude.{
  ℕ, suc, ◌≡◌, refl, ap, ◌∙◌, String, false, Option, none, some, List, [], ◌∷◌, map, arith, ltb,
  length, Bool-cases, Option-cases, inl, inr,
}
use icepick.Batcher.Identity.{Row, Primitives}
use icepick.Batcher.Journal.{Bytes, JournalRow, Outcome, rows, journal_corruption, read_new}
use icepick.Batcher.Ledger.Append.{has_pair, IsDistinct}
use icepick.Batcher.Disk.{Counts, dir?, batch_label}
use icepick.Batcher.Slicer.{SliceConfig, Entry, Scan, start, Scanned, go_on, give_up, scan}
use icepick.Batcher.Slicer.Pending.{IsSlice, has_uid, HasDistinctUids}
use icepick.Batcher.Slicer.Exact.{scan-IsSlice}
use icepick.Batcher.World.{World, Plan, commit}
use icepick.Batcher.Recover.{row_of_entry}
use icepick.Batcher.Recover.Crash.{IsTold}
use icepick.Batcher.Cut.{
  sliced, counts_of, ledger_row, manifest_entry, plan_of, plan_from, plan, is_committed,
  commit_slice, after_scan, after_read, cut_slice,
}

has_pair-ledger_row :
    (label path now u b : String) (es : List Entry)
    → has_uid u es ≡ false
    → has_pair u b (map (ledger_row label path now) es) ≡ false
has_pair-ledger_row label path now u b [] h = refl
has_pair-ledger_row label path now u b (e ∷ es) h =
    ground (arith, has_pair-ledger_row label path now u b es)

IsDistinct-ledger_row :
    (label path now : String) (es : List Entry)
    → HasDistinctUids es
    → IsDistinct (map (ledger_row label path now) es)
IsDistinct-ledger_row label path now [] h = tt
IsDistinct-ledger_row label path now (e ∷ es) h = (
  has_pair-ledger_row label path now e.uid label es h.0,
  IsDistinct-ledger_row label path now es h.1,
)

-- What the slice and its record on disk have in common.
pub record IsExact (config : SliceConfig) (p : Plan) : Type 0 where
  pub rows_exact : length p.ledger_rows ≡ config.slice_size
  pub records_exact : length p.records ≡ config.slice_size
  pub entries_exact : length p.manifest.entries ≡ config.slice_size
  pub distinct : IsDistinct p.ledger_rows
  pub told : IsTold p

length-map {ℓ κ} :
    {A : Type ℓ} {B : Type κ} (f : A → B) (xs : List A) → length (map f xs) ≡ length xs
length-map f [] = refl
length-map f (x ∷ xs) = ap suc (length-map f xs)

module _ (config : SliceConfig) (path : String) (n : ℕ) (now : String) where
  told-map :
      (first : Entry) (through : JournalRow) (s : Scan) (es : List Entry)
      → map (ledger_row (batch_label n) path now) es
        ≡ map
            (row_of_entry (batch_label n) (plan_from config path n now s first through).manifest)
            (map manifest_entry es)
  unfolding plan_from
  told-map first through s [] = refl
  told-map first through s (e ∷ es) =
      ap (λ l. ledger_row (batch_label n) path now e ∷ l) (told-map first through s es)

  plan_of-eq :
      (s : Scan) (es : List Entry) (through : Option JournalRow) (p : Plan)
      → plan_of config path n now s es through ≡ some p
      → (e : Entry) × (j : JournalRow) × (p ≡ plan_from config path n now s e j)
        × (through ≡ some j)
  unfolding plan_of
  plan_of-eq s [] through p h = cc
  plan_of-eq s (e ∷ es) none p h = cc
  plan_of-eq s (e ∷ es) (some j) p h = (e, j, cc, refl)

  plan_from-IsExact :
      (m : ℕ) (s : Scan) (e : Entry) (j : JournalRow)
      → IsSlice config.slice_size m s
      → length s.pending ≡ config.slice_size
      → IsExact config (plan_from config path n now s e j)
  unfolding plan_from
  plan_from-IsExact m s e j h full = record {
    rows_exact = length-map (ledger_row (batch_label n) path now) s.pending ∙ full;
    records_exact = length-map (λ x. x.record_of) s.pending ∙ full;
    entries_exact = length-map manifest_entry s.pending ∙ full;
    distinct = IsDistinct-ledger_row (batch_label n) path now s.pending h.uids;
    told = told-map e j s s.pending;
  }

module _ (prims : Primitives) (loads : Bytes → Option Row) (config : SliceConfig) (path : String)
    (n : ℕ) (now : String) where
  commit_slice-sliced :
      (m : ℕ) (s : Scan) (w w' : World) (c : Counts)
      → IsSlice config.slice_size m s
      → length s.pending ≡ config.slice_size
      → commit_slice prims loads config path n now s w ≡ (w', sliced c)
      → (p : Plan) × (plan config path n now s ≡ some p)
        × (w' ≡ commit p w)
        × (c ≡ counts_of config.slice_size s)
        × (p.batch_no ≡ n)
        × IsExact config p
  unfolding commit_slice plan
  commit_slice-sliced m s w w' c h full e = elim (Bool-cases (is_committed (dir? n w.batches))) [
    | inl taken ↦ ground arith
    | inr free ↦ elim (Option-cases (plan_of config path n now s s.pending s.through_row)) [
      | inl raises ↦ ground arith
      | inr (p, made) ↦
          let (first, through, same, _) =
            plan_of-eq config path n now s s.pending s.through_row p made in
          (
            p,
            made,
            ground arith,
            ground arith,
            rw same (unfold plan_from in refl),
            rw same (plan_from-IsExact config path n now m s first through h full),
          )
    ]
  ]

  IsCut : World → World → Counts → Type 0
  IsCut w w' c =
      (p : Plan) × (w' ≡ commit p w)
      × (p.batch_no ≡ n)
      × (c.accepted ≡ config.slice_size)
      × IsExact config p

  after_scan-sliced :
      (js : List JournalRow) (r : Scanned) (w w' : World) (c : Counts)
      → scan prims config (batch_label n) w.ledger js start ≡ r
      → after_scan prims loads config path n now r w ≡ (w', sliced c)
      → IsCut w w' c
  unfolding after_scan IsCut
  after_scan-sliced js (give_up a) w w' c k e = ground arith
  after_scan-sliced js (go_on s) w w' c k e =
      elim (Bool-cases (ltb (length s.pending) config.slice_size)) [
        | inl short ↦ ground arith
        | inr enough ↦
            let (m, h, _, _) = scan-IsSlice prims config (batch_label n) w.ledger js s k in
            let full : length s.pending ≡ config.slice_size = ground (arith, h.size) in
            let (p, _, done, counted, number, exact) =
              commit_slice-sliced m s w w' c h full (ground arith) in
            (p, done, number, rw counted, exact)
      ]

  after_read-sliced :
      (o : Outcome) (w w' : World) (c : Counts)
      → after_read prims loads config path n now o w ≡ (w', sliced c)
      → IsCut w w' c
  unfolding after_read
  after_read-sliced (journal_corruption l) w w' c e = ground arith
  after_read-sliced (rows js) w w' c e =
      after_scan-sliced js (scan prims config (batch_label n) w.ledger js start) w w' c refl e

  -- When `cut_slice` has cut a slice, it has committed one, and its ledger rows, its records and the
  -- entries of its manifest are exactly as many as the configured size; no two of the rows have the
  -- same uid, and the manifest tells all that went to the ledger.
  pub cut_slice-sliced :
      (content : Bytes) (w w' : World) (c : Counts)
      → cut_slice prims loads config path n now content w ≡ (w', sliced c)
      → (p : Plan) × (w'
          ≡ commit p (record w { cursor = (read_new loads path none content w.cursor).cursor }))
        × (p.batch_no ≡ n)
        × (c.accepted ≡ config.slice_size)
        × IsExact config p
  unfolding cut_slice IsCut
  cut_slice-sliced content w w' c e =
      let r = read_new loads path none content w.cursor in
      after_read-sliced r.outcome (record w { cursor = r.cursor }) w' c e
