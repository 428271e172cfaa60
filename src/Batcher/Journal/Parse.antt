-- ===== src/Batcher/Journal/Parse.antt =====
-- What reading complete lines returns and where it leaves the cursor: `read_new` of
-- src/icepick/batcher/journal.py.
use mathlib.Core.List.{append_assoc, append-nil}
use icepick.Prelude.{
  ℕ, ◌+◌, ◌≡◌, inl, inr, refl, sym, ap, ◌∙◌, String, Option, none, some, List, [], ◌∷◌, ◌++◌, All,
  arith, length, length-append, if◌then◌else◌, Bool-cases, Option-cases, str_eq_refl,
}
use icepick.Batcher.Identity.{Row}
use icepick.Batcher.Journal.{
  Bytes, JournalRow, CursorStore, Read, Outcome, rows, journal_corruption, prepend, get, advance,
  lines_of, is_blank, read_lines,
}
use icepick.Batcher.Journal.Lines.{
  cut, joined, IsComplete, IsTail, cut-IsTail, cut-IsComplete, lines_of-append, ends-tail,
  lines_of-tail,
}

prepend-append :
    (xs ys : List JournalRow) (o : Outcome) → prepend (xs ++ ys) o ≡ prepend xs (prepend ys o)
prepend-append xs ys (rows zs) = ap rows (append_assoc xs ys zs)
prepend-append xs ys (journal_corruption n) = refl

prepend-eq-rows :
    (j : JournalRow) (o : Outcome) (js : List JournalRow)
    → prepend (j ∷ []) o ≡ rows js
    → (ks : List JournalRow) × (o ≡ rows ks) × (js ≡ j ∷ ks)
prepend-eq-rows j (rows ks) js h = (ks, refl, cc)
prepend-eq-rows j (journal_corruption n) js h = cc

prepend-eq-corruption :
    (j : JournalRow) (o : Outcome) (m : ℕ)
    → prepend (j ∷ []) o ≡ journal_corruption m
    → o ≡ journal_corruption m
prepend-eq-corruption j (rows ks) m h = cc
prepend-eq-corruption j (journal_corruption n) m h = h

rows-prepend : (js : List JournalRow) → rows js ≡ prepend js (rows [])
rows-prepend js = ap rows (sym (append-nil js))

prepend-nil : (o : Outcome) → prepend [] o ≡ o
prepend-nil (rows zs) = refl
prepend-nil (journal_corruption n) = refl

-- The number of the last of the lines `ks`, and the byte behind them.
pub end_line : ℕ → List Bytes → ℕ
end_line n [] = n
end_line n (k ∷ ks) = end_line (n + 1) ks

pub end_byte : ℕ → List Bytes → ℕ
end_byte p [] = p
end_byte p (k ∷ ks) = end_byte (p + length k) ks

pub end_byte-eq : (p : ℕ) (ks : List Bytes) → end_byte p ks ≡ p + length (joined ks)
unfolding end_byte
end_byte-eq p [] = omega arith
end_byte-eq p (k ∷ ks) =
    omega (arith, end_byte-eq (p + length k) ks, length-append {0} k (joined ks))

module _ (path : String) where
  -- The cursor when it has been advanced past each line in turn.
  pub after : ℕ → ℕ → List Bytes → CursorStore → CursorStore
  after n p [] c = c
  after n p (k ∷ ks) c = after (n + 1) (p + length k) ks (advance c path (n + 1) (p + length k))

  abbrev pub IsAt : CursorStore → ℕ → ℕ → Type 0
  IsAt c n p = get c path ≡ record { line_count = n; byte_offset = p }

  pub get-after :
      (n p : ℕ) (ks : List Bytes) (c : CursorStore)
      → IsAt c n p
      → IsAt (after n p ks c) (end_line n ks) (end_byte p ks)
  unfolding after end_line end_byte
  get-after n p [] c h = h
  get-after n p (k ∷ ks) c h =
      get-after (n + 1) (p + length k) ks (advance c path (n + 1) (p + length k))
        (unfold get advance in rw (str_eq_refl path))

module _ (loads : Bytes → Option Row) where
  -- The rows of complete lines, or the first line that is not JSON.
  pub parse : ℕ → ℕ → List Bytes → Outcome
  parse n p [] = rows []
  parse n p (k ∷ ks) =
      let later = parse (n + 1) (p + length k) ks in
      if is_blank k then later else elim (loads k) [
        | none ↦ journal_corruption (n + 1)
        | some parsed ↦
            prepend
              (record {
                line_no = n + 1;
                byte_start = p;
                byte_end = p + length k;
                raw = k;
                row = parsed;
              }
                ∷ [])
              later
      ]

  module _ (path : String) where
    abbrev pub read : ℕ → ℕ → ℕ → List Bytes → CursorStore → Read
    read = read_lines loads path none

    -- With no limit the count of the rows collected does not matter.
    read-found :
        (f g n p : ℕ) (ls : List Bytes) (c : CursorStore) → read f n p ls c ≡ read g n p ls c
    unfolding read_lines
    read-found f g n p [] c = refl
    read-found f g n p (k ∷ ls) c =
        let c' = advance c path (n + 1) (p + length k) in
        ground (
          arith,
          read-found f g (n + 1) (p + length k) ls c',
          read-found (f + 1) (g + 1) (n + 1) (p + length k) ls c',
        )

    abbrev pub then_read : List JournalRow → Read → Read
    then_read js r = record { cursor = r.cursor; outcome = prepend js r.outcome }

    pub read_complete :
        (ks ls : List Bytes) (n p : ℕ) (c : CursorStore) (js : List JournalRow)
        → All IsComplete ks
        → parse n p ks ≡ rows js
        → read 0 n p (ks ++ ls) c
          ≡ then_read js (read 0 (end_line n ks) (end_byte p ks) ls (after path n p ks c))
    unfolding read_lines parse end_line end_byte after
    read_complete [] ls n p c js h e = let nothing : js ≡ [] = cc in rw (nothing, prepend-nil)
    read_complete (k ∷ ks) ls n p c js h e =
        let p' = p + length k in
        let c' = advance c path (n + 1) p' in
        elim (Bool-cases (is_blank k)) [
          | inl empty ↦ rw (h.0, empty) (read_complete ks ls (n + 1) p' c' js h.1 (rw empty at e))
          | inr full ↦ elim (Option-cases (loads k)) [
            | inl bad ↦ ground arith
            | inr (parsed, good) ↦
                let j : JournalRow = record {
                  line_no = n + 1;
                  byte_start = p;
                  byte_end = p';
                  raw = k;
                  row = parsed;
                } in
                let (js', tail, same) = prepend-eq-rows j (parse (n + 1) p' ks) js (ground arith) in
                rw (h.0, full, good, same)
                  (ground (
                    arith,
                    read-found 1 0 (n + 1) p' (ks ++ ls) c',
                    read_complete ks ls (n + 1) p' c' js' h.1 tail,
                    prepend-append (j ∷ []) js'
                        (read 0 (end_line (n + 1) ks) (end_byte p' ks) ls
                          (after path (n + 1) p' ks c')).outcome,
                  ))
          ]
        ]

    read-corrupt :
        (ks ls : List Bytes) (n p : ℕ) (c : CursorStore) (m : ℕ)
        → All IsComplete ks
        → parse n p ks ≡ journal_corruption m
        → (read 0 n p (ks ++ ls) c).outcome ≡ journal_corruption m
    unfolding read_lines parse
    read-corrupt [] ls n p c m h e = cc
    read-corrupt (k ∷ ks) ls n p c m h e =
        let p' = p + length k in
        let c' = advance c path (n + 1) p' in
        elim (Bool-cases (is_blank k)) [
          | inl empty ↦ rw (h.0, empty) (read-corrupt ks ls (n + 1) p' c' m h.1 (rw empty at e))
          | inr full ↦ elim (Option-cases (loads k)) [
            | inl bad ↦ ground arith
            | inr (parsed, good) ↦
                let j : JournalRow = record {
                  line_no = n + 1;
                  byte_start = p;
                  byte_end = p';
                  raw = k;
                  row = parsed;
                } in
                let tail = prepend-eq-corruption j (parse (n + 1) p' ks) m (ground arith) in
                rw (h.0, full, good)
                  (ground (
                    arith,
                    read-found 1 0 (n + 1) p' (ks ++ ls) c',
                    read-corrupt ks ls (n + 1) p' c' m h.1 tail,
                  ))
          ]
        ]

    -- Nothing of a torn tail is read.
    read-tail :
        (t : Bytes) (n p : ℕ) (c : CursorStore)
        → IsTail t
        → read 0 n p (lines_of t) c ≡ record { cursor = c; outcome = rows [] }
    unfolding read_lines lines_of
    read-tail [] n p c h = refl
    read-tail (x ∷ t) n p c h = rw (lines_of-tail x t h) (rw (ends-tail (x ∷ t) h))

    -- What is read of `a`, and where it leaves the cursor.
    pub read-rows :
        (a : Bytes) (n p : ℕ) (c : CursorStore) (js : List JournalRow)
        → (read 0 n p (lines_of a) c).outcome ≡ rows js
        → (parse n p (cut a).0 ≡ rows js)
          × ((read 0 n p (lines_of a) c).cursor ≡ after path n p (cut a).0 c)
    read-rows a n p c js h = go (parse n p (cut a).0) refl
      where
        ks : List Bytes
        ks = (cut a).0

        split : lines_of a ≡ ks ++ lines_of (cut a).1
        split = rw (← append-nil (cut a).1, ← lines_of-append, append-nil)

        go :
            (o : Outcome)
            → parse n p ks ≡ o
            → (parse n p ks ≡ rows js) × ((read 0 n p (lines_of a) c).cursor ≡ after path n p ks c)
        go (journal_corruption m) e =
            cc (h, split, read-corrupt ks (lines_of (cut a).1) n p c m (cut-IsComplete a) e)
        go (rows js') e =
            let whole : read 0 n p (lines_of a) c
                ≡ then_read js' (record { cursor = after path n p ks c; outcome = rows [] }) =
              rw split (
                read_complete ks (lines_of (cut a).1) n p c js' (cut-IsComplete a) e
                ∙ ap (then_read js') (
                    read-tail (cut a).1 (end_line n ks) (end_byte p ks) (after path n p ks c)
                      (cut-IsTail a))) in
            let same : rows js ≡ prepend js' (rows []) =
              sym h ∙ ap (λ (r : Read). r.outcome) whole in
            (e ∙ rows-prepend js' ∙ sym same, ap (λ (r : Read). r.cursor) whole)
