-- ===== src/Batcher/Ledger/Reload.antt =====
-- What a restart reads back: src/icepick/batcher/ledger.py, `load` after `append_all`.
use mathlib.Core.List.{foldl-append, append-nil}
use icepick.Prelude.{
  ◌≡◌, refl, sym, ap, ◌∙◌, not, none, List, [], ◌∷◌, ◌++◌, map, foldl, keep, All, All-append, arith,
}
use icepick.Batcher.JsonLines.{JsonLines, Line, blank, row, malformed, junk, append_rows}
use icepick.Batcher.Ledger.{
  LedgerRow, Ledger, empty, index_row, to_write, append_all, loaded, load_lines, is_blank, load,
}

abbrev pub IsIntact : Line LedgerRow → Type 0
IsIntact (row _) = Unit
IsIntact blank = Unit
IsIntact malformed = ⊥
IsIntact junk = ⊥

-- Every line is a row or blank, and the file ends in a newline.
abbrev pub IsClean : JsonLines LedgerRow → Type 0
IsClean f = All IsIntact f.lines × (f.tail ≡ none)

abbrev pub rows_of : List (Line LedgerRow) → List LedgerRow
rows_of [] = []
rows_of (row r ∷ rest) = r ∷ rows_of rest
rows_of (_ ∷ rest) = rows_of rest

abbrev pub non_blank : List (Line LedgerRow) → List (Line LedgerRow)
unfolding is_blank
non_blank = keep (λ line. not (is_blank line))

-- Intact lines are indexed one after another, and loading goes on with what follows them.
pub load_lines-append :
    (l : Ledger) (xs ys : List (Line LedgerRow))
    → All IsIntact xs
    → load_lines l (non_blank (xs ++ ys))
      ≡ load_lines (foldl index_row l (rows_of xs)) (non_blank ys)
unfolding load_lines is_blank
load_lines-append l [] ys h = refl
load_lines-append l (row r ∷ xs) ys h = load_lines-append (index_row l r) xs ys h.1
load_lines-append l (blank ∷ xs) ys h = load_lines-append l xs ys h.1
load_lines-append l (malformed ∷ xs) ys h = absurd h.0
load_lines-append l (junk ∷ xs) ys h = absurd h.0

pub rows_of-map : (rs : List LedgerRow) → rows_of (map row rs) ≡ rs
rows_of-map [] = refl
rows_of-map (r ∷ rs) = rw (rows_of-map rs)

pub IsIntact-map : (rs : List LedgerRow) → All IsIntact (map row rs)
IsIntact-map [] = tt
IsIntact-map (r ∷ rs) = (tt, IsIntact-map rs)

-- Loading intact lines indexes their rows in order.
pub load-intact :
    (l : Ledger) (xs : List (Line LedgerRow))
    → All IsIntact xs
    → load_lines l (non_blank xs) ≡ loaded (foldl index_row l (rows_of xs))
unfolding load_lines is_blank
load-intact l [] h = refl
load-intact l (row r ∷ xs) h = load-intact (index_row l r) xs h.1
load-intact l (blank ∷ xs) h = load-intact l xs h.1
load-intact l (malformed ∷ xs) h = absurd h.0
load-intact l (junk ∷ xs) h = absurd h.0

pub load-IsClean :
    (f : JsonLines LedgerRow)
    → IsClean f
    → load f ≡ loaded (foldl index_row empty (rows_of f.lines))
unfolding load
load-IsClean f h = rw (h.1, append-nil) (load-intact empty f.lines h.0)

rows_of-append :
    (xs : List (Line LedgerRow)) (rs : List LedgerRow)
    → rows_of (xs ++ map row rs) ≡ rows_of xs ++ rs
rows_of-append [] rs = rows_of-map rs
rows_of-append (row r ∷ xs) rs = rw (rows_of-append xs rs)
rows_of-append (blank ∷ xs) rs = rows_of-append xs rs
rows_of-append (malformed ∷ xs) rs = rows_of-append xs rs
rows_of-append (junk ∷ xs) rs = rows_of-append xs rs

pub append_rows-IsClean :
    (rs : List LedgerRow) (f : JsonLines LedgerRow) → IsClean f → IsClean (append_rows rs f)
append_rows-IsClean [] f h = h
append_rows-IsClean (r ∷ rs) f h =
    rw (h.1) (All-append IsIntact f.lines (row r ∷ map row rs) h.0 (tt, IsIntact-map rs), refl)

pub lines-append_rows :
    (rs : List LedgerRow) (f : JsonLines LedgerRow)
    → IsClean f
    → (append_rows rs f).lines ≡ f.lines ++ map row rs
lines-append_rows [] f h = sym (append-nil f.lines)
lines-append_rows (r ∷ rs) f h = rw (h.1)

-- `append_all` is the indexing and the writing of the same rows.
pub append_all_lem :
    (rows : List LedgerRow) (l : Ledger) (f : JsonLines LedgerRow)
    → append_all rows (l, f)
      ≡ (foldl index_row l (to_write l rows), append_rows (to_write l rows) f)
unfolding append_all
append_all_lem rows l f = ground arith

pub load-append_rows :
    (rs : List LedgerRow) (l : Ledger) (f : JsonLines LedgerRow)
    → IsClean f
    → load f ≡ loaded l
    → load (append_rows rs f) ≡ loaded (foldl index_row l rs)
load-append_rows rs l f h e =
    load-IsClean (append_rows rs f) (append_rows-IsClean rs f h)
    ∙ rw (lines-append_rows rs f h, rows_of-append, foldl-append)
        (ap (λ k. loaded (foldl index_row k rs)) base)
  where
    base : foldl index_row empty (rows_of f.lines) ≡ l
    base = cc (e, load-IsClean f h)

-- When the file is clean and is what the ledger in memory was loaded from, then after `append_all`
-- the file is clean again and a restart loads exactly the ledger that is in memory.
pub load-append_all :
    (rows : List LedgerRow) (l : Ledger) (f : JsonLines LedgerRow)
    → IsClean f
    → load f ≡ loaded l
    → (load (append_all rows (l, f)).1 ≡ loaded (append_all rows (l, f)).0)
      × IsClean (append_all rows (l, f)).1
load-append_all rows l f h e =
    rw (append_all_lem rows l f)
      (load-append_rows (to_write l rows) l f h e, append_rows-IsClean (to_write l rows) f h)
