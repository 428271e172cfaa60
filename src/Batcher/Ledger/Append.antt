-- ===== src/Batcher/Ledger/Append.antt =====
-- Appending again after a crash: src/icepick/batcher/ledger.py, `append_all`.
use mathlib.Core.Path.{subst}
use mathlib.Core.List.{append_assoc, append-nil, map-append, foldl-append}
use icepick.Prelude.{
  ℕ, zero, suc, ◌≡◌, refl, sym, ◌∙◌, String, Bool, true, false, not, ◌&&◌, ◌||◌, List, [], ◌∷◌,
  ◌++◌, foldl, keep, keep-none, All, take, drop, take-append-drop, arith, str_eq, eq_iff,
  Bool-cases, str_eq_refl, inl, inr, if◌then◌else◌,
}
use icepick.Prelude.Dict.{pair_in}
use icepick.Batcher.JsonLines.{JsonLines, append_rows}
use icepick.Batcher.Ledger.{LedgerRow, Ledger, index_row, to_write, append_all}
use icepick.Batcher.Ledger.Reload.{append_all_lem}

-- Some row has this uid and this batch.
abbrev pub has_pair : String → String → List LedgerRow → Bool
has_pair u b [] = false
has_pair u b (r ∷ rs) = (str_eq r.uid u && str_eq r.batch b) || has_pair u b rs

pub pair_in-index_row :
    (u b : String) (l : Ledger) (r : LedgerRow)
    → pair_in u b (index_row l r).uid_batch
      ≡ ((str_eq r.uid u && str_eq r.batch b) || pair_in u b l.uid_batch)
unfolding index_row
pair_in-index_row u b l r = ground arith

-- A pair is in the set after indexing exactly if it was there or is that of an indexed row.
pub pair_in-foldl :
    (u b : String) (l : Ledger) (rs : List LedgerRow)
    → pair_in u b (foldl index_row l rs).uid_batch ≡ (has_pair u b rs || pair_in u b l.uid_batch)
pair_in-foldl u b l [] = refl
pair_in-foldl u b l (r ∷ rs) =
    ground (arith, pair_in-foldl u b (index_row l r) rs, pair_in-index_row u b l r)

-- The test by which `append_all` chooses a row, after the rows `done` have been indexed.
abbrev is_left : Ledger → List LedgerRow → LedgerRow → Bool
is_left l done r = not (has_pair r.uid r.batch done || pair_in r.uid r.batch l.uid_batch)

to_write-foldl :
    (l : Ledger) (done rows : List LedgerRow)
    → to_write (foldl index_row l done) rows ≡ keep (is_left l done) rows
unfolding to_write
to_write-foldl l done [] = refl
to_write-foldl l done (r ∷ rows) =
    ground (arith, to_write-foldl l done rows, pair_in-foldl r.uid r.batch l done)

-- A row that was chosen is not chosen again when the pairs of all chosen rows are there.
not_left :
    (l : Ledger) (ws rows : List LedgerRow)
    → ((u b : String) → has_pair u b (to_write l rows) ≡ true → has_pair u b ws ≡ true)
    → All (λ r. is_left l ws r ≡ false) rows
unfolding to_write
not_left l ws [] h = tt
not_left l ws (r ∷ rows) h = elim (Bool-cases (pair_in r.uid r.batch l.uid_batch)) [
  | inl old ↦ (ground arith, not_left l ws rows (λ u b e. h u b (rw old e)))
  | inr fresh ↦ (
    ground (arith, str_eq_refl r.uid, str_eq_refl r.batch, h r.uid r.batch),
    not_left l ws rows (λ u b e. h u b (ground arith)),
  )
]

-- After rows have been appended, none of them is left to write.
pub to_write-append_all :
    (rows : List LedgerRow) (l : Ledger) (f : JsonLines LedgerRow)
    → to_write (append_all rows (l, f)).0 rows ≡ []
to_write-append_all rows l f =
    let ws = to_write l rows in
    rw (append_all_lem rows l f)
      (to_write-foldl l ws rows ∙ keep-none (is_left l ws) rows (not_left l ws rows (λ u b e. e)))

-- Calling `append_all` twice with the same rows is calling it once: nothing is written or indexed
-- the second time.
append_all_idem :
    (rows : List LedgerRow) (l : Ledger) (f : JsonLines LedgerRow)
    → append_all rows (append_all rows (l, f)) ≡ append_all rows (l, f)
append_all_idem rows l f =
    let ws = to_write l rows in
    let none_left : to_write (foldl index_row l ws) rows ≡ [] =
      rw (append_all_lem rows l f) at (to_write-append_all rows l f) in
    rw (append_all_lem rows l f, append_all_lem rows (foldl index_row l ws) (append_rows ws f))
      (rw none_left)

-- Writing rows in two parts is writing them at once.
append_rows-append :
    (xs ys : List LedgerRow) (f : JsonLines LedgerRow)
    → append_rows ys (append_rows xs f) ≡ append_rows (xs ++ ys) f
append_rows-append [] ys f = refl
append_rows-append (x ∷ xs) [] f = rw append-nil
append_rows-append (x ∷ xs) (y ∷ ys) f = simp (append_assoc, map-append)

-- No two of the rows have the same uid and batch.
abbrev pub IsDistinct : List LedgerRow → Type 0
IsDistinct [] = Unit
IsDistinct (r ∷ rs) = (has_pair r.uid r.batch rs ≡ false) × IsDistinct rs

has_pair-keep :
    (p : LedgerRow → Bool) (u b : String) (rows : List LedgerRow)
    → has_pair u b rows ≡ false
    → has_pair u b (keep p rows) ≡ false
has_pair-keep p u b [] h = refl
has_pair-keep p u b (r ∷ rows) h = ground (arith, has_pair-keep p u b rows)

-- A row that shares its pair with none of the others does not change which of them are left.
keep-skip_head :
    (l : Ledger) (r : LedgerRow) (done rows : List LedgerRow)
    → has_pair r.uid r.batch rows ≡ false
    → keep (is_left l (r ∷ done)) rows ≡ keep (is_left l done) rows
keep-skip_head l r done [] h = refl
keep-skip_head l r done (s ∷ rows) h = ground (
  arith,
  keep-skip_head l r done rows,
  eq_iff s.uid r.uid,
  eq_iff r.uid s.uid,
  eq_iff s.batch r.batch,
  eq_iff r.batch s.batch,
)

-- What `append_all` chooses of a list, by its first row.
pub to_write-cons :
    (l : Ledger) (r : LedgerRow) (rows : List LedgerRow)
    → to_write l (r ∷ rows)
      ≡ (if pair_in r.uid r.batch l.uid_batch then to_write l rows else r ∷ to_write l rows)
unfolding to_write
to_write-cons l r rows = ground arith

is_left_self : (l : Ledger) (r : LedgerRow) (done : List LedgerRow) → is_left l (r ∷ done) r ≡ false
is_left_self l r done = rw (str_eq_refl r.uid, str_eq_refl r.batch)

-- After the first `n` of the chosen rows, exactly the others are left.
left_after :
    (l : Ledger) (n : ℕ) (rows : List LedgerRow)
    → IsDistinct rows
    → keep (is_left l (take n (to_write l rows))) rows ≡ drop n (to_write l rows)
left_after l zero rows d = unfold to_write in refl
left_after l (suc n) [] d = unfold to_write in refl
left_after l (suc n) (r ∷ rows) d = elim (Bool-cases (pair_in r.uid r.batch l.uid_batch)) [
  | inl old ↦
      let e : to_write l (r ∷ rows) ≡ to_write l rows = rw (to_write-cons l r rows, old) in
      subst (λ ws. keep (is_left l (take (suc n) ws)) (r ∷ rows) ≡ drop (suc n) ws) (sym e)
        (ground (arith, old, left_after l (suc n) rows d.1))
  | inr fresh ↦
      let e : to_write l (r ∷ rows) ≡ r ∷ to_write l rows = rw (to_write-cons l r rows, fresh) in
      subst (λ ws. keep (is_left l (take (suc n) ws)) (r ∷ rows) ≡ drop (suc n) ws) (sym e)
        (rw (is_left_self l r (take n (to_write l rows)))
          (keep-skip_head l r (take n (to_write l rows)) rows d.0 ∙ left_after l n rows d.1))
]

-- A crash may cut `append_all` off after any number `n` of the rows that it was writing. When no two
-- of the rows have the same uid and batch, appending all of them again gives exactly the ledger and
-- the file that the call would have given without the crash: no row is lost, doubled or moved.
pub append_all-resume :
    (n : ℕ) (rows : List LedgerRow) (l : Ledger) (f : JsonLines LedgerRow)
    → IsDistinct rows
    → append_all rows
        (foldl index_row l (take n (to_write l rows)), append_rows (take n (to_write l rows)) f)
      ≡ append_all rows (l, f)
append_all-resume n rows l f d =
    let ws = to_write l rows in
    let left : to_write (foldl index_row l (take n ws)) rows ≡ drop n ws =
      to_write-foldl l (take n ws) rows ∙ left_after l n rows d in
    rw (
      append_all_lem rows l f,
      append_all_lem rows (foldl index_row l (take n ws)) (append_rows (take n ws) f),
      left,
      append_rows-append,
      ← foldl-append,
      take-append-drop,
    )
