-- ===== src/Batcher/Ledger/Torn.antt =====
-- Appending behind a torn tail: src/icepick/batcher/ledger.py, `load` and then `append_all`.
use icepick.Prelude.{◌≡◌, ◌≢◌, ◌⊎◌, inl, inr, refl, some, true, List, [], ◌∷◌, map, foldl, All}
use mathlib.Core.List.{append-nil}
use icepick.Batcher.JsonLines.{JsonLines, row, junk, append_rows}
use icepick.Batcher.Ledger.{
  LedgerRow, Ledger, empty, index_row, to_write, append_all, loaded, failed, ledger_corruption,
  load_lines, is_blank, load,
}
use icepick.Batcher.Ledger.Reload.{IsIntact, rows_of, load_lines-append, append_all_lem}

-- The complete lines can be read, and an unterminated text that is not JSON follows them.
abbrev pub IsTorn : JsonLines LedgerRow → Type 0
IsTorn f = All IsIntact f.lines × (f.tail ≡ some junk)

abbrev torn_ledger : JsonLines LedgerRow → Ledger
torn_ledger f = record (foldl index_row empty (rows_of f.lines)) { torn_tail_skipped = true }

load-torn : (f : JsonLines LedgerRow) → IsTorn f → load f ≡ loaded (torn_ledger f)
unfolding load load_lines is_blank
load-torn f h = rw h.1 (load_lines-append empty f.lines (junk ∷ []) h.0)

load-append_torn_one :
    (r : LedgerRow) (f : JsonLines LedgerRow)
    → IsTorn f
    → load (append_rows (r ∷ []) f) ≡ loaded (torn_ledger f)
unfolding load load_lines is_blank
load-append_torn_one r f h = rw (h.1, append-nil) (load_lines-append empty f.lines (junk ∷ []) h.0)

load-append_torn_more :
    (r s : LedgerRow) (rs : List LedgerRow) (f : JsonLines LedgerRow)
    → IsTorn f
    → load (append_rows (r ∷ s ∷ rs) f) ≡ failed ledger_corruption
unfolding load load_lines is_blank
load-append_torn_more r s rs f h =
    rw (h.1, append-nil) (load_lines-append empty f.lines (junk ∷ row s ∷ map row rs) h.0)

load-append_torn :
    (ws : List LedgerRow) (f : JsonLines LedgerRow)
    → IsTorn f
    → ws ≢ []
    → (load (append_rows ws f) ≡ loaded (torn_ledger f))
      ⊎ (load (append_rows ws f) ≡ failed ledger_corruption)
load-append_torn [] f h n = absurd (n refl)
load-append_torn (r ∷ []) f h n = inl (load-append_torn_one r f h)
load-append_torn (r ∷ s ∷ rs) f h n = inr (load-append_torn_more r s rs f h)

-- When the file ends in a torn tail, `load` accepts it, but whatever `append_all` then writes is lost
-- to the next `load`: that one either gives the ledger as it was before the append or refuses the
-- file as corrupt.
pub append_all_torn :
    (rows : List LedgerRow) (l : Ledger) (f : JsonLines LedgerRow)
    → IsTorn f
    → load f ≡ loaded l
    → to_write l rows ≢ []
    → (load (append_all rows (l, f)).1 ≡ loaded l)
      ⊎ (load (append_all rows (l, f)).1 ≡ failed ledger_corruption)
append_all_torn rows l f h e n =
    let before : loaded (torn_ledger f) ≡ loaded l = cc (e, load-torn f h) in
    rw (append_all_lem rows l f, ← before) (load-append_torn (to_write l rows) f h n)
