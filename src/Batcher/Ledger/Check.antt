-- ===== src/Batcher/Ledger/Check.antt =====
-- `Ledger.check` against the plain history of rows: src/icepick/batcher/ledger.py.
use icepick.Prelude.{
  ◌≡◌, String, Bool, not, ◌&&◌, Option, none, some, List, [], ◌∷◌, foldl, arith, str_eq, eq_iff,
  if◌then◌else◌,
}
use icepick.Prelude.Dict.{lookup, or_else}
use icepick.Batcher.Ledger.{
  LedgerRow, Ledger, empty, new, replay, uid_conflict, stmt_conflict, warn, Verdict, index_row,
  check,
}

-- The first row of a history that passes a test.
abbrev pub first : (LedgerRow → Bool) → List LedgerRow → Option LedgerRow
first p [] = none
first p (r ∷ rs) = if p r then some r else first p rs

abbrev pub blocks_uid : String → LedgerRow → Bool
blocks_uid uid r = not r.warn_only && str_eq r.uid uid

abbrev pub blocks_stmt : String → LedgerRow → Bool
blocks_stmt sk r = not r.warn_only && str_eq r.stmt_key sk

abbrev pub warns_uid : String → LedgerRow → Bool
warns_uid uid r = r.warn_only && str_eq r.uid uid

abbrev pub warns_stmt : String → LedgerRow → Bool
warns_stmt sk r = r.warn_only && str_eq r.stmt_key sk

-- What a new record is, judged by the history alone: the four rules in their order of precedence,
-- each decided by the earliest row that it applies to.
abbrev pub judge : Option LedgerRow → Option LedgerRow → Option LedgerRow → String → Verdict
judge (some r) _ _ ch = record {
  kind = if str_eq r.content_hash ch then replay else uid_conflict;
  prior = some r;
}
judge none (some r) _ ch = record { kind = stmt_conflict; prior = some r }
judge none none (some r) ch = record { kind = warn; prior = some r }
judge none none none ch = record { kind = new; prior = none }

abbrev pub verdict_of : List LedgerRow → String → String → String → Verdict
verdict_of rows uid sk ch =
    judge (first (blocks_uid uid) rows) (first (blocks_stmt sk) rows)
      (or_else (first (warns_uid uid) rows) (first (warns_stmt sk) rows)) ch

module _ (k : String) where
  lookup-by_uid :
      (l : Ledger) (rows : List LedgerRow)
      → lookup k (foldl index_row l rows).by_uid
        ≡ or_else (lookup k l.by_uid) (first (blocks_uid k) rows)
  unfolding index_row
  lookup-by_uid l [] = ground arith
  lookup-by_uid l (r ∷ rows) = ground (arith, lookup-by_uid (index_row l r) rows, eq_iff r.uid k)

  lookup-by_stmt :
      (l : Ledger) (rows : List LedgerRow)
      → lookup k (foldl index_row l rows).by_stmt
        ≡ or_else (lookup k l.by_stmt) (first (blocks_stmt k) rows)
  unfolding index_row
  lookup-by_stmt l [] = ground arith
  lookup-by_stmt l (r ∷ rows) =
      ground (arith, lookup-by_stmt (index_row l r) rows, eq_iff r.stmt_key k)

  lookup-warn_uids :
      (l : Ledger) (rows : List LedgerRow)
      → lookup k (foldl index_row l rows).warn_uids
        ≡ or_else (lookup k l.warn_uids) (first (warns_uid k) rows)
  unfolding index_row
  lookup-warn_uids l [] = ground arith
  lookup-warn_uids l (r ∷ rows) =
      ground (arith, lookup-warn_uids (index_row l r) rows, eq_iff r.uid k)

  lookup-warn_stmts :
      (l : Ledger) (rows : List LedgerRow)
      → lookup k (foldl index_row l rows).warn_stmts
        ≡ or_else (lookup k l.warn_stmts) (first (warns_stmt k) rows)
  unfolding index_row
  lookup-warn_stmts l [] = ground arith
  lookup-warn_stmts l (r ∷ rows) =
      ground (arith, lookup-warn_stmts (index_row l r) rows, eq_iff r.stmt_key k)

-- A ledger that has indexed a history of rows gives the verdict that the history calls for: a
-- blocking row with the uid decides between replay and uid conflict by its hash, else one with the
-- statement key is a conflict, else a warn-only row with either is a warning, else the record is new;
-- the prior row reported is the earliest that decides.
pub check-eq-verdict_of :
    (rows : List LedgerRow) (uid sk ch : String)
    → check (foldl index_row empty rows) uid sk ch ≡ verdict_of rows uid sk ch
unfolding check
check-eq-verdict_of rows uid sk ch = ground (
  arith,
  lookup-by_uid uid empty rows,
  lookup-by_stmt sk empty rows,
  lookup-warn_uids uid empty rows,
  lookup-warn_stmts sk empty rows,
)
