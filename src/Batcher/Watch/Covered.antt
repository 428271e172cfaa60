-- ===== src/Batcher/Watch/Covered.antt =====
-- The statements that are blocked after a watch journal has been ingested: `_ingest_watch_journals` of
-- src/icepick/batcher/daemon.py.
use icepick.Prelude.{
  ◌≡◌, refl, String, true, ◌||◌, Option, none, some, List, All, All_imp, str_eq, Bool-cases, inl,
  inr,
}
use icepick.Batcher.Identity.{Primitives, Candidate, compute_uid, stmt_key}
use icepick.Batcher.Journal.{JournalRow}
use icepick.Batcher.Ledger.{Ledger}
use icepick.Batcher.Watch.{Ingested, watch_row, statement_in, statement_of, ingest_rows}
use icepick.Batcher.Watch.Blocks.{is_blocked, IsSane, Covers, IsHeld, ingest_rows-IsHeld}

module _ (prims : Primitives) (label path now source : String) where
  -- The statement of a candidate, if it is a text and not empty, is blocked by the uid that it has for
  -- the source of the journal or by its statement key.
  abbrev pub IsStatementBlocked : Ledger → Option String → Type 0
  IsStatementBlocked l none = Unit
  IsStatementBlocked l (some s) =
      (str_eq s "" || is_blocked l (compute_uid prims source s) (stmt_key prims s)) ≡ true

  abbrev pub IsCandidateBlocked : Ledger → Option Candidate → Type 0
  IsCandidateBlocked l none = Unit
  IsCandidateBlocked l (some c) = IsStatementBlocked l c.statement

  abbrev pub IsCovered : Ledger → JournalRow → Type 0
  IsCovered l j = IsCandidateBlocked l j.row.candidate

  Covers-statement :
      (l : Ledger) (j : JournalRow) (o : Option String)
      → Covers prims label path now source l j (statement_in o)
      → IsStatementBlocked l o
  Covers-statement l j none h = tt
  Covers-statement l j (some s) h = elim (Bool-cases (str_eq s "")) [
    | inl empty ↦ rw empty refl
    | inr full ↦
        let held : Covers prims label path now source l j (some s) = rw full at h in
        rw full (unfold watch_row in held)
  ]

  Covers-candidate :
      (l : Ledger) (j : JournalRow) (o : Option Candidate)
      → Covers prims label path now source l j (statement_of o)
      → IsCandidateBlocked l o
  Covers-candidate l j none h = tt
  Covers-candidate l j (some c) h = Covers-statement l j c.statement h

  -- Watch rows block: when whatever the ledger has seen under the name of a watch journal blocks by
  -- its uid, then after the rows of that journal have been ingested, the ledger has a blocking row with
  -- the uid or the statement key of each of them that has a statement, the uid for the source that the
  -- journal's run names.
  pub ingest_rows-IsCovered :
      (js : List JournalRow) (s : Ingested)
      → IsSane prims label path now source s.world.ledger
      → All (IsCovered (ingest_rows prims label path now source js s).world.ledger) js
  ingest_rows-IsCovered js s sane =
      let l = (ingest_rows prims label path now source js s).world.ledger in
      All_imp (IsHeld prims label path now source l) (IsCovered l) js
        (λ j h. Covers-candidate l j j.row.candidate h)
        (ingest_rows-IsHeld prims label path now source js s sane)
