-- ===== src/Batcher/Slicer.antt =====
-- src/icepick/batcher/slicer.py: the scan of `cut_slice`, which sorts journal rows into accepted
-- entries and skips. Its commit and the recovery from a crash are in the modules below.

pub mod Pending
pub mod Exact
pub mod Novel
pub mod Allow
use icepick.Prelude.{
  ℕ, suc, ◌+◌, String, Bool, true, false, ◌||◌, Option, none, some, List, [], ◌∷◌, ◌++◌, ℤ, pos,
  length, leb, ◌==◌, str_eq, if◌then◌else◌,
}
use icepick.Prelude.Dict.{Dict, lookup, insert}
use icepick.Batcher.Identity.{Candidate, Row, Primitives, compute_uid, stmt_key, content_hash}
use icepick.Batcher.Journal.{JournalRow}
use icepick.Batcher.Ledger
use icepick.Batcher.Ledger.{Ledger, LedgerRow, Kind, Verdict, check}
use icepick.Batcher.Disk.{Note, NoteKind, batch_label}

-- 'skip', 'abort', or any other text, which the code takes for 'allow'.
pub data Policy : Type 0 where
  skip abort allow : Policy

pub record SliceConfig : Type 0 where
  pub campaign_source : String
  pub slice_size : ℕ
  pub cross_source_statement_policy : Policy

-- An entry of `pending`, (record, uid, sk, ch, journal_row).
pub record Entry : Type 0 where
  pub record_of : Candidate
  pub uid : String
  pub stmt_key : String
  pub content_hash : String
  pub journal_row : JournalRow

-- What a row ran into: an entry of this slice or a row of the ledger.
pub record Prior : Type 0 where
  pub uid : String
  pub batch : String
  pub journal_line : ℤ
  pub content_hash : String

-- The local variables of the loop.
pub record Scan : Type 0 where
  pub pending : List Entry
  pub pending_by_uid : Dict Entry
  pub pending_by_stmt : Dict Entry
  pub skips : List Note
  pub warnings : List Note
  pub replay_skips : ℕ
  pub stmt_skips : ℕ
  pub warns : ℕ
  pub through_row : Option JournalRow

abbrev pub start : Scan
start = record {
  pending = [];
  pending_by_uid = [];
  pending_by_stmt = [];
  skips = [];
  warnings = [];
  replay_skips = 0;
  stmt_skips = 0;
  warns = 0;
  through_row = none;
}

-- `detail` and `abort_info` of an aborted slice.
pub data Abort : Type 0 where
  no_candidate no_statement : ℕ → Abort
  uid_conflict stmt_conflict : Entry → Option Prior → Abort
  batch_dir_conflict : ℕ → Abort

pub data Scanned : Type 0 where
  go_on : Scan → Scanned
  give_up : Abort → Scanned

-- `_intra_check`
unfoldable pub intra_check : String → String → String → Dict Entry → Dict Entry → Option Kind
intra_check uid sk ch by_uid by_stmt = elim (lookup uid by_uid) [
  | some e ↦ some (if str_eq e.content_hash ch then Kind.replay else Kind.uid_conflict)
  | none ↦ elim (lookup sk by_stmt) [ some e ↦ some Kind.stmt_conflict | none ↦ none ]
]

abbrev pub prior_of_entry : String → Option Entry → Option Prior
prior_of_entry batch none = none
prior_of_entry batch (some e) = some (record {
  uid = e.uid;
  batch = batch;
  journal_line = pos e.journal_row.line_no;
  content_hash = e.content_hash;
})

abbrev pub prior_of_row : Option LedgerRow → Option Prior
prior_of_row none = none
prior_of_row (some r) = some (record {
  uid = r.uid;
  batch = r.batch;
  journal_line = r.journal_line;
  content_hash = r.content_hash;
})

abbrev pub is_stmt_conflict : Kind → Bool
is_stmt_conflict Kind.stmt_conflict = true
is_stmt_conflict _ = false

-- The verdict on an identity triple, by the slice first and by the ledger second.
unfoldable pub verdict : String → Ledger → Scan → String → String → String → Kind × Option Prior
verdict label ledger s uid sk ch = elim (intra_check uid sk ch s.pending_by_uid s.pending_by_stmt) [
  | some kind ↦ (
    kind,
    prior_of_entry label (
        if is_stmt_conflict kind then lookup sk s.pending_by_stmt else lookup uid s.pending_by_uid),
  )
  | none ↦ let v = check ledger uid sk ch in (v.kind, prior_of_row v.prior)
]

abbrev batch_of : Option Prior → Option String
batch_of none = none
batch_of (some p) = some p.batch

abbrev line_of : Option Prior → Option ℤ
line_of none = none
line_of (some p) = some p.journal_line

abbrev uid_of : Option Prior → Option String
uid_of none = none
uid_of (some p) = some p.uid

-- `pending.append(entry)` with the two indices and the mark of the row that fills the slice.
unfoldable pub accept : ℕ → Entry → Scan → Scan
accept slice_size e s =
    let pending = s.pending ++ e ∷ [] in
    record s {
      pending = pending;
      pending_by_uid = insert e.uid e s.pending_by_uid;
      pending_by_stmt = insert e.stmt_key e s.pending_by_stmt;
      through_row = if length pending == slice_size then some e.journal_row else s.through_row;
    }

-- An entry of `collected_skips`; only a skip for its statement names the statement's key.
abbrev pub skip_note : NoteKind → Option String → Entry → Option Prior → Note
skip_note kind sk e prior = record {
  kind = kind;
  uid = e.uid;
  stmt_key = sk;
  journal_line = e.journal_row.line_no;
  prior_batch = batch_of prior;
  prior_journal_line = line_of prior;
  prior_uid = none;
}

-- An entry of `collected_warns`.
abbrev pub warn_note : NoteKind → Option String → Entry → Option String → Note
warn_note kind sk e prior_uid = record {
  kind = kind;
  uid = e.uid;
  stmt_key = sk;
  journal_line = e.journal_row.line_no;
  prior_batch = none;
  prior_journal_line = none;
  prior_uid = prior_uid;
}

-- A statement conflict, by the policy.
unfoldable pub on_stmt_conflict : Policy → ℕ → Entry → Scan → Option Prior → Scanned
on_stmt_conflict skip slice_size e s prior = go_on (record s {
  stmt_skips = s.stmt_skips + 1;
  skips = s.skips ++ skip_note NoteKind.stmt_skip (some e.stmt_key) e prior ∷ [];
})
on_stmt_conflict abort slice_size e s prior = give_up (stmt_conflict e prior)
on_stmt_conflict allow slice_size e s prior =
    let s' = accept slice_size e s in
    go_on (record s' {
      warns = s.warns + 1;
      warnings = s.warnings ++ warn_note NoteKind.stmt_allow (some e.stmt_key) e none ∷ [];
    })

-- "Handle verdict"
unfoldable pub handle : SliceConfig → Entry → Scan → Kind × Option Prior → Scanned
handle config e s (Kind.new, prior) = go_on (accept config.slice_size e s)
handle config e s (Kind.replay, prior) = go_on (record s {
  replay_skips = s.replay_skips + 1;
  skips = s.skips ++ skip_note NoteKind.replay none e prior ∷ [];
})
handle config e s (Kind.uid_conflict, prior) = give_up (uid_conflict e prior)
handle config e s (Kind.stmt_conflict, prior) =
    on_stmt_conflict config.cross_source_statement_policy config.slice_size e s prior
handle config e s (Kind.warn, prior) =
    let s' = accept config.slice_size e s in
    go_on (record s' {
      warns = s.warns + 1;
      warnings = s.warnings ++ warn_note NoteKind.warn (some e.stmt_key) e (uid_of prior) ∷ [];
    })

module _ (prims : Primitives) (config : SliceConfig) (label : String) (ledger : Ledger) where
  -- The record and the identity triple of a valid row.
  unfoldable pub entry_of : JournalRow → Candidate → String → Entry
  entry_of j candidate statement =
      let uid = compute_uid prims config.campaign_source statement in
      record {
        record_of = record candidate { source = some config.campaign_source; uid = some uid };
        uid = uid;
        stmt_key = stmt_key prims statement;
        content_hash = content_hash prims j.row;
        journal_row = j;
      }

  -- The body of the loop, on a candidate that is an object with a statement.
  judge : JournalRow → Candidate → String → Scan → Scanned
  judge j candidate statement s =
      let e = entry_of j candidate statement in
      handle config e s (verdict label ledger s e.uid e.stmt_key e.content_hash)

  -- The validation of `statement`.
  check_statement : JournalRow → Candidate → Option String → Scan → Scanned
  check_statement j candidate none s = give_up (no_statement j.line_no)
  check_statement j candidate (some statement) s =
      if str_eq statement ""
      then give_up (no_statement j.line_no)
      else judge j candidate statement s

  -- The validation of `candidate`.
  check_candidate : JournalRow → Option Candidate → Scan → Scanned
  check_candidate j none s = give_up (no_candidate j.line_no)
  check_candidate j (some candidate) s = check_statement j candidate candidate.statement s

  unfoldable pub scan_row : JournalRow → Scan → Scanned
  unfolding check_candidate check_statement judge
  scan_row j s = check_candidate j j.row.candidate s

  -- The loop over the rows of the journal; it stops when the slice is full.
  unfoldable pub scan : List JournalRow → Scan → Scanned
  scan [] s = go_on s
  scan (j ∷ rows) s =
      if leb config.slice_size (length s.pending)
      then go_on s
      else elim (scan_row j s) [ go_on s' ↦ scan rows s' | give_up a ↦ give_up a ]
