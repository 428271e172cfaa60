-- ===== src/Batcher/Watch.antt =====
-- `_ingest_watch_journals` of src/icepick/batcher/daemon.py: the rows of other journals go to the
-- ledger, where they block the slices to come.
pub mod Blocks
pub mod Covered
pub mod Batches
use icepick.Prelude.{
  ℕ, ◌+◌, String, Bool, true, false, Option, none, some, List, [], ◌∷◌, pos, str_eq, if◌then◌else◌,
}
use icepick.Prelude.Dict.{Dict, lookup, insert, or_else}
use Prim.Native.String.{◌++◌}
use icepick.Batcher.Identity.{Candidate, Row, Primitives, compute_uid, stmt_key, content_hash}
use icepick.Batcher.Ledger.{LedgerRow, Kind, new, warn, Ledger, check}
use icepick.Batcher.Journal
use icepick.Batcher.Journal.{
  Bytes, JournalRow, Outcome, rows, journal_corruption, read_new, advance,
}
use icepick.Batcher.World.{World, append_ledger, move_cursor}
use icepick.Batcher.Queue.{WatchCounter}

-- An entry of `config.watch_journals`. `source_name` is what the manifest of its run says, if it can be
-- read, and `content` is what the journal holds.
pub record WatchJournal : Type 0 where
  pub label : String
  pub journal_path : String
  pub source_name : Option String
  pub content : Bytes

pub record Ingested : Type 0 where
  pub world : World
  pub counter : WatchCounter

abbrev pub count_malformed : WatchCounter → WatchCounter
count_malformed c = record c { malformed = c.malformed + 1 }

abbrev pub count_ingested : WatchCounter → WatchCounter
count_ingested c = record c { ingested = c.ingested + 1 }

-- `verdict.kind in ("new", "warn")`
abbrev pub is_free : Kind → Bool
is_free new = true
is_free warn = true
is_free _ = false

-- `cursor.advance` without a save.
unfoldable pub pass_over : String → JournalRow → World → World
pass_over path j w = record w { cursor = advance w.cursor path j.line_no j.byte_end }

-- The statement of a row, if its candidate is an object with one that is a text and not empty.
abbrev pub statement_in : Option String → Option String
statement_in none = none
statement_in (some s) = if str_eq s "" then none else some s

abbrev pub statement_of : Option Candidate → Option String
statement_of none = none
statement_of (some c) = statement_in c.statement

module _ (prims : Primitives) (label path now source : String) where
  unfoldable pub watch_row : JournalRow → String → LedgerRow
  watch_row j statement = record {
    uid = compute_uid prims source statement;
    stmt_key = stmt_key prims statement;
    content_hash = content_hash prims j.row;
    batch = "watch:" ++ label;
    source_journal = path;
    journal_line = pos j.line_no;
    sliced_at = now;
    warn_only = false;
  }

  -- A row with a statement: the ledger first, the cursor second.
  unfoldable pub ingest_statement : JournalRow → String → Ingested → Ingested
  ingest_statement j statement s =
      let r = watch_row j statement in
      let appended : Ingested = record {
        world = append_ledger (r ∷ []) s.world;
        counter = count_ingested s.counter;
      } in
      let s' =
        if is_free (check s.world.ledger r.uid r.stmt_key r.content_hash).kind
        then appended
        else s in
      record s' { world = move_cursor path j.line_no j.byte_end s'.world }

  unfoldable pub skip_malformed : JournalRow → Ingested → Ingested
  unfolding pass_over
  skip_malformed j s = record {
    world = pass_over path j s.world;
    counter = count_malformed s.counter;
  }

  unfoldable pub ingest_valid : JournalRow → Option String → Ingested → Ingested
  ingest_valid j none s = skip_malformed j s
  ingest_valid j (some statement) s = ingest_statement j statement s

  -- The body of the loop over the rows.
  unfoldable pub ingest_row : JournalRow → Ingested → Ingested
  ingest_row j s = ingest_valid j (statement_of j.row.candidate) s

  unfoldable pub ingest_rows : List JournalRow → Ingested → Ingested
  ingest_rows [] s = s
  ingest_rows (j ∷ js) s = ingest_rows js (ingest_row j s)

module _ (prims : Primitives) (loads : Bytes → Option Row) (now : String) where
  unfoldable pub ingest_outcome : WatchJournal → String → Outcome → Ingested → Ingested
  ingest_outcome wj source (journal_corruption n) s = record s {
    counter = count_malformed s.counter;
  }
  ingest_outcome wj source (rows js) s = ingest_rows prims wj.label wj.journal_path now source js s

  -- One watch journal; the read moves the cursor in memory, whatever comes after it.
  unfoldable pub ingest_journal : WatchJournal → Ingested → Ingested
  ingest_journal wj s = elim wj.source_name [
    | none ↦ record s { counter = count_malformed s.counter }
    | some source ↦
        let r = read_new loads wj.journal_path none wj.content s.world.cursor in
        ingest_outcome wj source r.outcome
          (record s { world = record s.world { cursor = r.cursor } })
  ]

  abbrev pub counter_or_zero : Option WatchCounter → WatchCounter
  counter_or_zero none = record { ingested = 0; malformed = 0 }
  counter_or_zero (some c) = c

  -- `_ingest_watch_journals`
  unfoldable pub ingest_watch_journals :
      List WatchJournal → World × Dict WatchCounter → World × Dict WatchCounter
  ingest_watch_journals [] s = s
  ingest_watch_journals (wj ∷ wjs) (w, counters) =
      let r =
        ingest_journal wj
          (record { world = w; counter = counter_or_zero (lookup wj.label counters) }) in
      ingest_watch_journals wjs (r.world, insert wj.label r.counter counters)
