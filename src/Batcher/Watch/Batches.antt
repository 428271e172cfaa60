-- ===== src/Batcher/Watch/Batches.antt =====
-- The watch journals of src/icepick/batcher/daemon.py leave the batch directories alone.
use icepick.Prelude.{
  ◌≡◌, ◌∙◌, refl, String, Option, none, some, List, [], ◌∷◌, arith, Option-cases, inl, inr,
}
use icepick.Prelude.Dict.{Dict, lookup}
use icepick.Batcher.Identity.{Row, Primitives}
use icepick.Batcher.Journal.{Bytes, JournalRow, Outcome, rows, journal_corruption, read_new}
use icepick.Batcher.World.{World, append_ledger, move_cursor}
use icepick.Batcher.Queue.{WatchCounter}
use icepick.Batcher.Watch.{
  WatchJournal, Ingested, statement_of, ingest_statement, skip_malformed, pass_over, ingest_valid,
  ingest_row, ingest_rows, ingest_outcome, ingest_journal, counter_or_zero, ingest_watch_journals,
}

module _ (prims : Primitives) (label path now source : String) where
  ingest_valid-batches :
      (j : JournalRow) (o : Option String) (s : Ingested)
      → (ingest_valid prims label path now source j o s).world.batches ≡ s.world.batches
  unfolding ingest_valid ingest_statement skip_malformed pass_over append_ledger move_cursor
  ingest_valid-batches j none s = refl
  ingest_valid-batches j (some statement) s = ground arith

  ingest_rows-batches :
      (js : List JournalRow) (s : Ingested)
      → (ingest_rows prims label path now source js s).world.batches ≡ s.world.batches
  unfolding ingest_rows ingest_row
  ingest_rows-batches [] s = refl
  ingest_rows-batches (j ∷ js) s =
      ingest_rows-batches js (ingest_row prims label path now source j s)
      ∙ ingest_valid-batches j (statement_of j.row.candidate) s

module _ (prims : Primitives) (loads : Bytes → Option Row) (now : String) where
  ingest_outcome-batches :
      (wj : WatchJournal) (source : String) (o : Outcome) (s : Ingested)
      → (ingest_outcome prims loads now wj source o s).world.batches ≡ s.world.batches
  unfolding ingest_outcome
  ingest_outcome-batches wj source (journal_corruption n) s = refl
  ingest_outcome-batches wj source (rows js) s =
      ingest_rows-batches prims wj.label wj.journal_path now source js s

  ingest_journal-batches :
      (wj : WatchJournal) (s : Ingested)
      → (ingest_journal prims loads now wj s).world.batches ≡ s.world.batches
  unfolding ingest_journal
  ingest_journal-batches wj s = elim (Option-cases wj.source_name) [
    | inl unnamed ↦ ground arith
    | inr (source, named) ↦
        let r = read_new loads wj.journal_path none wj.content s.world.cursor in
        let s' : Ingested = record s { world = record s.world { cursor = r.cursor } } in
        ground (arith, ingest_outcome-batches wj source r.outcome s')
  ]

  -- Watch journals leave the batches alone.
  pub ingest_watch_journals-batches :
      (wjs : List WatchJournal) (s : World × Dict WatchCounter)
      → (ingest_watch_journals prims loads now wjs s).0.batches ≡ s.0.batches
  unfolding ingest_watch_journals
  ingest_watch_journals-batches [] s = refl
  ingest_watch_journals-batches (wj ∷ wjs) (w, counters) =
      let s : Ingested = record {
        world = w;
        counter = counter_or_zero prims loads now (lookup wj.label counters);
      } in
      ingest_watch_journals-batches wjs _ ∙ ingest_journal-batches wj s
