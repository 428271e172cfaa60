-- ===== src/PassK/Run/Paid.antt =====
-- What a series of runs of src/icepick/processing/pass_at_k/runner.py pays for.
use icepick.Prelude.{
  ℕ, ◌+◌, ◌≡◌, inl, inr, refl, String, none, some, List, [], ◌∷◌, length, arith, ltb, Bool-cases,
  Option-cases,
}
use icepick.Prelude.Dict.{Dict}
use icepick.PassK.Checkpoint.{load}
use icepick.PassK.Records.{Record, Row, Config, Backend, Grading, Progress}
use icepick.PassK.Run.{
  Files, start, Outcome, finished, paused, crashed, refused, score_all, run_from, run, Session,
  left_by, sessions,
}
use icepick.PassK.Run.Billed.{IsCache, OutcomeBilled, score_all-IsBilled}

-- What is on disk after a run, and the outputs that it has paid for.
abbrev pub IsPaid : Dict String → Files × ℕ → Type 0
IsPaid d (files, paid) =
    (d' : Dict String) × IsCache files.llm_cache d' × (length d' ≡ length d + paid)

left_by-IsPaid :
    (d : Dict String) (files : Files) (o : Outcome)
    → IsCache files.llm_cache d
    → OutcomeBilled (length d) o
    → IsPaid d (left_by files o)
left_by-IsPaid d files (finished rows st) c b = (st.outputs.entries, b.cache, b.count)
left_by-IsPaid d files (paused rows st) c b = (st.outputs.entries, b.cache, b.count)
left_by-IsPaid d files (crashed rows st) c b = (st.outputs.entries, b.cache, b.count)
left_by-IsPaid d files refused c b = (d, c, omega arith)

start_refused : (files : Files) → load files.records_done ≡ none → start files ≡ none
unfolding start
start_refused files e = rw (e, start) refl

-- The state in which a run starts.
abbrev pub started : Files → Dict Row → Dict String → Progress
started files records outputs = record {
  records = record { entries = records; file = files.records_done };
  outputs = record { entries = outputs; file = files.llm_cache };
  calls = 0;
  model_calls = 0;
}

pub start_loaded :
    (files : Files) (records : Dict Row) (outputs : Dict String)
    → load files.records_done ≡ some records
    → load files.llm_cache ≡ some outputs
    → start files ≡ some (started files records outputs)
unfolding start
start_loaded files records outputs e e' = rw (e, start) (rw (e', start) refl)

module _ (sha1 : String → String) (g : Grading) where
  run-IsPaid :
      (backend : Backend) (cfg : Config) (rs : List Record) (files : Files) (d : Dict String)
      → IsCache files.llm_cache d
      → IsPaid d (left_by files (run sha1 g backend cfg files rs))
  unfolding run run_from start
  run-IsPaid backend cfg rs files d c = elim (Bool-cases (ltb 0 cfg.k)) [
    | inr bad ↦ rw (bad, run) (left_by-IsPaid d files refused c tt)
    | inl ok ↦ elim (Option-cases (load files.records_done)) [
      | inl e ↦ rw ok (rw (start_refused files e) (left_by-IsPaid d files refused c tt))
      | inr (records, e) ↦ rw ok (
          rw (start_loaded files records d e c.loads) (
            left_by-IsPaid d files (score_all sha1 g backend cfg rs (started files records d)) c (
              score_all-IsBilled (length d) sha1 g backend cfg rs (started files records d)
                (record { cache = c; count = omega arith }))))
    ]
  ]

  -- On a cache file that is whole and has no key twice, any series of runs that score one record
  -- after another, with any servers, configurations and records, each of them finished, paused by
  -- Ctrl-C or ended by an exception, leaves a cache file that is whole and has no key twice, with
  -- exactly one more entry for each output that the runs have paid for: no output is paid for
  -- twice.
  pub sessions-IsPaid :
      (ss : List Session) (files : Files) (d : Dict String)
      → IsCache files.llm_cache d
      → IsPaid d (sessions sha1 g ss files)
  unfolding sessions
  sessions-IsPaid [] files d c = (d, c, omega arith)
  sessions-IsPaid (s ∷ ss) files d c =
      let (d', c', paid) = run-IsPaid s.backend s.cfg s.inputs files d c in
      let (d'', c'', more) =
        sessions-IsPaid ss (left_by files (run sha1 g s.backend s.cfg files s.inputs)).0 d' c' in
      (d'', c'', omega (arith, paid, more))
