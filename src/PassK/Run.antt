-- ===== src/PassK/Run.antt =====
-- A run of the pass@k stage in production: `run` of src/icepick/processing/pass_at_k/runner.py with
-- one record after another (`max_concurrent == 1`), on the checkpoint that earlier runs have left. The
-- writing of the output, its counts and the manifest are left out.
pub mod Billed
pub mod Paid
pub mod Clean
pub mod Settled
pub mod Again
use icepick.Prelude.{
  ℕ, suc, ◌+◌, String, Bool, true, false, Option, none, some, List, [], ◌∷◌, ltb, if◌then◌else◌,
}
use icepick.PassK.Checkpoint.{LogFile, Log, load}
use icepick.PassK.Records.{Record, Row, Kind, Config, Backend, Grading, Progress}
use icepick.PassK.Score.{Scored, done, interrupted, raised, score_record}

-- The files under `_progress/` that a run reads.
pub record Files : Type 0 where
  pub records_done : LogFile Row
  pub llm_cache : LogFile String

-- `PassAtKCheckpoint(...)`; a row without its key raises (`none`).
unfoldable pub start : Files → Option Progress
unfolding load
start f = elim (load f.records_done) [
  | none ↦ none
  | some records ↦ elim (load f.llm_cache) [
    | none ↦ none
    | some outputs ↦ some (record {
      records = record { entries = records; file = f.records_done };
      outputs = record { entries = outputs; file = f.llm_cache };
      calls = 0;
      model_calls = 0;
    })
  ]
]

-- The files that a run leaves.
abbrev pub files_of : Progress → Files
files_of st = record { records_done = st.records.file; llm_cache = st.outputs.file }

-- `finished`: one row for each record. `paused`: Ctrl-C, with the rows so far. `crashed`: an exception.
pub data Outcome : Type 0 where
  finished paused crashed : List (Row × Kind) → Progress → Outcome
  -- The checkpoint or the configuration is refused.
  refused : Outcome

abbrev pub with_row : Row × Kind → Outcome → Outcome
with_row r (finished rows st) = finished (r ∷ rows) st
with_row r (paused rows st) = paused (r ∷ rows) st
with_row r (crashed rows st) = crashed (r ∷ rows) st
with_row r refused = refused

module _ (sha1 : String → String) (g : Grading) (backend : Backend) (cfg : Config) where
  -- The loop over the records.
  unfoldable pub score_all : List Record → Progress → Outcome
  unfolding score_record
  score_all [] st = finished [] st
  score_all (r ∷ rs) st = elim (score_record sha1 g backend cfg r st) [
    | done row kind st' ↦ with_row (row, kind) (score_all rs st')
    | interrupted st' ↦ paused [] st'
    | raised st' ↦ crashed [] st'
  ]

  unfoldable pub run_from : Option Progress → List Record → Outcome
  unfolding score_all
  run_from none rs = refused
  run_from (some st) rs = score_all rs st

  -- `run`; `validate` refuses a `k` below one.
  unfoldable pub run : Files → List Record → Outcome
  unfolding run_from start
  run files rs = if ltb 0 cfg.k then run_from (start files) rs else refused

-- A run of a series: its server, its configuration and its records.
pub record Session : Type 0 where
  pub backend : Backend
  pub cfg : Config
  pub inputs : List Record

-- What a run leaves on disk, and the number of outputs that it has paid for.
abbrev pub left_by : Files → Outcome → Files × ℕ
left_by files (finished rows st) = (files_of st, st.model_calls)
left_by files (paused rows st) = (files_of st, st.model_calls)
left_by files (crashed rows st) = (files_of st, st.model_calls)
left_by files refused = (files, 0)

module _ (sha1 : String → String) (g : Grading) where
  -- Runs one after another, each on the files of the one before, with the outputs paid for in all.
  unfoldable pub sessions : List Session → Files → Files × ℕ
  unfolding run
  sessions [] files = (files, 0)
  sessions (s ∷ ss) files =
      let (files', paid) = left_by files (run sha1 g s.backend s.cfg files s.inputs) in
      let (files'', more) = sessions ss files' in (files'', paid + more)
