-- ===== src/Tests/PassRun.antt =====
-- Runs of src/icepick/processing/pass_at_k/runner.py.
use icepick.Prelude.{
  zero, suc, ◌+◌, ◌<◌, ◌≡◌, refl, arith, String, true, false, none, some, List, [], ◌∷◌, map,
  length,
}
use icepick.Batcher.JsonLines.{empty_file}
use icepick.PassK.Tally.{label_of, tally_rollouts, tally_pairs, count_up}
use icepick.PassK.Checkpoint.{load, load_entries, stored, commit}
use icepick.PassK.Records.{
  Record, Row, Kind, Config, Backend, Grading, Progress, output, fails, interrupts,
}
use icepick.PassK.Sample.{call_with_retries}
use icepick.PassK.Run.{Files, files_of, finished, run, Session, sessions}
use icepick.PassK.Run.Billed.{IsCache}
use icepick.PassK.Run.Paid.{IsPaid, sessions-IsPaid}
use icepick.PassK.Run.Again.{run_again}

abbrev plain_hash : String → String
plain_hash text = text

-- An answer is the whole output, and every truth can be verified.
abbrev plain : Grading
plain = record {
  candidate_of = λ raw. some raw;
  classify = λ truth. some truth;
  verify = λ candidate truth. true;
}

abbrev four : Config
four = record {
  model = "qwen";
  temperature = "0.7";
  think = "True";
  k = 4;
  max_retries = 1;
  keep_garbage = false;
}

abbrev two : Config
two = record four { model = "other"; k = 2 }

abbrev inputs : List Record
inputs =
    record {
      uid = "u1";
      fields = ("statement", "1 + 1?") ∷ ("truth", "2") ∷ [];
      pass_at_k = none;
      label = none;
    }
    ∷ record {
      uid = "u2";
      fields = ("statement", "Why?") ∷ ("truth", "text so") ∷ [];
      pass_at_k = none;
      label = none;
    }
    ∷ record {
      uid = "u3";
      fields = ("question", "2 + 1?") ∷ [];
      pass_at_k = some (record { total = 8; n_pass = 2; n_top_wrong = 1 });
      label = none;
    }
    ∷ []

abbrev steady : Backend
steady n = output "2"

-- The second call raises, and Ctrl-C comes at the fourth.
abbrev shaky : Backend
shaky zero = output "2"
shaky (suc zero) = fails
shaky (suc (suc zero)) = output "3"
shaky (suc (suc (suc n))) = interrupts

abbrev no_files : Files
no_files = record { records_done = empty_file; llm_cache = empty_file }

no_files-IsCache : IsCache no_files.llm_cache []
unfolding load load_entries
no_files-IsCache = record { loads = refl; whole = refl; once = tt }

-- A run that is paused, and one that finishes.
abbrev both : List Session
both =
    record { backend = shaky; cfg = four; inputs = inputs }
    ∷ record { backend = steady; cfg = four; inputs = inputs }
    ∷ []

sessions-IsPaid_example : IsPaid [] (sessions plain_hash plain both no_files)
sessions-IsPaid_example = sessions-IsPaid plain_hash plain both no_files [] no_files-IsCache

-- Two outputs are paid for before Ctrl-C, and two after it.
paid_test : (sessions plain_hash plain both no_files).1 ≡ 4
unfolding sessions load load_entries stored commit tally_rollouts tally_pairs count_up label_of
paid_test = refl

run_again_example :
    (rows : List (Row × Kind)) × (st : Progress) × (run plain_hash plain steady four no_files inputs
      ≡ finished rows st)
    × (length rows ≡ 3)
    × ((backend' : Backend) (cfg' : Config)
        → 0 < cfg'.k
        → (rows' : List (Row × Kind)) × (st' : Progress) × (run plain_hash plain backend' cfg'
              (files_of st)
              inputs
            ≡ finished rows' st')
          × (map (λ x. x.0) rows' ≡ map (λ x. x.0) rows)
          × (st'.calls ≡ 0)
          × (files_of st' ≡ files_of st))
unfolding call_with_retries load load_entries
run_again_example =
    run_again plain_hash plain steady four inputs no_files [] [] (omega arith)
      (λ n. ("2", n + 1, refl)) refl refl no_files-IsCache
