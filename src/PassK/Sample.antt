-- ===== src/PassK/Sample.antt =====
-- The calls for one record: `_call_with_retries` and the loop over the samples in `_score_record` of
-- src/icepick/processing/pass_at_k/runner.py, with the cache key of checkpoint.py. SHA-1 is a parameter.
-- The pauses between attempts and the audit trail are left out.
use icepick.Prelude.{
  ℕ, zero, suc, ◌+◌, String, Option, none, some, List, [], ◌∷◌, ◌++◌, if◌then◌else◌,
}
use Prim.Native.String.{◌++◌ as append}
use icepick.Prelude.Decimal.{decimal}
use icepick.PassK.Tally.{Verdict}
use icepick.PassK.Checkpoint.{commit, stored}
use icepick.PassK.Records.{Backend, Config, Grading, Progress, fails, interrupts, output}

-- `_call_with_retries`: the output, or the text of the error and `failed`, or Ctrl-C; with the number
-- of calls after it.
pub data Called : Type 0 where
  answered : String → ℕ → Called
  failed : ℕ → Called
  stopped : ℕ → Called

unfoldable pub call_with_retries : Backend → ℕ → ℕ → Called
call_with_retries backend zero n = elim (backend n) [
  | output raw ↦ answered raw (n + 1)
  | fails ↦ failed (n + 1)
  | interrupts ↦ stopped (n + 1)
]
call_with_retries backend (suc left) n = elim (backend n) [
  | output raw ↦ answered raw (n + 1)
  | fails ↦ call_with_retries backend left (n + 1)
  | interrupts ↦ stopped (n + 1)
]

-- `rollout_key`
unfoldable pub rollout_key : (String → String) → Config → String → ℕ → String
unfolding decimal
rollout_key sha1 cfg question idx =
    let sep : String = "\u{1f}" in
    sha1 (
      append cfg.model (
        append sep (
          append question (
            append sep (
              append cfg.temperature (append sep (append cfg.think (append sep (decimal idx)))))))))

-- What one pass of the loop over the samples gives: an output, a failed call, or Ctrl-C.
pub data Sampled : Type 0 where
  got : String → Progress → Sampled
  erred quit : Progress → Sampled

-- An output is cached and counted; a failure is not.
unfoldable pub after_call : String → Called → Progress → Sampled
after_call key (answered raw n) st = got raw (record st {
  outputs = commit (key, raw) st.outputs;
  calls = n;
  model_calls = st.model_calls + 1;
})
after_call key (failed n) st = erred (record st { calls = n })
after_call key (stopped n) st = quit (record st { calls = n })

-- The cache first, and a call only on a miss.
unfoldable pub sample : Config → Backend → String → Progress → Sampled
unfolding after_call call_with_retries
sample cfg backend key st = elim (stored key st.outputs) [
  | some raw ↦ got raw st
  | none ↦ after_call key (call_with_retries backend cfg.max_retries st.calls) st
]

pub record Rolls : Type 0 where
  pub verdicts : List Verdict
  pub candidates : List (Option String)
  pub backend_errors : ℕ

abbrev pub no_rolls : Rolls
no_rolls = record { verdicts = []; candidates = []; backend_errors = 0 }

unfoldable pub push : Option String → Verdict → Rolls → Rolls
push candidate verdict rolls = record rolls {
  verdicts = rolls.verdicts ++ verdict ∷ [];
  candidates = rolls.candidates ++ candidate ∷ [];
}

-- The verdict on an output.
unfoldable pub grade : Grading → String → String → Rolls → Rolls
unfolding push
grade g truth raw rolls = elim (g.candidate_of raw) [
  | none ↦ push none Verdict.degenerate rolls
  | some c ↦ push (some c) (if g.verify c truth then Verdict.correct else Verdict.wrong) rolls
]

unfoldable pub count_error : Rolls → Rolls
unfolding push
count_error rolls =
    push none Verdict.degenerate (record rolls { backend_errors = rolls.backend_errors + 1 })

pub data Rolled : Type 0 where
  rolled : Rolls → Progress → Rolled
  halted : Progress → Rolled

module _ (sha1 : String → String) (g : Grading) (backend : Backend) (cfg : Config) where
  -- The loop over the samples, from `idx` on.
  unfoldable pub rollouts : String → String → ℕ → ℕ → Rolls → Progress → Rolled
  unfolding sample rollout_key grade count_error
  rollouts statement truth zero idx rolls st = rolled rolls st
  rollouts statement truth (suc left) idx rolls st =
      elim (sample cfg backend (rollout_key sha1 cfg statement idx) st) [
        | got raw st' ↦ rollouts statement truth left (idx + 1) (grade g truth raw rolls) st'
        | erred st' ↦ rollouts statement truth left (idx + 1) (count_error rolls) st'
        | quit st' ↦ halted st'
      ]
