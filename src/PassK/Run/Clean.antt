-- ===== src/PassK/Run/Clean.antt =====
-- What a server that answers makes of the samples of a record, for
-- src/icepick/processing/pass_at_k/runner.py.
use icepick.Prelude.{
  ℕ, zero, suc, ◌+◌, ◌≡◌, inl, inr, refl, ◌∙◌, String, true, Option, none, some, [], ◌∷◌, length,
  length-append, All, All-append, arith, Bool-cases, Option-cases,
}
use icepick.PassK.Tally.{Verdict}
use icepick.PassK.Tally.Meaning.{is_known}
use icepick.PassK.Checkpoint.{commit, stored}
use icepick.PassK.Records.{Config, Backend, Grading, Progress}
use icepick.PassK.Sample.{
  answered, call_with_retries, got, after_call, sample, rollout_key, Rolls, push, grade, rolled,
  rollouts,
}

-- Each series of attempts gets an output at last.
abbrev pub Answers : Backend → Config → Type 0
Answers backend cfg =
    (n : ℕ)
    → (raw : String) × (m : ℕ) × (call_with_retries backend cfg.max_retries n ≡ answered raw m)

-- Rolls that the tally accepts, none of them for a failed call.
pub record IsClean (rolls : Rolls) : Type 0 where
  pub paired : length rolls.verdicts ≡ length rolls.candidates
  pub known : All (λ v. is_known v ≡ true) rolls.verdicts
  pub no_errors : rolls.backend_errors ≡ 0

push-IsClean :
    (c : Option String) (v : Verdict) (rolls : Rolls)
    → is_known v ≡ true
    → IsClean rolls
    → IsClean (push c v rolls)
unfolding push
push-IsClean c v rolls k h = record {
  paired = omega (
    arith,
    length-append rolls.verdicts (v ∷ []),
    length-append rolls.candidates (c ∷ []),
    h.paired,
  );
  known = All-append (λ v. is_known v ≡ true) rolls.verdicts (v ∷ []) h.known (k, tt);
  no_errors = h.no_errors;
}

grade-IsClean :
    (g : Grading) (truth raw : String) (rolls : Rolls)
    → IsClean rolls
    → IsClean (grade g truth raw rolls)
unfolding grade
grade-IsClean g truth raw rolls h = elim (Option-cases (g.candidate_of raw)) [
  | inl e ↦ rw (e, grade) (push-IsClean none Verdict.degenerate rolls refl h)
  | inr (c, e) ↦ elim (Bool-cases (g.verify c truth)) [
    | inl ok ↦ rw (e, ok, grade) (push-IsClean (some c) Verdict.correct rolls refl h)
    | inr bad ↦ rw (e, bad, grade) (push-IsClean (some c) Verdict.wrong rolls refl h)
  ]
]

-- A server that answers never fails a sample, and the records stay as they are.
sample-got :
    (cfg : Config) (backend : Backend) (key : String) (st : Progress)
    → Answers backend cfg
    → (raw : String) × (st' : Progress) × (sample cfg backend key st ≡ got raw st')
      × (st'.records ≡ st.records)
unfolding sample after_call
sample-got cfg backend key st answers = elim (Option-cases (stored key st.outputs)) [
  | inr (raw, hit) ↦ (raw, st, rw (hit, sample) refl, refl)
  | inl miss ↦
      let (raw, m, e) = answers st.calls in
      (
        raw,
        record st {
          outputs = commit (key, raw) st.outputs;
          calls = m;
          model_calls = st.model_calls + 1;
        },
        rw (miss, sample) (rw e refl),
        refl,
      )
]

module _ (sha1 : String → String) (g : Grading) where
  pub rollouts-IsClean :
      (cfg : Config) (backend : Backend) (statement truth : String) (left idx : ℕ) (rolls : Rolls)
      (st : Progress)
      → Answers backend cfg
      → IsClean rolls
      → (rolls' : Rolls) × (st' : Progress) × (rollouts sha1 g backend cfg statement truth left idx
            rolls st
          ≡ rolled rolls' st')
        × IsClean rolls'
        × (st'.records ≡ st.records)
  unfolding rollouts
  rollouts-IsClean cfg backend statement truth zero idx rolls st answers h =
      (rolls, st, refl, h, refl)
  rollouts-IsClean cfg backend statement truth (suc left) idx rolls st answers h =
      let (raw, st', e, same) =
        sample-got cfg backend (rollout_key sha1 cfg statement idx) st answers in
      let (rolls', st'', e', h', same') =
        rollouts-IsClean cfg backend statement truth left (idx + 1) (grade g truth raw rolls) st'
          answers (grade-IsClean g truth raw rolls h) in
      (rolls', st'', rw (e, rollouts) e', h', same' ∙ same)
