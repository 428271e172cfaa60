-- ===== src/Tests/Cascade.antt =====
-- Runs of src/icepick/processing/poser/cascade.py.
use icepick.Prelude.{
  ℕ, ◌≤◌, ◌≡◌, refl, arith, String, true, false, List, [], ◌∷◌, map, All, All_imp, ◌∙◌, str_eq,
  ◌==◌, if◌then◌else◌,
}
use icepick.Prelude.Sets.{member}
use icepick.Poser.Records.{Record, uid_of, well_posed, ill_posed, error, Verdict, inject_uid}
use icepick.Poser.Cascade.{Stage, errored, run_stage, run_cascade}
use icepick.Poser.Cascade.Verdicts.{last_on, is_some_of, Among, All-Among}
use icepick.Poser.Cascade.Survivors.{gate, run_cascade-gate}
use icepick.Poser.Cascade.Retries.{Serves, run_stage-recovers}

-- A stage that fails at first on everything, and passes all but one record then.
abbrev judge : ℕ → Record → Verdict
judge attempt r = record {
  uid = uid_of r;
  source = "arXiv";
  status = if attempt == 0 then error else if str_eq (uid_of r) "b" then ill_posed else well_posed;
}

abbrev strict : Stage
strict = record {
  index = 1;
  combo = "codex:openai";
  advisory = false;
  answer = λ attempt records. map (judge attempt) records;
}

abbrev advice : Stage
advice = record strict { index = 2; combo = "claude:openai"; advisory = true }

abbrev inputs : List Record
inputs = (("uid", "a") ∷ []) ∷ (("uid", "b") ∷ []) ∷ (("statement", "s") ∷ []) ∷ []

abbrev constant_hash : String → String
constant_hash text = "0123456789abcdef"

run_cascade-gate_example :
    (run_cascade constant_hash 2 (strict ∷ advice ∷ []) inputs).1
    ≡ gate 2 (strict ∷ advice ∷ []) (inject_uid constant_hash inputs)
run_cascade-gate_example =
    run_cascade-gate constant_hash (λ s. refl) 2 (strict ∷ advice ∷ []) inputs

judged_on :
    (attempt : ℕ) (u : String) (rs : List Record)
    → is_some_of (last_on u (map (judge attempt) rs)) ≡ member u (map uid_of rs)
judged_on attempt u [] = refl
judged_on attempt u (r ∷ rs) = ground (arith, judged_on attempt u rs)

only_on :
    (attempt : ℕ) (us : List String) (rs : List Record)
    → All (λ r. member (uid_of r) us ≡ true) rs
    → All (λ v. member v.uid us ≡ true) (map (judge attempt) rs)
only_on attempt us [] h = tt
only_on attempt us (r ∷ rs) h = (h.0, only_on attempt us rs h.1)

strict-Serves : Serves strict.answer
strict-Serves = record {
  judged = λ attempt rs.
      All_imp (Among rs) _ rs (λ r m. judged_on attempt (uid_of r) rs ∙ m) (All-Among rs);
  only = λ attempt rs. only_on attempt (map uid_of rs) rs (All-Among rs);
}

calm : (attempt : ℕ) (rs : List Record) → 1 ≤ attempt → errored (map (judge attempt) rs) ≡ []
unfolding errored
calm attempt [] h = refl
calm attempt (r ∷ rs) h = ground (arith, calm attempt rs)

run_stage-recovers_example : (run_stage 2 strict inputs).error_uids ≡ []
run_stage-recovers_example = run_stage-recovers 2 1 strict inputs strict-Serves calm (omega arith)
