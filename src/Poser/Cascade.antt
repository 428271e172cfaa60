-- ===== src/Poser/Cascade.antt =====
-- The cascade of stages: src/icepick/processing/poser/cascade.py. What one run of a stage's combo
-- gives (`run` of runner.py on one combo, around the command-line poser) is an argument: the verdicts
-- of an attempt on the records that it is given. Times, token counts and costs are left out.
pub mod Retries
pub mod Verdicts
pub mod Survivors
use icepick.Prelude.{
  ℕ, zero, suc, ◌+◌, String, Bool, true, false, not, ◌&&◌, Option, none, some, List, [], ◌∷◌, ◌++◌,
  map, keep, length, ◌-◌, str_eq, if◌then◌else◌,
}
use icepick.Prelude.Dict.{Dict, lookup, contains, set, or_empty}
use icepick.Prelude.Sets.{member, add}
use icepick.Poser.Records.{
  Record, uid_of, Status, error, Verdict, is_error, is_well_posed, inject_uid,
}

-- `StageSpec`, and what its combo answers: the attempt, and the records given to it.
pub record Stage : Type 0 where
  pub index : ℕ
  pub combo : String
  pub advisory : Bool
  pub answer : ℕ → List Record → List Verdict

-- An entry of `retry_events`: another attempt follows, or the last one has failed.
pub data Event : Type 0 where
  retried exhausted : (uid : String) (attempt : ℕ) → Event

-- `all_verdicts[v.uid] = v` for each verdict.
unfoldable pub merge : List Verdict → Dict Verdict → Dict Verdict
merge [] d = d
merge (v ∷ vs) d = merge vs (set v.uid v d)

-- `errored_uids`
unfoldable pub errored : List Verdict → List String
errored [] = []
errored (v ∷ vs) = if is_error v.status then v.uid ∷ errored vs else errored vs

abbrev pub still_pending : List String → List Record → List Record
still_pending uids records = keep (λ r. member (uid_of r) uids) records

pub record Attempts : Type 0 where
  pub verdicts : Dict Verdict
  pub events : List Event

abbrev pub with_events : List Event → Attempts → Attempts
with_events es a = record a { events = es ++ a.events }

module _ (answer : ℕ → List Record → List Verdict) where
  -- What follows an attempt with errors: no more attempts, or the next one.
  abbrev pub settle : List String → ℕ → Dict Verdict → Attempts
  settle uids attempt d = record {
    verdicts = d;
    events = map (λ u. exhausted u (attempt + 1)) uids;
  }

  -- The loop over the attempts from `attempt` on, when `left` more may follow it.
  unfoldable pub attempts : ℕ → ℕ → List Record → Dict Verdict → Attempts
  unfolding merge errored
  attempts left attempt [] d = record { verdicts = d; events = [] }
  attempts zero attempt (p ∷ pending) d =
      let vs = answer attempt (p ∷ pending) in settle (errored vs) attempt (merge vs d)
  attempts (suc left) attempt (p ∷ pending) d =
      let vs = answer attempt (p ∷ pending) in
      elim (errored vs) [
        | [] ↦ record { verdicts = merge vs d; events = [] }
        | u ∷ us ↦
            with_events (map (λ w. retried w (attempt + 1)) (u ∷ us))
              (attempts left (attempt + 1) (still_pending (u ∷ us) (p ∷ pending)) (merge vs d))
      ]

abbrev pub missing : Record → Verdict
missing r = record { uid = uid_of r; source = or_empty (lookup "source" r); status = error }

-- A record without a verdict gets one that says so.
unfoldable pub fill_missing : List Record → Dict Verdict → Dict Verdict
fill_missing [] d = d
fill_missing (r ∷ rs) d = fill_missing rs (
    if not (str_eq (uid_of r) "") && not (contains (uid_of r) d)
    then set (uid_of r) (missing r) d
    else d)

-- The loop of the merge phase: `passing_uids` and `error_uids`.
pub record Sorted : Type 0 where
  pub passing : List String
  pub errors : List String

abbrev pub sort_one : Option Verdict → String → Sorted → Sorted
sort_one none uid s = s
sort_one (some v) uid s =
    if is_well_posed v.status
    then record s { passing = add uid s.passing }
    else if is_error v.status
    then record s { errors = s.errors ++ uid ∷ [] }
    else s

unfoldable pub sort_out : Dict Verdict → List Record → Sorted → Sorted
sort_out d [] s = s
sort_out d (r ∷ rs) s = sort_out d rs (sort_one (lookup (uid_of r) d) (uid_of r) s)

-- A line of flagged_for_review.jsonl.
pub record Flagged : Type 0 where
  pub record_of : Record
  pub verdict : Option Verdict

-- `CascadeStageOutcome`, with the files that it names.
pub record Outcome : Type 0 where
  pub passed : List Record
  pub flagged : List Flagged
  pub error_uids : List String
  pub verdicts : Dict Verdict
  pub retry_events : List Event
  pub survivor_uid_count : ℕ

-- The records of an advisory stage, and those of a stage that filters.
unfoldable pub survivors : Bool → Sorted → List Record → List Record
survivors true s records = keep (λ r. not (member (uid_of r) s.errors)) records
survivors false s records = keep (λ r. member (uid_of r) s.passing) records

unfoldable pub flag : Bool → Dict Verdict → Sorted → List Record → List Flagged
flag true d s records =
    map (λ r. record { record_of = r; verdict = lookup (uid_of r) d })
      (keep (λ r. not (member (uid_of r) s.passing)) records)
flag false d s records = []

-- `set(uids)`, of which only the size is used.
unfoldable pub to_set : List String → List String
to_set [] = []
to_set (u ∷ us) = add u (to_set us)

abbrev pub nothing_sorted : Sorted
nothing_sorted = record { passing = []; errors = [] }

-- The verdicts on the records of a stage after all attempts.
unfoldable pub final_verdicts : ℕ → Stage → List Record → Dict Verdict
unfolding attempts fill_missing
final_verdicts max_retries stage records =
    fill_missing records (attempts stage.answer max_retries 0 records []).verdicts

-- `_run_stage_with_retries`
unfoldable pub run_stage : ℕ → Stage → List Record → Outcome
unfolding final_verdicts sort_out survivors flag to_set
run_stage max_retries stage records =
    let d = final_verdicts max_retries stage records in
    let s = sort_out d records nothing_sorted in
    record {
      passed = survivors stage.advisory s records;
      flagged = flag stage.advisory d s records;
      error_uids = s.errors;
      verdicts = d;
      retry_events = (attempts stage.answer max_retries 0 records []).events;
      survivor_uid_count =
          if stage.advisory then length records - length (to_set s.errors) else length s.passing;
    }

-- The loop of `run_cascade` over the stages: the outcome of each, and the records that are left.
unfoldable pub run_stages : ℕ → List Stage → List Record → List Outcome × List Record
unfolding run_stage
run_stages max_retries [] records = ([], records)
run_stages max_retries (stage ∷ stages) records =
    let o = run_stage max_retries stage records in
    let (os, final) = run_stages max_retries stages o.passed in (o ∷ os, final)

-- `run_cascade`: the outcomes, and what final_corpus.jsonl holds.
unfoldable pub run_cascade :
    (String → String) → ℕ → List Stage → List Record → List Outcome × List Record
unfolding run_stages inject_uid
run_cascade sha256 max_retries stages records =
    run_stages max_retries stages (inject_uid sha256 records)
