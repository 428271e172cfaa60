-- ===== src/Poser/Cascade/Survivors.antt =====
-- Which records pass the stages of src/icepick/processing/poser/cascade.py.
use Prim.Native.String.{slice}
use icepick.Prelude.{
  All_both, ℕ, ◌≡◌, refl, ◌∙◌, String, Bool, true, false, not, List, [], ◌∷◌, keep, keep_cong, All,
  All_imp, All-keep, arith, str_eq, if◌then◌else◌, Bool-cases, inl, inr,
}
use icepick.Prelude.Dict.{lookup}
use icepick.Prelude.Sets.{member}
use icepick.Poser.Records.{
  Record, uid_of, Status, is_error, is_well_posed, inject_uid, with_uid, compute_uid,
}
use icepick.Poser.Cascade.{
  Stage, attempts, Sorted, sort_out, survivors, nothing_sorted, final_verdicts, run_stage,
  run_stages, run_cascade,
}
use icepick.Poser.Cascade.Verdicts.{
  Among, All-Among, last_on, given, lookup-merge, attempts-given, status_of, fill_missing-status,
  is_some_of, fill_missing-some, sort_out-passing, sort_out-errors,
}

abbrev pub HasUid : Record → Type 0
HasUid r = str_eq (uid_of r) "" ≡ false

survivors-keep :
    (advisory : Bool) (s : Sorted) (rs : List Record)
    → survivors advisory s rs
      ≡ keep
          (λ r. if advisory then not (member (uid_of r) s.errors) else member (uid_of r) s.passing)
          rs
unfolding survivors
survivors-keep true s rs = refl
survivors-keep false s rs = refl

module _ (max_retries : ℕ) (stage : Stage) (records : List Record) where
  -- What the stage has said of a record at last.
  abbrev pub said : Record → Status
  said r = status_of (last_on (uid_of r) (given stage.answer max_retries 0 records))

  -- A stage that filters admits what it has called well-posed at last; an advisory one admits what it
  -- has judged at last.
  unfoldable pub admitted : Record → Bool
  unfolding given
  admitted r = if stage.advisory then not (is_error (said r)) else is_well_posed (said r)

  final_verdicts-said :
      (r : Record)
      → status_of (lookup (uid_of r) (final_verdicts max_retries stage records)) ≡ said r
  unfolding final_verdicts
  final_verdicts-said r =
      fill_missing-status (uid_of r) records
        (attempts stage.answer max_retries 0 records []).verdicts
      ∙ rw (attempts-given stage.answer max_retries 0 records []) (
          rw (lookup-merge (uid_of r) (given stage.answer max_retries 0 records) []) (ground arith))

  final_verdicts-some :
      (r : Record)
      → HasUid r
      → Among records r
      → is_some_of (lookup (uid_of r) (final_verdicts max_retries stage records)) ≡ true
  unfolding final_verdicts
  final_verdicts-some r h m = ground (
    arith,
    fill_missing-some (uid_of r) records (attempts stage.answer max_retries 0 records []).verdicts
        h,
  )

  abbrev sorted : Sorted
  sorted = sort_out (final_verdicts max_retries stage records) records nothing_sorted

  passing-said :
      (r : Record) → Among records r → member (uid_of r) sorted.passing ≡ is_well_posed (said r)
  passing-said r m = ground (
    arith,
    sort_out-passing (uid_of r) (final_verdicts max_retries stage records) records nothing_sorted,
    final_verdicts-said r,
  )

  errors-said :
      (r : Record)
      → HasUid r
      → Among records r
      → member (uid_of r) sorted.errors ≡ is_error (said r)
  errors-said r h m = ground (
    arith,
    sort_out-errors (uid_of r) (final_verdicts max_retries stage records) records nothing_sorted,
    final_verdicts-said r,
    final_verdicts-some r h m,
  )

  survivors-admitted :
      (r : Record)
      → HasUid r × Among records r
      → (if stage.advisory
          then not (member (uid_of r) sorted.errors)
          else member (uid_of r) sorted.passing)
        ≡ admitted r
  unfolding admitted
  survivors-admitted r h = ground (arith, errors-said r h.0 h.1, passing-said r h.1)

  run_stage-passed :
      All HasUid records → (run_stage max_retries stage records).passed ≡ keep admitted records
  unfolding run_stage
  run_stage-passed uids =
      survivors-keep stage.advisory sorted records
      ∙ keep_cong
          (λ r.
            if stage.advisory
            then not (member (uid_of r) sorted.errors)
            else member (uid_of r) sorted.passing)
          admitted records
          (All_imp (λ r. HasUid r × Among records r) _ records survivors-admitted
            (All_both HasUid (Among records) records uids (All-Among records)))

-- The records that each stage in turn admits.
unfoldable pub gate : ℕ → List Stage → List Record → List Record
unfolding admitted
gate max_retries [] records = records
gate max_retries (stage ∷ stages) records =
    gate max_retries stages (keep (admitted max_retries stage records) records)

run_stages-gate :
    (max_retries : ℕ) (stages : List Stage) (records : List Record)
    → All HasUid records
    → (run_stages max_retries stages records).1 ≡ gate max_retries stages records
unfolding run_stages gate
run_stages-gate max_retries [] records uids = refl
run_stages-gate max_retries (stage ∷ stages) records uids =
    let passed = run_stage-passed max_retries stage records uids in
    rw passed (
      run_stages-gate max_retries stages (keep (admitted max_retries stage records) records)
        (All-keep HasUid (admitted max_retries stage records) records uids))

module _ (sha256 : String → String)
    (digits : (s : String) → str_eq (slice (sha256 s) 0 32) "" ≡ false) where
  with_uid-HasUid : (r : Record) → HasUid (with_uid sha256 r)
  unfolding with_uid compute_uid
  with_uid-HasUid r = elim (Bool-cases (str_eq (uid_of r) "")) [
    | inl bare ↦ rw bare (digits _)
    | inr named ↦ rw named named
  ]

  inject_uid-HasUid : (rs : List Record) → All HasUid (inject_uid sha256 rs)
  unfolding inject_uid
  inject_uid-HasUid [] = tt
  inject_uid-HasUid (r ∷ rs) = (with_uid-HasUid r, inject_uid-HasUid rs)

  -- When SHA-256 gives digits, the final corpus of a cascade is what the stages in turn leave of the
  -- prepared records, in their order: a stage that filters leaves exactly those of its input for which
  -- the last of all the verdicts that its attempts have given on the uid is `well_posed`, and an
  -- advisory stage those for which there is one and the last is not an error.
  pub run_cascade-gate :
      (max_retries : ℕ) (stages : List Stage) (records : List Record)
      → (run_cascade sha256 max_retries stages records).1
        ≡ gate max_retries stages (inject_uid sha256 records)
  unfolding run_cascade
  run_cascade-gate max_retries stages records =
      run_stages-gate max_retries stages (inject_uid sha256 records) (inject_uid-HasUid records)
