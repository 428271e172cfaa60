-- ===== src/Poser/Cascade/Retries.antt =====
-- What the retries of src/icepick/processing/poser/cascade.py achieve.
use icepick.Prelude.{
  ℕ, zero, suc, ◌+◌, ◌≤◌, ◌≡◌, inl, inr, refl, ap, ◌∙◌, String, Bool, true, false, not, ◌&&◌, none,
  List, [], ◌∷◌, map, All, All_imp, arith, eq_iff, Bool-cases, List-cases,
}
use icepick.Prelude.Dict.{Dict, lookup}
use icepick.Prelude.Sets.{member}
use icepick.Poser.Records.{Record, uid_of, Verdict, is_error}
use icepick.Poser.Cascade.{
  Stage, merge, errored, attempts, fill_missing, Sorted, sort_one, sort_out, still_pending,
  final_verdicts, nothing_sorted, run_stage,
}
use mathlib.Core.Path.{subst}
use icepick.Poser.Cascade.Verdicts.{
  Among, All-Among, last_on, lookup-merge, status_of, fill_missing-status, is_some_of, errs,
}

last_on-errored :
    (u : String) (vs : List Verdict) → member u (errored vs) ≡ false → errs (last_on u vs) ≡ false
unfolding errored
last_on-errored u [] h = refl
last_on-errored u (v ∷ vs) h = ground (arith, last_on-errored u vs)

last_on-none :
    (u : String) (us : List String) (vs : List Verdict)
    → member u us ≡ false
    → All (λ v. member v.uid us ≡ true) vs
    → (last_on u vs ≡ none) × (member u (errored vs) ≡ false)
unfolding errored
last_on-none u us [] h only = (refl, refl)
last_on-none u us (v ∷ vs) h only =
    let rest = last_on-none u us vs h only.1 in ground (arith, eq_iff v.uid u, only.0)

member-uids :
    (f : String → Bool) (u : String) (rs : List Record)
    → All (λ r. f (uid_of r) ≡ true) rs
    → member u (map uid_of rs) ≡ true
    → f u ≡ true
member-uids f u [] h m = cc
member-uids f u (r ∷ rs) h m = ground (arith, eq_iff (uid_of r) u, member-uids f u rs h.1, h.0)

member-still_pending :
    (u : String) (us : List String) (rs : List Record)
    → member u (map uid_of (still_pending us rs)) ≡ (member u (map uid_of rs) && member u us)
member-still_pending u us [] = refl
member-still_pending u us (r ∷ rs) =
    ground (arith, eq_iff (uid_of r) u, member-still_pending u us rs)

-- A run of the combo has a verdict on each record that it is given, and on no other.
pub record Serves (answer : ℕ → List Record → List Verdict) : Type 0 where
  pub judged :
      (attempt : ℕ) (pending : List Record)
      → All (λ r. is_some_of (last_on (uid_of r) (answer attempt pending)) ≡ true) pending
  pub only :
      (attempt : ℕ) (pending : List Record)
      → All (λ v. member v.uid (map uid_of pending) ≡ true) (answer attempt pending)

-- The record has a verdict that is not an error, or is pending.
abbrev InHand : List Record → Dict Verdict → Record → Type 0
InHand pending d r =
    (is_error (status_of (lookup (uid_of r) d)) && not (member (uid_of r) (map uid_of pending)))
    ≡ false

abbrev Judged : Dict Verdict → Record → Type 0
Judged d r = is_error (status_of (lookup (uid_of r) d)) ≡ false

module _ (answer : ℕ → List Record → List Verdict) (serves : Serves answer) where
  InHand-next :
      (attempt : ℕ) (pending : List Record) (d : Dict Verdict) (r : Record)
      → InHand pending d r
      → InHand
          (still_pending (errored (answer attempt pending)) pending)
          (merge (answer attempt pending) d)
          r
  InHand-next attempt pending d r h =
      let u = uid_of r in
      let vs = answer attempt pending in
      elim (Bool-cases (member u (map uid_of pending))) [
        | inr out ↦
            let (silent, calm) =
              last_on-none u (map uid_of pending) vs out (serves.only attempt pending) in
            ground (arith, lookup-merge u vs d, member-still_pending u (errored vs) pending)
        | inl within ↦
            let judged =
              member-uids (λ w. is_some_of (last_on w vs)) u pending (serves.judged attempt pending)
                within in
            ground (
              arith,
              lookup-merge u vs d,
              member-still_pending u (errored vs) pending,
              last_on-errored u vs,
            )
      ]

  All-InHand-next :
      (attempt : ℕ) (pending : List Record) (d : Dict Verdict) (rs : List Record)
      → All (InHand pending d) rs
      → All
          (InHand
            (still_pending (errored (answer attempt pending)) pending)
            (merge (answer attempt pending) d))
          rs
  All-InHand-next attempt pending d rs =
      All_imp (InHand pending d) _ rs (InHand-next attempt pending d)

  -- With nothing pending, every record is judged.
  InHand-Judged :
      (us : List String) (pending : List Record) (d : Dict Verdict) (rs : List Record)
      → us ≡ []
      → All (InHand (still_pending us pending) d) rs
      → All (Judged d) rs
  InHand-Judged us pending d rs e =
      All_imp (InHand (still_pending us pending) d) (Judged d) rs (λ r h.
        ground (arith, member-still_pending (uid_of r) us pending, ap (member (uid_of r)) e))

  module _ (last : ℕ)
      (calm : (attempt : ℕ) (pending : List Record)
        → last ≤ attempt
        → errored (answer attempt pending) ≡ []) where
    attempts-Judged :
        (left attempt : ℕ) (pending : List Record) (d : Dict Verdict) (rs : List Record)
        → last ≤ attempt + left
        → All (InHand pending d) rs
        → All (Judged (attempts answer left attempt pending d).verdicts) rs
    unfolding attempts
    attempts-Judged left attempt [] d rs h all =
        All_imp (InHand [] d) (Judged d) rs (λ r h. ground arith) all
    attempts-Judged zero attempt (p ∷ pending) d rs h all =
        InHand-Judged (errored (answer attempt (p ∷ pending))) (p ∷ pending) _ rs
          (calm attempt (p ∷ pending) (omega arith))
          (All-InHand-next attempt (p ∷ pending) d rs all)
    attempts-Judged (suc left) attempt (p ∷ pending) d rs h all =
        let next = All-InHand-next attempt (p ∷ pending) d rs all in
        elim (List-cases (errored (answer attempt (p ∷ pending)))) [
          | inl e ↦ rw (e, attempts) (InHand-Judged _ (p ∷ pending) _ rs e next)
          | inr (u, us, e) ↦
              let next' =
                subst
                  (λ ws.
                    All
                      (InHand (still_pending ws (p ∷ pending))
                        (merge (answer attempt (p ∷ pending)) d))
                      rs)
                  e next in
              rw (e, attempts)
                (attempts-Judged left (attempt + 1) (still_pending (u ∷ us) (p ∷ pending))
                  (merge (answer attempt (p ∷ pending)) d) rs (omega arith) next')
        ]

-- A record that is judged does not come among the errors.
sort_out-no_errors :
    (d : Dict Verdict) (rs : List Record) (s : Sorted)
    → All (Judged d) rs
    → (sort_out d rs s).errors ≡ s.errors
unfolding sort_out
sort_out-no_errors d [] s h = refl
sort_out-no_errors d (r ∷ rs) s h =
    let one : (sort_one (lookup (uid_of r) d) (uid_of r) s).errors ≡ s.errors =
      ground (arith, h.0) in
    sort_out-no_errors d rs (sort_one (lookup (uid_of r) d) (uid_of r) s) h.1 ∙ one

-- When each run of a stage's combo has verdicts on all the records that it is given and on no
-- others, and from some attempt on, which is one of those that are allowed, none of them is an error,
-- then the stage ends with no record in error.
pub run_stage-recovers :
    (max_retries last : ℕ) (stage : Stage) (records : List Record)
    → Serves stage.answer
    → ((attempt : ℕ) (pending : List Record)
        → last ≤ attempt
        → errored (stage.answer attempt pending) ≡ [])
    → last ≤ max_retries
    → (run_stage max_retries stage records).error_uids ≡ []
unfolding run_stage final_verdicts
run_stage-recovers max_retries last stage records serves calm h =
    let a = (attempts stage.answer max_retries 0 records []).verdicts in
    sort_out-no_errors _ records nothing_sorted (
      All_imp (Judged a) (Judged (fill_missing records a)) records
        (λ r j. ap is_error (fill_missing-status (uid_of r) records a) ∙ j)
        (attempts-Judged stage.answer serves last calm max_retries 0 records [] records
          (omega arith)
          (All_imp (Among records) (InHand records []) records (λ r m. ground arith)
            (All-Among records))))
