-- ===== src/Poser/Cascade/Verdicts.antt =====
-- The verdicts that a stage comes to, in src/icepick/processing/poser/cascade.py.
use icepick.Prelude.{
  All, All_imp, str_eq_refl, List-cases, ℕ, zero, suc, ◌+◌, ◌≡◌, refl, sym, ◌∙◌, String, Bool, true,
  false, not, ◌&&◌, ◌||◌, Option, none, some, List, [], ◌∷◌, ◌++◌, map, arith, str_eq, eq_iff,
  if◌then◌else◌, Bool-cases, inl, inr,
}
use icepick.Prelude.Dict.{Dict, lookup, contains, set, lookup-set, or_else}
use icepick.Prelude.Sets.{member}
use icepick.Poser.Records.{Record, uid_of, Status, error, Verdict, is_error, is_well_posed}
use icepick.Poser.Cascade.{
  missing, merge, errored, attempts, fill_missing, Sorted, sort_one, sort_out, still_pending,
}

-- The last verdict on a uid.
abbrev pub last_on : String → List Verdict → Option Verdict
last_on uid [] = none
last_on uid (v ∷ vs) = or_else (last_on uid vs) (if str_eq v.uid uid then some v else none)

-- All the verdicts that the attempts of a stage have given, in their order.
unfoldable pub given : (ℕ → List Record → List Verdict) → ℕ → ℕ → List Record → List Verdict
given answer left attempt [] = []
given answer zero attempt (p ∷ pending) = answer attempt (p ∷ pending)
given answer (suc left) attempt (p ∷ pending) =
    let vs = answer attempt (p ∷ pending) in
    elim (errored vs) [
      | [] ↦ vs
      | u ∷ us ↦ vs ++ given answer left (attempt + 1) (still_pending (u ∷ us) (p ∷ pending))
    ]

pub lookup-merge :
    (u : String) (vs : List Verdict) (d : Dict Verdict)
    → lookup u (merge vs d) ≡ or_else (last_on u vs) (lookup u d)
unfolding merge
lookup-merge u [] d = refl
lookup-merge u (v ∷ vs) d =
    ground (arith, lookup-merge u vs (set v.uid v d), lookup-set v.uid u v d)

merge-append :
    (vs ws : List Verdict) (d : Dict Verdict) → merge (vs ++ ws) d ≡ merge ws (merge vs d)
unfolding merge
merge-append [] ws d = refl
merge-append (v ∷ vs) ws d = merge-append vs ws (set v.uid v d)

-- The attempts merge what they have been given.
pub attempts-given :
    (answer : ℕ → List Record → List Verdict) (left attempt : ℕ) (pending : List Record)
    (d : Dict Verdict)
    → (attempts answer left attempt pending d).verdicts
      ≡ merge (given answer left attempt pending) d
unfolding attempts given merge
attempts-given answer left attempt [] d = refl
attempts-given answer zero attempt (p ∷ pending) d = refl
attempts-given answer (suc left) attempt (p ∷ pending) d =
    elim (List-cases (errored (answer attempt (p ∷ pending)))) [
      | inl e ↦ rw (e, attempts, given) refl
      | inr (u, us, e) ↦
          rw (e, attempts, given)
            (attempts-given answer left (attempt + 1) (still_pending (u ∷ us) (p ∷ pending))
                (merge (answer attempt (p ∷ pending)) d)
              ∙ sym (merge-append (answer attempt (p ∷ pending)) _ d))
    ]

-- A verdict that is missing counts as an error.
abbrev pub status_of : Option Verdict → Status
status_of none = error
status_of (some v) = v.status

pub fill_missing-status :
    (u : String) (rs : List Record) (d : Dict Verdict)
    → status_of (lookup u (fill_missing rs d)) ≡ status_of (lookup u d)
unfolding fill_missing
fill_missing-status u [] d = refl
fill_missing-status u (r ∷ rs) d =
    elim (Bool-cases (not (str_eq (uid_of r) "") && not (contains (uid_of r) d))) [
      | inr out ↦ rw out (fill_missing-status u rs d)
      | inl fill ↦ rw fill (
          fill_missing-status u rs (set (uid_of r) (missing r) d)
          ∙ ground (arith, lookup-set (uid_of r) u (missing r) d, eq_iff (uid_of r) u))
    ]

abbrev pub is_some_of : Option Verdict → Bool
is_some_of none = false
is_some_of (some v) = true

-- Every record with a uid has a verdict then.
pub fill_missing-some :
    (u : String) (rs : List Record) (d : Dict Verdict)
    → str_eq u "" ≡ false
    → is_some_of (lookup u (fill_missing rs d))
      ≡ (is_some_of (lookup u d) || member u (map uid_of rs))
unfolding fill_missing
fill_missing-some u [] d h = ground arith
fill_missing-some u (r ∷ rs) d h =
    elim (Bool-cases (not (str_eq (uid_of r) "") && not (contains (uid_of r) d))) [
      | inr out ↦ rw out (ground (arith, fill_missing-some u rs d, eq_iff (uid_of r) u))
      | inl fill ↦ rw fill (
          fill_missing-some u rs (set (uid_of r) (missing r) d) h
          ∙ ground (arith, lookup-set (uid_of r) u (missing r) d, eq_iff (uid_of r) u))
    ]

abbrev pub passes : Option Verdict → Bool
passes none = false
passes (some v) = is_well_posed v.status

abbrev pub errs : Option Verdict → Bool
errs none = false
errs (some v) = is_error v.status

pub sort_out-passing :
    (u : String) (d : Dict Verdict) (rs : List Record) (s : Sorted)
    → member u (sort_out d rs s).passing
      ≡ (member u s.passing || (member u (map uid_of rs) && passes (lookup u d)))
unfolding sort_out
sort_out-passing u d [] s = ground arith
sort_out-passing u d (r ∷ rs) s =
    let one : member u (sort_one (lookup (uid_of r) d) (uid_of r) s).passing
        ≡ (member u s.passing || (str_eq (uid_of r) u && passes (lookup u d))) =
      ground (arith, eq_iff (uid_of r) u) in
    ground (
      arith,
      one,
      sort_out-passing u d rs (sort_one (lookup (uid_of r) d) (uid_of r) s),
      eq_iff (uid_of r) u,
    )

member-append :
    (u : String) (xs ys : List String) → member u (xs ++ ys) ≡ (member u xs || member u ys)
member-append u [] ys = refl
member-append u (x ∷ xs) ys = ground (arith, member-append u xs ys)

pub sort_out-errors :
    (u : String) (d : Dict Verdict) (rs : List Record) (s : Sorted)
    → member u (sort_out d rs s).errors
      ≡ (member u s.errors || (member u (map uid_of rs) && errs (lookup u d)))
unfolding sort_out
sort_out-errors u d [] s = ground arith
sort_out-errors u d (r ∷ rs) s =
    let one : member u (sort_one (lookup (uid_of r) d) (uid_of r) s).errors
        ≡ (member u s.errors || (str_eq (uid_of r) u && errs (lookup u d))) =
      ground (arith, member-append u s.errors (uid_of r ∷ []), eq_iff (uid_of r) u) in
    ground (
      arith,
      one,
      sort_out-errors u d rs (sort_one (lookup (uid_of r) d) (uid_of r) s),
      eq_iff (uid_of r) u,
    )

-- The uid of the record is one of theirs.
abbrev pub Among : List Record → Record → Type 0
Among rs r = member (uid_of r) (map uid_of rs) ≡ true

pub All-Among : (rs : List Record) → All (Among rs) rs
All-Among [] = tt
All-Among (r ∷ rs) = (
  ground (arith, str_eq_refl (uid_of r)),
  All_imp (Among rs) (Among (r ∷ rs)) rs (λ x h. ground arith) (All-Among rs),
)
