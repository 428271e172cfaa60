-- ===== src/PassK/Tally/Counts.antt =====
-- What the tally counts: `tally_rollouts` in src/icepick/processing/pass_at_k/scoring.py.
use icepick.Prelude.{
  ℕ, ◌+◌, ◌≤◌, ◌≡◌, inl, inr, refl, String, Bool, true, false, ◌||◌, Option, none, some, List, [],
  ◌∷◌, arith, length, str_eq, eq_iff, str_eq_refl, Option-cases, if◌then◌else◌,
}
use icepick.PassK.Tally.{
  Verdict, correct, wrong, degenerate, unknown, Counter, count_up, most_common, Tally, count_wrong,
  tallied, tally_pairs, modal_count,
}

-- `wrongs[candidate]`
abbrev pub count_of : String → Counter → ℕ
count_of c [] = 0
count_of c ((a, n) ∷ rest) = if str_eq a c then n else count_of c rest

abbrev has_key : String → Counter → Bool
has_key c [] = false
has_key c ((a, n) ∷ rest) = str_eq a c || has_key c rest

-- No candidate is counted in two places.
abbrev IsCounter : Counter → Type 0
IsCounter [] = Unit
IsCounter ((a, n) ∷ rest) = (has_key a rest ≡ false) × IsCounter rest

count_of-count_up :
    (c d : String) (w : Counter)
    → count_of c (count_up d w) ≡ (if str_eq d c then count_of c w + 1 else count_of c w)
unfolding count_up
count_of-count_up c d [] = ground arith
count_of-count_up c d ((a, n) ∷ rest) =
    ground (arith, count_of-count_up c d rest, eq_iff a d, eq_iff a c, eq_iff d c)

has_key-count_up :
    (c d : String) (w : Counter) → has_key c (count_up d w) ≡ (str_eq d c || has_key c w)
unfolding count_up
has_key-count_up c d [] = ground arith
has_key-count_up c d ((a, n) ∷ rest) =
    ground (arith, has_key-count_up c d rest, eq_iff a d, eq_iff a c, eq_iff d c)

count_up-IsCounter : (d : String) (w : Counter) → IsCounter w → IsCounter (count_up d w)
unfolding count_up
count_up-IsCounter d [] h = (refl, tt)
count_up-IsCounter d ((a, n) ∷ rest) h =
    ground (arith, count_up-IsCounter d rest h.1, has_key-count_up a d rest, eq_iff a d, eq_iff d a)

count_of-no_key : (c : String) (w : Counter) → has_key c w ≡ false → count_of c w ≡ 0
count_of-no_key c [] h = refl
count_of-no_key c ((a, n) ∷ rest) h = ground (arith, count_of-no_key c rest)

-- The modal count is the largest.
pub count_of-most_common : (c : String) (w : Counter) → count_of c w ≤ modal_count (most_common w)
unfolding most_common
count_of-most_common c [] = omega arith
count_of-most_common c ((a, n) ∷ rest) = elim (Option-cases (most_common rest)) [
  | inl last ↦ ground (arith, last, count_of-most_common c rest)
  | inr (b, some_b) ↦ ground (arith, some_b, count_of-most_common c rest)
]

-- It is the count of a candidate.
pub most_common-eq :
    (w : Counter) (a : String) (n : ℕ)
    → IsCounter w
    → most_common w ≡ some (a, n)
    → (count_of a w ≡ n) × (has_key a w ≡ true)
unfolding most_common
most_common-eq [] a n h e = cc
most_common-eq ((b, m) ∷ rest) a n h e = elim (Option-cases (most_common rest)) [
  | inl last ↦ ground (arith, last, str_eq_refl b)
  | inr ((d, k), some_d) ↦
      ground (arith, some_d, most_common-eq rest d k h.1 some_d, str_eq_refl b, eq_iff b d)
]

abbrev pub is_correct : Verdict → Bool
is_correct correct = true
is_correct _ = false

abbrev pub is_wrong : Verdict → Bool
is_wrong wrong = true
is_wrong _ = false

abbrev pub is_degenerate : Verdict → Bool
is_degenerate degenerate = true
is_degenerate _ = false

-- How many of the verdicts pass a test.
abbrev pub how_many : (Verdict → Bool) → List Verdict → ℕ
how_many p [] = 0
how_many p (v ∷ vs) = if p v then how_many p vs + 1 else how_many p vs

abbrev is_same : String → Option String → Bool
is_same c none = false
is_same c (some d) = str_eq d c

-- How many of the rollouts gave the wrong answer `c`.
abbrev pub how_often : String → List Verdict → List (Option String) → ℕ
how_often c (wrong ∷ vs) (d ∷ ds) = if is_same c d then how_often c vs ds + 1 else how_often c vs ds
how_often c (_ ∷ vs) (_ ∷ ds) = how_often c vs ds
how_often c _ _ = 0

-- What the loop has done to `t`, over rollouts of one length.
pub record Adds (vs : List Verdict) (cs : List (Option String)) (t t' : Tally) : Type 0 where
  pub correct : t'.n_correct ≡ t.n_correct + how_many is_correct vs
  pub wrong : t'.n_wrong ≡ t.n_wrong + how_many is_wrong vs
  pub degenerate : t'.n_degenerate ≡ t.n_degenerate + how_many is_degenerate vs
  pub all :
      t'.n_correct + t'.n_wrong + t'.n_degenerate
      ≡ t.n_correct + t.n_wrong + t.n_degenerate + length vs
  pub often : (c : String) → count_of c t'.wrongs ≡ count_of c t.wrongs + how_often c vs cs
  pub once : IsCounter t'.wrongs

count_wrong-count_of :
    (c : String) (d : Option String) (t : Tally)
    → count_of c (count_wrong d t).wrongs
      ≡ (if is_same c d then count_of c t.wrongs + 1 else count_of c t.wrongs)
count_wrong-count_of c none t = refl
count_wrong-count_of c (some d) t = count_of-count_up c d t.wrongs

count_wrong-IsCounter :
    (d : Option String) (t : Tally) → IsCounter t.wrongs → IsCounter (count_wrong d t).wrongs
count_wrong-IsCounter none t h = h
count_wrong-IsCounter (some d) t h = count_up-IsCounter d t.wrongs h

count_wrong-rest :
    (d : Option String) (t : Tally)
    → ((count_wrong d t).n_correct ≡ t.n_correct)
      × ((count_wrong d t).n_wrong ≡ t.n_wrong + 1)
      × ((count_wrong d t).n_degenerate ≡ t.n_degenerate)
count_wrong-rest none t = (refl, refl, refl)
count_wrong-rest (some d) t = (refl, refl, refl)

pub tally_pairs-Adds :
    (vs : List Verdict) (cs : List (Option String)) (t t' : Tally)
    → length vs ≡ length cs
    → IsCounter t.wrongs
    → tally_pairs vs cs t ≡ tallied t'
    → Adds vs cs t t'
unfolding tally_pairs
tally_pairs-Adds [] cs t t' l h e =
    let same : t ≡ t' = cc in
    rw (← same) (record {
      correct = omega arith;
      wrong = omega arith;
      degenerate = omega arith;
      all = omega arith;
      often = λ c. omega arith;
      once = h;
    })
tally_pairs-Adds (v ∷ vs) [] t t' l h e = absurd (omega (arith, l))
tally_pairs-Adds (Verdict.correct ∷ vs) (c ∷ cs) t t' l h e =
    let a = tally_pairs-Adds vs cs _ t' (omega (arith, l)) h e in
    record {
      correct = omega (arith, a.correct);
      wrong = omega (arith, a.wrong);
      degenerate = omega (arith, a.degenerate);
      all = omega (arith, a.all);
      often = a.often;
      once = a.once;
    }
tally_pairs-Adds (Verdict.wrong ∷ vs) (c ∷ cs) t t' l h e =
    let a = tally_pairs-Adds vs cs _ t' (omega (arith, l)) (count_wrong-IsCounter c t h) e in
    let (same_correct, more_wrong, same_degenerate) = count_wrong-rest c t in
    record {
      correct = omega (arith, a.correct, same_correct);
      wrong = omega (arith, a.wrong, more_wrong);
      degenerate = omega (arith, a.degenerate, same_degenerate);
      all = omega (arith, a.all, same_correct, more_wrong, same_degenerate);
      often = λ d. ground (arith, a.often d, count_wrong-count_of d c t);
      once = a.once;
    }
tally_pairs-Adds (Verdict.degenerate ∷ vs) (c ∷ cs) t t' l h e =
    let a = tally_pairs-Adds vs cs _ t' (omega (arith, l)) h e in
    record {
      correct = omega (arith, a.correct);
      wrong = omega (arith, a.wrong);
      degenerate = omega (arith, a.degenerate);
      all = omega (arith, a.all);
      often = a.often;
      once = a.once;
    }
tally_pairs-Adds (unknown ∷ vs) (c ∷ cs) t t' l h e = cc
