-- ===== src/PassK/Tally/Meaning.antt =====
-- What a label says of the rollouts: `tally_rollouts` and `derive_label` in
-- src/icepick/processing/pass_at_k/scoring.py.
use icepick.Prelude.{
  ◌↔◌, ℕ, some, none, ◌+◌, ◌*◌, ◌≤◌, ◌<◌, ◌≡◌, ◌⊎◌, inl, inr, refl, ap, String, Bool, true, false,
  Option, List, [], ◌∷◌, All, arith, length, ◌==◌, Bool-cases, Option-cases,
}
use icepick.PassK.Tally.{
  in_band, Verdict, unknown, Tally, no_rollouts, tallied, tally_pairs, tally_rollouts, modal_count,
  most_common, modal_n, misdirection, band, derive_label, label_of,
}
use icepick.PassK.Tally.Counts.{
  count_of-most_common, most_common-eq, is_correct, is_wrong, is_degenerate, how_many, how_often,
  Adds, tally_pairs-Adds,
}

-- A tally of the rollouts.
pub record IsTally (vs : List Verdict) (cs : List (Option String)) (t : Tally) : Type 0 where
  pub correct : t.n_correct ≡ how_many is_correct vs
  pub wrong : t.n_wrong ≡ how_many is_wrong vs
  pub degenerate : t.n_degenerate ≡ how_many is_degenerate vs
  pub total : t.n_correct + t.n_wrong + t.n_degenerate ≡ length vs
  pub most : (c : String) → how_often c vs cs ≤ modal_n t
  pub reached : (modal_n t ≡ 0) ⊎ ((c : String) × (how_often c vs cs ≡ modal_n t))

Adds-IsTally :
    (vs : List Verdict) (cs : List (Option String)) (t : Tally)
    → Adds vs cs no_rollouts t
    → IsTally vs cs t
unfolding modal_n
Adds-IsTally vs cs t a = record {
  correct = omega (arith, a.correct);
  wrong = omega (arith, a.wrong);
  degenerate = omega (arith, a.degenerate);
  total = omega (arith, a.all);
  most = λ c. omega (arith, a.often c, count_of-most_common c t.wrongs);
  reached = elim (Option-cases (most_common t.wrongs)) [
    | inl nothing ↦ inl (ap modal_count nothing)
    | inr ((c, n), e) ↦
        let largest : modal_count (most_common t.wrongs) ≡ n = ap modal_count e in
        inr (c, omega (arith, a.often c, (most_common-eq t.wrongs c n a.once e).0, largest))
  ];
}

-- A tally that is returned counts the verdicts of each kind, which are all of them, and its modal
-- count is the largest number of rollouts that gave one wrong answer.
pub tally_rollouts-IsTally :
    (vs : List Verdict) (cs : List (Option String)) (t : Tally)
    → tally_rollouts vs cs ≡ tallied t
    → IsTally vs cs t
unfolding tally_rollouts
tally_rollouts-IsTally vs cs t e = elim (Bool-cases (length vs == length cs)) [
  | inl same ↦
      Adds-IsTally vs cs t (tally_pairs-Adds vs cs no_rollouts t (ground arith) tt (ground arith))
  | inr differ ↦ ground arith
]

abbrev pub is_known : Verdict → Bool
is_known unknown = false
is_known _ = true

tally_pairs_total :
    (vs : List Verdict) (cs : List (Option String)) (t : Tally)
    → length vs ≡ length cs
    → All (λ v. is_known v ≡ true) vs
    → (t' : Tally) × (tally_pairs vs cs t ≡ tallied t')
unfolding tally_pairs
tally_pairs_total [] cs t l h = (t, refl)
tally_pairs_total (v ∷ vs) [] t l h = absurd (omega (arith, l))
tally_pairs_total (Verdict.correct ∷ vs) (c ∷ cs) t l h =
    tally_pairs_total vs cs _ (omega (arith, l)) h.1
tally_pairs_total (Verdict.wrong ∷ vs) (c ∷ cs) t l h =
    tally_pairs_total vs cs _ (omega (arith, l)) h.1
tally_pairs_total (Verdict.degenerate ∷ vs) (c ∷ cs) t l h =
    tally_pairs_total vs cs _ (omega (arith, l)) h.1
tally_pairs_total (unknown ∷ vs) (c ∷ cs) t l h = cc (h.0)

-- As many candidates as verdicts, and no unknown verdict, always give a tally.
pub tally_rollouts_total :
    (vs : List Verdict) (cs : List (Option String))
    → length vs ≡ length cs
    → All (λ v. is_known v ≡ true) vs
    → (t : Tally) × (tally_rollouts vs cs ≡ tallied t) × IsTally vs cs t
unfolding tally_rollouts
tally_rollouts_total vs cs l h =
    let (t, e) = tally_pairs_total vs cs no_rollouts l h in
    (t, ground (arith, e), Adds-IsTally vs cs t (tally_pairs-Adds vs cs no_rollouts t l tt e))

-- A record of at least one rollout that is labelled `misdirection` has a wrong answer that at least
-- half of all its rollouts gave, while less than an eighth of them were correct and less than half
-- gave no answer.
pub label_of-misdirection :
    (vs : List Verdict) (cs : List (Option String)) (t : Tally)
    → 0 < length vs
    → tally_rollouts vs cs ≡ tallied t
    → label_of (length vs) t ≡ misdirection
    → (c : String) × (length vs ≤ 2 * how_often c vs cs)
      × (8 * how_many is_correct vs < length vs)
      × (2 * how_many is_degenerate vs < length vs)
unfolding label_of derive_label
label_of-misdirection vs cs t some_rollout e labelled =
    let h = tally_rollouts-IsTally vs cs t e in
    elim h.reached [
      | inl nothing ↦ absurd (ground (arith, nothing, labelled))
      | inr (c, modal) ↦ (
        c,
        ground (arith, modal, labelled),
        ground (arith, h.correct, labelled),
        ground (arith, h.degenerate, labelled),
      )
    ]

-- The label `band` is given exactly to the shares in the band.
derive_label-in_band :
    (total : ℕ) (n : Option ℕ) (m : ℕ) → (derive_label total n m ≡ band) ↔ (in_band total n ≡ true)
unfolding derive_label in_band
derive_label-in_band total none m = (λ e. cc, λ e. cc)
derive_label-in_band total (some n) m = (λ e. ground arith, λ e. ground arith)
