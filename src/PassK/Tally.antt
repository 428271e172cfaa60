-- ===== src/PassK/Tally.antt =====
-- The tally of a record's rollouts and the label from it: src/icepick/processing/pass_at_k/scoring.py
-- and the end of `_score_record` in runner.py. A share is a fraction; the thresholds are dyadic and
-- the counts small, so that Python's quotients of floats compare with them in the same way.
pub mod Counts
pub mod Meaning
use icepick.Prelude.{
  ◌&&◌, ℕ, zero, suc, ◌+◌, ◌*◌, String, Bool, true, false, Option, none, some, List, [], ◌∷◌,
  length, ltb, leb, ◌==◌, str_eq, if◌then◌else◌,
}

-- A text that is none of the three verdicts is `unknown`.
pub data Verdict : Type 0 where
  correct wrong degenerate unknown : Verdict

-- `collections.Counter`, in the order of first insertion.
abbrev pub Counter : Type 0
Counter = List (String × ℕ)

-- `wrongs[candidate] += 1`
unfoldable pub count_up : String → Counter → Counter
count_up c [] = (c, 1) ∷ []
count_up c ((a, n) ∷ rest) = if str_eq a c then (a, n + 1) ∷ rest else (a, n) ∷ count_up c rest

abbrev larger : String × ℕ → Option (String × ℕ) → Option (String × ℕ)
larger a none = some a
larger a (some b) = if ltb a.1 b.1 then some b else some a

-- `wrongs.most_common(1)[0]`, which for ties is the one that was inserted first.
unfoldable pub most_common : Counter → Option (String × ℕ)
most_common [] = none
most_common (a ∷ rest) = larger a (most_common rest)

pub record Tally : Type 0 where
  pub n_correct : ℕ
  pub n_wrong : ℕ
  pub n_degenerate : ℕ
  pub wrongs : Counter

abbrev pub no_rollouts : Tally
no_rollouts = record { n_correct = 0; n_wrong = 0; n_degenerate = 0; wrongs = [] }

abbrev pub count_wrong : Option String → Tally → Tally
count_wrong none t = record t { n_wrong = t.n_wrong + 1 }
count_wrong (some c) t = record t { n_wrong = t.n_wrong + 1; wrongs = count_up c t.wrongs }

-- `ValueError` for lists of two lengths and for an unknown verdict.
pub data Tallied : Type 0 where
  tallied : Tally → Tallied
  length_mismatch unknown_verdict : Tallied

-- The loop over the pairs.
unfoldable pub tally_pairs : List Verdict → List (Option String) → Tally → Tallied
tally_pairs (correct ∷ vs) (c ∷ cs) t = tally_pairs vs cs (record t { n_correct = t.n_correct + 1 })
tally_pairs (wrong ∷ vs) (c ∷ cs) t = tally_pairs vs cs (count_wrong c t)
tally_pairs (degenerate ∷ vs) (c ∷ cs) t =
    tally_pairs vs cs (record t { n_degenerate = t.n_degenerate + 1 })
tally_pairs (unknown ∷ vs) (c ∷ cs) t = unknown_verdict
tally_pairs [] cs t = tallied t
tally_pairs vs [] t = tallied t

-- `tally_rollouts`
unfoldable pub tally_rollouts : List Verdict → List (Option String) → Tallied
tally_rollouts vs cs =
    if length vs == length cs then tally_pairs vs cs no_rollouts else length_mismatch

abbrev pub modal_count : Option (String × ℕ) → ℕ
modal_count none = 0
modal_count (some a) = a.1

-- `top_wrong_share`, over all `total` rollouts, by its numerator.
unfoldable pub modal_n : Tally → ℕ
unfolding most_common
modal_n t = modal_count (most_common t.wrongs)

pub data Label : Type 0 where
  other solved band misdirection collapse drop : Label

-- `in_band`, of the share `n / total`: from 1/8 to 3/4.
unfoldable pub in_band : ℕ → Option ℕ → Bool
in_band total none = false
in_band total (some n) = leb total (8 * n) && leb (4 * n) (3 * total)

-- `derive_label`, of the share `n / total` and of the share `m / total` of the modal wrong answer; the
-- threshold is a half.
unfoldable pub derive_label : ℕ → Option ℕ → ℕ → Label
derive_label total none m = other
derive_label total (some n) m =
    if ltb (3 * total) (4 * n)
    then solved
    else if leb total (8 * n)
    then band
    else if leb total (2 * m)
    then misdirection
    else collapse

-- The label of a record that was scored by `k` rollouts: dropped when half of them gave no answer.
unfoldable pub label_of : ℕ → Tally → Label
label_of k t =
    if leb k (2 * t.n_degenerate) then drop else derive_label k (some t.n_correct) (modal_n t)
