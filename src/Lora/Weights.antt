-- ===== src/Lora/Weights.antt =====
-- Which traces of a record are trained on: dedupe_examples, apply_weight_policy and
-- assert_weight_policy_honored of src/loratrain/src/loratrain/build_dataset.py. A weight 1/n is its n, so
-- that equal weights are equal numbers; SHA-256 in hexadecimal is a parameter.
pub mod Counts
pub mod Groups
pub mod Honored
use Prim.Native.String.{◌++◌ as append}
use icepick.Prelude.{
  ℕ, zero, suc, ◌+◌, String, Bool, true, false, not, ◌&&◌, Option, none, some, List, [], ◌∷◌, ◌++◌,
  map, keep, length, take, leb, ltb, ◌==◌, str_eq, if◌then◌else◌,
}
use icepick.Prelude.Dict.{Dict, lookup, set, PairSet, pair_in, is_some}
use icepick.Prelude.Sets.{member}
use icepick.Prelude.Decimal.{decimal}
use icepick.Lora.Safetensors.{str_le}

-- An example, with the provenance that names its record and its trace, and the weight if it has one.
pub record Example : Type 0 where
  pub uid : String
  pub rollout_uid : String
  pub text : String
  pub weight : Option ℕ

-- The loop of `dedupe_examples`.
unfoldable pub dedupe_from : PairSet → List Example → List Example
dedupe_from seen [] = []
dedupe_from seen (x ∷ xs) =
    let fresh = x ∷ dedupe_from ((x.uid, x.rollout_uid) ∷ seen) xs in
    let again = dedupe_from seen xs in if pair_in x.uid x.rollout_uid seen then again else fresh

-- `dedupe_examples`
unfoldable pub dedupe_examples : List Example → List Example
unfolding dedupe_from
dedupe_examples xs = dedupe_from [] xs

-- `config.VALID_WEIGHT_POLICIES`, and any other name.
pub data Policy : Type 0 where
  cap1 capk inverse unknown : Policy

abbrev pub or_nil {ℓ} : {A : Type ℓ} → Option (List A) → List A
or_nil none = []
or_nil (some xs) = xs

-- `by_uid.setdefault(uid, []).append(example)` for each example.
unfoldable pub group_onto : Dict (List Example) → List Example → Dict (List Example)
group_onto d [] = d
group_onto d (x ∷ xs) = group_onto (set x.uid (or_nil (lookup x.uid d) ++ x ∷ []) d) xs

abbrev pub by_uid : List Example → Dict (List Example)
by_uid xs = group_onto [] xs

module _ (sha256 : String → String) (seed : ℕ) where
  -- `_selection_rank`
  unfoldable pub selection_rank : Example → String
  unfolding decimal
  selection_rank x =
      sha256 (append (decimal seed) (append ":" (append x.uid (append ":" x.rollout_uid))))

  -- `sorted(uid_examples, key=...)`, which is stable.
  unfoldable pub insert_ranked : Example → List Example → List Example
  unfolding selection_rank
  insert_ranked x [] = x ∷ []
  insert_ranked x (y ∷ ys) =
      if str_le (selection_rank x) (selection_rank y) then x ∷ y ∷ ys else y ∷ insert_ranked x ys

  unfoldable pub ranked : List Example → List Example
  unfolding insert_ranked
  ranked [] = []
  ranked (x ∷ xs) = insert_ranked x (ranked xs)

  abbrev pub selected_keys : ℕ → List Example → List String
  selected_keys cap xs = take cap (map (λ x. x.rollout_uid) (ranked xs))

  -- The rows of a record that a cap keeps, in their order.
  unfoldable pub select : ℕ → List Example → List Example
  unfolding ranked
  select cap xs = keep (λ x. member x.rollout_uid (selected_keys cap xs)) xs

-- `stamped["weight"] = 1.0 / n`
abbrev pub stamp_weight : ℕ → Example → Example
stamp_weight n x = record x { weight = some n }

-- All rows of a record, each with an equal share of its weight.
unfoldable pub equalize : List Example → List Example
equalize xs = map (stamp_weight (length xs)) xs

-- What is kept of each record, one after the other.
unfoldable pub kept_of : (List Example → List Example) → Dict (List Example) → List Example
kept_of f [] = []
kept_of f ((uid, xs) ∷ d) = f xs ++ kept_of f d

-- `apply_weight_policy` returns the rows, or raises a WeightPolicyError.
unfoldable pub apply_weight_policy :
    (String → String) → ℕ → Policy → ℕ → List Example → Option (List Example)
unfolding kept_of select equalize group_onto
apply_weight_policy sha256 seed cap1 cap_k xs = some (kept_of (select sha256 seed 1) (by_uid xs))
apply_weight_policy sha256 seed capk cap_k xs =
    if ltb cap_k 1 then none else some (kept_of (select sha256 seed cap_k) (by_uid xs))
apply_weight_policy sha256 seed inverse cap_k xs = some (kept_of equalize (by_uid xs))
apply_weight_policy sha256 seed unknown cap_k xs = none

abbrev pub all_of {ℓ} : {A : Type ℓ} → (A → Bool) → List A → Bool
all_of p [] = true
all_of p (x ∷ xs) = p x && all_of p xs

-- The rows of each record are within the cap, and no row has a weight.
unfoldable pub within_cap : ℕ → List Example → Bool
unfolding group_onto
within_cap cap xs =
    all_of (λ e. leb (length e.1) cap) (by_uid xs) && all_of (λ x. not (is_some x.weight)) xs

abbrev pub weight_is : ℕ → Option ℕ → Bool
weight_is n none = false
weight_is n (some m) = m == n

-- Each row has the weight 1/n, for the n rows of its record.
unfoldable pub equalized : List Example → Bool
unfolding group_onto
equalized xs = all_of (λ e. all_of (λ x. weight_is (length e.1) x.weight) e.1) (by_uid xs)

-- `assert_weight_policy_honored` does not raise.
unfoldable pub is_honored : Policy → ℕ → List Example → Bool
unfolding within_cap equalized
is_honored cap1 cap_k xs = within_cap 1 xs
is_honored capk cap_k xs = within_cap cap_k xs
is_honored inverse cap_k xs = equalized xs
is_honored unknown cap_k xs = false
