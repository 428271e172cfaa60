-- ===== src/Lora/Weights/Honored.antt =====
-- The policy and its check: apply_weight_policy and assert_weight_policy_honored of
-- src/loratrain/src/loratrain/build_dataset.py.
use mathlib.Core.Path.{subst}
use icepick.Prelude.{
  ℕ, suc, ◌≡◌, refl, sym, ap, ◌∙◌, String, Bool, true, false, not, none, some, List, [], ◌∷◌, map,
  length, All, All_imp, All-keep, All-append, arith, ltb, leb, str_eq,
}
use icepick.Prelude.Dict.{Dict, lookup, is_some, PairSet}
use icepick.Lora.Weights.{
  Example, dedupe_from, dedupe_examples, Policy, cap1, capk, inverse, unknown, or_nil, by_uid,
  select, stamp_weight, equalize, kept_of, apply_weight_policy, all_of, within_cap, weight_is,
  equalized, is_honored,
}
use icepick.Lora.Weights.Counts.{min, length-select}
use icepick.Lora.Weights.Groups.{
  rows_of, by_uid-Groups, All-entries, Owned, rows_of-kept_of, dedupe_examples-IsDistinct,
}

all_of-true {ℓ} :
    {A : Type ℓ} (p : A → Bool) (xs : List A) → All (λ x. p x ≡ true) xs → all_of p xs ≡ true
all_of-true p [] h = refl
all_of-true p (x ∷ xs) h = ground (arith, all_of-true p xs h.1, h.0)

min-leb : (a b : ℕ) → leb (min a b) a ≡ true
min-leb a b = ground arith

-- A row without a weight.
abbrev pub Unweighted : Example → Type 0
Unweighted x = x.weight ≡ none

-- Each entry of the groups is the rows of its record.
entries-rows_of : (xs : List Example) → All (λ e. e.1 ≡ rows_of e.0 xs) (by_uid xs)
entries-rows_of xs =
    let g = by_uid-Groups xs in
    All_imp (λ e. e.1 ≡ or_nil (lookup e.0 (by_uid xs))) (λ e. e.1 ≡ rows_of e.0 xs) (by_uid xs)
      (λ e h. h ∙ g.rows e.0) (All-entries (by_uid xs) g.once)

All-dedupe :
    (P : Example → Type 0) (seen : PairSet) (xs : List Example)
    → All P xs
    → All P (dedupe_from seen xs)
unfolding dedupe_from
All-dedupe P seen [] h = tt
All-dedupe P seen (x ∷ xs) h =
    ground
      (arith, h.0, All-dedupe P seen xs h.1, All-dedupe P ((x.uid, x.rollout_uid) ∷ seen) xs h.1)

All-kept_of :
    (P : Example → Type 0) (f : List Example → List Example) (d : Dict (List Example))
    → ((v : List Example) → All P v → All P (f v))
    → All (λ e. All P e.1) d
    → All P (kept_of f d)
unfolding kept_of
All-kept_of P f [] keeps h = tt
All-kept_of P f ((k, v) ∷ d) keeps h =
    All-append P (f v) (kept_of f d) (keeps v h.0) (All-kept_of P f d keeps h.1)

module _ (sha256 : String → String) (seed : ℕ) where
  All-select :
      (P : Example → Type 0) (cap : ℕ) (v : List Example)
      → All P v
      → All P (select sha256 seed cap v)
  unfolding select
  All-select P cap v h = All-keep P _ v h

  select-nil : (cap : ℕ) → select sha256 seed cap [] ≡ []
  unfolding select
  select-nil cap = refl

  module _ (cap : ℕ) (xs : List Example) where
    abbrev capped : List Example
    capped = kept_of (select sha256 seed cap) (by_uid (dedupe_examples xs))

    rows_of-capped :
        (uid : String)
        → length (rows_of uid capped) ≡ min cap (length (rows_of uid (dedupe_examples xs)))
    rows_of-capped uid =
        ap length (
          rows_of-kept_of (select sha256 seed cap)
            (λ k v. All-select (λ x. str_eq x.uid k ≡ true) cap v) (select-nil cap) uid
            (dedupe_examples xs))
        ∙ length-select sha256 seed cap (rows_of uid (dedupe_examples xs))
            (dedupe_examples-IsDistinct uid xs)

    capped-within_cap : All Unweighted xs → within_cap cap capped ≡ true
    unfolding within_cap dedupe_examples
    capped-within_cap plain =
        let small : all_of (λ e. leb (length e.1) cap) (by_uid capped) ≡ true =
          all_of-true (λ e. leb (length e.1) cap) (by_uid capped)
            (All_imp (λ e. e.1 ≡ rows_of e.0 capped) (λ e. leb (length e.1) cap ≡ true)
              (by_uid capped)
              (λ e same.
                rw same (
                  rw (rows_of-capped e.0)
                    (min-leb cap (length (rows_of e.0 (dedupe_examples xs))))))
              (entries-rows_of capped)) in
        let ys = dedupe_examples xs in
        let groups : All (λ e. All Unweighted e.1) (by_uid ys) =
          All_imp (λ e. e.1 ≡ rows_of e.0 ys) (λ e. All Unweighted e.1) (by_uid ys)
            (λ e same.
              subst (All Unweighted) (sym same)
                (All-keep Unweighted _ ys (All-dedupe Unweighted [] xs plain)))
            (entries-rows_of ys) in
        let bare : all_of (λ x. not (is_some x.weight)) capped ≡ true =
          all_of-true (λ x. not (is_some x.weight)) capped
            (All_imp Unweighted (λ x. not (is_some x.weight) ≡ true) capped
              (λ x h. ground (arith, h))
              (All-kept_of Unweighted (select sha256 seed cap) (by_uid ys)
                (All-select Unweighted cap) groups)) in
        rw small bare

Owned-stamp : (n : ℕ) (k : String) (v : List Example) → Owned k v → Owned k (map (stamp_weight n) v)
Owned-stamp n k [] h = tt
Owned-stamp n k (x ∷ v) h = (h.0, Owned-stamp n k v h.1)

length-stamp : (n : ℕ) (v : List Example) → length (map (stamp_weight n) v) ≡ length v
length-stamp n [] = refl
length-stamp n (x ∷ v) = ap suc (length-stamp n v)

weight_is_own : (n : ℕ) → weight_is n (some n) ≡ true
weight_is_own n = ground arith

all_of-stamp :
    (n : ℕ) (v : List Example) → all_of (λ x. weight_is n x.weight) (map (stamp_weight n) v) ≡ true
all_of-stamp n [] = refl
all_of-stamp n (x ∷ v) = rw (weight_is_own n) (all_of-stamp n v)

equalize-weights :
    (v : List Example) → all_of (λ x. weight_is (length (equalize v)) x.weight) (equalize v) ≡ true
unfolding equalize
equalize-weights v = rw (length-stamp (length v) v) (all_of-stamp (length v) v)

module _ (xs : List Example) where
  abbrev levelled : List Example
  levelled = kept_of equalize (by_uid (dedupe_examples xs))

  rows_of-levelled :
      (uid : String) → rows_of uid levelled ≡ equalize (rows_of uid (dedupe_examples xs))
  unfolding equalize
  rows_of-levelled uid =
      rows_of-kept_of equalize (λ k v. Owned-stamp (length v) k v) refl uid (dedupe_examples xs)

  levelled-equalized : equalized levelled ≡ true
  unfolding equalized
  levelled-equalized =
      all_of-true (λ e. all_of (λ x. weight_is (length e.1) x.weight) e.1) (by_uid levelled)
        (All_imp (λ e. e.1 ≡ rows_of e.0 levelled) _ (by_uid levelled)
          (λ e same.
            rw (same ∙ rows_of-levelled e.0) (equalize-weights (rows_of e.0 (dedupe_examples xs))))
          (entries-rows_of levelled))

  length-levelled :
      (uid : String) → length (rows_of uid levelled) ≡ length (rows_of uid (dedupe_examples xs))
  unfolding equalize
  length-levelled uid =
      ap length (rows_of-levelled uid)
      ∙ length-stamp (length (rows_of uid (dedupe_examples xs))) (rows_of uid (dedupe_examples xs))

-- How many of the `n` traces of a record a policy keeps.
abbrev pub quota : Policy → ℕ → ℕ → ℕ
quota cap1 cap_k n = min 1 n
quota capk cap_k n = min cap_k n
quota inverse cap_k n = n
quota unknown cap_k n = n

-- The configurations that the policy accepts.
abbrev pub is_accepted : Policy → ℕ → Bool
is_accepted cap1 cap_k = true
is_accepted capk cap_k = ltb 0 cap_k
is_accepted inverse cap_k = true
is_accepted unknown cap_k = false

-- For examples without weights, any seed, and a known policy, with a positive `cap_k` where it is
-- `capk`: the policy, applied to the examples without their duplicates, does not raise, its check
-- passes on the rows that are kept, and of each record there are exactly as many of them as the policy
-- says for the number of its distinct traces: at most one, at most `cap_k`, or all.
pub apply_weight_policy-honored :
    (sha256 : String → String) (seed : ℕ) (policy : Policy) (cap_k : ℕ) (xs : List Example)
    → All Unweighted xs
    → is_accepted policy cap_k ≡ true
    → (kept : List Example) × (apply_weight_policy sha256 seed policy cap_k (dedupe_examples xs)
        ≡ some kept)
      × (is_honored policy cap_k kept ≡ true)
      × ((uid : String)
          → length (rows_of uid kept)
            ≡ quota policy cap_k (length (rows_of uid (dedupe_examples xs))))
unfolding apply_weight_policy is_honored
apply_weight_policy-honored sha256 seed cap1 cap_k xs plain accepted = (
  capped sha256 seed 1 xs,
  refl,
  capped-within_cap sha256 seed 1 xs plain,
  rows_of-capped sha256 seed 1 xs,
)
apply_weight_policy-honored sha256 seed capk cap_k xs plain accepted = (
  capped sha256 seed cap_k xs,
  ground arith,
  capped-within_cap sha256 seed cap_k xs plain,
  rows_of-capped sha256 seed cap_k xs,
)
apply_weight_policy-honored sha256 seed inverse cap_k xs plain accepted =
    (levelled xs, refl, levelled-equalized xs, length-levelled xs)
apply_weight_policy-honored sha256 seed unknown cap_k xs plain accepted = cc (accepted)
