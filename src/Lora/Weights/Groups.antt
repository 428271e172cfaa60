-- ===== src/Lora/Weights/Groups.antt =====
-- The rows of a record among all rows: src/loratrain/src/loratrain/build_dataset.py.
use icepick.Prelude.{
  ◌≡◌, refl, sym, ap, ◌∙◌, String, Bool, true, false, ◌&&◌, ◌||◌, List, [], ◌∷◌, ◌++◌, map, keep,
  All, All_imp, All_both, arith, str_eq, eq_iff, str_eq_refl, if◌then◌else◌, Bool-cases, inl, inr,
}
use mathlib.Core.List.{append-nil, append_assoc}
use mathlib.Core.Path.{subst}
use icepick.Prelude.Dict.{Dict, lookup, set, lookup-set, keys, contains-member, PairSet, pair_in}
use icepick.Prelude.Sets.{member, IsDistinct}
use icepick.Lora.Weights.{
  Example, dedupe_from, dedupe_examples, or_nil, group_onto, by_uid, kept_of,
}
use icepick.Lora.Weights.Counts.{trace_of}

-- The rows of a record, in their order.
abbrev pub rows_of : String → List Example → List Example
rows_of uid xs = keep (λ x. str_eq x.uid uid) xs

rows_of-append :
    (uid : String) (xs ys : List Example)
    → rows_of uid (xs ++ ys) ≡ rows_of uid xs ++ rows_of uid ys
rows_of-append uid [] ys = refl
rows_of-append uid (x ∷ xs) ys = ground (arith, rows_of-append uid xs ys)

-- A dict of the rows of `xs`: no key twice, and under each key its rows.
pub record Groups (xs : List Example) (d : Dict (List Example)) : Type 0 where
  pub once : IsDistinct (keys d)
  pub rows : (uid : String) → or_nil (lookup uid d) ≡ rows_of uid xs

member-set :
    (k j : String) (v : List Example) (d : Dict (List Example))
    → member j (keys (set k v d)) ≡ (str_eq k j || member j (keys d))
member-set k j v [] = refl
member-set k j v ((i, w) ∷ d) =
    ground (arith, member-set k j v d, eq_iff i k, eq_iff i j, eq_iff k j)

set-IsDistinct :
    (k : String) (v : List Example) (d : Dict (List Example))
    → IsDistinct (keys d)
    → IsDistinct (keys (set k v d))
set-IsDistinct k v [] h = (refl, tt)
set-IsDistinct k v ((i, w) ∷ d) h =
    ground (arith, set-IsDistinct k v d, member-set k i v d, eq_iff i k, eq_iff k i)

group_onto-Groups :
    (ys : List Example) (d : Dict (List Example)) (xs : List Example)
    → Groups ys d
    → Groups (ys ++ xs) (group_onto d xs)
unfolding group_onto
group_onto-Groups ys d [] g = rw (append-nil ys) g
group_onto-Groups ys d (x ∷ xs) g = rw (← append_assoc ys (x ∷ []) xs) (
    group_onto-Groups (ys ++ x ∷ []) (set x.uid (or_nil (lookup x.uid d) ++ x ∷ []) d) xs (record {
      once = set-IsDistinct x.uid (or_nil (lookup x.uid d) ++ x ∷ []) d g.once;
      rows = λ uid. ground (
        arith,
        lookup-set x.uid uid (or_nil (lookup x.uid d) ++ x ∷ []) d,
        g.rows uid,
        rows_of-append uid ys (x ∷ []),
        eq_iff x.uid uid,
        append-nil (rows_of uid ys),
      );
    }))

pub by_uid-Groups : (xs : List Example) → Groups xs (by_uid xs)
by_uid-Groups xs = group_onto-Groups [] [] xs (record { once = tt; rows = λ uid. refl })

keys-apart :
    (k : String) (d : Dict (List Example))
    → member k (keys d) ≡ false
    → All (λ e. str_eq e.0 k ≡ false) d
keys-apart k [] h = tt
keys-apart k ((j, v) ∷ d) h = (ground arith, keys-apart k d (ground arith))

-- Under each key of a dict without repetition stands what `lookup` gives.
pub All-entries :
    (d : Dict (List Example)) → IsDistinct (keys d) → All (λ e. e.1 ≡ or_nil (lookup e.0 d)) d
All-entries [] h = tt
All-entries ((k, v) ∷ d) h = (
  ground (arith, str_eq_refl k),
  All_imp (λ e. (e.1 ≡ or_nil (lookup e.0 d)) × (str_eq e.0 k ≡ false))
      (λ e. e.1 ≡ or_nil (lookup e.0 ((k, v) ∷ d))) d
      (λ e p. ground (arith, p.0, p.1, eq_iff e.0 k, eq_iff k e.0))
      (All_both (λ e. e.1 ≡ or_nil (lookup e.0 d)) (λ e. str_eq e.0 k ≡ false) d (All-entries d h.1)
        (keys-apart k d h.0)),
)

-- All rows are of one record.
abbrev pub Owned : String → List Example → Type 0
Owned uid xs = All (λ x. str_eq x.uid uid ≡ true) xs

pub rows_of-Owned : (uid : String) (xs : List Example) → Owned uid (rows_of uid xs)
rows_of-Owned uid [] = tt
rows_of-Owned uid (x ∷ xs) = ground (arith, rows_of-Owned uid xs)

rows_of-eq-Owned :
    (k uid : String) (v : List Example)
    → Owned k v
    → rows_of uid v ≡ (if str_eq k uid then v else [])
rows_of-eq-Owned k uid [] h = ground arith
rows_of-eq-Owned k uid (x ∷ v) h =
    ground
      (arith, rows_of-eq-Owned k uid v h.1, h.0, eq_iff x.uid k, eq_iff x.uid uid, eq_iff k uid)

-- What is kept of the groups is kept of the rows of each record.
module _ (f : List Example → List Example)
    (owned : (uid : String) (v : List Example) → Owned uid v → Owned uid (f v))
    (empty : f [] ≡ []) where
  rows_of-kept :
      (uid : String) (d : Dict (List Example))
      → IsDistinct (keys d)
      → All (λ e. Owned e.0 e.1) d
      → rows_of uid (kept_of f d) ≡ f (or_nil (lookup uid d))
  unfolding kept_of
  rows_of-kept uid [] h all = sym empty
  rows_of-kept uid ((k, v) ∷ d) h all =
      rows_of-append uid (f v) (kept_of f d)
      ∙ ground (
        arith,
        rows_of-eq-Owned k uid (f v) (owned k v all.0),
        rows_of-kept uid d h.1 all.1,
        append-nil (f v),
        contains-member uid d,
        contains-member k d,
        h.0,
        eq_iff k uid,
        empty,
      )

  pub rows_of-kept_of :
      (uid : String) (xs : List Example) → rows_of uid (kept_of f (by_uid xs)) ≡ f (rows_of uid xs)
  rows_of-kept_of uid xs =
      let g = by_uid-Groups xs in
      rows_of-kept uid (by_uid xs) g.once (
        All_imp (λ e. e.1 ≡ or_nil (lookup e.0 (by_uid xs))) (λ e. Owned e.0 e.1) (by_uid xs)
          (λ e same. subst (Owned e.0) (sym (same ∙ g.rows e.0)) (rows_of-Owned e.0 xs))
          (All-entries (by_uid xs) g.once))
      ∙ ap f (g.rows uid)

-- Some row has the record and the trace.
abbrev has : String → String → List Example → Bool
has uid trace [] = false
has uid trace (x ∷ xs) = (str_eq x.uid uid && str_eq x.rollout_uid trace) || has uid trace xs

has-dedupe :
    (uid trace : String) (seen : PairSet) (xs : List Example)
    → pair_in uid trace seen ≡ true
    → has uid trace (dedupe_from seen xs) ≡ false
unfolding dedupe_from
has-dedupe uid trace seen [] h = refl
has-dedupe uid trace seen (x ∷ xs) h = ground (
  arith,
  has-dedupe uid trace seen xs h,
  has-dedupe uid trace ((x.uid, x.rollout_uid) ∷ seen) xs,
  eq_iff x.uid uid,
  eq_iff x.rollout_uid trace,
)

member-rows_of :
    (uid trace : String) (xs : List Example)
    → member trace (map trace_of (rows_of uid xs)) ≡ has uid trace xs
member-rows_of uid trace [] = refl
member-rows_of uid trace (x ∷ xs) = ground (arith, member-rows_of uid trace xs)

dedupe_from-IsDistinct :
    (uid : String) (seen : PairSet) (xs : List Example)
    → IsDistinct (map trace_of (rows_of uid (dedupe_from seen xs)))
unfolding dedupe_from
dedupe_from-IsDistinct uid seen [] = tt
dedupe_from-IsDistinct uid seen (x ∷ xs) = elim (Bool-cases (pair_in x.uid x.rollout_uid seen)) [
  | inl again ↦ rw again (dedupe_from-IsDistinct uid seen xs)
  | inr fresh ↦
      let seen' : PairSet = (x.uid, x.rollout_uid) ∷ seen in
      rw fresh (
        ground (
          arith,
          dedupe_from-IsDistinct uid seen' xs,
          member-rows_of uid x.rollout_uid (dedupe_from seen' xs),
          has-dedupe x.uid x.rollout_uid seen' xs,
          str_eq_refl x.uid,
          str_eq_refl x.rollout_uid,
          eq_iff x.uid uid,
        ))
]

-- After `dedupe_examples` a record has no trace twice.
pub dedupe_examples-IsDistinct :
    (uid : String) (xs : List Example)
    → IsDistinct (map trace_of (rows_of uid (dedupe_examples xs)))
unfolding dedupe_examples
dedupe_examples-IsDistinct uid xs = dedupe_from-IsDistinct uid [] xs
