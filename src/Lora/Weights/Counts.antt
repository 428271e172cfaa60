-- ===== src/Lora/Weights/Counts.antt =====
-- How many rows of a record a cap keeps: src/loratrain/src/loratrain/build_dataset.py.
use icepick.Prelude.{
  ℕ, zero, suc, ◌≡◌, refl, sym, ap, ◌∙◌, String, true, false, ◌||◌, List, [], ◌∷◌, map, keep,
  length, take, All, All_imp, arith, leb, str_eq, eq_iff, str_eq_refl, if◌then◌else◌,
}
use icepick.Prelude.Sets.{member, IsDistinct}
use icepick.Lora.Weights.{Example, insert_ranked, ranked, select}

-- The smaller of two numbers.
abbrev pub min : ℕ → ℕ → ℕ
min a b = if leb a b then a else b

abbrev pub trace_of : Example → String
trace_of x = x.rollout_uid

-- How many items of a list are in a set.
abbrev how_many : List String → List String → ℕ
how_many s ids = length (keep (λ i. member i s) ids)

how_many-none : (ids : List String) → how_many [] ids ≡ 0
how_many-none [] = refl
how_many-none (i ∷ ids) = how_many-none ids

-- Without repetition, a text is there once or not at all.
how_many-absent :
    (k : String) (s ids : List String)
    → member k ids ≡ false
    → how_many (k ∷ s) ids ≡ how_many s ids
how_many-absent k s [] h = refl
how_many-absent k s (i ∷ ids) h = ground (arith, how_many-absent k s ids, eq_iff i k, eq_iff k i)

how_many-cons :
    (k : String) (s ids : List String)
    → member k s ≡ false
    → member k ids ≡ true
    → IsDistinct ids
    → how_many (k ∷ s) ids ≡ suc (how_many s ids)
how_many-cons k s [] out h d = cc (h)
how_many-cons k s (i ∷ ids) out h d =
    ground (arith, how_many-cons k s ids, how_many-absent k s ids, eq_iff i k, eq_iff k i)

-- A set of items of a list without repetition is found in it as often as it is large.
how_many-length :
    (s ids : List String)
    → IsDistinct s
    → All (λ k. member k ids ≡ true) s
    → IsDistinct ids
    → how_many s ids ≡ length s
how_many-length [] ids ds all d = how_many-none ids
how_many-length (k ∷ s) ids ds all d =
    how_many-cons k s ids ds.0 all.0 d ∙ ap suc (how_many-length s ids ds.1 all.1 d)

length-take : (n : ℕ) (s : List String) → length (take n s) ≡ min n (length s)
length-take zero s = ground arith
length-take (suc n) [] = ground arith
length-take (suc n) (x ∷ s) = ground (arith, length-take n s)

member-take :
    (k : String) (n : ℕ) (s : List String) → member k s ≡ false → member k (take n s) ≡ false
member-take k zero s h = refl
member-take k (suc n) [] h = refl
member-take k (suc n) (x ∷ s) h = ground (arith, member-take k n s)

take-IsDistinct : (n : ℕ) (s : List String) → IsDistinct s → IsDistinct (take n s)
take-IsDistinct zero s h = tt
take-IsDistinct (suc n) [] h = tt
take-IsDistinct (suc n) (x ∷ s) h = (member-take x n s h.0, take-IsDistinct n s h.1)

All-take : (P : String → Type 0) (n : ℕ) (s : List String) → All P s → All P (take n s)
All-take P zero s h = tt
All-take P (suc n) [] h = tt
All-take P (suc n) (x ∷ s) h = (h.0, All-take P n s h.1)

All-member : (s : List String) → All (λ k. member k s ≡ true) s
All-member [] = tt
All-member (x ∷ s) = (
  ground (arith, str_eq_refl x),
  All_imp (λ k. member k s ≡ true) (λ k. member k (x ∷ s) ≡ true) s (λ k m. ground arith)
      (All-member s),
)

module _ (sha256 : String → String) (seed : ℕ) where
  member-insert_ranked :
      (k : String) (x : Example) (xs : List Example)
      → member k (map trace_of (insert_ranked sha256 seed x xs))
        ≡ (str_eq x.rollout_uid k || member k (map trace_of xs))
  unfolding insert_ranked
  member-insert_ranked k x [] = refl
  member-insert_ranked k x (y ∷ ys) = ground (arith, member-insert_ranked k x ys)

  length-insert_ranked :
      (x : Example) (xs : List Example) → length (insert_ranked sha256 seed x xs) ≡ suc (length xs)
  unfolding insert_ranked
  length-insert_ranked x [] = refl
  length-insert_ranked x (y ∷ ys) = ground (arith, length-insert_ranked x ys)

  insert_ranked-IsDistinct :
      (x : Example) (xs : List Example)
      → member x.rollout_uid (map trace_of xs) ≡ false
      → IsDistinct (map trace_of xs)
      → IsDistinct (map trace_of (insert_ranked sha256 seed x xs))
  unfolding insert_ranked
  insert_ranked-IsDistinct x [] h d = (refl, tt)
  insert_ranked-IsDistinct x (y ∷ ys) h d = ground (
    arith,
    insert_ranked-IsDistinct x ys,
    member-insert_ranked y.rollout_uid x ys,
    eq_iff x.rollout_uid y.rollout_uid,
    eq_iff y.rollout_uid x.rollout_uid,
  )

  -- The ranked rows are the rows.
  record IsRanking (xs ys : List Example) : Type 0 where
    pub size : length ys ≡ length xs
    pub members : (k : String) → member k (map trace_of ys) ≡ member k (map trace_of xs)
    pub distinct : IsDistinct (map trace_of ys)

  ranked-IsRanking :
      (xs : List Example) → IsDistinct (map trace_of xs) → IsRanking xs (ranked sha256 seed xs)
  unfolding ranked
  ranked-IsRanking [] d = record { size = refl; members = λ k. refl; distinct = tt }
  ranked-IsRanking (x ∷ xs) d =
      let r = ranked-IsRanking xs d.1 in
      record {
        size = length-insert_ranked x (ranked sha256 seed xs) ∙ ap suc r.size;
        members = λ k.
            member-insert_ranked k x (ranked sha256 seed xs)
            ∙ ap (λ b. str_eq x.rollout_uid k || b) (r.members k);
        distinct =
            insert_ranked-IsDistinct x (ranked sha256 seed xs) (r.members x.rollout_uid ∙ d.0)
              r.distinct;
      }

  length-map : (xs : List Example) → length (map trace_of xs) ≡ length xs
  length-map [] = refl
  length-map (x ∷ xs) = ap suc (length-map xs)

  keep-how_many :
      (s : List String) (xs : List Example)
      → length (keep (λ x. member x.rollout_uid s) xs) ≡ how_many s (map trace_of xs)
  keep-how_many s [] = refl
  keep-how_many s (x ∷ xs) = ground (arith, keep-how_many s xs)

  -- A cap keeps as many rows of a record as it allows, or all of them.
  pub length-select :
      (cap : ℕ) (xs : List Example)
      → IsDistinct (map trace_of xs)
      → length (select sha256 seed cap xs) ≡ min cap (length xs)
  unfolding select
  length-select cap xs d =
      let r = ranked-IsRanking xs d in
      let ids = map trace_of (ranked sha256 seed xs) in
      keep-how_many (take cap ids) xs
      ∙ how_many-length (take cap ids) (map trace_of xs) (take-IsDistinct cap ids r.distinct)
          (All-take (λ k. member k (map trace_of xs) ≡ true) cap ids
            (All_imp (λ k. member k ids ≡ true) (λ k. member k (map trace_of xs) ≡ true) ids
              (λ k m. sym (r.members k) ∙ m) (All-member ids)))
          d
      ∙ length-take cap ids
      ∙ ap (min cap) (length-map (ranked sha256 seed xs) ∙ r.size)
