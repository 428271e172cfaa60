-- ===== src/Lora/Safetensors/Shards.antt =====
-- How the names of tensors are split: shard_tensor_names of
-- src/loratrain/src/loratrain/gguf_to_hf.py.
use icepick.Prelude.{
  ℕ, ◌+◌, ◌≤◌, ◌<◌, ◌≡◌, ◌⊎◌, inl, inr, refl, sym, ap, ◌∙◌, String, List, [], ◌∷◌, ◌++◌, length,
  All, arith, ltb, Bool-cases,
}
use mathlib.Core.List.{append_assoc}
use mathlib.Core.Path.{subst}
use icepick.Lora.Safetensors.{shard_from, shard_tensor_names}

-- The shards, one after the other.
unfoldable pub joined : List (List String) → List String
joined [] = []
joined (s ∷ ss) = s ++ joined ss

module _ (sizes : String → ℕ) (most : ℕ) where
  abbrev pub total : List String → ℕ
  total [] = 0
  total (n ∷ ns) = sizes n + total ns

  -- A shard within the limit, or of one tensor.
  abbrev pub Fits : List String → Type 0
  Fits s = (total s ≤ most) ⊎ (length s ≤ 1)

  -- A name that does not fit behind a shard any more.
  abbrev Overflows : List String → List String → Type 0
  Overflows s [] = ⊥
  Overflows s (n ∷ ns) = most < total s + sizes n

  -- The first tensor of each shard did not fit into the shard in front of it.
  abbrev pub IsGreedy : List (List String) → Type 0
  IsGreedy [] = Unit
  IsGreedy (s ∷ []) = Unit
  IsGreedy (s ∷ t ∷ ss) = Overflows s t × IsGreedy (t ∷ ss)

  total-snoc : (s : List String) (n : String) → total (s ++ n ∷ []) ≡ total s + sizes n
  total-snoc [] n = omega arith
  total-snoc (m ∷ s) n = omega (arith, total-snoc s n)

  IsGreedy-cons :
      (s : List String) (n : String) (xs : List String) (ss rest : List (List String))
      → ss ≡ (n ∷ xs) ∷ rest
      → most < total s + sizes n
      → IsGreedy ss
      → IsGreedy (s ∷ ss)
  IsGreedy-cons s n xs ss rest shape over g =
      subst (λ l. IsGreedy (s ∷ l)) (sym shape) (over, subst IsGreedy shape g)

  -- What the loop gives from a shard with a first name on.
  record Splits (c : String) (cs names : List String) (ss : List (List String)) : Type 0 where
    pub joins : joined ss ≡ (c ∷ cs) ++ names
    pub fit : All Fits ss
    pub greedy : IsGreedy ss
    pub first : (xs : List String) × (rest : List (List String)) × (ss ≡ (c ∷ xs) ∷ rest)

  shard_from-Splits :
      (c : String) (cs : List String) (n : ℕ) (names : List String)
      → n ≡ total (c ∷ cs)
      → Fits (c ∷ cs)
      → Splits c cs names (shard_from sizes most (c ∷ cs) n names)
  unfolding shard_from joined
  shard_from-Splits c cs n [] e fits = record {
    joins = refl;
    fit = (fits, tt);
    greedy = tt;
    first = (cs, [], refl);
  }
  shard_from-Splits c cs n (name ∷ names) e fits = elim (Bool-cases (ltb most (n + sizes name))) [
    | inl over ↦
        let next = shard_from-Splits name [] (sizes name) names (omega arith) (inr (omega arith)) in
        let (xs, rest, shape) = next.first in
        rw over (record {
          joins = ap (λ l. (c ∷ cs) ++ l) next.joins;
          fit = (fits, next.fit);
          greedy =
              IsGreedy-cons (c ∷ cs) name xs (shard_from sizes most (name ∷ []) (sizes name) names)
                rest shape (ground arith) next.greedy;
          first = (cs, shard_from sizes most (name ∷ []) (sizes name) names, refl);
        })
    | inr room ↦
        let next =
          shard_from-Splits c (cs ++ name ∷ []) (n + sizes name) names
            (omega (arith, total-snoc (c ∷ cs) name)) (inl (ground (arith, total-snoc cs name))) in
        rw room (record {
          joins = next.joins ∙ append_assoc (c ∷ cs) (name ∷ []) names;
          fit = next.fit;
          greedy = next.greedy;
          first = next.first;
        })
  ]

  -- The split of a list of names: the shards are the list in its order, each of them is within the
  -- limit or a single tensor, and each begins with a tensor that did not fit into the one in front.
  pub record IsSplit (names : List String) (ss : List (List String)) : Type 0 where
    pub joins : joined ss ≡ names
    pub fit : All Fits ss
    pub greedy : IsGreedy ss

  -- For any sizes and any limit, the shards are the list of names in its order, each of them is within
  -- the limit or has one tensor at most, and each but the first begins with a tensor that would have
  -- brought the one in front of it over the limit.
  pub shard_tensor_names-IsSplit :
      (names : List String) → IsSplit names (shard_tensor_names sizes most names)
  unfolding shard_tensor_names shard_from joined
  shard_tensor_names-IsSplit [] = record {
    joins = refl;
    fit = (inr (omega arith), tt);
    greedy = tt;
  }
  shard_tensor_names-IsSplit (name ∷ names) =
      let s = shard_from-Splits name [] (0 + sizes name) names (omega arith) (inr (omega arith)) in
      record { joins = s.joins; fit = s.fit; greedy = s.greedy }
