-- ===== src/Batcher/Tick/Lowest.antt =====
-- The batch that is in flight: `_find_in_flight` of src/icepick/batcher/daemon.py.
use icepick.Prelude.{
  ℕ, ◌≤◌, ◌≡◌, refl, ap, ◌∙◌, Bool, true, false, ◌&&◌, ◌||◌, none, some, [], ◌∷◌, All, arith, ◌==◌,
  Bool-cases, Option-cases, inl, inr,
}
use icepick.Batcher.State.{read_state}
use icepick.Batcher.Disk.{BatchDir, Batches}
use icepick.Batcher.Tick.{is_open, find_in_flight}

abbrev is_open_dir : BatchDir → Bool
is_open_dir b = is_open (read_state b.state).state

-- A directory with the number is open.
abbrev has_open : ℕ → Batches → Bool
has_open n [] = false
has_open n ((k, b) ∷ bs) = (k == n && is_open_dir b) || has_open n bs

-- The open batch with the lowest number is the one with this number.
pub record IsLowestOpen (n : ℕ) (bs : Batches) : Type 0 where
  pub there : has_open n bs ≡ true
  pub lowest : All (λ e. is_open_dir e.1 ≡ true → n ≤ e.0) bs

find_in_flight-none : (n : ℕ) (bs : Batches) → find_in_flight bs ≡ none → has_open n bs ≡ false
unfolding find_in_flight
find_in_flight-none n [] h = refl
find_in_flight-none n ((k, b) ∷ bs) h = elim (Option-cases (find_in_flight bs)) [
  | inl nothing ↦ ground (arith, find_in_flight-none n bs nothing)
  | inr (m, found) ↦ ground (arith, found)
]

find_in_flight-has_open : (m : ℕ) (bs : Batches) → find_in_flight bs ≡ some m → has_open m bs ≡ true
unfolding find_in_flight
find_in_flight-has_open m [] h = cc
find_in_flight-has_open m ((k, b) ∷ bs) h = elim (Option-cases (find_in_flight bs)) [
  | inl nothing ↦ ground (arith, nothing)
  | inr (l, found) ↦ ground (arith, found, find_in_flight-has_open l bs found)
]

find_in_flight-le :
    (m n : ℕ) (bs : Batches) → find_in_flight bs ≡ some m → has_open n bs ≡ true → m ≤ n
unfolding find_in_flight
find_in_flight-le m n [] h o = cc (o)
find_in_flight-le m n ((k, b) ∷ bs) h o = elim (Option-cases (find_in_flight bs)) [
  | inl nothing ↦ ground (arith, nothing, find_in_flight-none n bs nothing)
  | inr (l, found) ↦ elim (Bool-cases (has_open n bs)) [
    | inl later ↦ ground (arith, found, find_in_flight-le l n bs found later)
    | inr here ↦ ground (arith, found, here)
  ]
]

has_open-le :
    (m n : ℕ) (bs : Batches)
    → All (λ e. is_open_dir e.1 ≡ true → n ≤ e.0) bs
    → has_open m bs ≡ true
    → n ≤ m
has_open-le m n [] all o = cc (o)
has_open-le m n ((k, b) ∷ bs) all o = elim (Bool-cases (has_open m bs)) [
  | inl later ↦ has_open-le m n bs all.1 later
  | inr here ↦
      let opened : is_open_dir b ≡ true = ground (arith, o, here) in
      let above = all.0 opened in ground (arith, above, o, here)
]

-- The search finds the open batch with the lowest number.
pub IsLowestOpen-find_in_flight :
    (n : ℕ) (bs : Batches) → IsLowestOpen n bs → find_in_flight bs ≡ some n
IsLowestOpen-find_in_flight n bs h = elim (Option-cases (find_in_flight bs)) [
  | inl nothing ↦ absurd (ground (arith, find_in_flight-none n bs nothing, h.there))
  | inr (m, found) ↦
      let above = has_open-le m n bs h.lowest (find_in_flight-has_open m bs found) in
      let below = find_in_flight-le m n bs found h.there in
      let same : m ≡ n = omega arith in found ∙ ap some same
]
