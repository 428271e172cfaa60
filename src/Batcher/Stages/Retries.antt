-- ===== src/Batcher/Stages/Retries.antt =====
-- Which attempt `with_retries` of src/icepick/batcher/stages.py returns.
use icepick.Prelude.{
  ℕ, zero, suc, ◌+◌, ◌-◌, ◌≤◌, ◌≡◌, ◌⊎◌, inl, inr, refl, ap, sym, ◌∙◌, Bool, true, false, not, ◌&&◌,
  List, [], ◌∷◌, length, ltb, if◌then◌else◌, arith, Bool-cases,
}
use icepick.Batcher.Stages.{StageOutcome, backoff, Retried, attempt_of, attempts_from, with_retries}

abbrev pub nth : ℕ → List ℕ → ℕ
nth i [] = 0
nth zero (b ∷ bs) = b
nth (suc i) (b ∷ bs) = nth i bs

-- The pause with the index, or the last one when there are fewer.
abbrev pub nth_or_last : ℕ → List ℕ → ℕ
nth_or_last i bs = nth (if ltb i (length bs) then i else length bs - 1) bs

backoff-nth : (bs : List ℕ) (i : ℕ) → backoff bs i ≡ nth_or_last i bs
unfolding backoff
backoff-nth [] i = refl
backoff-nth (b ∷ []) zero = refl
backoff-nth (b ∷ []) (suc i) = ground arith
backoff-nth (b ∷ c ∷ bs) zero = ground arith
backoff-nth (b ∷ c ∷ bs) (suc i) =
    backoff-nth (c ∷ bs) i ∙ elim (Bool-cases (ltb i (length (c ∷ bs)))) [
      | inl inside ↦
          let inside' : ltb (suc i) (length (b ∷ c ∷ bs)) ≡ true = ground arith in
          rw (inside, inside') refl
      | inr outside ↦
          let outside' : ltb (suc i) (length (b ∷ c ∷ bs)) ≡ false = ground arith in
          let shorter : suc (length bs) - 1 ≡ length bs = omega arith in
          let longer : suc (suc (length bs)) - 1 ≡ suc (length bs) = omega arith in
          rw (outside, outside', shorter, longer) refl
    ]

module _ (retryable : StageOutcome → Bool) (backoffs : List ℕ) (fn : ℕ → StageOutcome) where
  -- An attempt after which another may follow.
  abbrev pub fails : ℕ → Bool
  fails n =
      not (attempt_of retryable backoffs fn n).ok && retryable (attempt_of retryable backoffs fn n)

  -- The pauses after `count` attempts from attempt `n` on.
  unfoldable pub pauses : ℕ → ℕ → List ℕ
  pauses zero n = []
  pauses (suc count) n = nth_or_last (n - 1) backoffs ∷ pauses count (n + 1)

  -- All of `count` attempts from `n` on fail and may be tried again.
  unfoldable pub AllFail : ℕ → ℕ → Type 0
  AllFail zero n = Unit
  AllFail (suc count) n = (fails n ≡ true) × AllFail count (n + 1)

  -- The run stops at the attempt that comes `count` after `n`.
  pub record StopsAt (left n count : ℕ) (r : Retried) : Type 0 where
    pub most : count ≤ left
    pub outcome : r.outcome ≡ attempt_of retryable backoffs fn (n + count)
    pub sleeps : r.sleeps ≡ pauses count n
    pub failed : AllFail count n
    pub last : (count ≡ left) ⊎ (fails (n + count) ≡ false)

  stops :
      (left n : ℕ)
      → fails n ≡ false
      → attempts_from retryable backoffs fn (suc left) n
        ≡ record { outcome = attempt_of retryable backoffs fn n; sleeps = [] }
  unfolding attempts_from
  stops left n h = ground arith

  goes_on :
      (left n : ℕ)
      → fails n ≡ true
      → attempts_from retryable backoffs fn (suc left) n ≡ record {
        outcome = (attempts_from retryable backoffs fn left (n + 1)).outcome;
        sleeps =
            backoff backoffs (n - 1) ∷ (attempts_from retryable backoffs fn left (n + 1)).sleeps;
      }
  unfolding attempts_from
  goes_on left n h = ground arith

  last_next :
      (left n count : ℕ)
      → n + 1 + count ≡ n + suc count
      → (count ≡ left) ⊎ (fails (n + 1 + count) ≡ false)
      → (suc count ≡ suc left) ⊎ (fails (n + suc count) ≡ false)
  last_next left n count e (inl h) = inl (ap suc h)
  last_next left n count e (inr h) = inr (ap fails (sym e) ∙ h)

  attempts_from-StopsAt :
      (left n : ℕ) → (count : ℕ) × StopsAt left n count (attempts_from retryable backoffs fn left n)
  unfolding attempts_from pauses AllFail
  attempts_from-StopsAt zero n = (
    0,
    record {
      most = omega arith;
      outcome = ap (attempt_of retryable backoffs fn) (omega arith);
      sleeps = refl;
      failed = tt;
      last = inl refl;
    },
  )
  attempts_from-StopsAt (suc left) n = elim (Bool-cases (fails n)) [
    | inr done ↦
        let n0 : n + 0 ≡ n = omega arith in
        (
          0,
          record {
            most = omega arith;
            outcome = rw (stops left n done) (ap (attempt_of retryable backoffs fn) (omega arith));
            sleeps = rw (stops left n done) refl;
            failed = tt;
            last = inr (ap fails n0 ∙ done);
          },
        )
    | inl again ↦
        let (count, s) = attempts_from-StopsAt left (n + 1) in
        let next : n + 1 + count ≡ n + suc count = omega arith in
        (
          suc count,
          record {
            most = omega (arith, s.most);
            outcome =
                rw (goes_on left n again) (s.outcome ∙ ap (attempt_of retryable backoffs fn) next);
            sleeps = rw (goes_on left n again) (
                ap (λ b. b ∷ (attempts_from retryable backoffs fn left (n + 1)).sleeps)
                  (backoff-nth backoffs (n - 1))
                ∙ ap (λ l. nth_or_last (n - 1) backoffs ∷ l) s.sleeps);
            failed = (again, s.failed);
            last = last_next left n count next s.last;
          },
        )
  ]

  -- `with_retries` makes between one attempt and `more + 1` of them and returns the outcome of the
  -- last one with its number; each attempt before it failed in a way that may be retried, and was
  -- followed by the pause with its number, or by the last pause when there are fewer; it is the last one since no more are allowed, or since it succeeded or
  -- failed for good.
  pub with_retries-StopsAt :
      (more : ℕ) → (count : ℕ) × StopsAt more 1 count (with_retries retryable backoffs fn more)
  unfolding with_retries
  with_retries-StopsAt more = attempts_from-StopsAt more 1
