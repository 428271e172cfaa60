-- ===== src/Batcher/Stages.antt =====
-- The retries of a stage: `with_retries` of src/icepick/batcher/stages.py. What a stage runs is a
-- subprocess, so that its outcome is a function of the attempt.
pub mod Retries
use icepick.Prelude.{
  ℕ, zero, suc, ◌+◌, ◌-◌, String, Bool, true, false, not, ◌||◌, ◌&&◌, Option, none, some, List, [],
  ◌∷◌, str_eq, if◌then◌else◌,
}
use icepick.Prelude.Dict.{Dict}
use Prim.Native.Char.{Char, code}
use icepick.Prelude.{◌==◌}

-- `attempts` is data['attempts'] and `cost_usd` is data['cost_usd'], in ten-thousandths of a dollar;
-- `values` holds the text of the other entries.
pub record StageOutcome : Type 0 where
  pub ok : Bool
  pub kind : String
  pub detail : String
  pub cost_usd : Option ℕ
  pub values : Dict String
  pub attempts : Option ℕ

-- `text.startswith(marker)`
abbrev pub starts_with : String → String → Bool
starts_with String.[] text = true
starts_with (String.◌∷◌ c marker) String.[] = false
starts_with (String.◌∷◌ c marker) (String.◌∷◌ d text) = code c == code d && starts_with marker text

-- `marker in text`
unfoldable pub occurs : String → String → Bool
occurs marker String.[] = starts_with marker String.[]
occurs marker (String.◌∷◌ c text) = starts_with marker (String.◌∷◌ c text) || occurs marker text

abbrev pub any_of : (String → Bool) → List String → Bool
any_of p [] = false
any_of p (s ∷ ss) = p s || any_of p ss

abbrev pub transient_markers : List String
transient_markers = "529" ∷ "overloaded" ∷ "timeout" ∷ "connection" ∷ "rate" ∷ []

-- `_default_is_retryable`; the kinds that are never retried are not among the two that may be.
unfoldable pub is_retryable : (String → String) → StageOutcome → Bool
unfolding occurs
is_retryable lower o =
    if any_of (str_eq o.kind)
      ("cost_guard_tripped" ∷ "mount_verification_failed" ∷ "mount_dirty" ∷ "qwen_slot_busy" ∷ [])
    then false
    else if not (any_of (str_eq o.kind) ("exec_failed" ∷ "passk_interrupted" ∷ []))
    then false
    else any_of (λ marker. occurs (lower marker) (lower o.detail)) transient_markers

-- `backoffs[min(index, len(backoffs) - 1)]`; an empty sequence raises in Python, and no call passes one.
unfoldable pub backoff : List ℕ → ℕ → ℕ
backoff [] index = 0
backoff (b ∷ []) index = b
backoff (b ∷ c ∷ bs) zero = b
backoff (b ∷ c ∷ bs) (suc index) = backoff (c ∷ bs) index

pub record Retried : Type 0 where
  pub outcome : StageOutcome
  pub sleeps : List ℕ

module _ (retryable : StageOutcome → Bool) (backoffs : List ℕ) (fn : ℕ → StageOutcome) where
  -- `last_outcome`, with its number of the attempt.
  abbrev pub attempt_of : ℕ → StageOutcome
  attempt_of n = record (fn n) { attempts = some n }

  -- The loop from attempt `n` on, when `left` more may follow it.
  unfoldable pub attempts_from : ℕ → ℕ → Retried
  attempts_from zero n = record { outcome = attempt_of n; sleeps = [] }
  attempts_from (suc left) n =
      let o = attempt_of n in
      let later = attempts_from left (n + 1) in
      if o.ok || not (retryable o)
      then record { outcome = o; sleeps = [] }
      else record { outcome = later.outcome; sleeps = backoff backoffs (n - 1) ∷ later.sleeps }

  -- `with_retries` with `max_attempts = more + 1`.
  unfoldable pub with_retries : ℕ → Retried
  unfolding attempts_from
  with_retries more = attempts_from more 1
