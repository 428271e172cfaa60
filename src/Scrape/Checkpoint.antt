-- ===== src/Scrape/Checkpoint.antt =====
-- The progress of a scrape: `ScrapeCheckpoint` of src/icepick/allocation/scrape/checkpoint.py. A
-- candidate and a generated answer are values that JSON gives back as they are; a time is in seconds,
-- and a backoff in milliseconds. SHA-1 is a parameter.
pub mod Lines
pub mod Reload
pub mod Killed
pub mod Answers
use icepick.Prelude.{
  ℕ, suc, ◌+◌, String, Bool, true, false, Option, none, some, List, [], ◌∷◌, ◌++◌, map, length, ltb,
  leb, ◌==◌, if◌then◌else◌,
}
use Prim.Native.String.{slice}
use icepick.Prelude.Dict.{Dict, lookup, insert, set}
use icepick.Prelude.Sets.{member, add}
use icepick.Prelude.Decimal.{decimal}
use icepick.Batcher.JsonLines.{JsonLines, Line, blank, row, malformed, junk, all_lines, append_rows}
use icepick.PassK.Checkpoint.{LogFile, Log, commit as store, stored}
use icepick.PassK.Checkpoint.{load as load_log}

-- Totals of the throttle events; `statuses` counts each status.
pub record Telemetry : Type 0 where
  pub events : ℕ
  pub backoff : ℕ
  pub statuses : Dict ℕ

-- What stands under `_progress/`. The marker `rate_limited_at` may hold a text that is no time.
pub record Files (C R : Type 0) : Type 0 where
  pub candidates : JsonLines (String × C)
  pub papers_done : JsonLines (String × ℕ)
  pub qa_cache : LogFile R
  pub rate_limit_events : JsonLines (ℕ × ℕ)
  pub rate_limited_at : Option (Option ℕ)
  pub incomplete : Bool

pub record Checkpoint (C R : Type 0) : Type 0 where
  pub files : Files C R
  pub done : List String
  pub candidates_by_paper : Dict (List C)
  pub qa : Dict R
  pub telemetry : Telemetry
  pub resuming : Bool

-- The candidates under an id, none when there is no entry.
abbrev pub or_nil {ℓ} : {A : Type ℓ} → Option (List A) → List A
or_nil none = []
or_nil (some xs) = xs

abbrev or_zero : Option ℕ → ℕ
or_zero none = 0
or_zero (some n) = n

-- `_accumulate_rate_limit`
unfoldable pub accumulate : ℕ → ℕ → Telemetry → Telemetry
unfolding decimal
accumulate status backoff t = record {
  events = t.events + 1;
  backoff = t.backoff + backoff;
  statuses = set (decimal status) (or_zero (lookup (decimal status) t.statuses) + 1) t.statuses;
}

abbrev pub no_events : Telemetry
no_events = record { events = 0; backoff = 0; statuses = [] }

-- The loops of `_load` over what `_iter_jsonl` yields: a line that is not JSON is skipped wherever
-- it stands, and a missing key raises (`none`).
unfoldable pub load_candidates :
    {C : Type 0} → List (Line (String × C)) → Dict (List C) → Option (Dict (List C))
load_candidates [] d = some d
load_candidates (row (id, c) ∷ rest) d =
    load_candidates rest (insert id (or_nil (lookup id d) ++ c ∷ []) d)
load_candidates (blank ∷ rest) d = load_candidates rest d
load_candidates (junk ∷ rest) d = load_candidates rest d
load_candidates (malformed ∷ rest) d = none

unfoldable pub load_papers : List (Line (String × ℕ)) → List String → Option (List String)
load_papers [] done = some done
load_papers (row (id, n) ∷ rest) done = load_papers rest (add id done)
load_papers (blank ∷ rest) done = load_papers rest done
load_papers (junk ∷ rest) done = load_papers rest done
load_papers (malformed ∷ rest) done = none

unfoldable pub load_events : List (Line (ℕ × ℕ)) → Telemetry → Option Telemetry
unfolding accumulate
load_events [] t = some t
load_events (row (status, backoff) ∷ rest) t = load_events rest (accumulate status backoff t)
load_events (blank ∷ rest) t = load_events rest t
load_events (junk ∷ rest) t = load_events rest t
load_events (malformed ∷ rest) t = none

infixl 5 ◌>>=◌
abbrev ◌>>=◌ : {A B : Type 0} → Option A → (A → Option B) → Option B
none >>= f = none
some a >>= f = f a

-- `_statement_key`
unfoldable pub statement_key : (String → String) → String → String
statement_key sha1 statement = slice (sha1 statement) 0 16

module _ {C R : Type 0} where
  -- `ScrapeCheckpoint(progress_dir)`, with `_load`.
  unfoldable pub opened : Files C R → Option (Checkpoint C R)
  unfolding load_candidates load_papers load_events load_log
  opened f = do
    by_paper ← load_candidates (all_lines f.candidates) []
    papers ← load_papers (all_lines f.papers_done) []
    answers ← load_log f.qa_cache
    totals ← load_events (all_lines f.rate_limit_events) no_events
    some (record {
      files = f;
      done = papers;
      candidates_by_paper = by_paper;
      qa = answers;
      telemetry = totals;
      resuming = f.incomplete;
    })

  -- `begin` and `mark_complete`
  unfoldable pub begin : Checkpoint C R → Checkpoint C R
  begin k = record k { files = record k.files { incomplete = true } }

  unfoldable pub mark_complete : Checkpoint C R → Checkpoint C R
  mark_complete k = record k { files = record k.files { incomplete = false } }

  -- `stamp_rate_limited` and `clear_rate_limit`
  unfoldable pub stamp_rate_limited : ℕ → Checkpoint C R → Checkpoint C R
  stamp_rate_limited now k = record k {
    files = record k.files { rate_limited_at = some (some now) };
  }

  unfoldable pub clear_rate_limit : Checkpoint C R → Checkpoint C R
  clear_rate_limit k = record k { files = record k.files { rate_limited_at = none } }

  -- `enforce_rate_limit_cooldown`: the time at which to retry, when it raises. A cooldown of zero or
  -- less is zero here.
  unfoldable pub enforce_rate_limit_cooldown : ℕ → ℕ → Checkpoint C R → Option ℕ
  enforce_rate_limit_cooldown cooldown now k = elim k.files.rate_limited_at [
    | none ↦ none
    | some none ↦ none
    | some (some stamped) ↦
        if cooldown == 0
        then none
        else if ltb now (stamped + cooldown)
        then some (stamped + cooldown)
        else none
  ]

  -- `record_rate_limit`
  unfoldable pub record_rate_limit : ℕ → ℕ → Checkpoint C R → Checkpoint C R
  unfolding accumulate
  record_rate_limit status backoff k = record k {
    files = record k.files {
      rate_limit_events = append_rows ((status, backoff) ∷ []) k.files.rate_limit_events;
    };
    telemetry = accumulate status backoff k.telemetry;
  }

  -- `stored_candidates`
  unfoldable pub stored_candidates : String → Checkpoint C R → Option (List C)
  stored_candidates id k =
      if member id k.done then some (or_nil (lookup id k.candidates_by_paper)) else none

  -- The two files of `commit`, one after the other.
  abbrev pub write_candidates : String → List C → Files C R → Files C R
  write_candidates id cs f = record f {
    candidates = append_rows (map (λ c. (id, c)) cs) f.candidates;
  }

  abbrev pub write_paper : String → ℕ → Files C R → Files C R
  write_paper id n f = record f { papers_done = append_rows ((id, n) ∷ []) f.papers_done }

  -- `commit`
  unfoldable pub commit : String → List C → Checkpoint C R → Checkpoint C R
  commit id cs k = record k {
    files = write_paper id (length cs) (write_candidates id cs k.files);
    done = add id k.done;
    candidates_by_paper = insert id cs k.candidates_by_paper;
  }

  -- A run commits one paper after another.
  unfoldable pub commit_all : List (String × List C) → Checkpoint C R → Checkpoint C R
  unfolding commit
  commit_all [] k = k
  commit_all ((id, cs) ∷ papers) k = commit_all papers (commit id cs k)

  abbrev pub qa_log : Checkpoint C R → Log R
  qa_log k = record { entries = k.qa; file = k.files.qa_cache }

  -- `cached`, the function that `caching_generator` returns; `generate` gives no result when it raises.
  unfoldable pub cached :
      (String → String) → (String → Option R) → String → Checkpoint C R → Option R × Checkpoint C R
  unfolding statement_key
  cached sha1 generate statement k =
      let key = statement_key sha1 statement in
      elim (lookup key k.qa) [
        | some result ↦ (some result, k)
        | none ↦ elim (generate statement) [
          | none ↦ (none, k)
          | some result ↦
              let log = store (key, result) (qa_log k) in
              (
                some result,
                record k { files = record k.files { qa_cache = log.file }; qa = log.entries },
              )
        ]
      ]
