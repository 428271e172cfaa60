-- ===== src/PassK/Checkpoint.antt =====
-- The progress of a pass@k run: src/icepick/processing/pass_at_k/checkpoint.py. Its files of finished
-- records and of paid outputs are both logs of keys and values, in memory and on disk. The audit trail
-- of rollouts, which is only written, and the lock around each call are left out.
pub mod Resume
use icepick.Prelude.{String, Option, none, some, List, [], ◌∷◌}
use icepick.Prelude.Dict.{Dict, lookup, insert}
use icepick.Batcher.JsonLines.{JsonLines, Line, blank, row, malformed, junk, all_lines, append_rows}

-- A line of a log is its key and its value; a line that lacks one of them is `malformed`.
abbrev pub LogFile {ℓ} : Type ℓ → Type ℓ
LogFile A = JsonLines (String × A)

-- A log in memory and the file behind it.
pub record Log {ℓ} (A : Type ℓ) : Type ℓ where
  pub entries : Dict A
  pub file : LogFile A

module _ {ℓ} {A : Type ℓ} where
  -- The loop of `_load` over what `_iter_jsonl` yields: a line that is not JSON is skipped wherever it
  -- stands, and a missing key raises (`none`).
  unfoldable pub load_entries : Dict A → List (Line (String × A)) → Option (Dict A)
  load_entries d [] = some d
  load_entries d (row (key, value) ∷ rest) = load_entries (insert key value d) rest
  load_entries d (blank ∷ rest) = load_entries d rest
  load_entries d (junk ∷ rest) = load_entries d rest
  load_entries d (malformed ∷ rest) = none

  -- `_load`, of one of the files.
  unfoldable pub load : LogFile A → Option (Dict A)
  load file = load_entries [] (all_lines file)

  -- `commit_record` and `store_output`
  unfoldable pub commit : String × A → Log A → Log A
  commit (key, value) log = record {
    entries = insert key value log.entries;
    file = append_rows ((key, value) ∷ []) log.file;
  }

  -- `stored_record` and `cached_output`
  unfoldable pub stored : String → Log A → Option A
  stored key log = lookup key log.entries

  -- A run commits one entry after another.
  unfoldable pub commit_all : List (String × A) → Log A → Log A
  commit_all [] log = log
  commit_all (e ∷ es) log = commit_all es (commit e log)
