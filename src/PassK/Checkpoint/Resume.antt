-- ===== src/PassK/Checkpoint/Resume.antt =====
-- What a resumed run finds: src/icepick/processing/pass_at_k/checkpoint.py.
use icepick.Prelude.{◌≡◌, refl, sym, ap, ◌∙◌, String, none, some, List, [], ◌∷◌, ◌++◌}
use mathlib.Core.List.{append-nil}
use icepick.Prelude.Dict.{Dict, insert}
use icepick.Batcher.JsonLines.{Line, blank, row, malformed, junk, append_rows}
use icepick.PassK.Checkpoint.{LogFile, Log, load_entries, load, commit, commit_all}

module _ {ℓ} {A : Type ℓ} where
  load_entries-append :
      (xs ys : List (Line (String × A))) (d e : Dict A)
      → load_entries d xs ≡ some e
      → load_entries d (xs ++ ys) ≡ load_entries e ys
  unfolding load_entries
  load_entries-append [] ys d e h = let same : d ≡ e = cc in rw same refl
  load_entries-append (row (k, v) ∷ xs) ys d e h = load_entries-append xs ys (insert k v d) e h
  load_entries-append (blank ∷ xs) ys d e h = load_entries-append xs ys d e h
  load_entries-append (junk ∷ xs) ys d e h = load_entries-append xs ys d e h
  load_entries-append (malformed ∷ xs) ys d e h = cc (h)

  -- The file holds what is in memory, and ends in a newline.
  abbrev pub IsSynced : Log A → Type ℓ
  IsSynced log = (load log.file ≡ some log.entries) × (log.file.tail ≡ none)

  -- Without an unterminated line, only the lines are loaded.
  load-lines : (f : LogFile A) → f.tail ≡ none → load f ≡ load_entries [] f.lines
  unfolding load
  load-lines f h = rw h (ap (load_entries []) (append-nil f.lines))

  pub commit-IsSynced : (e : String × A) (log : Log A) → IsSynced log → IsSynced (commit e log)
  unfolding commit
  commit-IsSynced (k, v) log h =
      let before : load_entries [] log.file.lines ≡ some log.entries =
        sym (load-lines log.file h.1) ∙ h.0 in
      (
        rw h.1 (
            load-lines (record { lines = log.file.lines ++ row (k, v) ∷ []; tail = none }) refl
            ∙ load_entries-append log.file.lines (row (k, v) ∷ []) [] log.entries before
            ∙ unfold load_entries in refl),
        refl,
      )

  -- When the file holds what is in memory and ends in a newline, then after any commits a new process
  -- loads exactly what is in memory.
  pub commit_all-IsSynced :
      (es : List (String × A)) (log : Log A) → IsSynced log → IsSynced (commit_all es log)
  unfolding commit_all
  commit_all-IsSynced [] log h = h
  commit_all-IsSynced (e ∷ es) log h =
      commit_all-IsSynced es (commit e log) (commit-IsSynced e log h)

  -- What is written does not depend on what is in memory.
  file-commit_all :
      (es : List (String × A)) (log log' : Log A)
      → log.file ≡ log'.file
      → (commit_all es log).file ≡ (commit_all es log').file
  unfolding commit_all commit
  file-commit_all [] log log' h = h
  file-commit_all ((k, v) ∷ es) log log' h =
      file-commit_all es (commit (k, v) log) (commit (k, v) log') (ap (append_rows ((k, v) ∷ [])) h)

  -- A log without the entry that was committed behind a torn line.
  abbrev pub without : String × A → Log A → Log A
  without e log = record log { file = (commit e log).file }

  without-IsSynced :
      (e : String × A) (log : Log A)
      → log.file.tail ≡ some junk
      → load log.file ≡ some log.entries
      → IsSynced (without e log)
  unfolding commit
  without-IsSynced (k, v) log torn h =
      let before : load_entries [] (log.file.lines ++ junk ∷ []) ≡ some log.entries =
        unfold load in rw torn at h in
      (
        rw torn (
            load-lines (record { lines = log.file.lines ++ junk ∷ []; tail = none }) refl ∙ before),
        refl,
      )

  -- A run that resumes on a file that ends in a torn line, and commits entries to it, loses exactly
  -- the first of them: a new process loads what the other commits make of the log, as if the first
  -- had not been.
  pub commit_all-torn :
      (e : String × A) (es : List (String × A)) (log : Log A)
      → log.file.tail ≡ some junk
      → load log.file ≡ some log.entries
      → load (commit_all (e ∷ es) log).file ≡ some (commit_all es (without e log)).entries
  unfolding commit_all
  commit_all-torn e es log torn h =
      ap load (file-commit_all es (commit e log) (without e log) refl)
      ∙ (commit_all-IsSynced es (without e log) (without-IsSynced e log torn h)).0
