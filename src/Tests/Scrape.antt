-- ===== src/Tests/Scrape.antt =====
-- Runs of src/icepick/allocation/scrape/checkpoint.py.
use icepick.Prelude.{◌≡◌, refl, String, false, Option, none, some, List, [], ◌∷◌, take}
use icepick.Prelude.Dict.{Dict, lookup, or_else}
use icepick.Batcher.JsonLines.{empty_file}
use icepick.PassK.Checkpoint.{load, load_entries}
use icepick.Scrape.Checkpoint.{
  Files, Checkpoint, cached, no_events, load_events, opened, stored_candidates, write_candidates,
  commit, commit_all, enforce_rate_limit_cooldown, stamp_rate_limited,
}
use icepick.Scrape.Checkpoint.Answers.{IsSafe, ask_all, cached-once}
use icepick.Scrape.Checkpoint.Lines.{is_readable, rows_for, names}
use icepick.Scrape.Checkpoint.Reload.{InStep, held}
use icepick.Scrape.Checkpoint.Killed.{commit_all-reload, commit-killed}

abbrev no_files : Files String String
no_files = record {
  candidates = empty_file;
  papers_done = empty_file;
  qa_cache = empty_file;
  rate_limit_events = empty_file;
  rate_limited_at = none;
  incomplete = false;
}

abbrev fresh : Checkpoint String String
fresh = record {
  files = no_files;
  done = [];
  candidates_by_paper = [];
  qa = [];
  telemetry = no_events;
  resuming = false;
}

fresh-InStep : InStep fresh
unfolding is_readable load load_entries load_events stored_candidates held names
fresh-InStep = record {
  whole = record { candidates = refl; papers = refl };
  readable = record {
    candidates = refl;
    papers = refl;
    answers = ([], refl);
    events = (no_events, refl);
  };
  same = λ id. refl;
}

abbrev papers : Dict (List String)
papers = ("2501.00001", "a" ∷ "b" ∷ []) ∷ ("2501.00002", []) ∷ []

commit_all-reload_example :
    (k' : Checkpoint String String) × (opened (commit_all papers fresh).files ≡ some k')
    × ((id : String)
        → stored_candidates id k' ≡ or_else (lookup id papers) (stored_candidates id fresh))
unfolding rows_for
commit_all-reload_example =
    commit_all-reload papers fresh (refl, (refl, tt)) (refl, (refl, tt)) fresh-InStep

commit-killed_example :
    (k1 : Checkpoint String String) × (k2 : Checkpoint String String) × (opened
        (write_candidates "2501.00001" (take 1 ("a" ∷ "b" ∷ [])) no_files)
      ≡ some k1)
    × (stored_candidates "2501.00001" k1 ≡ none)
    × (stored_candidates "2501.00001" (commit "2501.00001" ("a" ∷ "b" ∷ []) k1)
        ≡ some ("a" ∷ "b" ∷ []))
    × (opened (commit "2501.00001" ("a" ∷ "b" ∷ []) k1).files ≡ some k2)
    × (stored_candidates "2501.00001" k2 ≡ some ("a" ∷ "a" ∷ "b" ∷ []))
unfolding rows_for stored_candidates
commit-killed_example = commit-killed "2501.00001" ("a" ∷ "b" ∷ []) 1 fresh fresh-InStep refl refl

cooldown_test : enforce_rate_limit_cooldown 1200 1500 (stamp_rate_limited 1000 fresh) ≡ some 2200
unfolding enforce_rate_limit_cooldown stamp_rate_limited
cooldown_test = refl

abbrev sha1 : String → String
sha1 text = text

abbrev answers : String → Option String
answers statement = some "42"

abbrev fails : String → Option String
fails statement = none

fresh-IsSafe : IsSafe fresh
unfolding load load_entries
fresh-IsSafe = record { readable = fresh-InStep.readable; synced = (refl, refl) }

cached-once_example :
    (k' : Checkpoint String String) × (opened
        (ask_all sha1 (("u", answers) ∷ ("t", fails) ∷ []) (cached sha1 answers "t" fresh).1).files
      ≡ some k')
    × ((other : String → Option String) → cached sha1 other "t" k' ≡ (some "42", k'))
cached-once_example =
    cached-once sha1 answers "t" "42" (("u", answers) ∷ ("t", fails) ∷ []) fresh fresh-IsSafe
      (unfold cached in refl)
