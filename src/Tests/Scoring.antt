-- ===== src/Tests/Scoring.antt =====
-- Runs of src/icepick/processing/pass_at_k/scoring.py.
use icepick.Prelude.{
  ◌*◌, ◌≤◌, ◌<◌, ◌≡◌, refl, arith, String, Option, none, some, List, [], ◌∷◌, ◌++◌,
}
use icepick.Batcher.Identity.{is_space}
use icepick.PassK.Tally.{
  Verdict, Tally, tally_rollouts, tally_pairs, count_up, most_common, modal_n, derive_label,
  label_of,
}
use icepick.PassK.Tally.Counts.{is_correct, is_degenerate, how_many, how_often}
use icepick.PassK.Tally.Meaning.{IsTally, tally_rollouts-IsTally, label_of-misdirection}
use icepick.Batcher.JsonLines.{empty_file, junk}
use icepick.PassK.Checkpoint.{Log, load, load_entries, commit, commit_all, stored}
use icepick.PassK.Checkpoint.Resume.{IsSynced, without, commit_all-IsSynced, commit_all-torn}
use icepick.PassK.Boxed.{
  Text, marker, open_brace, close_brace, strip, walk, from_last, from_brace, extract_boxed,
}
use icepick.PassK.Boxed.Braces.{nil, plain, group, extract_boxed-Balanced}

abbrev verdicts : List Verdict
verdicts = Verdict.wrong ∷ Verdict.wrong ∷ Verdict.wrong ∷ Verdict.degenerate ∷ []

abbrev candidates : List (Option String)
candidates = some "7" ∷ some "9" ∷ some "7" ∷ none ∷ []

abbrev tally : Tally
tally = record { n_correct = 0; n_wrong = 3; n_degenerate = 1; wrongs = ("7", 2) ∷ ("9", 1) ∷ [] }

tally_rollouts-IsTally_example : IsTally verdicts candidates tally
unfolding tally_rollouts tally_pairs count_up
tally_rollouts-IsTally_example = tally_rollouts-IsTally verdicts candidates tally refl

label_of-misdirection_example :
    (c : String) × (4 ≤ 2 * how_often c verdicts candidates)
    × (8 * how_many is_correct verdicts < 4)
    × (2 * how_many is_degenerate verdicts < 4)
unfolding tally_rollouts tally_pairs count_up label_of derive_label modal_n most_common
label_of-misdirection_example =
    label_of-misdirection verdicts candidates tally (omega arith) refl refl

-- "{1}" in the box of "\\boxed{ {1}}."
abbrev braced : Text
braced = 32 ∷ open_brace ∷ ((49 ∷ []) ++ close_brace ∷ [])

extract_boxed-Balanced_example :
    extract_boxed ((88 ∷ []) ++ (marker ++ (open_brace ∷ (braced ++ close_brace ∷ 46 ∷ []))))
    ≡ some (strip braced)
unfolding from_last
extract_boxed-Balanced_example =
    extract_boxed-Balanced (88 ∷ []) braced (46 ∷ [])
      (plain refl refl (group (plain refl refl nil) nil)) refl

boxed_test :
    extract_boxed (marker ++ (open_brace ∷ (braced ++ close_brace ∷ [])))
    ≡ some (open_brace ∷ 49 ∷ close_brace ∷ [])
unfolding extract_boxed from_last from_brace walk strip is_space
boxed_test = refl

abbrev empty_log : Log String
empty_log = record { entries = []; file = empty_file }

-- The process was killed while it wrote its first line.
abbrev torn_log : Log String
torn_log = record { entries = []; file = record { lines = []; tail = some junk } }

commit_all-IsSynced_example :
    IsSynced (commit_all (("k", "output") ∷ ("l", "other") ∷ []) empty_log)
unfolding load load_entries
commit_all-IsSynced_example =
    commit_all-IsSynced (("k", "output") ∷ ("l", "other") ∷ []) empty_log (refl, refl)

commit_all-torn_example :
    load (commit_all (("k", "output") ∷ ("l", "other") ∷ []) torn_log).file
    ≡ some (commit_all (("l", "other") ∷ []) (without ("k", "output") torn_log)).entries
unfolding load load_entries
commit_all-torn_example = commit_all-torn ("k", "output") (("l", "other") ∷ []) torn_log refl refl

lost_test : stored "k" (commit_all (("l", "other") ∷ []) (without ("k", "output") torn_log)) ≡ none
unfolding stored commit_all commit
lost_test = refl
