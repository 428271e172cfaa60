-- ===== src/Batcher/JsonLines.antt =====
-- A `.jsonl` file as its readers see it: each line stands for what `json.loads` makes of it.
-- Used for consumed_uids.jsonl (src/icepick/batcher/ledger.py) and for the logs of
-- src/icepick/processing/pass_at_k/checkpoint.py.
use icepick.Prelude.{Option, none, some, List, [], ◌∷◌, ◌++◌, map}

-- `blank` is a line of white space, `malformed` is JSON that lacks a field that the reader asks for,
-- and `junk` is text that `json.loads` refuses.
pub data Line {ℓ} (A : Type ℓ) : Type ℓ where
  blank : Line A
  row : A → Line A
  malformed : Line A
  junk : Line A

-- The lines that end in a newline, and what follows the last newline, if anything does.
pub record JsonLines {ℓ} (A : Type ℓ) : Type ℓ where
  pub lines : List (Line A)
  pub tail : Option (Line A)

module _ {ℓ} {A : Type ℓ} where
  abbrev pub empty_file : JsonLines A
  empty_file = record { lines = []; tail = none }

  abbrev pub tail_lines : Option (Line A) → List (Line A)
  tail_lines none = []
  tail_lines (some t) = t ∷ []

  -- `read_text().splitlines()`
  abbrev pub all_lines : JsonLines A → List (Line A)
  all_lines f = f.lines ++ tail_lines f.tail

  -- A row that is written after an unterminated tail lands on the line of that tail. White space in
  -- front of an object is still JSON; any other text in front of one is not.
  abbrev pub glue : Option (Line A) → A → Line A
  glue none r = row r
  glue (some blank) r = row r
  glue (some _) r = junk

  -- A file opened with mode "a", and one `json.dumps(row) + "\n"` written for each row.
  abbrev pub append_rows : List A → JsonLines A → JsonLines A
  append_rows [] f = f
  append_rows (r ∷ rs) f = record { lines = f.lines ++ (glue f.tail r ∷ map row rs); tail = none }
