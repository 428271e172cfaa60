-- ===== src/PassK/Records.antt =====
-- What the scoring of records reads and writes: `PassAtKRecord` of
-- src/icepick/processing/pass_at_k/base.py, the configuration, the fields of a record, and the state of a
-- run of runner.py. The model server answers call after call; the extraction of an answer and the
-- symbolic check of it are parameters.
use icepick.Prelude.{
  ℕ, zero, suc, ◌+◌, String, Bool, true, not, ◌&&◌, Option, List, [], ◌∷◌, ltb, str_eq,
  if◌then◌else◌,
}
use Prim.Native.String.{◌++◌ as append}
use Prim.Native.Char.{code}
use icepick.Prelude.Dict.{Dict, first_field, or_empty}
use icepick.Prelude.Decimal.{decimal}
use icepick.Batcher.Stages.{occurs, any_of}
use icepick.Batcher.Identity.{is_space}
use icepick.PassK.Tally.{Tally, Label}
use icepick.PassK.Checkpoint.{Log}

-- A pass rate and a share of wrong answers that the record came with, over one denominator.
pub record Measured : Type 0 where
  pub total : ℕ
  pub n_pass : ℕ
  pub n_top_wrong : ℕ

-- A prepared record; `fields` holds its texts. A label of its own is kept only beside a pass rate.
pub record Record : Type 0 where
  pub uid : String
  pub fields : Dict String
  pub pass_at_k : Option Measured
  pub label : Option Label

pub data DropReason : Type 0 where
  garbage_truth unverifiable_truth degenerate_dominated : DropReason

-- `PassAtKRecord`; `pass_at_k` is the number of correct answers out of `k`, and the modal wrong answer
-- and its share are those of the tally.
pub record PassAtKRecord : Type 0 where
  pub pass_at_k : Option ℕ
  pub k : ℕ
  pub tally : Tally
  pub label : Label
  pub rollout_uids : List String
  pub drop_reason : Option DropReason

-- An output row: a record that was measured upstream, or one with a stamp.
pub data Row : Type 0 where
  passed : Record → Label → Row
  stamped : Record → PassAtKRecord → Row

pub data Kind : Type 0 where
  scored pre_labeled resumed : Kind

-- `think` and `temperature` are the texts that `str` makes of them.
pub record Config : Type 0 where
  pub model : String
  pub temperature : String
  pub think : String
  pub k : ℕ
  pub max_retries : ℕ
  pub keep_garbage : Bool

-- One call of the server: it returns an output, raises an `Exception`, or Ctrl-C comes in between.
pub data Answer : Type 0 where
  output : String → Answer
  fails interrupts : Answer

abbrev pub Backend : Type 0
Backend = ℕ → Answer

-- What the stage reads of an output and of a truth. `classify` gives the parsed truth if its tier can
-- be verified.
pub record Grading : Type 0 where
  pub candidate_of : String → Option String
  pub classify : String → Option String
  pub verify : String → String → Bool

-- The checkpoint, the number of calls of the server so far, and `_SharedTally.model_calls`.
pub record Progress : Type 0 where
  pub records : Log Row
  pub outputs : Log String
  pub calls : ℕ
  pub model_calls : ℕ

-- `_statement_of`
unfoldable pub statement_of : Record → String
unfolding first_field
statement_of r = or_empty (
    first_field (λ s. not (str_eq s "")) ("statement" ∷ "question" ∷ "prompt" ∷ "problem" ∷ [])
      r.fields)

-- `not s.strip()`
unfoldable pub is_blank : String → Bool
unfolding is_space
is_blank String.[] = true
is_blank (String.◌∷◌ c s) = is_space (code c) && is_blank s

-- `_truth_of`
unfoldable pub truth_of : Record → Option String
unfolding first_field is_blank
truth_of r = first_field (λ s. not (is_blank s)) ("truth" ∷ "answer" ∷ []) r.fields

abbrev pub junk_macros : List String
junk_macros =
    "mathrm" ∷ "mathbb" ∷ "mathcal" ∷ "mathbf" ∷ "mathsf" ∷ "operatorname" ∷ "Bigl" ∷ "Bigr"
    ∷ "bigl" ∷ "bigr" ∷ "widetilde" ∷ "widehat" ∷ "cdots" ∷ "ldots" ∷ "efsub" ∷ "displaystyle"
    ∷ "text" ∷ "boldsymbol" ∷ "mathfrak" ∷ "mathscr" ∷ []

-- `truth_garbage`
unfoldable pub truth_garbage : String → Bool
unfolding occurs
truth_garbage truth = any_of (λ j. occurs j truth) junk_macros

-- `rollout_uid`, with `{sample_idx:02d}`
unfoldable pub rollout_uid : String → ℕ → String
unfolding decimal
rollout_uid uid idx = append uid (append (if ltb idx 10 then "-r0" else "-r") (decimal idx))

-- `[rollout_uid(uid, i) for i in range(i, i + count)]`
unfoldable pub rollout_uids : String → ℕ → ℕ → List String
unfolding rollout_uid
rollout_uids uid zero i = []
rollout_uids uid (suc count) i = rollout_uid uid i ∷ rollout_uids uid count (i + 1)
