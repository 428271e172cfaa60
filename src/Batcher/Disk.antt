-- ===== src/Batcher/Disk.antt =====
-- What src/icepick/batcher/ keeps under batches/: the directories batch<N> and the files in them.
-- A directory is known by its number; other entries, which every reader skips, are left out.
pub mod Numbers
use Prim.Native.String.{◌++◌}
use icepick.Prelude.{
  ℕ, zero, suc, ◌+◌, ◌/◌, ◌%◌, String, Bool, true, false, Option, none, some, List, [], ◌∷◌, ℤ, ltb,
  leb, ◌==◌, if◌then◌else◌,
}
use icepick.Prelude.Dict.{Dict}
use icepick.Prelude.Decimal.{decimal}
use icepick.Batcher.Identity.{Candidate}

-- A file that is replaced whole: absent, not JSON, or holding a value.
pub data Stored {ℓ} (A : Type ℓ) : Type ℓ where
  absent corrupt : Stored A
  saved : A → Stored A

-- The states of a batch; `unknown` is any other text that state.json may hold.
pub data StateName : Type 0 where
  sliced mounted cascade_done passk_done ready frozen : StateName
  unknown : String → StateName

pub record HistoryEntry : Type 0 where
  pub from : Option StateName
  pub to : StateName
  pub at : String
  pub note : String

pub record Frozen : Type 0 where
  pub reason : String
  pub from_state : Option StateName
  pub at : String

-- state.json; `extra` holds the fields that stage results add.
pub record BatchState : Type 0 where
  pub state : Option StateName
  pub updated_at : Option String
  pub created_at : Option String
  pub history : List HistoryEntry
  pub frozen_note : Option Frozen
  pub extra : Dict String

pub record Counts : Type 0 where
  pub accepted : ℕ
  pub replay_skips : ℕ
  pub stmt_skips : ℕ
  pub warns : ℕ

-- A row that was skipped, or accepted with a warning.
pub data NoteKind : Type 0 where
  replay stmt_skip stmt_allow warn : NoteKind

pub record Note : Type 0 where
  pub kind : NoteKind
  pub uid : String
  pub stmt_key : Option String
  pub journal_line : ℕ
  pub prior_batch : Option String
  pub prior_journal_line : Option ℤ
  pub prior_uid : Option String

pub record ManifestEntry : Type 0 where
  pub uid : String
  pub stmt_key : String
  pub content_hash : String
  pub journal_line : ℕ

-- slice_manifest.json
pub record Manifest : Type 0 where
  pub batch : String
  pub campaign_source : String
  pub slice_size : ℕ
  pub journal_path : String
  pub from_line : ℕ
  pub through_line : ℕ
  pub through_byte : ℕ
  pub created_at : String
  pub entries : List ManifestEntry
  pub skips : List Note
  pub warnings : List Note
  pub counts : Counts

-- The file READY_TO_FOLD.
pub record ReadyFlag : Type 0 where
  pub batch : String
  pub counts : Option Counts
  pub at : String

pub record BatchDir : Type 0 where
  pub slice_records : Option (List Candidate)
  pub slice_manifest : Stored Manifest
  pub state : Stored BatchState
  pub ready_flag : Option ReadyFlag
  pub tmp : List String

abbrev pub new_dir : BatchDir
new_dir = record {
  slice_records = none;
  slice_manifest = absent;
  state = absent;
  ready_flag = none;
  tmp = [];
}

abbrev pub Batches : Type 0
Batches = List (ℕ × BatchDir)

unfoldable pub dir? : ℕ → Batches → Option BatchDir
dir? n [] = none
dir? n ((m, d) ∷ bs) = if m == n then some d else dir? n bs

unfoldable pub put_dir : ℕ → BatchDir → Batches → Batches
put_dir n d [] = (n, d) ∷ []
put_dir n d ((m, e) ∷ bs) = if m == n then (n, d) ∷ bs else (m, e) ∷ put_dir n d bs

abbrev larger : ℕ → Option ℕ → Option ℕ
larger n none = some n
larger n (some m) = if ltb m n then some n else some m

-- `_max_batch_number` of daemon.py, and the first of the sorted numbers in `recover_pending_slice`.
unfoldable pub max_batch_number : Batches → Option ℕ
max_batch_number [] = none
max_batch_number ((n, _) ∷ bs) = larger n (max_batch_number bs)

-- `f"batch{n}"`
unfoldable pub batch_label : ℕ → String
unfolding decimal
batch_label n = "batch" ++ decimal n
