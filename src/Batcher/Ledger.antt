-- ===== src/Batcher/Ledger.antt =====
-- src/icepick/batcher/ledger.py: the ledger of consumed uids, in memory and on disk.
pub mod Reload
pub mod Append
pub mod Check
pub mod Torn
use icepick.Prelude.{
  ℕ, ◌+◌, String, Bool, true, false, not, ◌||◌, Option, none, some, List, [], ◌∷◌, ℤ, foldl, keep,
  str_eq, if◌then◌else◌,
}
use icepick.Prelude.Dict.{Dict, lookup, insert, contains, set_default, or_else, PairSet, pair_in}
use icepick.Batcher.JsonLines.{JsonLines, Line, blank, row, malformed, junk, all_lines, append_rows}

-- `batch` is "hist:<label>", "watch:<label>" or "batch<N>"; `journal_line` is -1 in backfilled rows.
pub record LedgerRow : Type 0 where
  pub uid : String
  pub stmt_key : String
  pub content_hash : String
  pub batch : String
  pub source_journal : String
  pub journal_line : ℤ
  pub sliced_at : String
  pub warn_only : Bool

pub data Kind : Type 0 where
  new replay uid_conflict stmt_conflict warn : Kind

pub record Verdict : Type 0 where
  pub kind : Kind
  pub prior : Option LedgerRow

-- The in-memory view of the ledger file.
pub record Ledger : Type 0 where
  pub by_uid : Dict LedgerRow
  pub by_stmt : Dict LedgerRow
  pub uid_count : Dict ℕ
  pub warn_uids : Dict LedgerRow
  pub warn_stmts : Dict LedgerRow
  pub uid_batch : PairSet
  pub torn_tail_skipped : Bool

abbrev pub empty : Ledger
empty = record {
  by_uid = [];
  by_stmt = [];
  uid_count = [];
  warn_uids = [];
  warn_stmts = [];
  uid_batch = [];
  torn_tail_skipped = false;
}

-- `self._uid_count.get(uid, 0) + 1`
count_up : Option ℕ → ℕ
count_up none = 1
count_up (some n) = n + 1

-- `Ledger._index_row`
unfoldable pub index_row : Ledger → LedgerRow → Ledger
unfolding count_up
index_row l r =
    let l' = record l { uid_batch = (r.uid, r.batch) ∷ l.uid_batch } in
    if r.warn_only
    then record l' {
      warn_uids = set_default r.uid r l.warn_uids;
      warn_stmts = set_default r.stmt_key r l.warn_stmts;
    }
    else record l' {
      by_uid = if contains r.uid l.by_uid then l.by_uid else insert r.uid r l.by_uid;
      uid_count = insert r.uid (count_up (lookup r.uid l.uid_count)) l.uid_count;
      by_stmt = set_default r.stmt_key r l.by_stmt;
    }

-- `Ledger.check`
unfoldable pub check : Ledger → String → String → String → Verdict
check l uid sk ch = elim (lookup uid l.by_uid) [
  | some prior ↦ record {
    kind = if str_eq prior.content_hash ch then replay else uid_conflict;
    prior = some prior;
  }
  | none ↦ elim (lookup sk l.by_stmt) [
    | some prior ↦ record { kind = stmt_conflict; prior = some prior }
    | none ↦
        if contains uid l.warn_uids || contains sk l.warn_stmts
        then record {
          kind = warn;
          prior = or_else (lookup uid l.warn_uids) (lookup sk l.warn_stmts);
        }
        else record { kind = new; prior = none }
  ]
]

-- The rows that `append_all` writes: those whose (uid, batch) pair is not in the ledger yet.
unfoldable pub to_write : Ledger → List LedgerRow → List LedgerRow
to_write l rows = keep (λ r. not (pair_in r.uid r.batch l.uid_batch)) rows

-- `Ledger.append_all`, on the ledger in memory and the file behind it.
unfoldable pub append_all :
    List LedgerRow → Ledger × JsonLines LedgerRow → Ledger × JsonLines LedgerRow
append_all rows (l, file) = elim (to_write l rows) [
  | [] ↦ (l, file)
  | r ∷ rs ↦ (foldl index_row l (r ∷ rs), append_rows (r ∷ rs) file)
]

pub data LoadError : Type 0 where
  ledger_corruption key_error : LoadError

pub data Loaded : Type 0 where
  loaded : Ledger → Loaded
  failed : LoadError → Loaded

-- The loop of `Ledger.load` over the lines that are not blank.
unfoldable pub load_lines : Ledger → List (Line LedgerRow) → Loaded
load_lines l [] = loaded l
load_lines l (row r ∷ rest) = load_lines (index_row l r) rest
load_lines l (junk ∷ []) = loaded (record l { torn_tail_skipped = true })
load_lines l (junk ∷ _ ∷ _) = failed ledger_corruption
load_lines l (malformed ∷ _) = failed key_error
load_lines l (blank ∷ rest) = load_lines l rest

is_blank : Line LedgerRow → Bool
is_blank blank = true
is_blank _ = false

-- `Ledger.load`; a missing file is an empty one.
unfoldable pub load : JsonLines LedgerRow → Loaded
unfolding is_blank
load file = load_lines empty (keep (λ line. not (is_blank line)) (all_lines file))
