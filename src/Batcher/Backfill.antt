-- ===== src/Batcher/Backfill.antt =====
-- src/icepick/batcher/backfill.py: the rows of past runs go to the ledger.
pub mod Again
use Prim.Native.String.{◌++◌}
use icepick.Prelude.{
  ℕ, zero, suc, ◌+◌, ◌-◌, String, Bool, true, false, not, ◌||◌, Option, none, some, List, [], ◌∷◌,
  ◌++◌ as append, length, negsuc, str_eq, if◌then◌else◌,
}
use icepick.Prelude.Dict.{Dict, insert, PairSet, pair_in}
use icepick.Batcher.Identity.{Primitives, compute_uid, stmt_key}
use icepick.Batcher.JsonLines.{JsonLines, Line, blank, row, malformed, junk, all_lines}
use icepick.Batcher.Ledger.{LedgerRow, Ledger, append_all}

-- A row of a past run: the fields that are asked for, and its canonical JSON text.
pub record PastRow : Type 0 where
  pub statement : Option String
  pub question : Option String
  pub problem : Option String
  pub source : Option String
  pub uid : Option String
  pub dumped : String

-- An entry of the source table, with the file at its path, if there is one.
pub record Source : Type 0 where
  pub label : String
  pub abs_path : String
  pub warn_only : Bool
  pub file : Option (JsonLines PastRow)

pub record Stat : Type 0 where
  pub rows : ℕ
  pub appended : ℕ
  pub distinct_uids : ℕ
  pub uid_mismatches : ℕ
  pub missing_statement : ℕ
  pub missing_file : Bool

abbrev no_stat : Stat
no_stat = record {
  rows = 0;
  appended = 0;
  distinct_uids = 0;
  uid_mismatches = 0;
  missing_statement = 0;
  missing_file = false;
}

-- `_iter_jsonl_tolerant`: what is not JSON is skipped wherever it stands. JSON that is no object,
-- `malformed` here, is yielded, and has no `get`, so that the loop raises (`none`).
unfoldable pub past_rows : List (Line PastRow) → Option (List PastRow)
past_rows [] = some []
past_rows (row r ∷ rest) = elim (past_rows rest) [ none ↦ none | some rs ↦ some (r ∷ rs) ]
past_rows (blank ∷ rest) = past_rows rest
past_rows (junk ∷ rest) = past_rows rest
past_rows (malformed ∷ rest) = none

-- `a or b`, for texts.
abbrev pub text_or : Option String → Option String → Option String
text_or none b = b
text_or (some a) b = if str_eq a "" then b else some a

abbrev text_or_empty : Option String → String
text_or_empty none = ""
text_or_empty (some a) = a

abbrev uid_or : Option String → String → String
uid_or none computed = computed
uid_or (some u) computed = u

-- `len` of a set of pairs.
unfoldable pub size : PairSet → ℕ
size [] = 0
size ((a, b) ∷ s) = let rest = size s in if pair_in a b s then rest else rest + 1

abbrev is_member : String → List String → Bool
is_member u [] = false
is_member u (v ∷ vs) = str_eq v u || is_member u vs

-- The local variables of the loop over one file.
pub record Gathered : Type 0 where
  pub rows_to_append : List LedgerRow
  pub seen : List String
  pub stat : Stat

module _ (prims : Primitives) (now : String) where
  -- A row with the statement `s`.
  unfoldable pub past_row : Source → PastRow → String → Gathered → Gathered
  past_row source r s g =
      let computed = compute_uid prims (text_or_empty r.source) s in
      let uid = uid_or r.uid computed in
      let new : LedgerRow = record {
        uid = uid;
        stmt_key = stmt_key prims s;
        content_hash = prims.sha256 r.dumped;
        batch = "hist:" ++ source.label;
        source_journal = source.abs_path;
        journal_line = negsuc 0;
        sliced_at = now;
        warn_only = source.warn_only;
      } in
      record {
        rows_to_append = append g.rows_to_append (new ∷ []);
        seen = if is_member uid g.seen then g.seen else uid ∷ g.seen;
        stat = record g.stat {
          rows = g.stat.rows + 1;
          uid_mismatches =
              if str_eq uid computed then g.stat.uid_mismatches else g.stat.uid_mismatches + 1;
          distinct_uids =
              if is_member uid g.seen then g.stat.distinct_uids else g.stat.distinct_uids + 1;
        };
      }

  no_statement : Gathered → Gathered
  no_statement g = record g {
    stat = record g.stat {
      rows = g.stat.rows + 1;
      missing_statement = g.stat.missing_statement + 1;
    };
  }

  gather_row : Source → PastRow → Option String → Gathered → Gathered
  gather_row source r none g = no_statement g
  gather_row source r (some s) g = if str_eq s "" then no_statement g else past_row source r s g

  -- The loop over the rows of one file.
  unfoldable pub gather : Source → List PastRow → Gathered → Gathered
  unfolding gather_row no_statement
  gather source [] g = g
  gather source (r ∷ rs) g =
      gather source rs (gather_row source r (text_or (text_or r.statement r.question) r.problem) g)

  abbrev nothing_yet : Gathered
  nothing_yet = record { rows_to_append = []; seen = []; stat = no_stat }

  -- The rows of one file, when the loop over them ends: they go to the ledger all at once.
  unfoldable pub append_rows_of :
      Source → List PastRow → Ledger × JsonLines LedgerRow → (Ledger × JsonLines LedgerRow) × Stat
  append_rows_of source rows l =
      let g = gather source rows nothing_yet in
      let l' = append_all g.rows_to_append l in
      (l', record g.stat { appended = size l'.0.uid_batch - size l.0.uid_batch })

  unfoldable pub after_read :
      Source
      → Option (List PastRow)
      → Ledger × JsonLines LedgerRow
      → (Ledger × JsonLines LedgerRow) × Option Stat
  unfolding append_rows_of
  after_read source none l = (l, none)
  after_read source (some rows) l = let r = append_rows_of source rows l in (r.0, some r.1)

  -- The test for the file.
  unfoldable pub open_source :
      Source
      → Option (JsonLines PastRow)
      → Ledger × JsonLines LedgerRow
      → (Ledger × JsonLines LedgerRow) × Option Stat
  unfolding after_read past_rows
  open_source source none l = (l, some (record no_stat { missing_file = true }))
  open_source source (some file) l = after_read source (past_rows (all_lines file)) l

  -- One source: the ledger with its file, and the statistics of the source, or none when it raises.
  unfoldable pub backfill_source :
      Source → Ledger × JsonLines LedgerRow → (Ledger × JsonLines LedgerRow) × Option Stat
  unfolding open_source
  backfill_source source l = open_source source source.file l

  -- `backfill`, with its summary, or none when a source raises; the sources in front of it are in the
  -- ledger then.
  unfoldable pub backfill :
      List Source
      → (Ledger × JsonLines LedgerRow) × Dict Stat
      → (Ledger × JsonLines LedgerRow) × Option (Dict Stat)
  backfill [] (l, summary) = (l, some summary)
  backfill (source ∷ sources) (l, summary) =
      let r = backfill_source source l in
      elim r.1 [
        | none ↦ (r.0, none)
        | some stat ↦ backfill sources (r.0, insert source.label stat summary)
      ]
