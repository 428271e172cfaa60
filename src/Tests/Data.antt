-- ===== src/Tests/Data.antt =====
-- A small campaign: the rows, ledgers, journals and batches that the runs use.
use icepick.Prelude.{
  ℕ, ◌+◌, String, true, false, Option, none, some, List, [], ◌∷◌, map, pos, ◌==◌, if◌then◌else◌,
}
use icepick.Batcher.JsonLines.{JsonLines, empty_file, row, junk}
use icepick.Batcher.Ledger.{LedgerRow, Ledger, empty, index_row}
use icepick.Batcher.Identity.{Candidate, Row, Primitives}
use icepick.Batcher.Journal.{Bytes, JournalRow, CursorStore, absent}
use icepick.Batcher.Slicer.{SliceConfig, Policy}
use icepick.Batcher.World.{World, Plan}
use icepick.Batcher.Disk.{Counts, Manifest, ManifestEntry}
use icepick.Batcher.Recover.{row_of_entry}

abbrev pub ledger_row : String → String → LedgerRow
ledger_row uid batch = record {
  uid = uid;
  stmt_key = uid;
  content_hash = "hash";
  batch = batch;
  source_journal = "journal.jsonl";
  journal_line = pos 1;
  sliced_at = "noon";
  warn_only = false;
}

abbrev pub two_rows : List LedgerRow
two_rows = ledger_row "u" "batch0" ∷ ledger_row "v" "batch0" ∷ []

abbrev pub torn_file : JsonLines LedgerRow
torn_file = record { lines = row (ledger_row "t" "batch0") ∷ []; tail = some junk }

-- What `Ledger.load` makes of that file.
abbrev pub torn : Ledger
torn = record (index_row empty (ledger_row "t" "batch0")) { torn_tail_skipped = true }

abbrev pub prims : Primitives
prims = record { sha256 = λ s. s; lower = λ s. s; dumps = λ r. "row" }

abbrev pub candidate : String → Candidate
candidate statement = record { statement = some statement; source = none; uid = none; rest = [] }

abbrev pub row_with : String → Row
row_with statement = record { candidate = some (candidate statement); rest = [] }

-- Three lines of JSON: an "a", a "b" and a "c" with a newline each.
abbrev pub loads : Bytes → Option Row
loads [] = none
loads (c ∷ _) =
    if c == 97
    then some (row_with "a")
    else if c == 98
    then some (row_with "b")
    else if c == 99
    then some (row_with "c")
    else none

abbrev pub journal : Bytes
journal = 97 ∷ 10 ∷ 98 ∷ 10 ∷ []

abbrev pub cursor : CursorStore
cursor = record { state = []; file = absent }

abbrev pub journal_row : ℕ → String → JournalRow
journal_row n statement = record {
  line_no = n;
  byte_start = n + n;
  byte_end = n + n + 2;
  raw = [];
  row = row_with statement;
}

abbrev pub config : ℕ → Policy → SliceConfig
config n policy = record {
  campaign_source = "campaign";
  slice_size = n;
  cross_source_statement_policy = policy;
}

abbrev pub world : World
world = record {
  ledger = empty;
  ledger_file = empty_file;
  skip_log = [];
  cursor = cursor;
  batches = [];
}

abbrev pub two : Counts
two = record { accepted = 2; replay_skips = 0; stmt_skips = 0; warns = 0 }

abbrev pub entries : List ManifestEntry
entries =
    record { uid = "u"; stmt_key = "su"; content_hash = "hu"; journal_line = 1 }
    ∷ record { uid = "v"; stmt_key = "sv"; content_hash = "hv"; journal_line = 2 }
    ∷ []

abbrev pub manifest : Manifest
manifest = record {
  batch = "batch3";
  campaign_source = "campaign";
  slice_size = 2;
  journal_path = "j";
  from_line = 1;
  through_line = 2;
  through_byte = 4;
  created_at = "noon";
  entries = entries;
  skips = [];
  warnings = [];
  counts = two;
}

abbrev pub batch3 : Plan
batch3 = record {
  batch_no = 3;
  records = [];
  manifest = manifest;
  ledger_rows = map (row_of_entry "batch3" manifest) entries;
}
