-- ===== src/Batcher/Journal.antt =====
-- src/icepick/batcher/journal.py: read positions that survive a restart, and the tailing of a journal
-- that another process is still writing.
pub mod Lines
pub mod Parse
pub mod Resume
use icepick.Prelude.{
  ℕ, suc, ◌+◌, String, Bool, true, false, ◌||◌, ◌&&◌, Option, none, some, List, [], ◌∷◌, ◌++◌,
  length, drop, last?, leb, ◌==◌, if◌then◌else◌,
}
use icepick.Prelude.Dict.{Dict, lookup, insert}
use icepick.Batcher.Identity.{Row}

abbrev pub Bytes : Type 0
Bytes = List ℕ

pub record JournalRow : Type 0 where
  pub line_no : ℕ
  pub byte_start : ℕ
  pub byte_end : ℕ
  pub raw : Bytes
  pub row : Row

pub record Position : Type 0 where
  pub line_count : ℕ
  pub byte_offset : ℕ

-- cursor.json: absent, not JSON, or the positions by journal path.
pub data CursorFile : Type 0 where
  absent corrupt : CursorFile
  saved : Dict Position → CursorFile

-- `CursorStore`, with the file behind it.
pub record CursorStore : Type 0 where
  pub state : Dict Position
  pub file : CursorFile

abbrev positions : CursorFile → Dict Position
positions absent = []
positions corrupt = []
positions (saved d) = d

-- `CursorStore.load`
unfoldable pub load : CursorStore → CursorStore
load c = record c { state = positions c.file }

-- `CursorStore.save`
unfoldable pub save : CursorStore → CursorStore
save c = record c { file = saved c.state }

abbrev position_or_zero : Option Position → Position
position_or_zero none = record { line_count = 0; byte_offset = 0 }
position_or_zero (some p) = p

-- `CursorStore.get`
unfoldable pub get : CursorStore → String → Position
get c path = position_or_zero (lookup path c.state)

-- `CursorStore.advance`, by the two numbers that it reads of the row.
unfoldable pub advance : CursorStore → String → ℕ → ℕ → CursorStore
advance c path line_no byte_end = record c {
  state = insert path (record { line_count = line_no; byte_offset = byte_end }) c.state;
}

abbrev pub add_byte : ℕ → List Bytes → List Bytes
add_byte c [] = (c ∷ []) ∷ []
add_byte c (l ∷ ls) = (c ∷ l) ∷ ls

-- What `readline` returns, call after call, until it returns nothing: each line with its newline, and
-- the unterminated rest, if there is one.
unfoldable pub lines_of : Bytes → List Bytes
lines_of [] = []
lines_of (c ∷ cs) = let ls = lines_of cs in if c == 10 then (c ∷ []) ∷ ls else add_byte c ls

abbrev is_newline : Option ℕ → Bool
is_newline none = false
is_newline (some c) = c == 10

-- `raw.endswith(b"\n")`
unfoldable pub ends_with_newline : Bytes → Bool
ends_with_newline raw = is_newline (last? raw)

-- `not raw.strip()`, for bytes
unfoldable pub is_blank : Bytes → Bool
is_blank [] = true
is_blank (c ∷ cs) = (c == 32 || (leb 9 c && leb c 13)) && is_blank cs

pub data Outcome : Type 0 where
  rows : List JournalRow → Outcome
  journal_corruption : ℕ → Outcome  -- the number of the line that is not JSON

-- The cursor as a read leaves it, also when it raises.
pub record Read : Type 0 where
  pub cursor : CursorStore
  pub outcome : Outcome

abbrev pub prepend : List JournalRow → Outcome → Outcome
prepend js (rows ks) = rows (js ++ ks)
prepend js (journal_corruption n) = journal_corruption n

abbrev pub limit_reached : Option ℕ → ℕ → Bool
limit_reached none n = false
limit_reached (some limit) n = leb limit n

-- `loads` is `json.loads`, on lines whose JSON is an object. It gives nothing where `json.loads` raises: a
-- JSONDecodeError, which becomes the JournalCorruption, or a UnicodeDecodeError, which leaves `read_new` as
-- it is; the cursor is the same, and the two are one outcome here.
module _ (loads : Bytes → Option Row) (path : String) (limit : Option ℕ) where
  -- The loop of `read_new`: `found` counts the rows collected, `line_no` is the number of the line
  -- read last, and `pos` is `fh.tell()`.
  unfoldable pub read_lines : ℕ → ℕ → ℕ → List Bytes → CursorStore → Read
  read_lines found line_no pos [] c = record { cursor = c; outcome = rows [] }
  read_lines found line_no pos (raw ∷ rest) c =
      let stop : Read = record { cursor = c; outcome = rows [] } in
      let end = pos + length raw in
      let c' = advance c path (line_no + 1) end in
      let skipped = read_lines found (line_no + 1) end rest c' in
      let later = read_lines (found + 1) (line_no + 1) end rest c' in
      if limit_reached limit found
      then stop
      else if ends_with_newline raw
      then if is_blank raw then skipped else elim (loads raw) [
        | none ↦ record { cursor = c; outcome = journal_corruption (line_no + 1) }
        | some parsed ↦
            let j : JournalRow = record {
              line_no = line_no + 1;
              byte_start = pos;
              byte_end = end;
              raw = raw;
              row = parsed;
            } in
            record { cursor = later.cursor; outcome = prepend (j ∷ []) later.outcome }
      ]
      else stop

  -- `JournalTailer.read_new` on a journal that holds `content`; a missing journal is an empty one.
  unfoldable pub read_new : Bytes → CursorStore → Read
  unfolding get lines_of
  read_new content c =
      let p = get c path in
      read_lines 0 p.line_count p.byte_offset (lines_of (drop p.byte_offset content)) c
