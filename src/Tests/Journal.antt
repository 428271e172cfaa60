-- ===== src/Tests/Journal.antt =====
-- Runs of src/icepick/batcher/journal.py.
use icepick.Prelude.{◌≡◌, refl, arith, none, [], ◌∷◌, ◌++◌}
use icepick.Batcher.Journal
use icepick.Batcher.Journal.{
  Bytes, JournalRow, CursorStore, Outcome, rows, journal_corruption, Read, prepend, get, read_new,
  read_lines, lines_of, advance, ends_with_newline,
}
use icepick.Batcher.Journal.Resume.{read_new-resume}
use icepick.Tests.Data.{loads, cursor, row_with}

-- The journal while its second line is being written.
abbrev torn_journal : Bytes
torn_journal = 97 ∷ 10 ∷ 98 ∷ []

abbrev first_row : JournalRow
first_row = record {
  line_no = 1;
  byte_start = 0;
  byte_end = 2;
  raw = 97 ∷ 10 ∷ [];
  row = row_with "a";
}

read_new-resume_example : read_new loads "j" none (torn_journal ++ 10 ∷ []) cursor ≡ record {
  cursor =
      (read_new loads "j" none
        (torn_journal ++ 10 ∷ [])
        (read_new loads "j" none torn_journal cursor).cursor).cursor;
  outcome =
      prepend
        (first_row ∷ [])
        (read_new loads "j" none
          (torn_journal ++ 10 ∷ [])
          (read_new loads "j" none torn_journal cursor).cursor).outcome;
}
unfolding read_new read_lines get lines_of ends_with_newline Journal.is_blank
read_new-resume_example =
    read_new-resume loads "j" torn_journal (10 ∷ []) cursor (first_row ∷ []) (omega arith) refl
