-- ===== src/Batcher/Journal/Resume.antt =====
-- Reading a journal in two goes, with more written in between: `read_new` of
-- src/icepick/batcher/journal.py.
use mathlib.Core.Path.{◌≡⟨◌⟩◌, ◌∎}
use mathlib.Core.List.{append_assoc}
use icepick.Prelude.{
  ℕ, ◌+◌, ◌≤◌, ◌≡◌, refl, sym, ap, ◌∙◌, String, Option, none, List, ◌++◌, length, drop, drop-append,
  drop-length, drop-add,
}
use icepick.Batcher.Identity.{Row}
use icepick.Batcher.Journal.{Bytes, JournalRow, CursorStore, rows, prepend, get, lines_of, read_new}
use icepick.Batcher.Journal.Parse.{
  end_line, end_byte, end_byte-eq, after, get-after, IsAt, parse, read, then_read, read_complete,
  read-rows,
}
use icepick.Batcher.Journal.Lines.{cut, joined, joined-cut, cut-IsComplete, lines_of-append}

module _ (loads : Bytes → Option Row) where
  -- Where a read stops, the rest of the journal begins with its torn tail.
  drop-end :
      (a b : Bytes) (p : ℕ)
      → p ≤ length a
      → drop (end_byte p (cut (drop p a)).0) (a ++ b) ≡ (cut (drop p a)).1 ++ b
  drop-end a b p h =
      let r = cut (drop p a) in
      drop (end_byte p r.0) (a ++ b)
      ≡⟨ ap (λ n. drop n (a ++ b)) (end_byte-eq p r.0) ⟩ drop (p + length (joined r.0)) (a ++ b)
      ≡⟨ drop-add p (length (joined r.0)) (a ++ b) ⟩ drop (length (joined r.0)) (drop p (a ++ b))
      ≡⟨ ap (drop (length (joined r.0))) (drop-append p a b h) ⟩
        drop (length (joined r.0)) (drop p a ++ b)
      ≡⟨ ap (λ l. drop (length (joined r.0)) (l ++ b)) (sym (joined-cut (drop p a))) ⟩
        drop (length (joined r.0)) ((joined r.0 ++ r.1) ++ b)
      ≡⟨ ap (drop (length (joined r.0))) (append_assoc (joined r.0) r.1 b) ⟩
        drop (length (joined r.0)) (joined r.0 ++ (r.1 ++ b))
      ≡⟨ drop-length (joined r.0) (r.1 ++ b) ⟩ r.1 ++ b ∎

  module _ (path : String) where
    read_new-at :
        (content : Bytes) (n p : ℕ) (c : CursorStore)
        → IsAt path c n p
        → read_new loads path none content c ≡ read loads path 0 n p (lines_of (drop p content)) c
    unfolding read_new
    read_new-at content n p c h = rw h

    -- Reading on from where a read of `a` stopped.
    read_new-after :
        (a b : Bytes) (n p : ℕ) (c : CursorStore)
        → IsAt path c n p
        → p ≤ length a
        → let r = cut (drop p a) in
          read_new loads path none (a ++ b) (after path n p r.0 c)
          ≡ read loads path 0
              (end_line n r.0)
              (end_byte p r.0)
              (lines_of (r.1 ++ b))
              (after path n p r.0 c)
    read_new-after a b n p c at h =
        let r = cut (drop p a) in
        let c' = after path n p r.0 c in
        read_new-at (a ++ b) (end_line n r.0) (end_byte p r.0) c' (get-after path n p r.0 c at)
        ∙ ap (λ l. read loads path 0 (end_line n r.0) (end_byte p r.0) (lines_of l) c')
            (drop-end a b p h)

    read_new-whole :
        (a b : Bytes) (n p : ℕ) (c : CursorStore) (js : List JournalRow)
        → IsAt path c n p
        → p ≤ length a
        → parse loads n p (cut (drop p a)).0 ≡ rows js
        → read_new loads path none (a ++ b) c
          ≡ then_read loads path js
              (read_new loads path none (a ++ b) (after path n p (cut (drop p a)).0 c))
    read_new-whole a b n p c js at h e =
        let r = cut (drop p a) in
        read_new-at (a ++ b) n p c at
        ∙ ap (λ l. read loads path 0 n p (lines_of l) c) (drop-append p a b h)
        ∙ ap (λ ls. read loads path 0 n p ls c) (lines_of-append (drop p a) b)
        ∙ read_complete loads path r.0 (lines_of (r.1 ++ b)) n p c js (cut-IsComplete (drop p a)) e
        ∙ ap (then_read loads path js) (sym (read_new-after a b n p c at h))

    -- Nothing is lost and nothing is read twice: when a read of a journal returns rows, and the writer
    -- then appends any bytes, also the rest of a line that had been torn, a second read from the cursor
    -- that the first one left returns, behind those rows, exactly what a single read of the longer
    -- journal from the old cursor returns, raises in the same case and leaves the same cursor.
    pub read_new-resume :
        (a b : Bytes) (c : CursorStore) (js : List JournalRow)
        → (get c path).byte_offset ≤ length a
        → (read_new loads path none a c).outcome ≡ rows js
        → let again = read_new loads path none (a ++ b) (read_new loads path none a c).cursor in
          read_new loads path none (a ++ b) c
          ≡ record { cursor = again.cursor; outcome = prepend js again.outcome }
    read_new-resume a b c js h e =
        let n = (get c path).line_count in
        let p = (get c path).byte_offset in
        let same = read_new-at a n p c refl in
        let (parsed, left) = read-rows loads path (drop p a) n p c js (rw same at e) in
        rw (same, left) (read_new-whole a b n p c js refl h parsed)
