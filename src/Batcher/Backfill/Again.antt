-- ===== src/Batcher/Backfill/Again.antt =====
-- A second backfill: src/icepick/batcher/backfill.py.
use mathlib.Core.List.{map-append}
use icepick.Prelude.{
  ◌≡◌, ◌∙◌, refl, sym, ap, String, Bool, true, false, not, Option, none, some, List, [], ◌∷◌, ◌++◌,
  map, All, arith, str_eq, Bool-cases, Option-cases, inl, inr,
}
use icepick.Prelude.Dict.{Dict, insert, pair_in, is_some}
use icepick.Batcher.Identity.{Primitives}
use icepick.Batcher.JsonLines.{JsonLines, all_lines}
use icepick.Batcher.Ledger.{LedgerRow, Ledger, to_write, append_all}
use icepick.Batcher.Ledger.Reload.{append_all_lem}
use icepick.Batcher.Ledger.Append.{pair_in-foldl, to_write-append_all}
use icepick.Batcher.Backfill.{
  PastRow, Source, Stat, Gathered, past_rows, past_row, no_statement, gather_row, gather,
  nothing_yet, text_or, append_rows_of, after_read, open_source, backfill_source, backfill,
}

-- The uid and the batch of each row.
abbrev pairs_of : List LedgerRow → List (String × String)
pairs_of = map (λ r. (r.uid, r.batch))

-- The ledger has seen all the pairs.
abbrev IsSeen : Ledger → List (String × String) → Type 0
IsSeen l = All (λ p. pair_in p.0 p.1 l.uid_batch ≡ true)

to_write-IsSeen :
    (l : Ledger) (rows : List LedgerRow) → IsSeen l (pairs_of rows) → to_write l rows ≡ []
unfolding to_write
to_write-IsSeen l [] h = refl
to_write-IsSeen l (r ∷ rows) h = ground (arith, to_write-IsSeen l rows h.1, h.0)

IsSeen-to_write :
    (l : Ledger) (rows : List LedgerRow) → to_write l rows ≡ [] → IsSeen l (pairs_of rows)
unfolding to_write
IsSeen-to_write l [] h = tt
IsSeen-to_write l (r ∷ rows) h = elim (Bool-cases (pair_in r.uid r.batch l.uid_batch)) [
  | inl old ↦ (old, IsSeen-to_write l rows (ground (arith, old, h)))
  | inr fresh ↦ ground (arith, fresh, h)
]

IsSeen-append_all :
    (ps : List (String × String)) (rows : List LedgerRow) (l : Ledger) (f : JsonLines LedgerRow)
    → IsSeen l ps
    → IsSeen (append_all rows (l, f)).0 ps
IsSeen-append_all [] rows l f h = tt
IsSeen-append_all ((u, b) ∷ ps) rows l f h = (
  rw (append_all_lem rows l f) (ground (arith, pair_in-foldl u b l (to_write l rows), h.0)),
  IsSeen-append_all ps rows l f h.1,
)

append_all-IsSeen :
    (rows : List LedgerRow) (l : Ledger) (f : JsonLines LedgerRow)
    → IsSeen l (pairs_of rows)
    → append_all rows (l, f) ≡ (l, f)
append_all-IsSeen rows l f h =
    let nothing = to_write-IsSeen l rows h in rw (append_all_lem rows l f, nothing) refl

pairs_of-snoc :
    (xs ys : List LedgerRow) (x y : LedgerRow)
    → pairs_of xs ≡ pairs_of ys
    → x.uid ≡ y.uid
    → x.batch ≡ y.batch
    → pairs_of (xs ++ x ∷ []) ≡ pairs_of (ys ++ y ∷ [])
pairs_of-snoc xs ys x y e u b =
    map-append (λ r. (r.uid, r.batch)) xs (x ∷ [])
    ∙ rw (e, u, b) (sym (map-append (λ (r : LedgerRow). (r.uid, r.batch)) ys (y ∷ [])))

module _ (prims : Primitives) where
  pairs_of-gather_row :
      (now later : String) (s : Source) (r : PastRow) (o : Option String) (g h : Gathered)
      → pairs_of g.rows_to_append ≡ pairs_of h.rows_to_append
      → pairs_of (gather_row prims now s r o g).rows_to_append
        ≡ pairs_of (gather_row prims later s r o h).rows_to_append
  unfolding gather_row no_statement past_row
  pairs_of-gather_row now later s r none g h e = e
  pairs_of-gather_row now later s r (some t) g h e = elim (Bool-cases (str_eq t "")) [
    | inl empty ↦ rw empty e
    | inr full ↦ rw full (pairs_of-snoc g.rows_to_append h.rows_to_append _ _ e refl refl)
  ]

  -- The pairs of a file do not depend on the time of the backfill.
  pairs_of-gather :
      (now later : String) (s : Source) (rs : List PastRow) (g h : Gathered)
      → pairs_of g.rows_to_append ≡ pairs_of h.rows_to_append
      → pairs_of (gather prims now s rs g).rows_to_append
        ≡ pairs_of (gather prims later s rs h).rows_to_append
  unfolding gather
  pairs_of-gather now later s [] g h e = e
  pairs_of-gather now later s (r ∷ rs) g h e =
      let o = text_or (text_or r.statement r.question) r.problem in
      pairs_of-gather now later s rs (gather_row prims now s r o g) (gather_row prims later s r o h)
        (pairs_of-gather_row now later s r o g h e)

  abbrev read_in : String → Source → Option (List PastRow) → List LedgerRow
  read_in now s none = []
  read_in now s (some rows) = (gather prims now s rows (nothing_yet prims now)).rows_to_append

  -- What a source brings to the ledger.
  abbrev rows_in : String → Source → Option (JsonLines PastRow) → List LedgerRow
  rows_in now s none = []
  rows_in now s (some file) = read_in now s (past_rows (all_lines file))

  abbrev is_unread : Option (List PastRow) → Bool
  is_unread none = true
  is_unread (some rows) = false

  -- The loop over the rows of the source raises.
  abbrev raises : Option (JsonLines PastRow) → Bool
  raises none = false
  raises (some file) = is_unread (past_rows (all_lines file))

  after_read-ledger :
      (now : String) (s : Source) (o : Option (List PastRow)) (l : Ledger × JsonLines LedgerRow)
      → (after_read prims now s o l).0 ≡ append_all (read_in now s o) l
  unfolding after_read append_rows_of append_all to_write
  after_read-ledger now s none (l, f) = refl
  after_read-ledger now s (some rows) (l, f) = refl

  open_source-ledger :
      (now : String) (s : Source) (o : Option (JsonLines PastRow))
      (l : Ledger × JsonLines LedgerRow)
      → (open_source prims now s o l).0 ≡ append_all (rows_in now s o) l
  unfolding open_source append_all to_write
  open_source-ledger now s none (l, f) = refl
  open_source-ledger now s (some file) (l, f) =
      after_read-ledger now s (past_rows (all_lines file)) (l, f)

  backfill_source-ledger :
      (now : String) (s : Source) (l : Ledger × JsonLines LedgerRow)
      → (backfill_source prims now s l).0 ≡ append_all (rows_in now s s.file) l
  unfolding backfill_source
  backfill_source-ledger now s l = open_source-ledger now s s.file l

  -- A source has statistics unless it raises.
  after_read-stat :
      (now : String) (s : Source) (o : Option (List PastRow)) (l : Ledger × JsonLines LedgerRow)
      → is_some (after_read prims now s o l).1 ≡ not (is_unread o)
  unfolding after_read
  after_read-stat now s none l = refl
  after_read-stat now s (some rows) l = refl

  open_source-stat :
      (now : String) (s : Source) (o : Option (JsonLines PastRow))
      (l : Ledger × JsonLines LedgerRow)
      → is_some (open_source prims now s o l).1 ≡ not (raises o)
  unfolding open_source
  open_source-stat now s none l = refl
  open_source-stat now s (some file) l = after_read-stat now s (past_rows (all_lines file)) l

  backfill_source-stat :
      (now : String) (s : Source) (l : Ledger × JsonLines LedgerRow)
      → is_some (backfill_source prims now s l).1 ≡ not (raises s.file)
  unfolding backfill_source
  backfill_source-stat now s l = open_source-stat now s s.file l

  backfill-raises :
      (now : String) (s : Source) (ss : List Source) (l : Ledger × JsonLines LedgerRow)
      (summary : Dict Stat)
      → raises s.file ≡ true
      → (backfill prims now (s ∷ ss) (l, summary)).0 ≡ (backfill_source prims now s l).0
  unfolding backfill
  backfill-raises now s ss l summary h =
      let e : (backfill_source prims now s l).1 ≡ none =
        ground (arith, backfill_source-stat now s l, h) in
      rw (backfill, e) refl

  backfill-goes_on :
      (now : String) (s : Source) (ss : List Source) (l : Ledger × JsonLines LedgerRow)
      (summary : Dict Stat)
      → raises s.file ≡ false
      → (summary' : Dict Stat) × (backfill prims now (s ∷ ss) (l, summary)
          ≡ backfill prims now ss ((backfill_source prims now s l).0, summary'))
  unfolding backfill
  backfill-goes_on now s ss l summary h = elim (Option-cases (backfill_source prims now s l).1) [
    | inl bad ↦ absurd (ground (arith, backfill_source-stat now s l, bad, h))
    | inr (stat, e) ↦ (insert s.label stat summary, rw (backfill, e) refl)
  ]

  -- The ledger has seen what the sources bring, up to the first that raises.
  HasSeen : String → List Source → Ledger → Type 0
  HasSeen now [] l = Unit
  HasSeen now (s ∷ ss) l =
      IsSeen l (pairs_of (rows_in now s s.file)) × (raises s.file ≡ false → HasSeen now ss l)

  backfill-keeps :
      (now : String) (ss : List Source) (l : Ledger × JsonLines LedgerRow) (summary : Dict Stat)
      (ps : List (String × String))
      → IsSeen l.0 ps
      → IsSeen (backfill prims now ss (l, summary)).0.0 ps
  backfill-keeps now [] l summary ps h = unfold backfill in h
  backfill-keeps now (s ∷ ss) l summary ps h =
      let next : IsSeen (backfill_source prims now s l).0.0 ps =
        rw (backfill_source-ledger now s l)
          (IsSeen-append_all ps (rows_in now s s.file) l.0 l.1 h) in
      elim (Bool-cases (raises s.file)) [
        | inl bad ↦ rw (backfill-raises now s ss l summary bad) next
        | inr good ↦
            let (summary', e) = backfill-goes_on now s ss l summary good in
            rw e (backfill-keeps now ss (backfill_source prims now s l).0 summary' ps next)
      ]

  backfill-HasSeen :
      (now : String) (ss : List Source) (l : Ledger × JsonLines LedgerRow) (summary : Dict Stat)
      → HasSeen now ss (backfill prims now ss (l, summary)).0.0
  unfolding HasSeen
  backfill-HasSeen now [] l summary = tt
  backfill-HasSeen now (s ∷ ss) l summary =
      let l' = (backfill_source prims now s l).0 in
      let rows = rows_in now s s.file in
      let own : IsSeen l'.0 (pairs_of rows) =
        rw (backfill_source-ledger now s l)
          (IsSeen-to_write (append_all rows l).0 rows (to_write-append_all rows l.0 l.1)) in
      elim (Bool-cases (raises s.file)) [
        | inl bad ↦ (
          rw (backfill-raises now s ss l summary bad) own,
          λ good. absurd (ground (arith, bad, good)),
        )
        | inr good ↦
            let (summary', e) = backfill-goes_on now s ss l summary good in
            rw e (
              backfill-keeps now ss l' summary' (pairs_of rows) own,
              λ _. backfill-HasSeen now ss l' summary',
            )
      ]

  pairs_of-read_in :
      (now later : String) (s : Source) (o : Option (List PastRow))
      → pairs_of (read_in now s o) ≡ pairs_of (read_in later s o)
  pairs_of-read_in now later s none = refl
  pairs_of-read_in now later s (some rows) =
      pairs_of-gather now later s rows (nothing_yet prims now) (nothing_yet prims later) refl

  pairs_of-rows_in :
      (now later : String) (s : Source) (o : Option (JsonLines PastRow))
      → pairs_of (rows_in now s o) ≡ pairs_of (rows_in later s o)
  pairs_of-rows_in now later s none = refl
  pairs_of-rows_in now later s (some file) =
      pairs_of-read_in now later s (past_rows (all_lines file))

  backfill-nothing :
      (now later : String) (ss : List Source) (l : Ledger × JsonLines LedgerRow)
      (summary : Dict Stat)
      → HasSeen now ss l.0
      → (backfill prims later ss (l, summary)).0 ≡ l
  unfolding HasSeen
  backfill-nothing now later [] l summary h = unfold backfill in refl
  backfill-nothing now later (s ∷ ss) l summary h =
      let same : (backfill_source prims later s l).0 ≡ l =
        backfill_source-ledger later s l
        ∙ append_all-IsSeen (rows_in later s s.file) l.0 l.1
            (rw (pairs_of-rows_in later now s s.file) h.0) in
      elim (Bool-cases (raises s.file)) [
        | inl bad ↦ backfill-raises later s ss l summary bad ∙ same
        | inr good ↦
            let (summary', e) = backfill-goes_on later s ss l summary good in
            ap (λ r. r.0) e
            ∙ backfill-nothing now later ss (backfill_source prims later s l).0 summary'
                (rw same (h.1 good))
            ∙ same
      ]

  -- A second backfill of the same sources, at any later time, appends nothing, whether the first one has
  -- ended or raised: the ledger and its file stay as the first one has left them.
  pub backfill_again :
      (now later : String) (ss : List Source) (l : Ledger × JsonLines LedgerRow)
      (summary summary' : Dict Stat)
      → (backfill prims later ss ((backfill prims now ss (l, summary)).0, summary')).0
        ≡ (backfill prims now ss (l, summary)).0
  backfill_again now later ss l summary summary' =
      backfill-nothing now later ss (backfill prims now ss (l, summary)).0 summary'
        (backfill-HasSeen now ss l summary)
