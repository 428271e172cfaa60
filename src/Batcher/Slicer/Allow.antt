-- ===== src/Batcher/Slicer/Allow.antt =====
-- What a slice takes under the policy 'allow': src/icepick/batcher/slicer.py.
use icepick.Prelude.{
  ℕ, ◌+◌, ◌≡◌, refl, sym, ap, ◌∙◌, String, Bool, true, false, not, ◌&&◌, ◌||◌, Option, none, some,
  List, [], ◌∷◌, ◌++◌, arith, leb, length, if◌then◌else◌, Bool-cases, inl, inr,
}
use icepick.Prelude.Dict.{contains}
use icepick.Batcher.Identity.{Primitives, Candidate}
use icepick.Batcher.Journal.{JournalRow}
use icepick.Batcher.Ledger.{Ledger, Kind, check}
use icepick.Batcher.Slicer.{
  SliceConfig, Policy, skip, abort, allow, on_stmt_conflict, Entry, Prior, Scan, start,
  check_candidate, check_statement, judge, go_on, intra_check, verdict, accept, handle, entry_of,
  scan_row, scan,
}
use icepick.Batcher.Slicer.Pending.{has_uid, has_stmt, IsSlice}
use icepick.Batcher.Slicer.Exact.{
  lets_in, go_on-injective, Scanned-cases, scan_row-IsSlice, start-IsSlice,
}

-- An entry enters behind `kept` when its uid is new there, and its statement is there already or the
-- ledger has no blocking row with its uid.
abbrev pub enters : Ledger → List Entry → Entry → Bool
enters l kept e =
    not (has_uid e.uid kept) && (has_stmt e.stmt_key kept || not (contains e.uid l.by_uid))

-- The entries that enter, one after another, behind `kept`, until there are `size` of them.
abbrev pub picks : ℕ → Ledger → List Entry → List Entry → List Entry
picks size l kept [] = kept
picks size l kept (e ∷ es) =
    let taken = picks size l (kept ++ e ∷ []) es in
    let left = picks size l kept es in
    if leb size (length kept) then kept else if enters l kept e then taken else left

picks_full :
    (size : ℕ) (l : Ledger) (kept es : List Entry)
    → leb size (length kept) ≡ true
    → picks size l kept es ≡ kept
picks_full size l kept [] full = refl
picks_full size l kept (e ∷ es) full = rw full refl

verdict-enters :
    (label : String) (l : Ledger) (n seen : ℕ) (s : Scan) (e : Entry)
    → IsSlice n seen s
    → lets_in (verdict label l s e.uid e.stmt_key e.content_hash).0 ≡ enters l s.pending e
unfolding verdict intra_check check
verdict-enters label l n seen s e h = ground (arith, h.by_uid e.uid, h.by_stmt e.stmt_key)

conflict-allow :
    (policy : Policy) (n : ℕ) (e : Entry) (s s' : Scan) (prior : Option Prior)
    → policy ≡ allow
    → on_stmt_conflict policy n e s prior ≡ go_on s'
    → s'.pending ≡ s.pending ++ e ∷ []
unfolding on_stmt_conflict accept
conflict-allow skip n e s s' prior p ok = cc (p)
conflict-allow abort n e s s' prior p ok = cc (p)
conflict-allow allow n e s s' prior p ok = rw (← go_on-injective _ s' ok) refl

handle-allow :
    (config : SliceConfig) (e : Entry) (s s' : Scan) (v : Kind × Option Prior)
    → config.cross_source_statement_policy ≡ allow
    → handle config e s v ≡ go_on s'
    → s'.pending ≡ (if lets_in v.0 then s.pending ++ e ∷ [] else s.pending)
unfolding handle accept
handle-allow config e s s' (Kind.new, prior) p ok = rw (← go_on-injective _ s' ok) refl
handle-allow config e s s' (Kind.replay, prior) p ok = rw (← go_on-injective _ s' ok) refl
handle-allow config e s s' (Kind.uid_conflict, prior) p ok = cc
handle-allow config e s s' (Kind.stmt_conflict, prior) p ok =
    conflict-allow config.cross_source_statement_policy config.slice_size e s s' prior p ok
handle-allow config e s s' (Kind.warn, prior) p ok = rw (← go_on-injective _ s' ok) refl

module _ (prims : Primitives) (config : SliceConfig) (label : String) (ledger : Ledger) where
  abbrev statement_entry : JournalRow → Candidate → Option String → List Entry
  statement_entry j c none = []
  statement_entry j c (some statement) = entry_of prims config label ledger j c statement ∷ []

  abbrev candidate_entry : JournalRow → Option Candidate → List Entry
  candidate_entry j none = []
  candidate_entry j (some c) = statement_entry j c c.statement

  -- The entries of the rows that have a candidate with a statement.
  abbrev pub entries_of : List JournalRow → List Entry
  entries_of [] = []
  entries_of (j ∷ rows) = candidate_entry j j.row.candidate ++ entries_of rows

  -- What one row does: it has an entry, which enters or does not.
  abbrev Enters : Scan → Scan → List Entry → Type 0
  Enters s s' es =
      (e : Entry) × (es ≡ e ∷ [])
      × (s'.pending ≡ (if enters ledger s.pending e then s.pending ++ e ∷ [] else s.pending))

  check_statement-allow :
      (seen : ℕ) (j : JournalRow) (c : Candidate) (statement : Option String) (s s' : Scan)
      → config.cross_source_statement_policy ≡ allow
      → IsSlice config.slice_size seen s
      → check_statement prims config label ledger j c statement s ≡ go_on s'
      → Enters s s' (statement_entry j c statement)
  unfolding check_statement judge
  check_statement-allow seen j c none s s' p h ok = cc
  check_statement-allow seen j c (some statement) s s' p h ok =
      let e = entry_of prims config label ledger j c statement in
      let v = verdict label ledger s e.uid e.stmt_key e.content_hash in
      let handled : handle config e s v ≡ go_on s' = ground arith in
      (
        e,
        refl,
        handle-allow config e s s' v p handled
            ∙ ap (λ b. if b then s.pending ++ e ∷ [] else s.pending)
                (verdict-enters label ledger config.slice_size seen s e h),
      )

  check_candidate-allow :
      (seen : ℕ) (j : JournalRow) (c : Option Candidate) (s s' : Scan)
      → config.cross_source_statement_policy ≡ allow
      → IsSlice config.slice_size seen s
      → check_candidate prims config label ledger j c s ≡ go_on s'
      → Enters s s' (candidate_entry j c)
  unfolding check_candidate
  check_candidate-allow seen j none s s' p h ok = cc
  check_candidate-allow seen j (some c) s s' p h ok =
      check_statement-allow seen j c c.statement s s' p h ok

  picks_step :
      (e : Entry) (es : List Entry) (s t : Scan)
      → leb config.slice_size (length s.pending) ≡ false
      → t.pending ≡ (if enters ledger s.pending e then s.pending ++ e ∷ [] else s.pending)
      → picks config.slice_size ledger t.pending es
        ≡ picks config.slice_size ledger s.pending (e ∷ es)
  picks_step e es s t room next = elim (Bool-cases (enters ledger s.pending e)) [
    | inl takes ↦
        let same : t.pending ≡ s.pending ++ e ∷ [] = ground (arith, next, takes) in
        rw same (rw room (rw takes refl))
    | inr drops ↦
        let same : t.pending ≡ s.pending = ground (arith, next, drops) in
        rw same (rw room (rw drops refl))
  ]

  scan-picks :
      (rows : List JournalRow) (seen : ℕ) (s s' : Scan)
      → config.cross_source_statement_policy ≡ allow
      → IsSlice config.slice_size seen s
      → scan prims config label ledger rows s ≡ go_on s'
      → s'.pending ≡ picks config.slice_size ledger s.pending (entries_of rows)
  unfolding scan scan_row
  scan-picks [] seen s s' p h ok = rw (← go_on-injective s s' ok) refl
  scan-picks (j ∷ rows) seen s s' p h ok =
      elim (Bool-cases (leb config.slice_size (length s.pending))) [
        | inl full ↦
            let same : s ≡ s' = go_on-injective s s' (ground arith) in
            rw (← same)
              (sym (picks_full config.slice_size ledger s.pending (entries_of (j ∷ rows)) full))
        | inr room ↦ elim (Scanned-cases (scan_row prims config label ledger j s)) [
          | inr (a, bad) ↦ ground arith
          | inl (t, good) ↦
              let (e, es, next) = check_candidate-allow seen j j.row.candidate s t p h good in
              scan-picks rows (seen + 1) t s' p
                (scan_row-IsSlice prims config label ledger seen j s t h (ground arith) good)
                (ground arith)
              ∙ picks_step e (entries_of rows) s t room next
              ∙ ap (λ l. picks config.slice_size ledger s.pending (l ++ entries_of rows)) (sym es)
        ]
      ]

  -- Under 'allow', when the loop ends without an abort, the entries of the slice are those that enter
  -- of the rows with a statement, in their order, until the slice is full. An entry enters exactly when no
  -- entry in front of it has its uid, and either one has its statement key or the ledger has no
  -- blocking row with its uid: behind an entry with its statement, a row enters whatever the ledger
  -- says of it.
  pub scan-allow :
      (rows : List JournalRow) (s : Scan)
      → config.cross_source_statement_policy ≡ allow
      → scan prims config label ledger rows start ≡ go_on s
      → s.pending ≡ picks config.slice_size ledger [] (entries_of rows)
  scan-allow rows s p ok = scan-picks rows 0 start s p (start-IsSlice prims config label ledger) ok
