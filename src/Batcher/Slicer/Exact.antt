-- ===== src/Batcher/Slicer/Exact.antt =====
-- What the loop of `cut_slice` in src/icepick/batcher/slicer.py accepts, skips and refuses.
use icepick.Prelude.{
  ℕ, ◌+◌, ◌≤◌, ◌<◌, ◌≡◌, ◌⊎◌, refl, String, Bool, true, false, Option, none, some, List, [], ◌∷◌,
  ◌++◌, arith, ◌==◌, leb, ltb, zero, suc, length, length-append, str_eq, Bool-cases, inl, inr,
}
use icepick.Prelude.Dict.{contains}
use icepick.Batcher.Identity.{Primitives, Candidate}
use icepick.Batcher.Journal.{JournalRow}
use icepick.Batcher.Ledger.{Ledger, Kind}
use icepick.Batcher.Disk.{Note}
use icepick.Batcher.Slicer.{
  SliceConfig, Policy, skip, abort, allow, on_stmt_conflict, Entry, Prior, Scan, start, Abort,
  Scanned, check_candidate, check_statement, judge, go_on, give_up, intra_check, verdict, accept,
  handle, entry_of, scan_row, scan,
}
use icepick.Batcher.Slicer.Pending.{IsSlice, IsThrough, accept-IsSlice}

-- The verdicts that may let an entry in.
abbrev pub lets_in : Kind → Bool
lets_in Kind.replay = false
lets_in Kind.uid_conflict = false
lets_in _ = true

-- They are given only to a uid that is fresh in the slice.
verdict-fresh :
    (label : String) (ledger : Ledger) (s : Scan) (uid sk ch : String)
    → lets_in (verdict label ledger s uid sk ch).0 ≡ true
    → contains uid s.pending_by_uid ≡ false
unfolding verdict intra_check
verdict-fresh label ledger s uid sk ch h = ground arith

pub go_on-injective : (s t : Scan) → go_on s ≡ go_on t → s ≡ t
go_on-injective s t h = cc

-- Noting a warning keeps the invariant.
warned-IsSlice :
    (n seen : ℕ) (s : Scan) (ws : List Note)
    → IsSlice n seen s
    → IsSlice n seen (record s { warns = length ws; warnings = ws })
warned-IsSlice n seen s ws h = record {
  by_uid = h.by_uid;
  by_stmt = h.by_stmt;
  uids = h.uids;
  size = h.size;
  through = h.through;
  seen_all = h.seen_all;
  skips_noted = h.skips_noted;
  warns_noted = refl;
}

-- Accepting with a warning.
accept_warned-IsSlice :
    (n seen : ℕ) (e : Entry) (w : Note) (s : Scan)
    → IsSlice n seen s
    → (length s.pending == n) ≡ false
    → contains e.uid s.pending_by_uid ≡ false
    → IsSlice n
        (seen + 1)
        (record (accept n e s) { warns = s.warns + 1; warnings = s.warnings ++ w ∷ [] })
accept_warned-IsSlice n seen e w s h room fresh =
    let count : length (s.warnings ++ w ∷ []) ≡ s.warns + 1 =
      omega (arith, length-append {0} s.warnings (w ∷ []), h.warns_noted) in
    rw (← count) (
      warned-IsSlice n (seen + 1) (accept n e s) (s.warnings ++ w ∷ [])
        (accept-IsSlice n seen e s h room fresh))

-- A skip keeps the entries and adds one to one of the two counts.
skipped-IsSlice :
    (n seen r t : ℕ) (w : Note) (s : Scan)
    → IsSlice n seen s
    → r + t ≡ s.replay_skips + s.stmt_skips + 1
    → IsSlice n
        (seen + 1)
        (record s { replay_skips = r; stmt_skips = t; skips = s.skips ++ w ∷ [] })
skipped-IsSlice n seen r t w s h e = record {
  by_uid = h.by_uid;
  by_stmt = h.by_stmt;
  uids = h.uids;
  size = h.size;
  through = h.through;
  seen_all = omega (arith, h.seen_all);
  skips_noted = omega (arith, length-append {0} s.skips (w ∷ []), h.skips_noted);
  warns_noted = h.warns_noted;
}

conflict-IsSlice :
    (policy : Policy) (n seen : ℕ) (e : Entry) (s s' : Scan) (prior : Option Prior)
    → IsSlice n seen s
    → (length s.pending == n) ≡ false
    → contains e.uid s.pending_by_uid ≡ false
    → on_stmt_conflict policy n e s prior ≡ go_on s'
    → IsSlice n (seen + 1) s'
unfolding on_stmt_conflict
conflict-IsSlice skip n seen e s s' prior h room fresh ok =
    rw (← go_on-injective _ s' ok)
      (skipped-IsSlice n seen s.replay_skips (s.stmt_skips + 1) _ s h (omega arith))
conflict-IsSlice abort n seen e s s' prior h room fresh ok = cc
conflict-IsSlice allow n seen e s s' prior h room fresh ok =
    rw (← go_on-injective _ s' ok) (accept_warned-IsSlice n seen e _ s h room fresh)

handle-IsSlice :
    (config : SliceConfig) (seen : ℕ) (e : Entry) (s s' : Scan) (k : Kind) (prior : Option Prior)
    → IsSlice config.slice_size seen s
    → (length s.pending == config.slice_size) ≡ false
    → (lets_in k ≡ true → contains e.uid s.pending_by_uid ≡ false)
    → handle config e s (k, prior) ≡ go_on s'
    → IsSlice config.slice_size (seen + 1) s'
unfolding handle
handle-IsSlice config seen e s s' Kind.new prior h room fresh ok =
    rw (← go_on-injective _ s' ok) (accept-IsSlice config.slice_size seen e s h room (fresh refl))
handle-IsSlice config seen e s s' Kind.replay prior h room fresh ok =
    rw (← go_on-injective _ s' ok)
      (skipped-IsSlice config.slice_size seen (s.replay_skips + 1) s.stmt_skips _ s h (omega arith))
handle-IsSlice config seen e s s' Kind.uid_conflict prior h room fresh ok = cc
handle-IsSlice config seen e s s' Kind.stmt_conflict prior h room fresh ok =
    conflict-IsSlice config.cross_source_statement_policy config.slice_size seen e s s' prior h room
      (fresh refl) ok
handle-IsSlice config seen e s s' Kind.warn prior h room fresh ok =
    rw (← go_on-injective _ s' ok)
      (accept_warned-IsSlice config.slice_size seen e _ s h room (fresh refl))

handle_verdict-IsSlice :
    (config : SliceConfig) (seen : ℕ) (e : Entry) (s s' : Scan) (v : Kind × Option Prior)
    → IsSlice config.slice_size seen s
    → (length s.pending == config.slice_size) ≡ false
    → (lets_in v.0 ≡ true → contains e.uid s.pending_by_uid ≡ false)
    → handle config e s v ≡ go_on s'
    → IsSlice config.slice_size (seen + 1) s'
handle_verdict-IsSlice config seen e s s' (k, prior) = handle-IsSlice config seen e s s' k prior

pub Scanned-cases : (r : Scanned) → ((s : Scan) × (r ≡ go_on s)) ⊎ ((a : Abort) × (r ≡ give_up a))
Scanned-cases (go_on s) = inl (s, refl)
Scanned-cases (give_up a) = inr (a, refl)

start-IsThrough : (n : ℕ) → IsThrough n start
start-IsThrough zero = inr (inl refl)
start-IsThrough (suc n) = inl (λ same. ground arith)

module _ (prims : Primitives) (config : SliceConfig) (label : String) (ledger : Ledger) where
  check_statement-IsSlice :
      (seen : ℕ) (j : JournalRow) (c : Candidate) (statement : Option String) (s s' : Scan)
      → IsSlice config.slice_size seen s
      → (length s.pending == config.slice_size) ≡ false
      → check_statement prims config label ledger j c statement s ≡ go_on s'
      → IsSlice config.slice_size (seen + 1) s'
  unfolding check_statement judge
  check_statement-IsSlice seen j c none s s' h room ok = cc
  check_statement-IsSlice seen j c (some statement) s s' h room ok =
      let e = entry_of prims config label ledger j c statement in
      elim (Bool-cases (str_eq statement "")) [
        | inl empty ↦ ground arith
        | inr full ↦
            handle_verdict-IsSlice config seen e s s'
              (verdict label ledger s e.uid e.stmt_key e.content_hash) h room
              (verdict-fresh label ledger s e.uid e.stmt_key e.content_hash) (ground arith)
      ]

  check_candidate-IsSlice :
      (seen : ℕ) (j : JournalRow) (c : Option Candidate) (s s' : Scan)
      → IsSlice config.slice_size seen s
      → (length s.pending == config.slice_size) ≡ false
      → check_candidate prims config label ledger j c s ≡ go_on s'
      → IsSlice config.slice_size (seen + 1) s'
  unfolding check_candidate
  check_candidate-IsSlice seen j none s s' h room ok = cc
  check_candidate-IsSlice seen j (some c) s s' h room ok =
      check_statement-IsSlice seen j c c.statement s s' h room ok

  -- What each row that does not end the scan keeps, the scan keeps.
  module _ (P : ℕ → Scan → Type 0) where
    abbrev pub IsKept : Type 0
    IsKept =
        (seen : ℕ) (j : JournalRow) (s s' : Scan)
        → P seen s
        → (length s.pending == config.slice_size) ≡ false
        → scan_row prims config label ledger j s ≡ go_on s'
        → P (seen + 1) s'

    pub scan_rule :
        IsKept
        → (rows : List JournalRow) (seen : ℕ) (s s' : Scan) → P seen s
        → scan prims config label ledger rows s ≡ go_on s'
        → (m : ℕ) × P m s'
          × (m ≤ seen + length rows)
          × (length s'.pending < config.slice_size → m ≡ seen + length rows)
    unfolding scan
    scan_rule keeps [] seen s s' h ok =
        (seen, rw (← go_on-injective s s' ok) h, omega arith, λ _. omega arith)
    scan_rule keeps (j ∷ rows) seen s s' h ok =
        elim (Bool-cases (leb config.slice_size (length s.pending))) [
          | inl full ↦
              let same : s ≡ s' = go_on-injective s s' (ground arith) in
              (seen, rw (← same) h, omega arith, rw (← same) (λ short. ground arith))
          | inr room ↦ elim (Scanned-cases (scan_row prims config label ledger j s)) [
            | inr (a, bad) ↦ ground arith
            | inl (t, good) ↦
                let (m, slice, most, all) =
                  scan_rule keeps rows (seen + 1) t s' (keeps seen j s t h (ground arith) good)
                    (ground arith) in
                (m, slice, omega arith, λ short. omega (arith, all short))
          ]
        ]

  pub scan_row-IsSlice : IsKept (IsSlice config.slice_size)
  unfolding scan_row
  scan_row-IsSlice seen j s s' = check_candidate-IsSlice seen j j.row.candidate s s'

  pub start-IsSlice : IsSlice config.slice_size 0 start
  start-IsSlice = record {
    by_uid = λ u. refl;
    by_stmt = λ k. refl;
    uids = tt;
    size = omega arith;
    through = start-IsThrough config.slice_size;
    seen_all = refl;
    skips_noted = refl;
    warns_noted = refl;
  }

  -- When the loop ends without an abort, no two entries have the same uid, there are at most as many
  -- as the slice takes, the row that fills a slice is that of its last entry, each row that was read
  -- is an entry or a counted skip, each skip and warning is noted, and a slice that stays short has
  -- read every row.
  pub scan-IsSlice :
      (rows : List JournalRow) (s : Scan)
      → scan prims config label ledger rows start ≡ go_on s
      → (m : ℕ) × IsSlice config.slice_size m s
        × (m ≤ length rows)
        × ((config.slice_size ≤ length s.pending) ⊎ (m ≡ length rows))
  scan-IsSlice rows s ok =
      let (m, slice, most, all) =
        scan_rule (IsSlice config.slice_size) scan_row-IsSlice rows 0 start s start-IsSlice ok in
      elim (Bool-cases (ltb (length s.pending) config.slice_size)) [
        | inl short ↦ (m, slice, omega arith, inr (omega (arith, all (ground arith))))
        | inr full ↦ (m, slice, omega arith, inl (ground arith))
      ]
