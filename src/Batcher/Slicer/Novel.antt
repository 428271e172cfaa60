-- ===== src/Batcher/Slicer/Novel.antt =====
-- Nothing that the ledger blocks gets into a slice, unless the policy allows it:
-- src/icepick/batcher/slicer.py.
use icepick.Prelude.{
  ℕ, ◌≡◌, ◌≢◌, refl, String, Bool, true, false, Option, none, some, List, [], ◌∷◌, All, All-append,
  arith, str_eq, Bool-cases, inl, inr,
}
use icepick.Prelude.Dict.{contains, lookup}
use icepick.Batcher.Identity.{Primitives, Candidate}
use icepick.Batcher.Journal.{JournalRow}
use icepick.Batcher.Ledger.{Ledger, Kind, check}
use icepick.Batcher.Slicer.{
  SliceConfig, Policy, skip, abort, allow, on_stmt_conflict, Entry, Prior, Scan, start,
  check_candidate, check_statement, judge, go_on, intra_check, verdict, accept, handle, entry_of,
  scan_row, scan,
}
use icepick.Batcher.Slicer.Pending.{IsSlice, HasDistinctStmts, HasDistinctStmts-append}
use icepick.Batcher.Slicer.Exact.{go_on-injective, scan_rule, scan_row-IsSlice, start-IsSlice}

-- The ledger has no blocking row with the entry's uid and none with its statement key.
abbrev pub IsUnknown : Ledger → Entry → Type 0
IsUnknown l e = (lookup e.uid l.by_uid ≡ none) × (lookup e.stmt_key l.by_stmt ≡ none)

-- What the entries of a slice have in common when no policy has let a conflict in.
abbrev pub IsNovel : Ledger → Scan → Type 0
IsNovel l s = All (IsUnknown l) s.pending × HasDistinctStmts s.pending

abbrev is_clear : Kind → Bool
is_clear Kind.new = true
is_clear Kind.warn = true
is_clear _ = false

verdict-clear :
    (label : String) (l : Ledger) (s : Scan) (e : Entry)
    → is_clear (verdict label l s e.uid e.stmt_key e.content_hash).0 ≡ true
    → IsUnknown l e × (contains e.stmt_key s.pending_by_stmt ≡ false)
unfolding verdict intra_check check
verdict-clear label l s e h = ground arith

accept-IsNovel :
    (n seen : ℕ) (l : Ledger) (e : Entry) (s : Scan)
    → IsSlice n seen s
    → IsNovel l s
    → IsUnknown l e × (contains e.stmt_key s.pending_by_stmt ≡ false)
    → IsNovel l (accept n e s)
unfolding accept
accept-IsNovel n seen l e s h k (new, fresh) = (
  All-append (IsUnknown l) s.pending (e ∷ []) k.0 (new, tt),
  HasDistinctStmts-append s.pending e k.1 (ground (arith, h.by_stmt e.stmt_key)),
)

conflict-IsNovel :
    (policy : Policy) (n : ℕ) (l : Ledger) (e : Entry) (s s' : Scan) (prior : Option Prior)
    → policy ≢ allow
    → IsNovel l s
    → on_stmt_conflict policy n e s prior ≡ go_on s'
    → IsNovel l s'
unfolding on_stmt_conflict
conflict-IsNovel skip n l e s s' prior strict k ok = rw (← go_on-injective _ s' ok) k
conflict-IsNovel abort n l e s s' prior strict k ok = cc
conflict-IsNovel allow n l e s s' prior strict k ok = absurd (strict refl)

handle-IsNovel :
    (config : SliceConfig) (seen : ℕ) (l : Ledger) (e : Entry) (s s' : Scan)
    (v : Kind × Option Prior)
    → config.cross_source_statement_policy ≢ allow
    → IsSlice config.slice_size seen s
    → IsNovel l s
    → (is_clear v.0 ≡ true → IsUnknown l e × (contains e.stmt_key s.pending_by_stmt ≡ false))
    → handle config e s v ≡ go_on s'
    → IsNovel l s'
unfolding handle
handle-IsNovel config seen l e s s' (Kind.new, prior) strict h k clear ok =
    rw (← go_on-injective _ s' ok) (accept-IsNovel config.slice_size seen l e s h k (clear refl))
handle-IsNovel config seen l e s s' (Kind.replay, prior) strict h k clear ok =
    rw (← go_on-injective _ s' ok) k
handle-IsNovel config seen l e s s' (Kind.uid_conflict, prior) strict h k clear ok = cc
handle-IsNovel config seen l e s s' (Kind.stmt_conflict, prior) strict h k clear ok =
    conflict-IsNovel config.cross_source_statement_policy config.slice_size l e s s' prior strict k
      ok
handle-IsNovel config seen l e s s' (Kind.warn, prior) strict h k clear ok =
    rw (← go_on-injective _ s' ok) (accept-IsNovel config.slice_size seen l e s h k (clear refl))

module _ (prims : Primitives) (config : SliceConfig) (label : String) (ledger : Ledger) where
  check_statement-IsNovel :
      (seen : ℕ) (j : JournalRow) (c : Candidate) (statement : Option String) (s s' : Scan)
      → config.cross_source_statement_policy ≢ allow
      → IsSlice config.slice_size seen s
      → IsNovel ledger s
      → check_statement prims config label ledger j c statement s ≡ go_on s'
      → IsNovel ledger s'
  unfolding check_statement judge
  check_statement-IsNovel seen j c none s s' strict h k ok = cc
  check_statement-IsNovel seen j c (some statement) s s' strict h k ok =
      let e = entry_of prims config label ledger j c statement in
      elim (Bool-cases (str_eq statement "")) [
        | inl empty ↦ ground arith
        | inr full ↦
            handle-IsNovel config seen ledger e s s'
              (verdict label ledger s e.uid e.stmt_key e.content_hash) strict h k
              (verdict-clear label ledger s e) (ground arith)
      ]

  check_candidate-IsNovel :
      (seen : ℕ) (j : JournalRow) (c : Option Candidate) (s s' : Scan)
      → config.cross_source_statement_policy ≢ allow
      → IsSlice config.slice_size seen s
      → IsNovel ledger s
      → check_candidate prims config label ledger j c s ≡ go_on s'
      → IsNovel ledger s'
  unfolding check_candidate
  check_candidate-IsNovel seen j none s s' strict h k ok = cc
  check_candidate-IsNovel seen j (some c) s s' strict h k ok =
      check_statement-IsNovel seen j c c.statement s s' strict h k ok

  -- Under the policies 'skip' and 'abort' every entry of the slice has a uid and a statement key that
  -- no blocking row of the ledger has, and no two entries have the same statement key.
  pub scan-IsNovel :
      (rows : List JournalRow) (s : Scan)
      → config.cross_source_statement_policy ≢ allow
      → scan prims config label ledger rows start ≡ go_on s
      → IsNovel ledger s
  scan-IsNovel rows s strict ok =
      (scan_rule prims config label ledger
        (λ seen t. IsSlice config.slice_size seen t × IsNovel ledger t)
        (λ seen j t t' h room good. (
          scan_row-IsSlice prims config label ledger seen j t t' h.0 room good,
          unfold scan_row in
              check_candidate-IsNovel seen j j.row.candidate t t' strict h.0 h.1 good,
        ))
        rows 0 start s (start-IsSlice prims config label ledger, (tt, tt)) ok).1.1
