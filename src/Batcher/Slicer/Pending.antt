-- ===== src/Batcher/Slicer/Pending.antt =====
-- The entries pending in a slice and the two indices over them: `pending`, `pending_by_uid` and
-- `pending_by_stmt` in src/icepick/batcher/slicer.py.
use icepick.Prelude.{
  ℕ, ◌+◌, ◌≤◌, ◌≡◌, ◌≢◌, refl, String, Bool, false, ◌||◌, some, List, [], ◌∷◌, ◌++◌, arith, ◌==◌,
  length, last?, last?-append, length-append, ◌⊎◌, inl, inr, Bool-cases, str_eq, eq_iff,
}
use icepick.Prelude.Dict.{contains}
use icepick.Batcher.Slicer.{Entry, Scan, accept}

abbrev pub has_uid : String → List Entry → Bool
has_uid u [] = false
has_uid u (e ∷ es) = str_eq e.uid u || has_uid u es

abbrev pub has_stmt : String → List Entry → Bool
has_stmt k [] = false
has_stmt k (e ∷ es) = str_eq e.stmt_key k || has_stmt k es

-- No two entries have the same uid.
abbrev pub HasDistinctUids : List Entry → Type 0
HasDistinctUids [] = Unit
HasDistinctUids (e ∷ es) = (has_uid e.uid es ≡ false) × HasDistinctUids es

-- No two entries have the same statement key.
abbrev pub HasDistinctStmts : List Entry → Type 0
HasDistinctStmts [] = Unit
HasDistinctStmts (e ∷ es) = (has_stmt e.stmt_key es ≡ false) × HasDistinctStmts es

has_uid-append :
    (u : String) (es : List Entry) (e : Entry)
    → has_uid u (es ++ e ∷ []) ≡ (has_uid u es || str_eq e.uid u)
has_uid-append u [] e = ground arith
has_uid-append u (x ∷ es) e = ground (arith, has_uid-append u es e)

has_stmt-append :
    (k : String) (es : List Entry) (e : Entry)
    → has_stmt k (es ++ e ∷ []) ≡ (has_stmt k es || str_eq e.stmt_key k)
has_stmt-append k [] e = ground arith
has_stmt-append k (x ∷ es) e = ground (arith, has_stmt-append k es e)

pub HasDistinctUids-append :
    (es : List Entry) (e : Entry)
    → HasDistinctUids es
    → has_uid e.uid es ≡ false
    → HasDistinctUids (es ++ e ∷ [])
HasDistinctUids-append [] e h n = (refl, tt)
HasDistinctUids-append (x ∷ es) e h n = ground (
  arith,
  HasDistinctUids-append es e h.1,
  has_uid-append x.uid es e,
  eq_iff x.uid e.uid,
  eq_iff e.uid x.uid,
)

pub HasDistinctStmts-append :
    (es : List Entry) (e : Entry)
    → HasDistinctStmts es
    → has_stmt e.stmt_key es ≡ false
    → HasDistinctStmts (es ++ e ∷ [])
HasDistinctStmts-append [] e h n = (refl, tt)
HasDistinctStmts-append (x ∷ es) e h n = ground (
  arith,
  HasDistinctStmts-append es e h.1,
  has_stmt-append x.stmt_key es e,
  eq_iff x.stmt_key e.stmt_key,
  eq_iff e.stmt_key x.stmt_key,
)

-- The row that fills a slice is that of its last entry.
abbrev pub IsThrough : ℕ → Scan → Type 0
IsThrough n s =
    (length s.pending ≢ n)
    ⊎ ((n ≡ 0) ⊎ ((e : Entry) × (last? s.pending ≡ some e) × (s.through_row ≡ some e.journal_row)))

-- What holds of the local variables between two rows, after `seen` rows.
pub record IsSlice (n seen : ℕ) (s : Scan) : Type 0 where
  pub by_uid : (u : String) → contains u s.pending_by_uid ≡ has_uid u s.pending
  pub by_stmt : (k : String) → contains k s.pending_by_stmt ≡ has_stmt k s.pending
  pub uids : HasDistinctUids s.pending
  pub size : length s.pending ≤ n
  pub through : IsThrough n s
  pub seen_all : length s.pending + s.replay_skips + s.stmt_skips ≡ seen
  pub skips_noted : length s.skips ≡ s.replay_skips + s.stmt_skips
  pub warns_noted : length s.warnings ≡ s.warns

accept-IsThrough : (n : ℕ) (e : Entry) (s : Scan) → IsThrough n (accept n e s)
unfolding accept
accept-IsThrough n e s = elim (Bool-cases (length (s.pending ++ e ∷ []) == n)) [
  | inl full ↦ inr (inr (e, last?-append s.pending e, ground arith))
  | inr room ↦ inl (λ same. ground arith)
]

-- Accepting an entry with a fresh uid, where there is room.
pub accept-IsSlice :
    (n seen : ℕ) (e : Entry) (s : Scan)
    → IsSlice n seen s
    → (length s.pending == n) ≡ false
    → contains e.uid s.pending_by_uid ≡ false
    → IsSlice n (seen + 1) (accept n e s)
unfolding accept
accept-IsSlice n seen e s h room fresh = record {
  by_uid = λ u. ground (arith, h.by_uid u, has_uid-append u s.pending e);
  by_stmt = λ k. ground (arith, h.by_stmt k, has_stmt-append k s.pending e);
  uids = HasDistinctUids-append s.pending e h.uids (ground (arith, h.by_uid e.uid));
  size = ground (arith, length-append {0} s.pending (e ∷ []), h.size);
  through = accept-IsThrough n e s;
  seen_all = omega (arith, length-append {0} s.pending (e ∷ []), h.seen_all);
  skips_noted = h.skips_noted;
  warns_noted = h.warns_noted;
}
