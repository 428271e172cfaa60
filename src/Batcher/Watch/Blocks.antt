-- ===== src/Batcher/Watch/Blocks.antt =====
-- What a watch journal blocks: `_ingest_watch_journals` of src/icepick/batcher/daemon.py.
use Prim.Native.String.{◌++◌}
use icepick.Prelude.{
  ◌≡◌, refl, String, Bool, true, false, not, ◌||◌, ◌&&◌, Option, none, some, List, [], ◌∷◌, All,
  arith, eq_iff, str_eq_refl, Bool-cases, inl, inr, ◌⊎◌, if◌then◌else◌,
}
use icepick.Prelude.Dict.{contains, pair_in}
use icepick.Batcher.Identity.{Primitives}
use icepick.Batcher.Journal.{JournalRow}
use icepick.Batcher.Ledger.{LedgerRow, Ledger, index_row, check, to_write, append_all}
use icepick.Batcher.World.{World, append_ledger, move_cursor}
use icepick.Batcher.Watch.{
  Ingested, is_free, watch_row, ingest_statement, skip_malformed, statement_of, ingest_valid,
  ingest_row, ingest_rows, pass_over,
}

-- The ledger has a blocking row with the uid or with the statement key.
abbrev pub is_blocked : Ledger → String → String → Bool
is_blocked l uid sk = contains uid l.by_uid || contains sk l.by_stmt

-- Whatever the ledger has seen under a batch name blocks by its uid.
abbrev pub IsBlocking : String → Ledger → Type 0
IsBlocking batch l =
    (uid : String) → (pair_in uid batch l.uid_batch && not (contains uid l.by_uid)) ≡ false

index_row-is_blocked :
    (l : Ledger) (r : LedgerRow) (uid sk : String)
    → is_blocked l uid sk ≡ true
    → is_blocked (index_row l r) uid sk ≡ true
unfolding index_row
index_row-is_blocked l r uid sk h = ground (arith, eq_iff r.uid uid, eq_iff r.stmt_key sk)

index_row-blocks :
    (l : Ledger) (r : LedgerRow)
    → r.warn_only ≡ false
    → is_blocked (index_row l r) r.uid r.stmt_key ≡ true
unfolding index_row
index_row-blocks l r h = ground (arith, str_eq_refl r.uid, str_eq_refl r.stmt_key)

index_row-IsBlocking :
    (batch : String) (l : Ledger) (r : LedgerRow)
    → r.warn_only ≡ false
    → IsBlocking batch l
    → IsBlocking batch (index_row l r)
unfolding index_row
index_row-IsBlocking batch l r e h uid =
    ground (arith, h uid, eq_iff r.uid uid, eq_iff r.batch batch)

check-is_blocked :
    (l : Ledger) (uid sk ch : String)
    → is_free (check l uid sk ch).kind ≡ false
    → is_blocked l uid sk ≡ true
unfolding check
check-is_blocked l uid sk ch h = ground arith

check-is_free :
    (l : Ledger) (uid sk ch : String)
    → is_free (check l uid sk ch).kind ≡ true
    → is_blocked l uid sk ≡ false
unfolding check
check-is_free l uid sk ch h = ground arith

module _ (prims : Primitives) (label path now source : String) where
  abbrev pub IsSane : Ledger → Type 0
  IsSane = IsBlocking ("watch:" ++ label)

  abbrev pub Covers : Ledger → JournalRow → Option String → Type 0
  Covers l j none = Unit
  Covers l j (some statement) =
      let r = watch_row prims label path now source j statement in
      is_blocked l r.uid r.stmt_key ≡ true

  -- The ledger blocks the statement of the row, if it has one.
  abbrev pub IsHeld : Ledger → JournalRow → Type 0
  IsHeld l j = Covers l j (statement_of j.row.candidate)

  append_one :
      (r : LedgerRow) (w : World)
      → r.warn_only ≡ false
      → IsBlocking r.batch w.ledger
      → is_blocked w.ledger r.uid r.stmt_key ≡ false
      → (append_ledger (r ∷ []) w).ledger ≡ index_row w.ledger r
  unfolding append_ledger append_all to_write
  append_one r w plain sane free = ground (arith, sane r.uid)

  -- What one row does to the ledger in memory: it indexes one blocking row, or nothing.
  ledger-ingest_statement :
      (j : JournalRow) (statement : String) (s : Ingested)
      → IsSane s.world.ledger
      → let r = watch_row prims label path now source j statement in
        (ingest_statement prims label path now source j statement s).world.ledger ≡ (
          if is_free (check s.world.ledger r.uid r.stmt_key r.content_hash).kind
          then index_row s.world.ledger r
          else s.world.ledger)
  unfolding ingest_statement move_cursor watch_row
  ledger-ingest_statement j statement s sane =
      let r = watch_row prims label path now source j statement in
      elim (Bool-cases (is_free (check s.world.ledger r.uid r.stmt_key r.content_hash).kind)) [
        | inl free ↦ rw free (
            append_one r s.world refl sane
              (check-is_free s.world.ledger r.uid r.stmt_key r.content_hash free))
        | inr known ↦ rw known refl
      ]

  -- The ledger is as it was, or has indexed one more blocking row.
  abbrev Grows : Ledger → Ledger → Type 0
  Grows l l' = (l' ≡ l) ⊎ ((r : LedgerRow) × (r.warn_only ≡ false) × (l' ≡ index_row l r))

  Grows-is_blocked :
      (l l' : Ledger) (uid sk : String)
      → Grows l l'
      → is_blocked l uid sk ≡ true
      → is_blocked l' uid sk ≡ true
  Grows-is_blocked l l' uid sk (inl e) h = rw e h
  Grows-is_blocked l l' uid sk (inr (r, plain, e)) h = rw e (index_row-is_blocked l r uid sk h)

  Grows-IsSane : (l l' : Ledger) → Grows l l' → IsSane l → IsSane l'
  Grows-IsSane l l' (inl e) h = rw e h
  Grows-IsSane l l' (inr (r, plain, e)) h =
      rw e (index_row-IsBlocking ("watch:" ++ label) l r plain h)

  statement_covers :
      (j : JournalRow) (statement : String) (s : Ingested)
      → IsSane s.world.ledger
      → let r = watch_row prims label path now source j statement in
        let l' = (ingest_statement prims label path now source j statement s).world.ledger in
        Grows s.world.ledger l' × (is_blocked l' r.uid r.stmt_key ≡ true)
  statement_covers j statement s sane =
      let r = watch_row prims label path now source j statement in
      let e = ledger-ingest_statement j statement s sane in
      let plain : r.warn_only ≡ false = unfold watch_row in refl in
      elim (Bool-cases (is_free (check s.world.ledger r.uid r.stmt_key r.content_hash).kind)) [
        | inl free ↦
            let new : (ingest_statement prims label path now source j statement s).world.ledger
                ≡ index_row s.world.ledger r =
              ground (arith, e) in
            (inr (r, plain, new), rw new (index_row-blocks s.world.ledger r plain))
        | inr known ↦
            let same : (ingest_statement prims label path now source j statement s).world.ledger
                ≡ s.world.ledger =
              ground (arith, e) in
            (
              inl same,
              rw same (check-is_blocked s.world.ledger r.uid r.stmt_key r.content_hash known),
            )
      ]

  valid-Covers :
      (j : JournalRow) (o : Option String) (s : Ingested)
      → IsSane s.world.ledger
      → let l' = (ingest_valid prims label path now source j o s).world.ledger in
        Grows s.world.ledger l' × Covers l' j o
  unfolding ingest_valid skip_malformed pass_over
  valid-Covers j none s sane = (inl refl, tt)
  valid-Covers j (some statement) s sane = statement_covers j statement s sane

  row_covers :
      (j : JournalRow) (s : Ingested)
      → IsSane s.world.ledger
      → let l' = (ingest_row prims label path now source j s).world.ledger in
        Grows s.world.ledger l' × IsHeld l' j
  unfolding ingest_row
  row_covers j s sane = valid-Covers j (statement_of j.row.candidate) s sane

  -- What is blocked stays so.
  ingest_rows-is_blocked :
      (js : List JournalRow) (s : Ingested) (uid sk : String)
      → IsSane s.world.ledger
      → is_blocked s.world.ledger uid sk ≡ true
      → is_blocked (ingest_rows prims label path now source js s).world.ledger uid sk ≡ true
  unfolding ingest_rows
  ingest_rows-is_blocked [] s uid sk sane h = h
  ingest_rows-is_blocked (j ∷ js) s uid sk sane h =
      let s' = ingest_row prims label path now source j s in
      let grows = (row_covers j s sane).0 in
      ingest_rows-is_blocked js s' uid sk (Grows-IsSane s.world.ledger s'.world.ledger grows sane)
        (Grows-is_blocked s.world.ledger s'.world.ledger uid sk grows h)

  Covers-ingest_rows :
      (js : List JournalRow) (s : Ingested) (j : JournalRow) (o : Option String)
      → IsSane s.world.ledger
      → Covers s.world.ledger j o
      → Covers (ingest_rows prims label path now source js s).world.ledger j o
  Covers-ingest_rows js s j none sane h = tt
  Covers-ingest_rows js s j (some statement) sane h =
      let r = watch_row prims label path now source j statement in
      ingest_rows-is_blocked js s r.uid r.stmt_key sane h

  -- After the rows have been ingested, each of them is held.
  pub ingest_rows-IsHeld :
      (js : List JournalRow) (s : Ingested)
      → IsSane s.world.ledger
      → All (IsHeld (ingest_rows prims label path now source js s).world.ledger) js
  unfolding ingest_rows
  ingest_rows-IsHeld [] s sane = tt
  ingest_rows-IsHeld (j ∷ js) s sane =
      let s' = ingest_row prims label path now source j s in
      let (grows, covers) = row_covers j s sane in
      let sane' = Grows-IsSane s.world.ledger s'.world.ledger grows sane in
      (
        Covers-ingest_rows js s' j (statement_of j.row.candidate) sane' covers,
        ingest_rows-IsHeld js s' sane',
      )
