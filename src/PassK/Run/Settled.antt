-- ===== src/PassK/Run/Settled.antt =====
-- What a record that has been scored leaves, for src/icepick/processing/pass_at_k/runner.py.
use icepick.Prelude.{
  ◌≡◌, ◌⊎◌, inl, inr, refl, String, false, not, ◌&&◌, Option, none, some, List, [], ◌∷◌, arith,
  str_eq, eq_iff, Bool-cases, Option-cases, str_eq_refl,
}
use icepick.PassK.Tally.Meaning.{tally_rollouts_total}
use icepick.PassK.Checkpoint.{Log, commit, stored}
use icepick.PassK.Checkpoint.Resume.{IsSynced, commit-IsSynced}
use icepick.PassK.Records.{
  Record, Row, Kind, Config, Backend, Grading, Progress, DropReason, statement_of, truth_of,
  truth_garbage, passed, pre_labeled, resumed, Measured,
}
use icepick.PassK.Sample.{no_rolls}
use icepick.PassK.Score.{
  Scored, done, commit_record, drop, stamp, after_rollouts, score_verifiable, score_fresh,
  score_record, score_by, score_unmeasured, own_label,
}
use icepick.PassK.Run.{finished, score_all}
use icepick.PassK.Run.Clean.{Answers, rollouts-IsClean}

-- The row of a record as every later run finds it.
abbrev pub Settled : Log Row → Record → Row → Type 0
Settled log r row =
    ((r.pass_at_k ≡ none) × (stored r.uid log ≡ some row))
    ⊎ ((m : Measured) × (r.pass_at_k ≡ some m) × (row ≡ passed r (own_label r.label m)))

-- A record that is stored stays so.
abbrev pub Keeps : Progress → Progress → Type 0
Keeps st st' =
    (uid : String) (row : Row)
    → stored uid st.records ≡ some row
    → stored uid st'.records ≡ some row

-- One settled row for each record.
abbrev pub AllSettled : Log Row → List Record → List (Row × Kind) → Type 0
AllSettled log [] [] = Unit
AllSettled log (r ∷ rs) (x ∷ xs) = Settled log r x.0 × AllSettled log rs xs
AllSettled log _ _ = ⊥

Settled-Keeps :
    (st st' : Progress) (r : Record) (row : Row)
    → Keeps st st'
    → Settled st.records r row
    → Settled st'.records r row
Settled-Keeps st st' r row keeps (inl h) = inl (h.0, keeps r.uid row h.1)
Settled-Keeps st st' r row keeps (inr h) = inr h

-- A record has been scored: it is settled, what was stored is stored, and the log is in step.
record Settles (st st' : Progress) (r : Record) (row : Row) : Type 0 where
  pub settled : Settled st'.records r row
  pub keeps : Keeps st st'
  pub synced : IsSynced st'.records

commit_record-Settles :
    (r : Record) (row : Row) (st st' : Progress)
    → r.pass_at_k ≡ none
    → stored r.uid st.records ≡ none
    → st'.records ≡ st.records
    → IsSynced st.records
    → Settles st (commit_record r row st') r row
unfolding commit_record stored commit
commit_record-Settles r row st st' fresh miss same synced = record {
  settled = inl (fresh, ground (arith, str_eq_refl r.uid));
  keeps = λ uid row' h.
      let apart : str_eq r.uid uid ≡ false = ground (arith, eq_iff r.uid uid) in
      rw apart (rw same h);
  synced = rw same (commit-IsSynced (r.uid, row) st.records synced);
}

module _ (sha1 : String → String) (g : Grading) where
  module _ (backend : Backend) (cfg : Config) (answers : Answers backend cfg) where
    abbrev Scores : Scored → Progress → Record → Type 0
    Scores x st r =
        (row : Row) × (kind : Kind) × (st' : Progress) × (x ≡ done row kind st')
        × Settles st st' r row

    drop-Scores :
        (r : Record) (reason : DropReason) (st : Progress)
        → r.pass_at_k ≡ none
        → stored r.uid st.records ≡ none
        → IsSynced st.records
        → Scores (drop sha1 g backend cfg r reason st) st r
    unfolding drop
    drop-Scores r reason st fresh miss synced =
        (_, _, _, refl, commit_record-Settles r _ st st fresh miss refl synced)

    score_verifiable-Scores :
        (r : Record) (truth : String) (st : Progress)
        → r.pass_at_k ≡ none
        → stored r.uid st.records ≡ none
        → IsSynced st.records
        → Scores (score_verifiable sha1 g backend cfg r truth st) st r
    unfolding score_verifiable after_rollouts stamp
    score_verifiable-Scores r truth st fresh miss synced =
        let (rolls, st', e, clean, same) =
          rollouts-IsClean sha1 g cfg backend (statement_of r) truth cfg.k 0 no_rolls st answers
            (record { paired = refl; known = tt; no_errors = refl }) in
        let (t, e', _) =
          tally_rollouts_total rolls.verdicts rolls.candidates clean.paired clean.known in
        rw e (
          rw (e', after_rollouts)
            (rw clean.no_errors
              (_, _, _, refl, commit_record-Settles r _ st st' fresh miss same synced)))

    score_fresh-Scores :
        (r : Record) (st : Progress)
        → r.pass_at_k ≡ none
        → stored r.uid st.records ≡ none
        → IsSynced st.records
        → Scores (score_fresh sha1 g backend cfg r st) st r
    unfolding score_fresh
    score_fresh-Scores r st fresh miss synced = elim (Option-cases (truth_of r)) [
      | inl e ↦ rw (e, score_fresh) (drop-Scores r _ st fresh miss synced)
      | inr (truth, e) ↦ elim (Bool-cases (truth_garbage truth && not cfg.keep_garbage)) [
        | inl junk ↦ rw (e, junk, score_fresh) (drop-Scores r _ st fresh miss synced)
        | inr kept ↦ elim (Option-cases (g.classify truth)) [
          | inl c ↦ rw (e, kept, c, score_fresh) (drop-Scores r _ st fresh miss synced)
          | inr (parsed, c) ↦
              rw (e, kept, c, score_fresh) (score_verifiable-Scores r parsed st fresh miss synced)
        ]
      ]
    ]

    score_by-Scores :
        (o : Option Measured) (r : Record) (st : Progress)
        → r.pass_at_k ≡ o
        → IsSynced st.records
        → Scores (score_by sha1 g backend cfg o r st) st r
    unfolding score_by score_unmeasured
    score_by-Scores (some m) r st e synced = (
      passed r (own_label r.label m),
      pre_labeled,
      st,
      refl,
      record { settled = inr (m, e, refl); keeps = λ uid row h. h; synced = synced },
    )
    score_by-Scores none r st e synced = elim (Option-cases (stored r.uid st.records)) [
      | inl miss ↦ rw (miss, score_unmeasured) (score_fresh-Scores r st e miss synced)
      | inr (row, hit) ↦ (
        row,
        resumed,
        st,
        rw (hit, score_unmeasured) refl,
        record { settled = inl (e, hit); keeps = λ uid row' h. h; synced = synced },
      )
    ]

    score_record-Scores :
        (r : Record) (st : Progress)
        → IsSynced st.records
        → Scores (score_record sha1 g backend cfg r st) st r
    unfolding score_record
    score_record-Scores r st synced = score_by-Scores r.pass_at_k r st refl synced

    pub score_all-Settled :
        (rs : List Record) (st : Progress)
        → IsSynced st.records
        → (rows : List (Row × Kind)) × (st' : Progress) × (score_all sha1 g backend cfg rs st
            ≡ finished rows st')
          × AllSettled st'.records rs rows
          × Keeps st st'
          × IsSynced st'.records
    unfolding score_all
    score_all-Settled [] st synced = ([], st, refl, tt, λ uid row h. h, synced)
    score_all-Settled (r ∷ rs) st synced =
        let (row, kind, st', e, s) = score_record-Scores r st synced in
        let (rows, st'', e', all, keeps, synced') = score_all-Settled rs st' s.synced in
        (
          (row, kind) ∷ rows,
          st'',
          rw (e, score_all) (rw e' refl),
          (Settled-Keeps st' st'' r row keeps s.settled, all),
          λ uid row' h. keeps uid row' (s.keeps uid row' h),
          synced',
        )
