-- ===== src/PassK/Run/Billed.antt =====
-- What one run of src/icepick/processing/pass_at_k/runner.py pays for.
use icepick.Prelude.{
  ℕ, zero, suc, ◌+◌, ◌≡◌, ◌⊎◌, not, ◌&&◌, inl, inr, refl, String, Option, none, some, List, [], ◌∷◌,
  length, arith, leb, Bool-cases, Option-cases,
}
use icepick.Prelude.Dict.{Dict, lookup, keys, contains-member}
use icepick.Prelude.Sets.{IsDistinct}
use icepick.PassK.Tally.{Tally, Tallied, tallied, length_mismatch, unknown_verdict, tally_rollouts}
use icepick.PassK.Checkpoint.{LogFile, load, commit, stored}
use icepick.PassK.Checkpoint.Resume.{IsSynced, commit-IsSynced}
use icepick.PassK.Records.{
  Record, Row, Kind, Config, Backend, Grading, Progress, DropReason, statement_of, truth_of,
  truth_garbage, Measured,
}
use icepick.PassK.Sample.{
  Called, answered, failed, stopped, Sampled, got, erred, quit, after_call, sample, rollout_key,
  Rolls, grade, count_error, Rolled, rolled, halted, rollouts, no_rolls,
}
use icepick.PassK.Score.{
  Scored, done, interrupted, raised, commit_record, drop, stamp, after_rollouts, score_verifiable,
  score_fresh, score_record, score_by, score_unmeasured,
}
use icepick.PassK.Run.{Outcome, finished, paused, crashed, refused, with_row, score_all}

-- A cache file with no key twice, and what is loaded from it.
pub record IsCache (file : LogFile String) (d : Dict String) : Type 0 where
  pub loads : load file ≡ some d
  pub whole : file.tail ≡ none
  pub once : IsDistinct (keys d)

-- The cache, with `n` entries at the start of the run, has one more for each output paid for since.
pub record IsBilled (n : ℕ) (st : Progress) : Type 0 where
  pub cache : IsCache st.outputs.file st.outputs.entries
  pub count : length st.outputs.entries ≡ n + st.model_calls

abbrev sampled_state : Sampled → Progress
sampled_state (got raw st) = st
sampled_state (erred st) = st
sampled_state (quit st) = st

abbrev rolled_state : Rolled → Progress
rolled_state (rolled rolls st) = st
rolled_state (halted st) = st

abbrev scored_state : Scored → Progress
scored_state (done row kind st) = st
scored_state (interrupted st) = st
scored_state (raised st) = st

Sampled-cases :
    (s : Sampled)
    → ((raw : String) × (st : Progress) × (s ≡ got raw st))
      ⊎ (((st : Progress) × (s ≡ erred st)) ⊎ ((st : Progress) × (s ≡ quit st)))
Sampled-cases (got raw st) = inl (raw, st, refl)
Sampled-cases (erred st) = inr (inl (st, refl))
Sampled-cases (quit st) = inr (inr (st, refl))

Tallied-cases :
    (x : Tallied)
    → ((t : Tally) × (x ≡ tallied t)) ⊎ ((x ≡ length_mismatch) ⊎ (x ≡ unknown_verdict))
Tallied-cases (tallied t) = inl (t, refl)
Tallied-cases length_mismatch = inr (inl refl)
Tallied-cases unknown_verdict = inr (inr refl)

Scored-cases :
    (x : Scored)
    → ((row : Row) × (kind : Kind) × (st : Progress) × (x ≡ done row kind st))
      ⊎ (((st : Progress) × (x ≡ interrupted st)) ⊎ ((st : Progress) × (x ≡ raised st)))
Scored-cases (done row kind st) = inl (row, kind, st, refl)
Scored-cases (interrupted st) = inr (inl (st, refl))
Scored-cases (raised st) = inr (inr (st, refl))

module _ (n : ℕ) where
  abbrev pub OutcomeBilled : Outcome → Type 0
  OutcomeBilled (finished rows st) = IsBilled n st
  OutcomeBilled (paused rows st) = IsBilled n st
  OutcomeBilled (crashed rows st) = IsBilled n st
  OutcomeBilled refused = Unit

  with_row-Billed : (r : Row × Kind) (o : Outcome) → OutcomeBilled o → OutcomeBilled (with_row r o)
  with_row-Billed r (finished rows st) b = b
  with_row-Billed r (paused rows st) b = b
  with_row-Billed r (crashed rows st) b = b
  with_row-Billed r refused b = b

  after_call-IsBilled :
      (key : String) (c : Called) (st : Progress)
      → lookup key st.outputs.entries ≡ none
      → IsBilled n st
      → IsBilled n (sampled_state (after_call key c st))
  unfolding after_call commit
  after_call-IsBilled key (answered raw m) st miss b =
      let synced : IsSynced (commit (key, raw) st.outputs) =
        commit-IsSynced (key, raw) st.outputs (b.cache.loads, b.cache.whole) in
      record {
        cache = record {
          loads = synced.0;
          whole = synced.1;
          once = (ground (arith, contains-member key st.outputs.entries), b.cache.once);
        };
        count = omega (arith, b.count);
      }
  after_call-IsBilled key (failed m) st miss b = record { cache = b.cache; count = b.count }
  after_call-IsBilled key (stopped m) st miss b = record { cache = b.cache; count = b.count }

  sample-IsBilled :
      (cfg : Config) (backend : Backend) (key : String) (st : Progress)
      → IsBilled n st
      → IsBilled n (sampled_state (sample cfg backend key st))
  unfolding sample stored
  sample-IsBilled cfg backend key st b = elim (Option-cases (lookup key st.outputs.entries)) [
    | inl miss ↦ rw (miss, sample) (after_call-IsBilled key _ st miss b)
    | inr (raw, hit) ↦ rw (hit, sample) b
  ]

  module _ (sha1 : String → String) (g : Grading) (backend : Backend) (cfg : Config) where
    rollouts-IsBilled :
        (statement truth : String) (left idx : ℕ) (rolls : Rolls) (st : Progress)
        → IsBilled n st
        → IsBilled n (rolled_state (rollouts sha1 g backend cfg statement truth left idx rolls st))
    unfolding rollouts
    rollouts-IsBilled statement truth zero idx rolls st b = b
    rollouts-IsBilled statement truth (suc left) idx rolls st b =
        let key = rollout_key sha1 cfg statement idx in
        let next = sample-IsBilled cfg backend key st b in
        elim (Sampled-cases (sample cfg backend key st)) [
          | inl (raw, st', e) ↦
              rw (e, rollouts)
                (rollouts-IsBilled statement truth left (idx + 1) (grade g truth raw rolls) st'
                  (rw e at next))
          | inr (inl (st', e)) ↦
              rw (e, rollouts)
                (rollouts-IsBilled statement truth left (idx + 1) (count_error rolls) st'
                  (rw e at next))
          | inr (inr (st', e)) ↦ rw (e, rollouts) (rw e at next)
        ]

    -- A commit of a record does not touch the cache.
    commit_record-IsBilled :
        (r : Record) (row : Row) (st : Progress)
        → IsBilled n st
        → IsBilled n (commit_record r row st)
    unfolding commit_record
    commit_record-IsBilled r row st b = record { cache = b.cache; count = b.count }

    drop-IsBilled :
        (r : Record) (reason : DropReason) (st : Progress)
        → IsBilled n st
        → IsBilled n (scored_state (drop sha1 g backend cfg r reason st))
    unfolding drop
    drop-IsBilled r reason st b = commit_record-IsBilled r _ st b

    stamp-IsBilled :
        (r : Record) (t : Tally) (errors : ℕ) (st : Progress)
        → IsBilled n st
        → IsBilled n (scored_state (stamp sha1 g backend cfg r t errors st))
    unfolding stamp
    stamp-IsBilled r t errors st b = elim (Bool-cases (leb errors 0)) [
      | inl clean ↦ rw (clean, stamp) (commit_record-IsBilled r _ st b)
      | inr failing ↦ rw (failing, stamp) b
    ]

    after_rollouts-IsBilled :
        (r : Record) (x : Rolled)
        → IsBilled n (rolled_state x)
        → IsBilled n (scored_state (after_rollouts sha1 g backend cfg r x))
    unfolding after_rollouts
    after_rollouts-IsBilled r (halted st) b = b
    after_rollouts-IsBilled r (rolled rolls st) b =
        elim (Tallied-cases (tally_rollouts rolls.verdicts rolls.candidates)) [
          | inl (t, e) ↦ rw (e, after_rollouts) (stamp-IsBilled r t rolls.backend_errors st b)
          | inr (inl e) ↦ rw (e, after_rollouts) b
          | inr (inr e) ↦ rw (e, after_rollouts) b
        ]

    score_fresh-IsBilled :
        (r : Record) (st : Progress)
        → IsBilled n st
        → IsBilled n (scored_state (score_fresh sha1 g backend cfg r st))
    unfolding score_fresh score_verifiable
    score_fresh-IsBilled r st b = elim (Option-cases (truth_of r)) [
      | inl e ↦ rw (e, score_fresh) (drop-IsBilled r _ st b)
      | inr (truth, e) ↦ elim (Bool-cases (truth_garbage truth && not cfg.keep_garbage)) [
        | inl junk ↦ rw (e, junk, score_fresh) (drop-IsBilled r _ st b)
        | inr clean ↦ elim (Option-cases (g.classify truth)) [
          | inl c ↦ rw (e, clean, c, score_fresh) (drop-IsBilled r _ st b)
          | inr (parsed, c) ↦
              rw (e, clean, c, score_fresh)
                (after_rollouts-IsBilled r
                  (rollouts sha1 g backend cfg (statement_of r) parsed cfg.k 0 no_rolls st)
                  (rollouts-IsBilled (statement_of r) parsed cfg.k 0 no_rolls st b))
        ]
      ]
    ]

    score_by-IsBilled :
        (o : Option Measured) (r : Record) (st : Progress)
        → IsBilled n st
        → IsBilled n (scored_state (score_by sha1 g backend cfg o r st))
    unfolding score_by score_unmeasured
    score_by-IsBilled (some m) r st b = b
    score_by-IsBilled none r st b = elim (Option-cases (stored r.uid st.records)) [
      | inr (row, hit) ↦ rw (hit, score_unmeasured) b
      | inl miss ↦ rw (miss, score_unmeasured) (score_fresh-IsBilled r st b)
    ]

    score_record-IsBilled :
        (r : Record) (st : Progress)
        → IsBilled n st
        → IsBilled n (scored_state (score_record sha1 g backend cfg r st))
    unfolding score_record
    score_record-IsBilled r st b = score_by-IsBilled r.pass_at_k r st b

    pub score_all-IsBilled :
        (rs : List Record) (st : Progress)
        → IsBilled n st
        → OutcomeBilled (score_all sha1 g backend cfg rs st)
    unfolding score_all
    score_all-IsBilled [] st b = b
    score_all-IsBilled (r ∷ rs) st b =
        let next = score_record-IsBilled r st b in
        elim (Scored-cases (score_record sha1 g backend cfg r st)) [
          | inl (row, kind, st', e) ↦
              rw (e, score_all)
                (with_row-Billed (row, kind) (score_all sha1 g backend cfg rs st')
                  (score_all-IsBilled rs st' (rw e at next)))
          | inr (inl (st', e)) ↦ rw (e, score_all) (rw e at next)
          | inr (inr (st', e)) ↦ rw (e, score_all) (rw e at next)
        ]
