-- ===== src/PassK/Score.antt =====
-- The scoring of one record: `_score_record` of src/icepick/processing/pass_at_k/runner.py.
use icepick.Prelude.{ℕ, String, not, ◌&&◌, Option, none, some, [], leb, if◌then◌else◌}
use icepick.PassK.Tally.{
  Tally, tallied, length_mismatch, unknown_verdict, tally_rollouts, Label, derive_label, label_of,
  no_rollouts,
}
use icepick.PassK.Checkpoint.{commit, stored}
use icepick.PassK.Records.{
  Backend, Config, DropReason, Grading, Kind, Measured, Progress, Record, Row, degenerate_dominated,
  garbage_truth, passed, pre_labeled, resumed, rollout_uids, scored, stamped, statement_of,
  truth_garbage, truth_of, unverifiable_truth,
}
use icepick.PassK.Sample.{Rolled, halted, no_rolls, rolled, rollouts}

pub data Scored : Type 0 where
  done : Row → Kind → Progress → Scored
  -- Ctrl-C
  interrupted : Progress → Scored
  -- The tally raises a ValueError.
  raised : Progress → Scored

-- `checkpoint.commit_record(uid, stamped)`
unfoldable pub commit_record : Record → Row → Progress → Progress
commit_record r row st = record st { records = commit (r.uid, row) st.records }

-- The label of a record that was measured upstream: its own, or the one derived.
abbrev pub own_label : Option Label → Measured → Label
own_label (some label) m = label
own_label none m = derive_label m.total (some m.n_pass) m.n_top_wrong

abbrev pub reason_of : Label → Option DropReason
reason_of Label.drop = some degenerate_dominated
reason_of _ = none

module _ (sha1 : String → String) (g : Grading) (backend : Backend) (cfg : Config) where
  -- `_drop`
  unfoldable pub drop : Record → DropReason → Progress → Scored
  unfolding commit_record
  drop r reason st =
      let row = stamped r (record {
        pass_at_k = none;
        k = cfg.k;
        tally = no_rollouts;
        label = Label.drop;
        rollout_uids = [];
        drop_reason = some reason;
      }) in
      done row scored (commit_record r row st)

  -- The stamp; a record with a failed call is not committed.
  unfoldable pub stamp : Record → Tally → ℕ → Progress → Scored
  unfolding commit_record rollout_uids label_of
  stamp r t backend_errors st =
      let label = label_of cfg.k t in
      let row = stamped r (record {
        pass_at_k = some t.n_correct;
        k = cfg.k;
        tally = t;
        label = label;
        rollout_uids = rollout_uids r.uid cfg.k 0;
        drop_reason = reason_of label;
      }) in
      done row scored (if leb backend_errors 0 then commit_record r row st else st)

  unfoldable pub after_rollouts : Record → Rolled → Scored
  unfolding stamp
  after_rollouts r (halted st) = interrupted st
  after_rollouts r (rolled rolls st) = elim (tally_rollouts rolls.verdicts rolls.candidates) [
    | tallied t ↦ stamp r t rolls.backend_errors st
    | length_mismatch ↦ raised st
    | unknown_verdict ↦ raised st
  ]

  -- A record whose truth can be verified.
  unfoldable pub score_verifiable : Record → String → Progress → Scored
  unfolding after_rollouts rollouts statement_of
  score_verifiable r truth st =
      after_rollouts r (rollouts sha1 g backend cfg (statement_of r) truth cfg.k 0 no_rolls st)

  -- The filters in front of the calls.
  unfoldable pub score_fresh : Record → Progress → Scored
  unfolding truth_of truth_garbage drop score_verifiable
  score_fresh r st = elim (truth_of r) [
    | none ↦ drop r garbage_truth st
    | some truth ↦
        if truth_garbage truth && not cfg.keep_garbage
        then drop r garbage_truth st
        else elim (g.classify truth) [
          | none ↦ drop r unverifiable_truth st
          | some parsed ↦ score_verifiable r parsed st
        ]
  ]

  -- A record that was not measured upstream: committed by an earlier run, or to be scored.
  unfoldable pub score_unmeasured : Record → Progress → Scored
  unfolding score_fresh
  score_unmeasured r st = elim (stored r.uid st.records) [
    | some row ↦ done row resumed st
    | none ↦ score_fresh r st
  ]

  unfoldable pub score_by : Option Measured → Record → Progress → Scored
  unfolding score_unmeasured
  score_by (some m) r st = done (passed r (own_label r.label m)) pre_labeled st
  score_by none r st = score_unmeasured r st

  -- `_score_record`
  unfoldable pub score_record : Record → Progress → Scored
  unfolding score_by
  score_record r st = score_by r.pass_at_k r st
