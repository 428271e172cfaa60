-- ===== src/PassK/Run/Again.antt =====
-- What a second run of src/icepick/processing/pass_at_k/runner.py does.
use icepick.Prelude.{
  suc, ◌<◌, ◌≡◌, inl, inr, refl, sym, ap, ◌∙◌, String, true, none, some, List, [], ◌∷◌, map, length,
  arith, ltb,
}
use icepick.Prelude.Dict.{Dict}
use icepick.PassK.Checkpoint.{Log, load}
use icepick.PassK.Records.{
  Record, Row, Kind, Config, Backend, Grading, Progress, pre_labeled, resumed,
}
use icepick.PassK.Score.{done, score_record, score_by, score_unmeasured}
use icepick.PassK.Run.{Files, files_of, finished, score_all, run_from, run}
use icepick.PassK.Run.Billed.{IsCache, IsBilled, score_all-IsBilled}
use icepick.PassK.Run.Paid.{started, start_loaded}
use icepick.PassK.Run.Clean.{Answers}
use icepick.PassK.Run.Settled.{Settled, AllSettled, score_all-Settled}

AllSettled-length :
    (log : Log Row) (rs : List Record) (rows : List (Row × Kind))
    → AllSettled log rs rows
    → length rows ≡ length rs
AllSettled-length log [] [] all = refl
AllSettled-length log [] (x ∷ xs) all = absurd all
AllSettled-length log (r ∷ rs) [] all = absurd all
AllSettled-length log (r ∷ rs) (x ∷ xs) all = ap suc (AllSettled-length log rs xs all.1)

module _ (sha1 : String → String) (g : Grading) where
  -- Where each record has a settled row, a run calls no server, changes nothing and gives the rows,
  -- whatever its server and configuration.
  module _ (backend : Backend) (cfg : Config) where
    score_record_again :
        (r : Record) (row : Row) (st : Progress)
        → Settled st.records r row
        → (kind : Kind) × (score_record sha1 g backend cfg r st ≡ done row kind st)
    unfolding score_record score_by score_unmeasured
    score_record_again r row st (inl h) = (
      resumed,
      ap (λ o. score_by sha1 g backend cfg o r st) h.0 ∙ rw (h.1, score_unmeasured) refl,
    )
    score_record_again r row st (inr (m, e, same)) = (
      pre_labeled,
      ap (λ o. score_by sha1 g backend cfg o r st) e
          ∙ ap (λ row. done row pre_labeled st) (sym same),
    )

    score_all_again :
        (rs : List Record) (rows : List (Row × Kind)) (st : Progress)
        → AllSettled st.records rs rows
        → (rows' : List (Row × Kind)) × (score_all sha1 g backend cfg rs st ≡ finished rows' st)
          × (map (λ x. x.0) rows' ≡ map (λ x. x.0) rows)
    unfolding score_all
    score_all_again [] [] st all = ([], refl, refl)
    score_all_again [] (x ∷ xs) st all = absurd all
    score_all_again (r ∷ rs) [] st all = absurd all
    score_all_again (r ∷ rs) (x ∷ xs) st all =
        let (kind, e) = score_record_again r x.0 st all.0 in
        let (rows', e', same) = score_all_again rs xs st all.1 in
        ((x.0, kind) ∷ rows', rw (e, score_all) (rw e' refl), ap (λ l. x.0 ∷ l) same)

  -- When k is positive, the files of the checkpoint are whole, its cache holds no key twice, and the
  -- server answers one of the attempts of each call, a run finishes with one row for each record; any
  -- later run over the same records on the files that it leaves, whatever its server and its
  -- configuration with a positive k, finishes with the same rows, makes no call and leaves the files as
  -- they are.
  pub run_again :
      (backend : Backend) (cfg : Config) (rs : List Record) (files : Files) (records : Dict Row)
      (outputs : Dict String)
      → 0 < cfg.k
      → Answers backend cfg
      → load files.records_done ≡ some records
      → files.records_done.tail ≡ none
      → IsCache files.llm_cache outputs
      → (rows : List (Row × Kind)) × (st : Progress) × (run sha1 g backend cfg files rs
          ≡ finished rows st)
        × (length rows ≡ length rs)
        × ((backend' : Backend) (cfg' : Config)
            → 0 < cfg'.k
            → (rows' : List (Row × Kind)) × (st' : Progress) × (run sha1 g backend' cfg'
                  (files_of st)
                  rs
                ≡ finished rows' st')
              × (map (λ x. x.0) rows' ≡ map (λ x. x.0) rows)
              × (st'.calls ≡ 0)
              × (files_of st' ≡ files_of st))
  unfolding run run_from
  run_again backend cfg rs files records outputs k answers e whole cache =
      let first = started files records outputs in
      let (rows, st, e', all, _, synced) =
        score_all-Settled sha1 g backend cfg answers rs first (e, whole) in
      let billed =
        score_all-IsBilled (length outputs) sha1 g backend cfg rs first
          (record { cache = cache; count = omega arith }) in
      let ok : ltb 0 cfg.k ≡ true = ground arith in
      let paid : IsBilled (length outputs) st = rw e' at billed in
      let reloaded =
        start_loaded (files_of st) st.records.entries st.outputs.entries synced.0
          paid.cache.loads in
      (
        rows,
        st,
        rw ok (rw (start_loaded files records outputs e cache.loads) e'),
        AllSettled-length st.records rs rows all,
        λ backend' cfg' k'.
            let second = started (files_of st) st.records.entries st.outputs.entries in
            let (rows', e'', same) = score_all_again backend' cfg' rs rows second all in
            let ok' : ltb 0 cfg'.k ≡ true = ground arith in
            (rows', second, rw ok' (rw reloaded e''), same, refl, refl),
      )
