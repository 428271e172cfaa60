-- ===== src/Scrape/Checkpoint/Killed.antt =====
-- A scrape of src/icepick/allocation/scrape/checkpoint.py that is stopped between two papers, and one
-- that is killed within a commit.
use icepick.Prelude.{
  ℕ, ◌≡◌, refl, sym, ap, ◌∙◌, String, false, none, some, List, [], ◌∷◌, ◌++◌, length, take, All,
  arith, str_eq, eq_iff, str_eq_refl,
}
use icepick.Prelude.Dict.{Dict, lookup, or_else, keys, contains-member}
use icepick.Prelude.Sets.{member, IsDistinct}
use icepick.Batcher.JsonLines.{all_lines}
use icepick.Scrape.Checkpoint.{
  Files, Checkpoint, opened, stored_candidates, write_candidates, write_paper, commit, commit_all,
}
use icepick.Scrape.Checkpoint.Lines.{rows_for, names}
use icepick.Scrape.Checkpoint.Reload.{
  rows_for-write, IsWhole, InStep, IsFresh, held, opened-held, commit-InStep, stored-commit,
  held-commit, write_candidates-IsReadable, write_paper-IsReadable, held-write_candidates,
}

module _ {C R : Type 0} where
  names_none :
      (id : String) (f : Files C R) → held id f ≡ none → names id (all_lines f.papers_done) ≡ false
  unfolding held
  names_none id f h = ground arith

  -- A commit of another paper leaves a paper without candidates in the file.
  commit-IsFresh :
      (id j : String) (cs : List C) (k : Checkpoint C R)
      → str_eq id j ≡ false
      → IsWhole k.files
      → IsFresh j k.files
      → IsFresh j (commit id cs k).files
  unfolding commit
  commit-IsFresh id j cs k apart w fresh = rows_for-write id j cs k.files w ∙ ground (arith, fresh)

  AllFresh-commit :
      (id : String) (cs : List C) (papers : Dict (List C)) (k : Checkpoint C R)
      → member id (keys papers) ≡ false
      → IsWhole k.files
      → All (λ p. IsFresh p.0 k.files) papers
      → All (λ p. IsFresh p.0 (commit id cs k).files) papers
  AllFresh-commit id cs [] k out w all = tt
  AllFresh-commit id cs ((j, ds) ∷ papers) k out w all = (
    commit-IsFresh id j cs k (ground (arith, eq_iff id j, eq_iff j id)) w all.0,
    AllFresh-commit id cs papers k (ground arith) w all.1,
  )

  commit_all-InStep :
      (papers : Dict (List C)) (k : Checkpoint C R)
      → IsDistinct (keys papers)
      → All (λ p. IsFresh p.0 k.files) papers
      → InStep k
      → InStep (commit_all papers k)
        × ((id : String)
            → stored_candidates id (commit_all papers k)
              ≡ or_else (lookup id papers) (stored_candidates id k))
  unfolding commit_all
  commit_all-InStep [] k d fresh s = (s, λ id. refl)
  commit_all-InStep ((j, cs) ∷ papers) k d fresh s =
      let (s', all) =
        commit_all-InStep papers (commit j cs k) d.1
          (AllFresh-commit j cs papers k d.0 s.whole fresh.1) (commit-InStep j cs k fresh.0 s) in
      (
        s',
        λ id.
            all id
            ∙ ground (
              arith,
              stored-commit j id cs k,
              eq_iff j id,
              contains-member id papers,
              contains-member j papers,
            ),
      )

  -- When the checkpoint is in step with readable files that end in newlines, and papers with distinct
  -- ids are committed of which no candidate is in the file yet, then a new process starts, and finds
  -- for each of them the candidates that were committed, in their order, and for every other paper
  -- what was found before.
  pub commit_all-reload :
      (papers : Dict (List C)) (k : Checkpoint C R)
      → IsDistinct (keys papers)
      → All (λ p. IsFresh p.0 k.files) papers
      → InStep k
      → (k' : Checkpoint C R) × (opened (commit_all papers k).files ≡ some k')
        × ((id : String)
            → stored_candidates id k' ≡ or_else (lookup id papers) (stored_candidates id k))
  commit_all-reload papers k d fresh s =
      let (s', all) = commit_all-InStep papers k d fresh s in
      let (k', e, _, same) = opened-held (commit_all papers k).files s'.readable in
      (k', e, λ id. same id ∙ sym (s'.same id) ∙ all id)

  -- A process is killed in the commit of a new paper, after it has written some of the candidates and
  -- before it has written the paper. The next process starts, does not find the paper, and commits it;
  -- in it the paper has its candidates, but the process after it finds those that the killed one
  -- had written once more in front of them.
  pub commit-killed :
      (id : String) (cs : List C) (n : ℕ) (k : Checkpoint C R)
      → InStep k
      → IsFresh id k.files
      → stored_candidates id k ≡ none
      → (k1 : Checkpoint C R) × (k2 : Checkpoint C R) × (opened
            (write_candidates id (take n cs) k.files)
          ≡ some k1)
        × (stored_candidates id k1 ≡ none)
        × (stored_candidates id (commit id cs k1) ≡ some cs)
        × (opened (commit id cs k1).files ≡ some k2)
        × (stored_candidates id k2 ≡ some (take n cs ++ cs))
  unfolding commit
  commit-killed id cs n k s fresh absent =
      let f1 = write_candidates id (take n cs) k.files in
      let (r1, w1) = write_candidates-IsReadable id (take n cs) k.files s.whole s.readable in
      let (k1, e1, same1, held1) = opened-held f1 r1 in
      let f2 = write_paper id (length cs) (write_candidates id cs f1) in
      let (r2, w2) = write_candidates-IsReadable id cs f1 w1 r1 in
      let (r3, w3) = write_paper-IsReadable id (length cs) (write_candidates id cs f1) w2 r2 in
      let (k2, e2, same2, held2) = opened-held f2 r3 in
      let unnamed = names_none id k.files (sym (s.same id) ∙ absent) in
      let written : rows_for id (all_lines f1.candidates) ≡ take n cs =
        rows_for-write id id (take n cs) k.files s.whole ∙ ground (arith, fresh, str_eq_refl id) in
      (
        k1,
        k2,
        e1,
        held1 id
            ∙ held-write_candidates id id (take n cs) k.files s.whole
            ∙ ground (arith, unnamed),
        ground (arith, stored-commit id id cs k1, str_eq_refl id),
        ap (λ f. opened (write_paper id (length cs) (write_candidates id cs f))) same1 ∙ e2,
        held2 id ∙ held-commit id id cs f1 w1 r1 ∙ ground (arith, str_eq_refl id, written),
      )
