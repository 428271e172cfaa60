-- ===== src/Scrape/Checkpoint/Reload.antt =====
-- What a restart of a scrape finds: src/icepick/allocation/scrape/checkpoint.py.
use icepick.Prelude.{
  ℕ, ◌≡◌, refl, sym, ap, ◌∙◌, String, true, ◌||◌, Option, none, some, List, [], ◌∷◌, ◌++◌, map,
  length, arith, str_eq, eq_iff, if◌then◌else◌,
}
use mathlib.Core.List.{append-nil, append_assoc}
use icepick.Prelude.Dict.{Dict, lookup, insert}
use icepick.Prelude.Sets.{member, add, member-add}
use icepick.Batcher.JsonLines.{Line, blank, row, malformed, junk, all_lines}
use icepick.PassK.Checkpoint.{load as load_log}
use icepick.Scrape.Checkpoint.Lines.{
  is_readable, rows_for, names, is_readable-append, rows_for-append, names-append,
  all_lines-append_rows, tail-append_rows, tagged, is_readable-rows, rows_for-tagged,
}
use icepick.Scrape.Checkpoint.{
  Files, Checkpoint, Telemetry, no_events, or_nil, load_candidates, load_papers, load_events,
  opened, stored_candidates, write_candidates, write_paper, commit,
}

module _ {C : Type 0} where
  pub load_candidates-rows :
      (ls : List (Line (String × C))) (d : Dict (List C))
      → is_readable ls ≡ true
      → (e : Dict (List C)) × (load_candidates ls d ≡ some e)
        × ((id : String) → or_nil (lookup id e) ≡ or_nil (lookup id d) ++ rows_for id ls)
  unfolding load_candidates is_readable rows_for
  load_candidates-rows [] d h = (d, refl, λ id. sym (append-nil (or_nil (lookup id d))))
  load_candidates-rows (row (j, c) ∷ ls) d h =
      let (e, eq, all) = load_candidates-rows ls (insert j (or_nil (lookup j d) ++ c ∷ []) d) h in
      (
        e,
        eq,
        λ id.
            all id
            ∙ ground
                (arith, eq_iff j id, append_assoc (or_nil (lookup j d)) (c ∷ []) (rows_for id ls)),
      )
  load_candidates-rows (blank ∷ ls) d h = load_candidates-rows ls d h
  load_candidates-rows (junk ∷ ls) d h = load_candidates-rows ls d h
  load_candidates-rows (malformed ∷ ls) d h = cc (h)

pub load_papers-names :
    (ls : List (Line (String × ℕ))) (s : List String)
    → is_readable ls ≡ true
    → (t : List String) × (load_papers ls s ≡ some t)
      × ((id : String) → member id t ≡ (member id s || names id ls))
unfolding load_papers is_readable names
load_papers-names [] s h = (s, refl, λ id. ground arith)
load_papers-names (row (j, n) ∷ ls) s h =
    let (t, e, all) = load_papers-names ls (add j s) h in
    (t, e, λ id. all id ∙ ground (arith, member-add j id s))
load_papers-names (blank ∷ ls) s h = load_papers-names ls s h
load_papers-names (junk ∷ ls) s h = load_papers-names ls s h
load_papers-names (malformed ∷ ls) s h = cc (h)

module _ {C R : Type 0} where
  -- The files from which a process can start.
  pub record IsReadable (f : Files C R) : Type 0 where
    pub candidates : is_readable (all_lines f.candidates) ≡ true
    pub papers : is_readable (all_lines f.papers_done) ≡ true
    pub answers : (q : Dict R) × (load_log f.qa_cache ≡ some q)
    pub events : (t : Telemetry) × (load_events (all_lines f.rate_limit_events) no_events ≡ some t)

  -- What the files hold for an id.
  unfoldable pub held : String → Files C R → Option (List C)
  unfolding rows_for names
  held id f =
      if names id (all_lines f.papers_done)
      then some (rows_for id (all_lines f.candidates))
      else none

  -- A process that starts on readable files finds exactly what they hold.
  pub opened-held :
      (f : Files C R)
      → IsReadable f
      → (k : Checkpoint C R) × (opened f ≡ some k)
        × (k.files ≡ f)
        × ((id : String) → stored_candidates id k ≡ held id f)
  unfolding opened stored_candidates held
  opened-held f r =
      let (by_paper, e, all) = load_candidates-rows (all_lines f.candidates) [] r.candidates in
      let (papers, e', named) = load_papers-names (all_lines f.papers_done) [] r.papers in
      (
        record {
          files = f;
          done = papers;
          candidates_by_paper = by_paper;
          qa = r.answers.0;
          telemetry = r.events.0;
          resuming = f.incomplete;
        },
        rw e (rw e' (rw r.answers.1 (rw r.events.1 refl))),
        refl,
        λ id. ground (arith, all id, named id),
      )

module _ {C R : Type 0} where
  -- The files of the two logs end in a newline.
  pub record IsWhole (f : Files C R) : Type 0 where
    pub candidates : f.candidates.tail ≡ none
    pub papers : f.papers_done.tail ≡ none

  pub write_candidates-IsReadable :
      (id : String) (cs : List C) (f : Files C R)
      → IsWhole f
      → IsReadable f
      → IsReadable (write_candidates id cs f) × IsWhole (write_candidates id cs f)
  write_candidates-IsReadable id cs f w r = (
    record {
      candidates = rw (all_lines-append_rows (tagged id cs) f.candidates w.candidates) (
          is_readable-append (all_lines f.candidates) (map row (tagged id cs))
          ∙ rw r.candidates (is_readable-rows (tagged id cs)));
      papers = r.papers;
      answers = r.answers;
      events = r.events;
    },
    record {
      candidates = tail-append_rows (tagged id cs) f.candidates w.candidates;
      papers = w.papers;
    },
  )

  pub write_paper-IsReadable :
      (id : String) (n : ℕ) (f : Files C R)
      → IsWhole f
      → IsReadable f
      → IsReadable (write_paper id n f) × IsWhole (write_paper id n f)
  unfolding is_readable
  write_paper-IsReadable id n f w r = (
    record {
      candidates = r.candidates;
      papers =
          rw (all_lines-append_rows ((id, n) ∷ []) f.papers_done w.papers)
            (is_readable-append (all_lines f.papers_done) (row (id, n) ∷ []) ∙ rw r.papers refl);
      answers = r.answers;
      events = r.events;
    },
    record {
      candidates = w.candidates;
      papers = tail-append_rows ((id, n) ∷ []) f.papers_done w.papers;
    },
  )

  pub rows_for-write :
      (id j : String) (cs : List C) (f : Files C R)
      → IsWhole f
      → rows_for j (all_lines (write_candidates id cs f).candidates)
        ≡ rows_for j (all_lines f.candidates) ++ (if str_eq id j then cs else [])
  rows_for-write id j cs f w =
      ap (rows_for j) (all_lines-append_rows (tagged id cs) f.candidates w.candidates)
      ∙ rows_for-append j (all_lines f.candidates) (map row (tagged id cs))
      ∙ ap (λ (l : List C). rows_for j (all_lines f.candidates) ++ l) (rows_for-tagged id j cs)

  pub held-write_candidates :
      (id j : String) (cs : List C) (f : Files C R)
      → IsWhole f
      → held j (write_candidates id cs f) ≡ (
          if names j (all_lines f.papers_done)
          then some (rows_for j (all_lines f.candidates) ++ (if str_eq id j then cs else []))
          else none)
  unfolding held
  held-write_candidates id j cs f w =
      ap (λ (rows : List C). if names j (all_lines f.papers_done) then some rows else none)
        (rows_for-write id j cs f w)

  -- The checkpoint in memory says of each paper what a restart would find.
  pub record InStep (k : Checkpoint C R) : Type 0 where
    pub whole : IsWhole k.files
    pub readable : IsReadable k.files
    pub same : (id : String) → stored_candidates id k ≡ held id k.files

  -- No candidate of the paper is in the file yet.
  abbrev pub IsFresh : String → Files C R → Type 0
  IsFresh id f = rows_for id (all_lines f.candidates) ≡ []

  held-write_paper :
      (id j : String) (n : ℕ) (f : Files C R)
      → IsWhole f
      → held j (write_paper id n f) ≡ (
          if names j (all_lines f.papers_done) || str_eq id j
          then some (rows_for j (all_lines f.candidates))
          else none)
  unfolding held names
  held-write_paper id j n f w =
      ap (λ named. if named then some (rows_for j (all_lines f.candidates)) else none)
        (ap (names j) (all_lines-append_rows ((id, n) ∷ []) f.papers_done w.papers)
          ∙ names-append j (all_lines f.papers_done) (row (id, n) ∷ [])
          ∙ ground arith)

  pub stored-commit :
      (id j : String) (cs : List C) (k : Checkpoint C R)
      → stored_candidates j (commit id cs k)
        ≡ (if str_eq id j then some cs else stored_candidates j k)
  unfolding stored_candidates commit
  stored-commit id j cs k = ground (arith, member-add id j k.done)

  pub held-commit :
      (id j : String) (cs : List C) (f : Files C R)
      → IsWhole f
      → IsReadable f
      → held j (write_paper id (length cs) (write_candidates id cs f))
        ≡ (if str_eq id j then some (rows_for j (all_lines f.candidates) ++ cs) else held j f)
  unfolding held
  held-commit id j cs f w r =
      let (r', w') = write_candidates-IsReadable id cs f w r in
      held-write_paper id j (length cs) (write_candidates id cs f) w'
      ∙ ap
          (λ (l : List C).
            if names j (all_lines f.papers_done) || str_eq id j then some l else none)
          (rows_for-write id j cs f w)
      ∙ ground (arith, append-nil (rows_for j (all_lines f.candidates)))

  -- A commit of a paper none of whose candidates is in the file yet keeps the checkpoint in step.
  pub commit-InStep :
      (id : String) (cs : List C) (k : Checkpoint C R)
      → IsFresh id k.files
      → InStep k
      → InStep (commit id cs k)
  unfolding commit
  commit-InStep id cs k fresh s =
      let (r, w) = write_candidates-IsReadable id cs k.files s.whole s.readable in
      let (r', w') = write_paper-IsReadable id (length cs) (write_candidates id cs k.files) w r in
      record {
        whole = w';
        readable = r';
        same = λ j. ground (
          arith,
          stored-commit id j cs k,
          held-commit id j cs k.files s.whole s.readable,
          s.same j,
          eq_iff id j,
          fresh,
        );
      }
