-- ===== src/Scrape/Checkpoint/Answers.antt =====
-- The cache of generated answers of src/icepick/allocation/scrape/checkpoint.py.
use icepick.Prelude.{
  ◌≡◌, refl, sym, ap, ◌∙◌, String, Option, none, some, List, [], ◌∷◌, arith, eq_iff, str_eq_refl,
  ◌⊎◌, Option-cases, inl, inr,
}
use icepick.Prelude.Dict.{lookup}
use icepick.Batcher.JsonLines.{all_lines}
use icepick.PassK.Checkpoint.{commit as store}
use icepick.PassK.Checkpoint.Resume.{IsSynced, commit-IsSynced}
use icepick.Scrape.Checkpoint.{Checkpoint, opened, cached, statement_key, qa_log}
use icepick.Scrape.Checkpoint.Reload.{IsReadable, load_candidates-rows, load_papers-names}

module _ {C R : Type 0} where
  -- The statements of a run, each with what the generator would make of it.
  abbrev pub ask_all :
      (String → String) → List (String × (String → Option R)) → Checkpoint C R → Checkpoint C R
  ask_all sha1 [] k = k
  ask_all sha1 ((statement, generate) ∷ asked) k =
      ask_all sha1 asked (cached sha1 generate statement k).1

  -- A process can start on the files, and the cache in memory is the one on disk.
  pub record IsSafe (k : Checkpoint C R) : Type 0 where
    pub readable : IsReadable k.files
    pub synced : IsSynced (qa_log k)

  -- The cache with one more answer, in memory and on disk.
  abbrev with_answer : String × R → Checkpoint C R → Checkpoint C R
  with_answer e k =
      let log = store e (qa_log k) in
      record k { files = record k.files { qa_cache = log.file }; qa = log.entries }

  with_answer-IsSafe : (e : String × R) (k : Checkpoint C R) → IsSafe k → IsSafe (with_answer e k)
  with_answer-IsSafe e k s =
      let synced = commit-IsSynced e (qa_log k) s.synced in
      record {
        readable = record {
          candidates = s.readable.candidates;
          papers = s.readable.papers;
          answers = ((store e (qa_log k)).entries, synced.0);
          events = s.readable.events;
        };
        synced = synced;
      }

  module _ (sha1 : String → String) where
    cached-hit :
        (generate : String → Option R) (statement : String) (r : R) (k : Checkpoint C R)
        → lookup (statement_key sha1 statement) k.qa ≡ some r
        → cached sha1 generate statement k ≡ (some r, k)
    unfolding cached
    cached-hit generate statement r k hit = rw (cached, hit) refl

    -- A call finds an answer, or fails, or makes one.
    cached-cases :
        (generate : String → Option R) (statement : String) (k : Checkpoint C R)
        → ((r : R) × (lookup (statement_key sha1 statement) k.qa ≡ some r)
            × (cached sha1 generate statement k ≡ (some r, k)))
          ⊎ ((cached sha1 generate statement k ≡ (none, k))
              ⊎ ((r : R) × (lookup (statement_key sha1 statement) k.qa ≡ none)
                  × (cached sha1 generate statement k
                      ≡ (some r, with_answer (statement_key sha1 statement, r) k))))
    unfolding cached
    cached-cases generate statement k =
        elim (Option-cases (lookup (statement_key sha1 statement) k.qa)) [
          | inr (r, hit) ↦ inl (r, hit, cached-hit generate statement r k hit)
          | inl miss ↦ elim (Option-cases (generate statement)) [
            | inl failed ↦ inr (inl (rw (cached, miss, failed) refl))
            | inr (r, made) ↦ inr (inr (r, miss, rw (cached, miss, made) refl))
          ]
        ]

    -- A call leaves what is cached under a key, and the files safe.
    cached-keeps :
        (generate : String → Option R) (statement key : String) (result : R) (k : Checkpoint C R)
        → IsSafe k
        → lookup key k.qa ≡ some result
        → IsSafe (cached sha1 generate statement k).1
          × (lookup key (cached sha1 generate statement k).1.qa ≡ some result)
    unfolding store
    cached-keeps generate statement key result k s h = elim (cached-cases generate statement k) [
      | inl (r, hit, e) ↦ rw e (s, h)
      | inr (inl e) ↦ rw e (s, h)
      | inr (inr (r, miss, e)) ↦ rw e (
        with_answer-IsSafe (statement_key sha1 statement, r) k s,
        ground (arith, eq_iff (statement_key sha1 statement) key),
      )
    ]

    -- What a call returns is cached from then on.
    cached-stored :
        (generate : String → Option R) (statement : String) (result : R) (k : Checkpoint C R)
        → IsSafe k
        → (cached sha1 generate statement k).0 ≡ some result
        → IsSafe (cached sha1 generate statement k).1
          × (lookup (statement_key sha1 statement) (cached sha1 generate statement k).1.qa
              ≡ some result)
    unfolding store
    cached-stored generate statement result k s h = elim (cached-cases generate statement k) [
      | inl (r, hit, e) ↦ rw e (s, hit ∙ sym (ap (λ p. p.0) e) ∙ h)
      | inr (inl e) ↦ let absurd = sym (ap (λ p. p.0) e) ∙ h in cc (absurd)
      | inr (inr (r, miss, e)) ↦ rw e (
        with_answer-IsSafe (statement_key sha1 statement, r) k s,
        ground (arith, str_eq_refl (statement_key sha1 statement)) ∙ sym (ap (λ p. p.0) e) ∙ h,
      )
    ]

    ask_all-keeps :
        (asked : List (String × (String → Option R))) (key : String) (result : R)
        (k : Checkpoint C R)
        → IsSafe k
        → lookup key k.qa ≡ some result
        → IsSafe (ask_all sha1 asked k) × (lookup key (ask_all sha1 asked k).qa ≡ some result)
    ask_all-keeps [] key result k s h = (s, h)
    ask_all-keeps ((statement, generate) ∷ asked) key result k s h =
        let (s', h') = cached-keeps generate statement key result k s h in
        ask_all-keeps asked key result (cached sha1 generate statement k).1 s' h'

    -- A process that starts on safe files has the cache.
    opened-qa :
        (k : Checkpoint C R)
        → IsSafe k
        → (k' : Checkpoint C R) × (opened k.files ≡ some k') × (k'.qa ≡ k.qa)
    unfolding opened
    opened-qa k s =
        let f = k.files in
        let (by_paper, e, _) =
          load_candidates-rows (all_lines f.candidates) [] s.readable.candidates in
        let (papers, e', _) = load_papers-names (all_lines f.papers_done) [] s.readable.papers in
        (
          record {
            files = f;
            done = papers;
            candidates_by_paper = by_paper;
            qa = k.qa;
            telemetry = s.readable.events.0;
            resuming = f.incomplete;
          },
          rw e (rw e' (rw s.synced.0 (rw s.readable.events.1 refl))),
          refl,
        )

    -- When a process can start on the files, and the cache on disk is whole and the one in memory, an
    -- answer that a call has returned is paid for once: after any further calls, with any generators, a
    -- new process starts, and for the same statement it returns this answer and changes nothing,
    -- whatever its generator would do.
    pub cached-once :
        (generate : String → Option R) (statement : String) (result : R)
        (asked : List (String × (String → Option R))) (k : Checkpoint C R)
        → IsSafe k
        → (cached sha1 generate statement k).0 ≡ some result
        → (k' : Checkpoint C R) × (opened
              (ask_all sha1 asked (cached sha1 generate statement k).1).files
            ≡ some k')
          × ((other : String → Option R) → cached sha1 other statement k' ≡ (some result, k'))
    cached-once generate statement result asked k s h =
        let (s1, found) = cached-stored generate statement result k s h in
        let (s2, still) =
          ask_all-keeps asked (statement_key sha1 statement) result
            (cached sha1 generate statement k).1 s1 found in
        let (k', e, same) =
          opened-qa (ask_all sha1 asked (cached sha1 generate statement k).1) s2 in
        (
          k',
          e,
          λ other.
              cached-hit other statement result k'
                (ap (lookup (statement_key sha1 statement)) same ∙ still),
        )
