-- ===== src/Lib.antt =====
-- IcePick's bulk batcher, its pass@k stage, its cascade of well-posedness stages, and its store of
-- source archives, with the checkpoint of its scraper and two parts of its training scripts. The batcher, src/icepick/batcher/, tails a journal of candidates that another process is
-- writing, cuts it into batches of an exact size, and takes each batch through its stages.
--
-- Parts, and the files that model them:
--   * src/icepick/batcher/identity.py (compute_uid, stmt_key, content_hash): Batcher/Identity.antt.
--   * src/icepick/batcher/ledger.py (Ledger: load, check, append_all): Batcher/Ledger.antt, on a file
--     whose lines Batcher/JsonLines.antt describes. The ledger in memory is a record of its indices.
--   * src/icepick/batcher/journal.py (CursorStore, JournalTailer.read_new): Batcher/Journal.antt. A
--     journal is its bytes; the state is the cursor in memory with the file cursor.json behind it.
--   * src/icepick/batcher/state.py (transition): Batcher/State.antt, on the files of a batch directory,
--     which Batcher/Disk.antt describes.
--   * src/icepick/batcher/slicer.py: the loop of cut_slice is Batcher/Slicer.antt, the steps of its
--     commit are Batcher/World.antt, the whole call is Batcher/Cut.antt, and recover_pending_slice with
--     a restart is Batcher/Recover.antt. A World holds ledger, cursor, skip log and batch directories.
--   * src/icepick/batcher/stages.py (with_retries): Batcher/Stages.antt. The outcome of a stage's
--     subprocess is a function of the attempt.
--   * src/icepick/batcher/backfill.py (backfill): Batcher/Backfill.antt.
--   * src/icepick/batcher/daemon.py: the queue state and startup are Batcher/Queue.antt, the watch
--     journals Batcher/Watch.antt, the dispatch of a batch to its next stage Batcher/Dispatch.antt, and
--     a tick Batcher/Tick.antt, and run_forever Batcher/Run.antt. A Daemon holds a World, the queue state in memory and on disk, the
--     events and the counters; what a tick sees of the world outside is an argument of it (Moment).
--   * src/icepick/processing/pass_at_k/scoring.py: tally_rollouts and derive_label, with the end of
--     _score_record in runner.py, are PassK/Tally.antt, and extract_boxed is PassK/Boxed.antt.
--   * src/icepick/processing/pass_at_k/checkpoint.py (PassAtKCheckpoint): PassK/Checkpoint.antt, on the
--     same kind of file as the ledger's.
--   * src/icepick/processing/pass_at_k/runner.py: what the scoring of a record
--     reads and writes is PassK/Records.antt, the calls for it (_call_with_retries and the loop of
--     _score_record) PassK/Sample.antt, the rest of _score_record, with _drop, PassK/Score.antt, and run
--     in production PassK/Run.antt. A
--     Progress holds the logs of the checkpoint and counts calls; the model server is a function of the
--     number of the call, which answers, raises or is interrupted by Ctrl-C.
--   * src/icepick/processing/poser/cascade.py (run_cascade, _run_stage_with_retries): Poser/Cascade.antt,
--     on the records of base.py (inject_uid), which are Poser/Records.antt. What one run of a combo
--     answers to records is a function of the attempt and the records.
--   * src/icepick/allocation/bulk/chunk_store.py (ChunkStore: fetch, purge, release):
--     Bulk/ChunkStore.antt. A Store holds the work directory, the resident chunks and the counters; what
--     the provider does is an argument of each fetch.
--   * src/icepick/allocation/scrape/checkpoint.py (ScrapeCheckpoint): Scrape/Checkpoint.antt. A
--     Checkpoint holds the files under _progress/ and what _load has made of them.
--   * src/loratrain/src/loratrain/gguf_to_hf.py (build_safetensors_header, write_safetensors_file,
--     read_safetensors_header, shard_tensor_names): Lora/Safetensors.antt, on the bytes of a file.
--   * src/loratrain/src/loratrain/build_dataset.py (dedupe_examples, apply_weight_policy,
--     assert_weight_policy_honored): Lora/Weights.antt.
-- Prelude.antt holds what all share: texts, Boolean tests, lists over the native numbers, Python's
-- dict as an association list. Tests.antt runs the parts on small inputs.
--
-- cut_slice reads the journal (Journal), asks the ledger about each row (Ledger.check), and commits by
-- writing the records, the manifest, the ledger rows, the skip log and the cursor, in this order.
-- The scoring of a record asks the checkpoint (Checkpoint) for its row and for each output before it
-- calls the server, and tallies the verdicts (Tally). The daemon runs the cascade and the pass@k stage
-- as other programs, so that their outcomes are arguments there.
--
-- Choices of the model. Every loop is a structural recursion, so nothing runs on fuel but the decimal
-- digits of a number, with one unit more than the number, which is at least the count of its digits. Numbers of lines, bytes and batches are unbounded, as in Python. SHA-256, str.lower and
-- json.dumps are fields of a parameter (Primitives), and json.loads of a journal line is a function
-- that may fail, for bytes that are no JSON and for bytes that are no UTF-8 alike; the JSON lines of a
-- journal are objects. The extra fields of a transition are none of the fields that it writes itself. A ledger line is blank, a row, JSON without a field that is asked for, or no JSON.
-- Files that the code replaces by os.replace are replaced in one step. Text of error messages,
-- snippets and paths of reports are left out, and so is the text of STATUS.md. Sums of dollars are
-- counted in ten-thousandths, without the rounding of floating-point numbers. The calls of the clock
-- within one tick give one time. A run of the pass@k stage scores one record after another, without
-- concurrent workers, and its pauses between attempts are left out; SHA-1, SHA-256, MD5, the extraction
-- of an answer and the symbolic check of it are parameters. A JSON object of a record has texts as
-- values. A weight 1/n of a row is its n, so that a comparison of weights is one of numbers; json.dumps
-- and json.loads of the header of a safetensors file are parameters, times of the scraper's cooldown are
-- in seconds and its backoffs in milliseconds. Not modelled: the stage runners themselves, which call other programs,
-- the lock file, the command line, the scraping of pages, the adapters around the command-line posers,
-- and the other training scripts, which work on third-party tensor libraries.
pub mod Prelude
pub mod Bulk
pub mod Scrape
pub mod Batcher
pub mod PassK
pub mod Poser
pub mod Lora
pub mod Tests
