-- ===== src/Tests/Bulk.antt =====
-- Runs of src/icepick/allocation/bulk/chunk_store.py.
use icepick.Prelude.{ℕ, ◌≡◌, refl, String, true, List, [], ◌∷◌}
use icepick.Prelude.Dict.{Dict}
use icepick.Bulk.ChunkStore.{
  parts, last_name, local_path_for, ManifestEntry, delivered, download_raises, opened, fetch, Call,
  fetching, releasing, purging, calls, call,
}
use icepick.Bulk.ChunkStore.Bounded.{IsBounded}
use icepick.Bulk.ChunkStore.Calls.{Good, calls-fetch}

-- A hash by which each content is its own checksum.
abbrev plain_md5 : String → String
plain_md5 content = content

abbrev no_size : String → ℕ
no_size content = 3

-- The manifest's checksums.
abbrev expected : String → String
expected name = "good"

abbrev entry : ManifestEntry
entry = record { filename = "src/arXiv_src_2501_001.tar"; size_bytes = 4; md5sum = "good" }

abbrev other : ManifestEntry
other = record { filename = "src/arXiv_src_2501_002.tar"; size_bytes = 5; md5sum = "good" }

-- The work directory holds a part of the first chunk, from a run that was killed.
abbrev leftover : Dict String
leftover = ("arXiv_src_2501_001.tar", "go") ∷ []

abbrev before : List Call
before =
    fetching entry (delivered "bad" true)
    ∷ fetching entry (delivered "good" true)
    ∷ fetching other download_raises
    ∷ releasing entry
    ∷ purging "stray"
    ∷ []

local_path_for_test : local_path_for "src/./a.tar/" ≡ "a.tar"
unfolding local_path_for parts last_name
local_path_for_test = refl

calls-fetch_example :
    IsBounded plain_md5 no_size expected 1 1
      (fetch plain_md5 no_size other
        (delivered "good" true)
        (calls plain_md5 no_size before (opened 1 leftover))).0
    × Good plain_md5 no_size expected (
        fetch plain_md5 no_size other
          (delivered "good" true)
          (calls plain_md5 no_size before (opened 1 leftover)))
calls-fetch_example =
    calls-fetch plain_md5 no_size expected 1 leftover before other (delivered "good" true)
      (refl, tt) (refl, (refl, (refl, (tt, (tt, tt))))) refl

counters_test : (calls plain_md5 no_size before (opened 1 leftover)).corrupt_bytes ≡ 3
unfolding calls call fetch local_path_for parts last_name
counters_test = refl
