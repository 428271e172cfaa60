-- ===== src/Bulk/ChunkStore/Calls.antt =====
-- A store of src/icepick/allocation/bulk/chunk_store.py over any sequence of calls.
use icepick.Prelude.{
  ℕ, ◌≡◌, inl, inr, refl, String, true, List, [], ◌∷◌, length, All, arith, eq_iff, Bool-cases,
  str_eq_refl,
}
use icepick.Prelude.Dict.{Dict, keys, contains}
use icepick.Prelude.Sets.{member, IsDistinct, discard_absent}
use icepick.Bulk.ChunkStore.{
  local_path_for, ManifestEntry, Store, Reply, Fetched, path, opened, fetch, fetch_new, Call,
  fetching, releasing, purging, call, calls, release, adopt, download, receive, delivered, no_file,
  download_raises, keep_verified, drop_corrupt, at_capacity,
}
use icepick.Bulk.ChunkStore.Bounded.{
  verifies, OnDisk, IsBounded, Agrees, fetch_new-IsBounded, purge-IsBounded, member-contains,
}

module _ (md5 : String → String) (size : String → ℕ) (expected : String → String) where
  -- The path that a fetch returns is the one of a file that verifies.
  abbrev pub Good : Store × Fetched → Type 0
  Good r = (p : String) → r.1 ≡ path p → OnDisk md5 size expected r.0.files p

  fetch_new-Good :
      (e : ManifestEntry) (reply : Reply) (s : Store) (dest : String)
      → e.md5sum ≡ expected dest
      → Good (fetch_new md5 size e reply dest s)
  unfolding fetch_new adopt download receive keep_verified drop_corrupt at_capacity verifies
  fetch_new-Good e (delivered content readable) s dest agrees p h =
      ground (arith, str_eq_refl dest, eq_iff dest p)
  fetch_new-Good e no_file s dest agrees p h = ground (arith, str_eq_refl dest)
  fetch_new-Good e download_raises s dest agrees p h = ground (arith, str_eq_refl dest)

  module _ (most left : ℕ) where
    pub fetch-Sound :
        (e : ManifestEntry) (reply : Reply) (s : Store)
        → Agrees md5 size expected e
        → IsBounded md5 size expected most left s
        → IsBounded md5 size expected most left (fetch md5 size e reply s).0
          × Good (fetch md5 size e reply s)
    unfolding fetch
    fetch-Sound e reply s agrees b =
        let dest = local_path_for e.filename in
        elim (Bool-cases (member dest s.resident)) [
          | inl here ↦
              let good : OnDisk md5 size expected s.files dest =
                member-contains md5 size expected most left dest s.files s.resident b.held here in
              let found : contains dest s.files ≡ true = unfold verifies in ground arith in
              rw here (rw found (b, λ p h. ground arith))
          | inr away ↦ rw away (
              rw (discard_absent dest s.resident away) (
                fetch_new-IsBounded md5 size expected most left e reply dest s agrees away b,
                fetch_new-Good e reply s dest agrees,
              ))
        ]

    -- The entries that are fetched come from one manifest.
    abbrev pub CallAgrees : Call → Type 0
    CallAgrees (fetching e reply) = Agrees md5 size expected e
    CallAgrees (releasing e) = Unit
    CallAgrees (purging name) = Unit

    call-IsBounded :
        (c : Call) (s : Store)
        → CallAgrees c
        → IsBounded md5 size expected most left s
        → IsBounded md5 size expected most left (call md5 size c s)
    unfolding call release
    call-IsBounded (fetching e reply) s agrees b = (fetch-Sound e reply s agrees b).0
    call-IsBounded (releasing e) s agrees b =
        purge-IsBounded md5 size expected most left (local_path_for e.filename) s b
    call-IsBounded (purging name) s agrees b = purge-IsBounded md5 size expected most left name s b

    calls-IsBounded :
        (cs : List Call) (s : Store)
        → All CallAgrees cs
        → IsBounded md5 size expected most left s
        → IsBounded md5 size expected most left (calls md5 size cs s)
    unfolding calls
    calls-IsBounded [] s agrees b = b
    calls-IsBounded (c ∷ cs) s agrees b =
        calls-IsBounded cs (call md5 size c s) agrees.1 (call-IsBounded c s agrees.0 b)

  opened-IsBounded :
      (most : ℕ) (files : Dict String)
      → IsDistinct (keys files)
      → IsBounded md5 size expected most (length files) (opened most files)
  opened-IsBounded most files h = record {
    cap = refl;
    within = omega arith;
    once = tt;
    names = h;
    held = tt;
    on_disk = omega arith;
  }

  -- When all entries come from a manifest with one checksum for each name, then after any calls on a
  -- store that was opened on a work directory, and one more fetch, whatever the provider does: no more
  -- chunks than the limit are resident, each of them is on disk and verifies, there are no more files
  -- than these and as many as the store found at first, and the path that the fetch returns, if it
  -- returns, is that of a file that verifies.
  pub calls-fetch :
      (most : ℕ) (files : Dict String) (cs : List Call) (e : ManifestEntry) (reply : Reply)
      → IsDistinct (keys files)
      → All (CallAgrees most (length files)) cs
      → Agrees md5 size expected e
      → IsBounded md5 size expected most
          (length files)
          (fetch md5 size e reply (calls md5 size cs (opened most files))).0
        × Good (fetch md5 size e reply (calls md5 size cs (opened most files)))
  calls-fetch most files cs e reply names agrees agrees' =
      fetch-Sound most (length files) e reply (calls md5 size cs (opened most files)) agrees' (
        calls-IsBounded most (length files) cs (opened most files) agrees
          (opened-IsBounded most files names))
