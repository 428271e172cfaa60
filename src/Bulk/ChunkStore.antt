-- ===== src/Bulk/ChunkStore.antt =====
-- The store of source archives: `ChunkStore` of src/icepick/allocation/bulk/chunk_store.py. A file in
-- the work directory is its name and its content; md5 and the length of a content are parameters, and
-- what the provider does is an argument of each fetch.
pub mod Bounded
pub mod Calls
use Prim.Native.Char.{code}
use icepick.Prelude.{
  ℕ, ◌+◌, String, Bool, true, false, ◌&&◌, ◌||◌, none, some, List, [], ◌∷◌, length, leb, ◌==◌,
  str_eq, if◌then◌else◌,
}
use icepick.Prelude.Dict.{Dict, lookup, insert, contains, erase}
use icepick.Prelude.Sets.{member, discard, add}

-- `s.split("/")`
unfoldable pub parts : String → List String
parts String.[] = "" ∷ []
parts (String.◌∷◌ c s) =
    let rest = parts s in
    if code c == b'/' then "" ∷ rest else elim rest [ [] ↦ [] | p ∷ ps ↦ String.◌∷◌ c p ∷ ps ]

-- `PurePosixPath(key).name`: empty parts and single dots are no parts of a path.
unfoldable pub last_name : String → List String → String
last_name name [] = name
last_name name (p ∷ ps) = last_name (if str_eq p "" || str_eq p "." then name else p) ps

-- `_local_path_for`, without the work directory in front.
unfoldable pub local_path_for : String → String
unfolding parts last_name
local_path_for key = last_name "" (parts key)

pub record ManifestEntry : Type 0 where
  pub filename : String
  pub size_bytes : ℕ
  pub md5sum : String

-- `files` is the work directory.
pub record Store : Type 0 where
  pub max_resident : ℕ
  pub resident : List String
  pub files : Dict String
  pub chunk_downloads : ℕ
  pub chunk_bytes : ℕ
  pub corrupt_downloads : ℕ
  pub corrupt_bytes : ℕ

-- `client.download` writes a file, whose size `stat` can read or not; or it returns and there is no
-- file; or it raises, and may have left a part of the file behind.
pub data Reply : Type 0 where
  delivered : (content : String) (readable : Bool) → Reply
  no_file download_raises : Reply

-- `fetch` returns a path, or raises one of four errors.
pub data Fetched : Type 0 where
  path : String → Fetched
  residency_limit checksum_error file_not_found download_error : Fetched

-- `ChunkStore(client, work_dir=..., max_resident=...)` on a work directory that holds `files`.
abbrev pub opened : ℕ → Dict String → Store
opened max_resident files = record {
  max_resident = max_resident;
  resident = [];
  files = files;
  chunk_downloads = 0;
  chunk_bytes = 0;
  corrupt_downloads = 0;
  corrupt_bytes = 0;
}

-- The test of `_check_capacity`.
unfoldable pub at_capacity : Store → Bool
at_capacity s = leb s.max_resident (length s.resident)

-- `dest.unlink(missing_ok=True)`
abbrev pub unlink : String → Store → Store
unlink name s = record s { files = erase name s.files }

-- A file of an earlier run that verifies.
unfoldable pub adopt : String → Store → Store × Fetched
unfolding at_capacity
adopt dest s =
    if at_capacity s
    then (s, residency_limit)
    else (record s { resident = add dest s.resident }, path dest)

-- `purge`
unfoldable pub purge : String → Store → Store
purge name s = record s { files = erase name s.files; resident = discard name s.resident }

-- `release`, by an entry.
unfoldable pub release : ManifestEntry → Store → Store
unfolding local_path_for purge
release e s = purge (local_path_for e.filename) s

module _ (md5 : String → String) (size : String → ℕ) where
  unfoldable pub keep_verified : ManifestEntry → String → String → Store → Store × Fetched
  keep_verified e content dest s = (
    record s {
      files = insert dest content s.files;
      resident = add dest s.resident;
      chunk_downloads = s.chunk_downloads + 1;
      chunk_bytes = s.chunk_bytes + e.size_bytes;
    },
    path dest,
  )

  -- The size is read before the file is deleted.
  unfoldable pub drop_corrupt : ManifestEntry → String → Bool → String → Store → Store × Fetched
  drop_corrupt e content readable dest s = (
    record s {
      files = erase dest (insert dest content s.files);
      corrupt_downloads = s.corrupt_downloads + 1;
      corrupt_bytes = s.corrupt_bytes + (if readable then size content else e.size_bytes);
    },
    checksum_error,
  )

  -- `fetch`, from the download on.
  unfoldable pub receive : ManifestEntry → Reply → String → Store → Store × Fetched
  unfolding keep_verified drop_corrupt
  receive e (delivered content readable) dest s =
      if str_eq (md5 content) e.md5sum
      then keep_verified e content dest s
      else drop_corrupt e content readable dest s
  receive e no_file dest s = (s, file_not_found)
  receive e download_raises dest s = (unlink dest s, download_error)

  unfoldable pub download : ManifestEntry → Reply → String → Store → Store × Fetched
  unfolding receive at_capacity
  download e reply dest s = if at_capacity s then (s, residency_limit) else receive e reply dest s

  -- `fetch` of a chunk that is not resident.
  unfoldable pub fetch_new : ManifestEntry → Reply → String → Store → Store × Fetched
  unfolding adopt download
  fetch_new e reply dest s = elim (lookup dest s.files) [
    | none ↦ download e reply dest s
    | some content ↦
        if str_eq (md5 content) e.md5sum
        then adopt dest s
        else download e reply dest (unlink dest s)
  ]

  -- `fetch`
  unfoldable pub fetch : ManifestEntry → Reply → Store → Store × Fetched
  unfolding local_path_for fetch_new
  fetch e reply s =
      let dest = local_path_for e.filename in
      if member dest s.resident && contains dest s.files
      then (s, path dest)
      else fetch_new e reply dest (record s { resident = discard dest s.resident })

-- What a user of the store calls.
pub data Call : Type 0 where
  fetching : ManifestEntry → Reply → Call
  releasing : ManifestEntry → Call
  purging : String → Call

module _ (md5 : String → String) (size : String → ℕ) where
  unfoldable pub call : Call → Store → Store
  unfolding fetch release purge
  call (fetching e reply) s = (fetch md5 size e reply s).0
  call (releasing e) s = release e s
  call (purging name) s = purge name s

  unfoldable pub calls : List Call → Store → Store
  unfolding call
  calls [] s = s
  calls (c ∷ cs) s = calls cs (call c s)
