-- ===== src/Bulk/ChunkStore/Bounded.antt =====
-- What a store of src/icepick/allocation/bulk/chunk_store.py keeps on disk.
use icepick.Prelude.{
  ℕ, ◌+◌, ◌≤◌, ◌≡◌, inl, inr, refl, String, Bool, true, false, Option, none, some, List, [], ◌∷◌,
  length, All, arith, str_eq, eq_iff, Bool-cases, Option-cases, str_eq_refl,
}
use icepick.Prelude.Dict.{
  length-erase, length-erase_le, erase-IsDistinct, Dict, lookup, insert, contains, erase, keys,
  lookup-erase, contains-member,
}
use icepick.Prelude.Sets.{
  member, discard, IsDistinct, member-discard, discard_absent, discard-IsDistinct, length-discard,
  length-discard_le, All-discard, All_away,
}
use icepick.Bulk.ChunkStore.{
  local_path_for, ManifestEntry, Store, Reply, delivered, no_file, download_raises, at_capacity,
  unlink, adopt, purge, keep_verified, drop_corrupt, receive, download, fetch_new,
}

module _ (md5 : String → String) (size : String → ℕ) (expected : String → String) where
  -- The content of a file is the one that the manifest expects under its name.
  unfoldable pub verifies : Option String → String → Bool
  verifies none name = false
  verifies (some content) name = str_eq (md5 content) (expected name)

  abbrev pub OnDisk : Dict String → String → Type 0
  OnDisk files name = verifies (lookup name files) name ≡ true

  -- A store for at most `most` chunks that has found `left` files of earlier runs.
  pub record IsBounded (most left : ℕ) (s : Store) : Type 0 where
    pub cap : s.max_resident ≡ most
    pub within : length s.resident ≤ most
    pub once : IsDistinct s.resident
    pub names : IsDistinct (keys s.files)
    pub held : All (OnDisk s.files) s.resident
    pub on_disk : length s.files ≤ length s.resident + left

  -- The manifest has one checksum for each name in the work directory.
  abbrev pub Agrees : ManifestEntry → Type 0
  Agrees e = e.md5sum ≡ expected (local_path_for e.filename)

  held-erase :
      (name : String) (files : Dict String) (rs : List String)
      → member name rs ≡ false
      → All (OnDisk files) rs
      → All (OnDisk (erase name files)) rs
  unfolding verifies
  held-erase name files rs =
      All_away (OnDisk files) (OnDisk (erase name files)) name rs
        (λ y away h. rw (lookup-erase name y files) (ground (arith, eq_iff name y, eq_iff y name)))

  held-insert :
      (name content : String) (files : Dict String) (rs : List String)
      → member name rs ≡ false
      → All (OnDisk files) rs
      → All (OnDisk (insert name content files)) rs
  unfolding verifies
  held-insert name content files rs =
      All_away (OnDisk files) (OnDisk (insert name content files)) name rs
        (λ y away h. ground (arith, eq_iff name y, eq_iff y name))

  module _ (most left : ℕ) where
    pub unlink-IsBounded :
        (name : String) (s : Store)
        → member name s.resident ≡ false
        → IsBounded most left s
        → IsBounded most left (unlink name s)
    unlink-IsBounded name s away b = record {
      cap = b.cap;
      within = b.within;
      once = b.once;
      names = erase-IsDistinct name s.files b.names;
      held = held-erase name s.files s.resident away b.held;
      on_disk = omega (arith, length-erase_le name s.files, b.on_disk);
    }

    keep_verified-IsBounded :
        (e : ManifestEntry) (content dest : String) (s : Store)
        → member dest s.resident ≡ false
        → contains dest s.files ≡ false
        → at_capacity s ≡ false
        → str_eq (md5 content) (expected dest) ≡ true
        → IsBounded most left s
        → IsBounded most left (keep_verified md5 size e content dest s).0
    unfolding keep_verified at_capacity verifies
    keep_verified-IsBounded e content dest s away gone room good b = ground (
      arith,
      str_eq_refl dest,
      b.cap,
      b.within,
      b.names,
      contains-member dest s.files,
      b.on_disk,
      held-insert dest content s.files s.resident away b.held,
    )

    drop_corrupt-IsBounded :
        (e : ManifestEntry) (content : String) (readable : Bool) (dest : String) (s : Store)
        → member dest s.resident ≡ false
        → IsBounded most left s
        → IsBounded most left (drop_corrupt md5 size e content readable dest s).0
    unfolding drop_corrupt
    drop_corrupt-IsBounded e content readable dest s away b =
        let u = unlink-IsBounded dest s away b in
        ground (arith, str_eq_refl dest, u.cap, u.within, u.once, u.names, u.held, u.on_disk)

    pub adopt-IsBounded :
        (dest : String) (s : Store)
        → member dest s.resident ≡ false
        → OnDisk s.files dest
        → IsBounded most left s
        → IsBounded most left (adopt dest s).0
    unfolding adopt at_capacity
    adopt-IsBounded dest s away good b =
        ground (arith, b.cap, b.within, b.once, b.names, b.held, b.on_disk)

    pub download-IsBounded :
        (e : ManifestEntry) (reply : Reply) (dest : String) (s : Store)
        → e.md5sum ≡ expected dest
        → member dest s.resident ≡ false
        → contains dest s.files ≡ false
        → IsBounded most left s
        → IsBounded most left (download md5 size e reply dest s).0
    unfolding download receive
    download-IsBounded e reply dest s agrees away gone b = elim (Bool-cases (at_capacity s)) [
      | inl full ↦ rw full b
      | inr room ↦
          rw room (elim reply as (λ r. IsBounded most left (receive md5 size e r dest s).0) [
            | delivered content readable ↦ elim (Bool-cases (str_eq (md5 content) e.md5sum)) [
              | inl good ↦
                  rw good
                    (keep_verified-IsBounded e content dest s away gone room (rw (← agrees) good) b)
              | inr bad ↦ rw bad (drop_corrupt-IsBounded e content readable dest s away b)
            ]
            | no_file ↦ b
            | download_raises ↦ unlink-IsBounded dest s away b
          ])
    ]

    pub fetch_new-IsBounded :
        (e : ManifestEntry) (reply : Reply) (dest : String) (s : Store)
        → e.md5sum ≡ expected dest
        → member dest s.resident ≡ false
        → IsBounded most left s
        → IsBounded most left (fetch_new md5 size e reply dest s).0
    unfolding fetch_new verifies
    fetch_new-IsBounded e reply dest s agrees away b = elim (Option-cases (lookup dest s.files)) [
      | inl gone ↦
          rw (gone, fetch_new) (download-IsBounded e reply dest s agrees away (rw gone refl) b)
      | inr (content, here) ↦ elim (Bool-cases (str_eq (md5 content) e.md5sum)) [
        | inl good ↦
            rw (here, good, fetch_new)
              (adopt-IsBounded dest s away (rw here (rw (← agrees) good)) b)
        | inr bad ↦
            rw (here, bad, fetch_new)
              (download-IsBounded e reply dest (unlink dest s) agrees away
                (ground (arith, lookup-erase dest dest s.files, str_eq_refl dest))
                (unlink-IsBounded dest s away b))
      ]
    ]

    -- What is resident is on disk.
    pub member-contains :
        (name : String) (files : Dict String) (rs : List String)
        → All (OnDisk files) rs
        → member name rs ≡ true
        → OnDisk files name
    member-contains name files [] h m = cc
    member-contains name files (r ∷ rs) h m =
        ground (arith, eq_iff r name, member-contains name files rs h.1)

    pub purge-IsBounded :
        (name : String) (s : Store) → IsBounded most left s → IsBounded most left (purge name s)
    unfolding purge verifies
    purge-IsBounded name s b = elim (Bool-cases (member name s.resident)) [
      | inl here ↦ record {
        cap = b.cap;
        within = omega (arith, length-discard_le name s.resident, b.within);
        once = discard-IsDistinct name s.resident b.once;
        names = erase-IsDistinct name s.files b.names;
        held =
            held-erase name s.files (discard name s.resident)
              (ground (arith, member-discard name name s.resident, str_eq_refl name))
              (All-discard (OnDisk s.files) name s.resident b.held);
        on_disk =
            let found : contains name s.files ≡ true =
              ground (arith, member-contains name s.files s.resident b.held here) in
            omega (
              arith,
              length-discard name s.resident here b.once,
              length-erase name s.files found b.names,
              b.on_disk,
            );
      }
      | inr away ↦ rw (discard_absent name s.resident away) (unlink-IsBounded name s away b)
    ]
