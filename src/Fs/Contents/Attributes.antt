-- ===== src/Fs/Contents/Attributes.antt =====
-- `getattr` of src/gcs_fs.cpp in the abstract file system of `Fs.Contents`.
use gcscfuse.StatCache.Path.{split_path, strip_leading}
use gcscfuse.StatCache.Trie.Lookup.{same_path_refl}
use gcscfuse.StatCache.Cache.Stat.{get_stat-remove, get_stat-insert_file, IsBelowRoot}
use gcscfuse.Base.Bytes.{same_refl, slash, Bytes}
use gcscfuse.Fs.Contents.Durable.{contents-unlink}
use gcscfuse.Base.{
  ap, ◌∙◌, ◌∷◌, sym, arith, Option-cases, inl, inr, refl, ◌-◌, ◌&&◌, ◌⊎◌, length, ◌≡◌, some, Option,
  ℕ, none, true, false,
}
use gcscfuse.Fs.Writes.{after_delete, unlink}
use gcscfuse.Fs.Lookups.{open_file, fetch_file, fetch_attr, file_stat, no_stat, Stat, getattr}
use gcscfuse.Gcs.Laws.{StorageLaws}
use gcscfuse.Fs.Contents.{contents}
use mathlib.Core.Path.{subst}
use gcscfuse.Gcs.Client.{to_object_metadata, ObjectMetadata}
use gcscfuse.Base.Int.{ltb_ℤ, pos, ℤ}
use gcscfuse.Base.Dict.{lookup}
use gcscfuse.StatCache.Cache.Invariant.{IsValid}
use gcscfuse.Fs.State.{is_valid_path, is_directory, enoent, Gcsfs, cached_stat, object_of}
use gcscfuse.Gcs.Sdk.{ok, SdkMetadata, StorageClient, Outcome, failed, thrown}
use gcscfuse.Gcs.Client
use gcscfuse.Gcs.Sdk

-- The metadata call and the read call agree on an object: both find it, and then the size is the
-- length of the content, or neither does.
abbrev pub Describes : Outcome SdkMetadata → Option Bytes → Type 0
Describes (ok m) (some content) = m.size ≡ length content
Describes failed none = Unit
Describes (ok m) none = ⊥
Describes failed (some content) = ⊥
Describes thrown o = ⊥

-- What `getattr` reports of a file, but for the time.
abbrev pub reported : Option Bytes → ℤ × Stat
reported none = (enoent, no_stat)
reported (some content) = (pos 0, file_stat (length content) 0)

-- The client found nothing, or the metadata of this content.
abbrev pub Found : Option ObjectMetadata → Option Bytes → Type 0
Found answer stored =
    ((answer ≡ none) × (stored ≡ none))
    ⊎ ((m : ObjectMetadata) × (content : Bytes) × (answer ≡ some m)
        × (stored ≡ some content)
        × (m.size ≡ length content))

abbrev answer_of : Outcome SdkMetadata → Option ObjectMetadata
answer_of (ok m) = some (to_object_metadata m)
answer_of failed = none
answer_of thrown = none

pub found :
    (o : Outcome SdkMetadata) (stored : Option Bytes)
    → Describes o stored
    → Found (answer_of o) stored
found (ok m) (some content) h = inr (to_object_metadata m, content, refl, refl, h)
found (ok m) none h = absurd h
found failed (some content) h = absurd h
found failed none h = inl (refl, refl)
found thrown o h = absurd h

module _ (client : StorageClient) where
  pub get_object_metadata-answer :
      (bucket name : Bytes) (cloud : client.Cloud)
      → Client.get_object_metadata client bucket name cloud
        ≡ answer_of (client.get_object_metadata cloud bucket name)
  unfolding Client.get_object_metadata Sdk.get_object_metadata
  get_object_metadata-answer bucket name cloud = refl

  -- For a path that is no directory and has no fresh entry in the stat cache, when the metadata
  -- call and the read call agree on its object: `getattr` reports the file with its length, its
  -- buffered content first, or `-ENOENT` where there is none; and it changes no file.
  pub getattr-contents :
      (now : ℕ) (path : Bytes) (fs : Gcsfs client) (k : Bytes)
      → cached_stat client now path fs ≡ none
      → is_directory client now path fs ≡ false
      → Describes
          (client.get_object_metadata fs.cloud fs.bucket_name (object_of path))
          (client.read_object fs.cloud fs.bucket_name (object_of path))
      → (let (result, stat, fs') = getattr client now path fs in
          ((result, record stat { st_mtime = 0 }) ≡ reported (contents client fs (object_of path)))
          × (contents client fs' k ≡ contents client fs k))
  unfolding getattr is_directory is_valid_path Client.object_exists fetch_attr fetch_file
  getattr-contents now path fs k miss file agrees =
      elim (Option-cases (lookup (object_of path) fs.write_buffers)) [
        | inr (content, b) ↦ (ground arith, ground arith)
        | inl b ↦
            elim (subst (λ a. Found a (client.read_object fs.cloud fs.bucket_name (object_of path)))
              (sym (get_object_metadata-answer fs.bucket_name (object_of path) fs.cloud))
              (found _ _ agrees)) [
                | inl (missing, gone) ↦ (ground arith, ground arith)
                | inr (m, content, answer, stored, size) ↦ (ground arith, ground arith)
              ]
      ]

  -- A path whose file has no content.
  gone :
      (now : ℕ) (path : Bytes) (fs : Gcsfs client)
      → cached_stat client now path fs ≡ none
      → contents client fs (object_of path) ≡ none
      → is_directory client now path fs ≡ false
      → Describes
          (client.get_object_metadata fs.cloud fs.bucket_name (object_of path))
          (client.read_object fs.cloud fs.bucket_name (object_of path))
      → is_valid_path client now path fs ≡ false
  unfolding is_directory is_valid_path Client.object_exists
  gone now path fs miss empty file agrees =
      elim (subst (λ a. Found a (client.read_object fs.cloud fs.bucket_name (object_of path)))
        (sym (get_object_metadata-answer fs.bucket_name (object_of path) fs.cloud))
        (found _ _ agrees)) [
          | inl (missing, e) ↦ ground arith
          | inr (m, content, answer, stored, size) ↦
              absurd (ground (arith, Option-cases (lookup (object_of path) fs.write_buffers)))
        ]

  -- With the stat cache on and no buffer or fresh entry for a file, once `getattr` returned 0 it
  -- returns the same again, for as long as the timeout has not passed and whatever happened to the
  -- remote objects meanwhile.
  getattr-again :
      (now later : ℕ) (path : Bytes) (fs : Gcsfs client) (cloud : client.Cloud)
      → fs.config.enable_stat_cache ≡ true
      → IsValid fs.stat_cache
      → IsBelowRoot path
      → lookup (object_of path) fs.write_buffers ≡ none
      → cached_stat client now path fs ≡ none
      → is_directory client now path fs ≡ false
      → (getattr client now path fs).0 ≡ pos 0
      → (ltb_ℤ (pos 0) fs.stat_cache.cache_timeout
          && ltb_ℤ fs.stat_cache.cache_timeout (pos (later - now)))
        ≡ false
      → (let (result, stat, fs') = getattr client now path fs in
          getattr client later path (record fs' { cloud = cloud })
          ≡ (pos 0, stat, record fs' { cloud = cloud }))
  unfolding getattr is_directory is_valid_path Client.object_exists fetch_attr fetch_file
  getattr-again now later path fs cloud on v below b miss file e fresh =
      elim (Option-cases
        (Client.get_object_metadata client fs.bucket_name (object_of path) fs.cloud)) [
          | inl missing ↦ absurd (ground arith)
          | inr (m, answer) ↦
              ground (arith, get_stat-insert_file now later path m.size m.updated v below)
        ]

-- Once a file is gone, the other calls do not find it.
module _ {client : StorageClient} (laws : StorageLaws client) where
  unlinked-miss :
      (now later : ℕ) (name : Bytes) (fs : Gcsfs client)
      → IsBelowRoot (slash ∷ name)
      → (unlink client now (slash ∷ name) fs).0 ≡ pos 0
      → (cached_stat client later (slash ∷ name) (unlink client now (slash ∷ name) fs).1 ≡ none)
        × (contents client (unlink client now (slash ∷ name) fs).1 name ≡ none)
  unfolding unlink after_delete strip_leading
  unlinked-miss now later name fs below e = (
    ground (
      arith,
      get_stat-remove later (slash ∷ name) (slash ∷ name) fs.stat_cache below below,
      same_path_refl (split_path (slash ∷ name)),
    ),
    ground (arith, contents-unlink laws now (slash ∷ name) fs name, same_refl name),
  )

  -- After an `unlink` that returned 0 of a file below the root, where no directory has its name
  -- and the metadata call and the read call agree on its object: `getattr` returns `-ENOENT`, and so
  -- does an `open` for reading.
  pub getattr-unlink :
      (now later : ℕ) (name : Bytes) (fs : Gcsfs client)
      → IsBelowRoot (slash ∷ name)
      → (unlink client now (slash ∷ name) fs).0 ≡ pos 0
      → is_directory client later (slash ∷ name) (unlink client now (slash ∷ name) fs).1 ≡ false
      → Describes
          (client.get_object_metadata
            (unlink client now (slash ∷ name) fs).1.cloud
            (unlink client now (slash ∷ name) fs).1.bucket_name
            name)
          (client.read_object
            (unlink client now (slash ∷ name) fs).1.cloud
            (unlink client now (slash ∷ name) fs).1.bucket_name
            name)
      → ((getattr client later (slash ∷ name) (unlink client now (slash ∷ name) fs).1).0 ≡ enoent)
        × (open_file client later (slash ∷ name) 0 (unlink client now (slash ∷ name) fs).1 ≡ enoent)
  unfolding open_file strip_leading is_directory is_valid_path Client.object_exists
  getattr-unlink now later name fs below e file agrees =
      let (miss, empty) = unlinked-miss now later name fs below e in
      let fs' : Gcsfs client = (unlink client now (slash ∷ name) fs).1 in
      let reports = (getattr-contents client later (slash ∷ name) fs' name miss file agrees).0 in
      let invalid = gone client later (slash ∷ name) fs' miss empty file agrees in
      (ap (λ p. p.0) (reports ∙ ap reported empty), rw invalid refl)
