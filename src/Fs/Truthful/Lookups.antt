-- ===== src/Fs/Truthful/Lookups.antt =====
-- `getattr` of src/gcs_fs.cpp against the truth of the stat cache.
use gcscfuse.Base.{ℕ, ◌≡◌, Option, none, some, refl, inl, inr, arith, Bool-cases, Option-cases}
use gcscfuse.Base.Bytes.{Bytes, same}
use gcscfuse.Base.Dict.{lookup}
use gcscfuse.Fs.Lookups.{fetch_file, fetch_attr, getattr}
use gcscfuse.Fs.State.{
  Gcsfs, root_path, object_of, with_stat_cache, is_valid_path, is_directory, cached_stat,
}
use gcscfuse.Fs.Truthful.{IsTruthful, IsNormal, HasLength, MetadataLaws}
use gcscfuse.Fs.Truthful.Records.{insert_file-IsTrue, insert_directory-IsTrue}
use gcscfuse.Gcs.Client
use gcscfuse.Gcs.Client.{ObjectMetadata, collect}
use gcscfuse.Gcs.Sdk
use gcscfuse.Gcs.Sdk.{
  StorageClient, Listing, Outcome, SdkMetadata, end, object, bad_status, throws, ok, failed, thrown,
}
use gcscfuse.StatCache.Cache.{insert_file, insert_directory}
use gcscfuse.StatCache.Cache.Invariant.{insert_file-IsValid, insert_directory-IsValid}
use mathlib.Core.Path.{subst}

abbrev size_of : Option ObjectMetadata → ℕ
size_of none = 0
size_of (some m) = m.size

module _ {client : StorageClient} where
  pub file_recorded :
      (now : ℕ) (path : Bytes) (size mtime : ℕ) (fs : Gcsfs client)
      → IsTruthful client fs
      → IsNormal path
      → (lookup (object_of path) fs.write_buffers ≡ none
          → HasLength (client.read_object fs.cloud fs.bucket_name (object_of path)) size)
      → IsTruthful client (with_stat_cache client (insert_file now path size mtime) fs)
  file_recorded now path size mtime fs h n new = elim (Bool-cases fs.config.enable_stat_cache) [
    | inl e ↦ simp e (record {
      stats = insert_file-IsValid now path size mtime h.stats;
      files = insert_file-IsTrue now path size mtime h.stats h.files n new;
    })
    | inr e ↦ simp e h
  ]

  pub dir_recorded :
      (now : ℕ) (path : Bytes) (fs : Gcsfs client)
      → IsTruthful client fs
      → IsTruthful client (with_stat_cache client (insert_directory now path) fs)
  dir_recorded now path fs h = elim (Bool-cases fs.config.enable_stat_cache) [
    | inl e ↦ simp e (record {
      stats = insert_directory-IsValid now path h.stats;
      files = insert_directory-IsTrue now path h.stats h.files;
    })
    | inr e ↦ simp e h
  ]

module _ {client : StorageClient} (metadata : MetadataLaws client) where
  pub get_object_metadata-HasLength :
      (bucket name : Bytes) (cloud : client.Cloud) (m : ObjectMetadata)
      → Client.get_object_metadata client bucket name cloud ≡ some m
      → HasLength (client.read_object cloud bucket name) m.size
  unfolding Client.get_object_metadata Sdk.get_object_metadata
  get_object_metadata-HasLength bucket name cloud m e =
      go (client.get_object_metadata cloud bucket name) refl e
    where
      go :
          (o : Outcome SdkMetadata)
          → client.get_object_metadata cloud bucket name ≡ o
          → (elim o [
            | ok metadata ↦ some (Client.to_object_metadata metadata)
            | failed ↦ none
            | thrown ↦ none
          ])
            ≡ some m
          → HasLength (client.read_object cloud bucket name) m.size
      go (ok d) o q =
          subst (λ x. HasLength (client.read_object cloud bucket name) (size_of x)) q
            (metadata.described cloud bucket name d o)
      go failed o q = absurd (ground arith)
      go thrown o q = absurd (ground arith)

  fetch_file-IsTruthful :
      (now : ℕ) (path : Bytes) (fs : Gcsfs client)
      → IsNormal path
      → IsTruthful client fs
      → IsTruthful client (fetch_file client now path fs).2
  unfolding fetch_file
  fetch_file-IsTruthful now path fs n h =
      elim (Option-cases
        (Client.get_object_metadata client fs.bucket_name (object_of path) fs.cloud)) [
          | inl e ↦ rw (e, fetch_file) h
          | inr (m, e) ↦
              rw (e, fetch_file)
                (file_recorded now path m.size m.updated fs h n
                  (λ b. get_object_metadata-HasLength fs.bucket_name (object_of path) fs.cloud m e))
        ]

  fetch_attr-IsTruthful :
      (now : ℕ) (path : Bytes) (fs : Gcsfs client)
      → IsNormal path
      → IsTruthful client fs
      → IsTruthful client (fetch_attr client now path fs).2
  unfolding fetch_attr
  fetch_attr-IsTruthful now path fs n h = elim (Bool-cases (is_valid_path client now path fs)) [
    | inr e ↦ rw e h
    | inl e ↦ rw e (elim (Bool-cases (is_directory client now path fs)) [
      | inl d ↦ rw d (dir_recorded now path fs h)
      | inr d ↦ rw d (fetch_file-IsTruthful now path fs n h)
    ])
  ]

  pub getattr-IsTruthful :
      (now : ℕ) (path : Bytes) (fs : Gcsfs client)
      → IsNormal path
      → IsTruthful client fs
      → IsTruthful client (getattr client now path fs).2
  unfolding getattr
  getattr-IsTruthful now path fs n h = elim (Bool-cases (same path root_path)) [
    | inl e ↦ rw e h
    | inr e ↦ elim (Option-cases (lookup (object_of path) fs.write_buffers)) [
      | inr (c, b) ↦ rw (e, b, getattr) h
      | inl b ↦ elim (Option-cases (cached_stat client now path fs)) [
        | inr (i, s) ↦ rw (e, b, getattr) (rw (s, getattr) h)
        | inl s ↦ rw (e, b, getattr) (rw (s, getattr) (fetch_attr-IsTruthful now path fs n h))
      ]
    ]
  ]
