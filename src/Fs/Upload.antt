-- ===== src/Fs/Upload.antt =====
-- `uploadToGCS`, `flush` and `release` of src/gcs_fs.cpp.
use gcscfuse.Base.{◌==◌, ℕ, Bool, true, false, none, some, length, if◌then◌else◌}
use gcscfuse.Base.Bytes.{Bytes}
use gcscfuse.Base.Dict.{insert, lookup}
use gcscfuse.Base.Int.{ℤ, pos, negsuc}
use gcscfuse.Fs.State.{Gcsfs, eio, object_of, with_stat_cache, is_dirty}
use gcscfuse.Gcs.Client
use gcscfuse.Gcs.Sdk.{StorageClient}
use gcscfuse.Reader.{invalidate}
use gcscfuse.StatCache.Cache.{insert_file}

abbrev pub is_zero : ℤ → Bool
is_zero (pos n) = n == 0
is_zero (negsuc n) = false

module _ (client : StorageClient) where
  -- What follows the call of `writeObject`, by its result.
  unfoldable pub after_upload : ℕ → Bytes → Bytes → Bool → Gcsfs client → ℤ × Gcsfs client
  after_upload now path content false fs = (eio, fs)
  after_upload now path content true fs = (
    pos 0,
    with_stat_cache client (insert_file now path (length content) now) (record fs {
      reader = invalidate (object_of path) fs.reader;
      dirty_files = insert (object_of path) false fs.dirty_files;
    }),
  )

  unfoldable pub upload_to_gcs : ℕ → Bytes → Gcsfs client → ℤ × Gcsfs client
  upload_to_gcs now path fs = elim (lookup (object_of path) fs.write_buffers) [
    | none ↦ (pos 0, fs)
    | some content ↦
        let (success, cloud) =
          Client.write_object client fs.bucket_name (object_of path) content fs.cloud in
        after_upload now path content success (record fs { cloud = cloud })
  ]

  unfoldable pub flush : ℕ → Bytes → Gcsfs client → ℤ × Gcsfs client
  flush now path fs =
      if is_dirty client (object_of path) fs then upload_to_gcs now path fs else (pos 0, fs)

  -- A nonzero result of the upload is returned, else 0.
  unfoldable pub release : ℕ → Bytes → Gcsfs client → ℤ × Gcsfs client
  release now path fs =
      if is_dirty client (object_of path) fs
      then (let (result, fs') = upload_to_gcs now path fs in
          if is_zero result then (pos 0, fs') else (result, fs'))
      else (pos 0, fs)
