-- ===== src/Fs/Lookups/Failing.antt =====
-- `getattr`, `open` and `readdir` of src/gcs_fs.cpp when the listing of objects fails.
use gcscfuse.Base.{arith, ◌<◌, ◌∷◌, [], none, false, ◌≡◌, ℕ, refl}
use gcscfuse.Base.Bytes.{codes, slash, same, Bytes}
use gcscfuse.Fs.State.{
  eisdir, dir_prefix, cached_stat, object_of, root_path, Gcsfs, is_valid_path, is_directory,
}
use gcscfuse.Base.Int.{pos}
use gcscfuse.Fs.Lookups.{dir_stat, read_entries, readdir, open_file, fetch_attr, getattr}
use gcscfuse.Gcs.Sdk.{bad_status, Listing, StorageClient}
use gcscfuse.Base.Dict.{lookup}
use gcscfuse.Gcs.Client
use gcscfuse.Gcs.Sdk

module _ (client : StorageClient) where
  -- When the first element of both listings is a failed status, any path but the root that is not
  -- buffered and not in the stat cache is taken for an empty directory: `getattr` returns 0 with the
  -- metadata of a directory, `open` returns `-EISDIR` whatever the access, and `readdir` returns 0
  -- with no entry but `.` and `..`.
  pub lookups-bad_status :
      (now : ℕ) (path : Bytes) (access : ℕ) (fs : Gcsfs client) (rest rest' : Listing)
      → same path root_path ≡ false
      → lookup (object_of path) fs.write_buffers ≡ none
      → cached_stat client now path fs ≡ none
      → client.list_objects fs.cloud fs.bucket_name (dir_prefix (object_of path)) [] 1
        ≡ bad_status rest
      → client.list_objects fs.cloud fs.bucket_name (dir_prefix (object_of path)) (slash ∷ []) 0
        ≡ bad_status rest'
      → access < 3
      → ((getattr client now path fs).0 ≡ pos 0)
        × ((getattr client now path fs).1 ≡ dir_stat)
        × (open_file client now path access fs ≡ eisdir)
        × ((readdir client now path fs).0 ≡ pos 0)
        × ((readdir client now path fs).1 ≡ codes "." ∷ codes ".." ∷ [])
  unfolding getattr fetch_attr open_file readdir read_entries is_valid_path is_directory
      Client.directory_exists Client.list_objects Client.collect Sdk.list_objects
  lookups-bad_status now path access fs rest rest' below b miss failing listing h = (
    ground arith,
    ground arith,
    ground arith,
    rw (listing, Client.list_objects) refl,
    rw listing refl,
  )
