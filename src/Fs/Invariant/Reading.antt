-- ===== src/Fs/Invariant/Reading.antt =====
-- `getattr` and `readdir` of src/gcs_fs.cpp against the invariant.
use gcscfuse.Fs.State.{
  with_stat_cache, Gcsfs, root_path, object_of, cached_stat, is_valid_path, is_directory,
  ends_with_slash, dir_prefix,
}
use gcscfuse.Base.{
  ℕ, Bool, true, false, not, Bool-cases, inl, inr, Option-cases, List, [], ◌∷◌, length, drop,
  is_empty, ltb, ◌&&◌, ◌||◌,
}
use gcscfuse.Base.Bytes.{contains, slash, Bytes, same}
use gcscfuse.Base.Dict.{lookup}
use gcscfuse.Fs.Invariant.{IsConsistentBut, with_stat_cache-IsConsistent}
use gcscfuse.Fs.Lookups.{
  fetch_file, fetch_attr, getattr, up_to_slash, full_path, add_entry, read_entry, read_entries,
  readdir,
}
use gcscfuse.Gcs.Client
use gcscfuse.Gcs.Client.{ObjectMetadata}
use gcscfuse.Gcs.Sdk.{StorageClient}
use gcscfuse.StatCache.Cache.{insert_file, insert_directory}
use gcscfuse.StatCache.Cache.Invariant.{insert_file-IsValid, insert_directory-IsValid}

module _ (client : StorageClient) {raced : Bytes → Bool} where
  file_cached :
      (now : ℕ) (path : Bytes) (size mtime : ℕ) (fs : Gcsfs client)
      → IsConsistentBut client raced fs
      → IsConsistentBut client raced (with_stat_cache client (insert_file now path size mtime) fs)
  file_cached now path size mtime fs h =
      with_stat_cache-IsConsistent client (insert_file now path size mtime) fs
        (λ c v. insert_file-IsValid now path size mtime v) h

  dir_cached :
      (now : ℕ) (path : Bytes) (fs : Gcsfs client)
      → IsConsistentBut client raced fs
      → IsConsistentBut client raced (with_stat_cache client (insert_directory now path) fs)
  dir_cached now path fs h =
      with_stat_cache-IsConsistent client (insert_directory now path) fs
        (λ c v. insert_directory-IsValid now path v) h

  fetch_file-IsConsistent :
      (now : ℕ) (path : Bytes) (fs : Gcsfs client)
      → IsConsistentBut client raced fs
      → IsConsistentBut client raced (fetch_file client now path fs).2
  unfolding fetch_file
  fetch_file-IsConsistent now path fs h =
      elim (Option-cases
        (Client.get_object_metadata client fs.bucket_name (object_of path) fs.cloud)) [
          | inl e ↦ rw (e, fetch_file) h
          | inr (m, e) ↦ rw (e, fetch_file) (file_cached now path m.size m.updated fs h)
        ]

  fetch_attr-IsConsistent :
      (now : ℕ) (path : Bytes) (fs : Gcsfs client)
      → IsConsistentBut client raced fs
      → IsConsistentBut client raced (fetch_attr client now path fs).2
  unfolding fetch_attr
  fetch_attr-IsConsistent now path fs h = elim (Bool-cases (is_valid_path client now path fs)) [
    | inr e ↦ rw e h
    | inl e ↦ rw e (elim (Bool-cases (is_directory client now path fs)) [
      | inl d ↦ rw d (dir_cached now path fs h)
      | inr d ↦ rw d (fetch_file-IsConsistent now path fs h)
    ])
  ]

  -- `getattr` keeps the invariant.
  pub getattr-IsConsistent :
      (now : ℕ) (path : Bytes) (fs : Gcsfs client)
      → IsConsistentBut client raced fs
      → IsConsistentBut client raced (getattr client now path fs).2
  unfolding getattr
  getattr-IsConsistent now path fs h = elim (Bool-cases (same path root_path)) [
    | inl e ↦ rw e h
    | inr e ↦ elim (Option-cases (lookup (object_of path) fs.write_buffers)) [
      | inr (c, b) ↦ rw (e, b, getattr) h
      | inl b ↦ elim (Option-cases (cached_stat client now path fs)) [
        | inr (i, s) ↦ rw (e, b, getattr) (rw (s, getattr) h)
        | inl s ↦ rw (e, b, getattr) (rw (s, getattr) (fetch_attr-IsConsistent now path fs h))
      ]
    ]
  ]

  add_entry-IsConsistent :
      (now : ℕ) (path : Bytes) (m : ObjectMetadata) (e : Bytes × Bool) (entries : List Bytes)
      (fs : Gcsfs client)
      → IsConsistentBut client raced fs
      → IsConsistentBut client raced (add_entry client now path m e entries fs).1
  unfolding add_entry
  add_entry-IsConsistent now path m (name, false) entries fs h =
      elim (Bool-cases (not (is_empty name) && not (contains name entries))) [
        | inl new ↦ rw new (file_cached now (full_path path name) m.size m.updated fs h)
        | inr old ↦ rw old h
      ]
  add_entry-IsConsistent now path m (name, true) entries fs h =
      elim (Bool-cases (not (is_empty name) && not (contains name entries))) [
        | inl new ↦ rw new (dir_cached now (full_path path name) fs h)
        | inr old ↦ rw old h
      ]

  read_entry-IsConsistent :
      (now : ℕ) (path : Bytes) (m : ObjectMetadata) (relative : Bytes) (entries : List Bytes)
      (fs : Gcsfs client)
      → IsConsistentBut client raced fs
      → IsConsistentBut client raced (read_entry client now path m relative entries fs).1
  unfolding read_entry
  read_entry-IsConsistent now path m relative entries fs h =
      elim (Bool-cases (is_empty relative || ends_with_slash relative)) [
        | inl e ↦ rw e h
        | inr e ↦ rw e (add_entry-IsConsistent now path m (up_to_slash relative) entries fs h)
      ]

  read_entries-IsConsistent :
      (now : ℕ) (path dir_path : Bytes) (objects : List ObjectMetadata) (entries : List Bytes)
      (fs : Gcsfs client)
      → IsConsistentBut client raced fs
      → IsConsistentBut client raced (read_entries client now path dir_path objects entries fs).2
  unfolding read_entries
  read_entries-IsConsistent now path dir_path [] entries fs h = h
  read_entries-IsConsistent now path dir_path (m ∷ rest) entries fs h =
      elim (Bool-cases (ltb (length m.name) (length dir_path))) [
        | inl e ↦ rw e h
        | inr e ↦ rw e (
            read_entries-IsConsistent now path dir_path rest _ _
              (read_entry-IsConsistent now path m (drop (length dir_path) m.name) entries fs h))
      ]

  -- `readdir` keeps the invariant.
  pub readdir-IsConsistent :
      (now : ℕ) (path : Bytes) (fs : Gcsfs client)
      → IsConsistentBut client raced fs
      → IsConsistentBut client raced (readdir client now path fs).2
  unfolding readdir
  readdir-IsConsistent now path fs h =
      read_entries-IsConsistent now path (dir_prefix (object_of path))
        (Client.list_objects client fs.bucket_name (dir_prefix (object_of path)) (slash ∷ []) 0
          fs.cloud)
        [] fs h
