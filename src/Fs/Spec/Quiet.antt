-- ===== src/Fs/Spec/Quiet.antt =====
-- `getattr` and `readdir` of src/gcs_fs.cpp, apart from the stat cache.
use gcscfuse.Base.Bytes.{slash, Bytes}
use gcscfuse.Fs.State.{object_of, dir_prefix, with_stat_cache, Gcsfs}
use gcscfuse.Base.{length, drop, refl, ltb, Bool-cases, inl, inr, ◌∷◌, ◌∙◌, arith, [], List, ◌≡◌, ℕ}
use gcscfuse.Gcs.Client
use gcscfuse.Base.Dict.{Dict}
use gcscfuse.Gcs.Client.{ObjectMetadata}
use gcscfuse.Reader.{Reader}
use gcscfuse.Fs.Lookups.{
  fetch_file, add_entry, fetch_attr, getattr, readdir, read_entries, read_entry,
}
use gcscfuse.StatCache.Cache.{StatCache}
use gcscfuse.Gcs.Sdk.{StorageClient}

module _ (client : StorageClient) where
  -- All but the stat cache and the flags.
  abbrev pub core : Gcsfs client → Bytes × client.Cloud × Reader × Dict Bytes
  core fs = (fs.bucket_name, fs.cloud, fs.reader, fs.write_buffers)

  pub core-with_stat_cache :
      (change : StatCache → StatCache) (fs : Gcsfs client)
      → core (with_stat_cache client change fs) ≡ core fs
  core-with_stat_cache change fs = ground arith

  pub core-getattr :
      (now : ℕ) (path : Bytes) (fs : Gcsfs client) → core (getattr client now path fs).2 ≡ core fs
  unfolding getattr fetch_attr fetch_file
  core-getattr now path fs = ground arith

  pub core-read_entry :
      (now : ℕ) (path : Bytes) (m : ObjectMetadata) (relative : Bytes) (entries : List Bytes)
      (fs : Gcsfs client)
      → core (read_entry client now path m relative entries fs).1 ≡ core fs
  unfolding read_entry add_entry
  core-read_entry now path m relative entries fs = ground arith

  core-read_entries :
      (now : ℕ) (path dir_path : Bytes) (objects : List ObjectMetadata) (entries : List Bytes)
      (fs : Gcsfs client)
      → core (read_entries client now path dir_path objects entries fs).2 ≡ core fs
  unfolding read_entries
  core-read_entries now path dir_path [] entries fs = refl
  core-read_entries now path dir_path (m ∷ rest) entries fs =
      let relative : Bytes = drop (length dir_path) m.name in
      let next = read_entry client now path m relative entries fs in
      elim (Bool-cases (ltb (length m.name) (length dir_path))) [
        | inl short ↦ rw short refl
        | inr long ↦ rw long (
            core-read_entries now path dir_path rest next.0 next.1
            ∙ core-read_entry now path m relative entries fs)
      ]

  pub core-readdir :
      (now : ℕ) (path : Bytes) (fs : Gcsfs client) → core (readdir client now path fs).2 ≡ core fs
  unfolding readdir
  core-readdir now path fs =
      core-read_entries now path (dir_prefix (object_of path))
        (Client.list_objects client fs.bucket_name (dir_prefix (object_of path)) (slash ∷ []) 0
          fs.cloud)
        [] fs
