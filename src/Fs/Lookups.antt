-- ===== src/Fs/Lookups.antt =====
-- `getattr`, `open` and `readdir` of src/gcs_fs.cpp.
pub mod Entries
pub mod Failing
use gcscfuse.Base.{
  ℕ, ◌%◌, ◌==◌, Bool, true, false, not, ◌&&◌, ◌||◌, List, [], ◌∷◌, ◌++◌, none, some, drop, length,
  is_empty, if◌then◌else◌, ltb,
}
use gcscfuse.Base.Bytes.{Bytes, same, slash, codes, contains}
use gcscfuse.Base.Dict.{lookup}
use gcscfuse.Base.Int.{ℤ, pos}
use gcscfuse.Fs.State.{
  Gcsfs, enoent, eio, eisdir, einval, root_path, object_of, cached_stat, with_stat_cache,
  is_valid_path, is_directory, ends_with_slash, dir_prefix,
}
use gcscfuse.Gcs.Client
use gcscfuse.Gcs.Client.{ObjectMetadata}
use gcscfuse.Gcs.Sdk.{StorageClient}
use gcscfuse.StatCache.Cache.{insert_file, insert_directory}
use gcscfuse.StatCache.Trie.{StatInfo, dir_mode, file_mode}

-- The fields of `struct stat` that the program sets; all others are 0.
pub record Stat : Type 0 where
  pub st_mode : ℕ
  pub st_nlink : ℕ
  pub st_size : ℕ
  pub st_mtime : ℕ

abbrev pub no_stat : Stat
no_stat = record { st_mode = 0; st_nlink = 0; st_size = 0; st_mtime = 0 }

abbrev pub dir_stat : Stat
dir_stat = record no_stat { st_mode = dir_mode; st_nlink = 2 }

abbrev pub file_stat : ℕ → ℕ → Stat
file_stat size mtime = record {
  st_mode = file_mode;
  st_nlink = 1;
  st_size = size;
  st_mtime = mtime;
}

abbrev pub stat_of : StatInfo → Stat
stat_of info = record {
  st_mode = info.mode;
  st_nlink = if info.is_directory then 2 else 1;
  st_size = info.size;
  st_mtime = info.mtime;
}

-- `s.find('/')` and `s.substr(0, …)`: the part before the first slash, and whether there is one.
unfoldable pub up_to_slash : Bytes → Bytes × Bool
up_to_slash [] = ([], false)
up_to_slash (c ∷ s) =
    let (before, found) = up_to_slash s in if c == slash then ([], true) else (c ∷ before, found)

-- The path of an entry of a directory, for the stat cache.
unfoldable pub full_path : Bytes → Bytes → Bytes
full_path path entry_name =
    if same path root_path || ends_with_slash path
    then path ++ entry_name
    else (path ++ slash ∷ []) ++ entry_name

module _ (client : StorageClient) where
  -- The file part of the third step of `getattr`.
  unfoldable pub fetch_file : ℕ → Bytes → Gcsfs client → ℤ × Stat × Gcsfs client
  fetch_file now path fs =
      elim (Client.get_object_metadata client fs.bucket_name (object_of path) fs.cloud) [
        | none ↦ (enoent, file_stat 0 0, fs)
        | some obj_meta ↦ (
          pos 0,
          file_stat obj_meta.size obj_meta.updated,
          with_stat_cache client (insert_file now path obj_meta.size obj_meta.updated) fs,
        )
      ]

  -- The third step of `getattr`: neither the write buffer nor the cache has the path.
  unfoldable pub fetch_attr : ℕ → Bytes → Gcsfs client → ℤ × Stat × Gcsfs client
  unfolding fetch_file
  fetch_attr now path fs =
      if not (is_valid_path client now path fs)
      then (enoent, no_stat, fs)
      else if is_directory client now path fs
      then (pos 0, dir_stat, with_stat_cache client (insert_directory now path) fs)
      else fetch_file now path fs

  unfoldable pub getattr : ℕ → Bytes → Gcsfs client → ℤ × Stat × Gcsfs client
  unfolding fetch_attr
  getattr now path fs =
      if same path root_path
      then (pos 0, dir_stat, fs)
      else elim (lookup (object_of path) fs.write_buffers) [
        | some content ↦ (pos 0, file_stat (length content) now, fs)
        | none ↦ elim (cached_stat client now path fs) [
          | some info ↦ (pos 0, stat_of info, fs)
          | none ↦ fetch_attr now path fs
        ]
      ]

  -- `flags & O_ACCMODE` with O_RDONLY = 0, O_WRONLY = 1 and O_RDWR = 2.
  unfoldable pub open_file : ℕ → Bytes → ℕ → Gcsfs client → ℤ
  open_file now path flags fs =
      let access : ℕ = flags % 4 in
      if not (access == 0) && not (access == 1) && not (access == 2)
      then einval
      else if access == 1 || access == 2
      then (if not (is_valid_path client now path fs)
          then pos 0
          else if is_directory client now path fs
          then eisdir
          else pos 0)
      else if not (is_valid_path client now path fs)
      then enoent
      else if is_directory client now path fs
      then eisdir
      else pos 0

  -- A new entry: its metadata goes to the stat cache, and its name to the filler.
  unfoldable pub add_entry :
      ℕ
      → Bytes
      → ObjectMetadata
      → Bytes × Bool
      → List Bytes
      → Gcsfs client
      → List Bytes × Gcsfs client
  unfolding full_path
  add_entry now path obj_meta (entry_name, is_subdir) entries fs =
      if not (is_empty entry_name) && not (contains entry_name entries)
      then (
        entries ++ entry_name ∷ [],
        with_stat_cache client
            (if is_subdir
              then insert_directory now (full_path path entry_name)
              else insert_file now (full_path path entry_name) obj_meta.size obj_meta.updated)
            fs,
      )
      else (entries, fs)

  -- The body of the loop over the listed objects, behind the prefix of the directory.
  unfoldable pub read_entry :
      ℕ → Bytes → ObjectMetadata → Bytes → List Bytes → Gcsfs client → List Bytes × Gcsfs client
  unfolding add_entry up_to_slash
  read_entry now path obj_meta relative entries fs =
      if is_empty relative || ends_with_slash relative
      then (entries, fs)
      else add_entry now path obj_meta (up_to_slash relative) entries fs

  -- The loop; a name shorter than the prefix makes `substr` throw, which is caught.
  unfoldable pub read_entries :
      ℕ
      → Bytes
      → Bytes
      → List ObjectMetadata
      → List Bytes
      → Gcsfs client
      → ℤ × List Bytes × Gcsfs client
  unfolding read_entry
  read_entries now path dir_path [] entries fs = (pos 0, entries, fs)
  read_entries now path dir_path (obj_meta ∷ rest) entries fs =
      let (entries', fs') =
        read_entry now path obj_meta (drop (length dir_path) obj_meta.name) entries fs in
      let more = read_entries now path dir_path rest entries' fs' in
      if ltb (length obj_meta.name) (length dir_path) then (eio, entries, fs) else more

  -- The result, the names that the filler was given, and the state.
  unfoldable pub readdir : ℕ → Bytes → Gcsfs client → ℤ × List Bytes × Gcsfs client
  unfolding read_entries
  readdir now path fs =
      let dir_path = dir_prefix (object_of path) in
      let objects = Client.list_objects client fs.bucket_name dir_path (slash ∷ []) 0 fs.cloud in
      let (result, entries, fs') = read_entries now path dir_path objects [] fs in
      (result, codes "." ∷ codes ".." ∷ entries, fs')
