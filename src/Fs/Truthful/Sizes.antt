-- ===== src/Fs/Truthful/Sizes.antt =====
-- What `getattr` of src/gcs_fs.cpp reports of a file in these runs.
use gcscfuse.Base.{
  ℕ, ◌++◌, ◌≡◌, ◌∷◌, Option, none, some, false, refl, inl, inr, arith, ap, ◌∙◌, sym, Bool-cases,
  Option-cases,
}
use gcscfuse.Base.Bytes.{Bytes, same, same_iff}
use gcscfuse.Base.Dict.{lookup}
use gcscfuse.Base.Int.{pos}
use gcscfuse.Config.{GcsfsConfig}
use gcscfuse.Fs.Contents.{contents}
use gcscfuse.Fs.Interleaved.{Threads, Interleaved}
use gcscfuse.Fs.Interleaved.Keeps.{mounted}
use gcscfuse.Fs.Lookups.{getattr, fetch_attr, fetch_file}
use gcscfuse.Fs.State.{Gcsfs, object_of, cached_stat, root_path, is_valid_path, is_directory}
use gcscfuse.Fs.Truthful.{IsTruthful, IsNormal, MetadataLaws, HasLength, IsTrueOf}
use gcscfuse.Fs.Truthful.Lookups.{get_object_metadata-HasLength}
use gcscfuse.Fs.Truthful.Threads.{AreNormalTurns, AreDefinedTurns, Interleaved-IsTruthful}
use gcscfuse.Gcs.Client
use gcscfuse.Gcs.Laws.{StorageLaws}
use gcscfuse.Gcs.Sdk.{StorageClient}
use gcscfuse.StatCache.Cache.{get_stat, StatCache, is_expired}
use gcscfuse.StatCache.Cache.Stat.{get_stat-view, fresh}
use gcscfuse.StatCache.Cache.View.{view}
use gcscfuse.StatCache.Path.{split_path, path_of, strip_leading, is_root}
use gcscfuse.StatCache.Path.RoundTrip.{split_path-path_of}
use gcscfuse.StatCache.Trie.{StatInfo, file_mode}
use mathlib.Core.Path.{subst}

fresh-some :
    (now : ℕ) (c : StatCache) (o : Option StatInfo) (i : StatInfo)
    → fresh now c o ≡ some i
    → o ≡ some i
fresh-some now c none i h = h
fresh-some now c (some x) i h = elim (Bool-cases (is_expired now c x)) [
  | inl e ↦ absurd (ground arith)
  | inr e ↦ ground arith
]

-- What the cache gives, fresh, was recorded.
get_stat-recorded :
    (now : ℕ) (path : Bytes) (cache : StatCache) (info : StatInfo)
    → is_root path ≡ false
    → get_stat now path cache ≡ some info
    → view cache (split_path path) ≡ some info
get_stat-recorded now path cache info below s =
    fresh-some now cache (view cache (split_path path)) info
      (sym (get_stat-view now path cache below) ∙ s)

module _ {client : StorageClient} where
  cached_stat-HasLength :
      (now : ℕ) (path : Bytes) (fs : Gcsfs client) (info : StatInfo)
      → IsNormal path
      → same path root_path ≡ false
      → IsTruthful client fs
      → lookup (object_of path) fs.write_buffers ≡ none
      → cached_stat client now path fs ≡ some info
      → info.mode ≡ file_mode
      → HasLength (client.read_object fs.cloud fs.bucket_name (object_of path)) info.size
  unfolding path_of strip_leading is_root
  cached_stat-HasLength now path fs info (inl r) below h b s m =
      absurd (ground (arith, same_iff path root_path))
  cached_stat-HasLength now path fs info (inr (c, cs, k, r)) below h b s m =
      let seen : view fs.stat_cache (c ∷ cs) ≡ some info =
        ap (view fs.stat_cache) (sym (ap split_path r ∙ split_path-path_of c cs k))
        ∙ get_stat-recorded now path fs.stat_cache info (ground arith) (ground arith) in
      let name : object_of path ≡ c ++ path_of cs = ap strip_leading r in
      rw name (
        subst
          (λ o.
            IsTrueOf o (lookup (c ++ path_of cs) fs.write_buffers)
              (client.read_object fs.cloud fs.bucket_name (c ++ path_of cs)))
          seen (h.files.holds c cs k) m (ap (λ j. lookup j fs.write_buffers) (sym name) ∙ b))

module _ {client : StorageClient} (metadata : MetadataLaws client) where
  fetch_attr-HasLength :
      (now : ℕ) (path : Bytes) (fs : Gcsfs client)
      → (fetch_attr client now path fs).0 ≡ pos 0
      → (fetch_attr client now path fs).1.st_mode ≡ file_mode
      → HasLength
          (client.read_object fs.cloud fs.bucket_name (object_of path))
          (fetch_attr client now path fs).1.st_size
  unfolding fetch_attr fetch_file
  fetch_attr-HasLength now path fs good file =
      elim (Bool-cases (is_valid_path client now path fs)) [
        | inr missing ↦ absurd (ground arith)
        | inl there ↦ elim (Bool-cases (is_directory client now path fs)) [
          | inl dir ↦ absurd (ground arith)
          | inr plain ↦
              elim (Option-cases
                (Client.get_object_metadata client fs.bucket_name (object_of path) fs.cloud)) [
                  | inl gone ↦ absurd (ground arith)
                  | inr (m, e) ↦
                      rw (there, fetch_attr)
                        (rw (plain, fetch_attr)
                          (rw (e, fetch_file)
                            (get_object_metadata-HasLength metadata fs.bucket_name (object_of path)
                              fs.cloud m e)))
                ]
        ]
      ]

  -- Where the stat cache is true, the size of a file is that of its content.
  pub getattr-HasLength :
      (now : ℕ) (path : Bytes) (fs : Gcsfs client)
      → IsTruthful client fs
      → IsNormal path
      → (getattr client now path fs).0 ≡ pos 0
      → (getattr client now path fs).1.st_mode ≡ file_mode
      → HasLength (contents client fs (object_of path)) (getattr client now path fs).1.st_size
  unfolding getattr
  getattr-HasLength now path fs h n good file = elim (Bool-cases (same path root_path)) [
    | inl root ↦ absurd (ground arith)
    | inr below ↦ elim (Option-cases (lookup (object_of path) fs.write_buffers)) [
      | inr (content, b) ↦ rw (below, b, getattr) (content, refl, refl)
      | inl b ↦ elim (Option-cases (cached_stat client now path fs)) [
        | inr (info, s) ↦
            let m : info.mode ≡ file_mode = ground arith in
            rw (below, b, getattr)
              (rw (s, getattr) (cached_stat-HasLength now path fs info n below h b s m))
        | inl s ↦
            rw (below, b, getattr)
              (rw (s, getattr) (fetch_attr-HasLength now path fs (ground arith) (ground arith)))
      ]
    ]
  ]

module _ {client : StorageClient} (laws : StorageLaws client) (metadata : MetadataLaws client) where
  -- With the laws of the storage library and of its metadata, however the callbacks of several threads
  -- interleaved with uploads that are under way, on paths as FUSE passes them, as long as no successful
  -- upload ended, with the stat cache on, after `unlink` erased its buffer: when `getattr` of such a
  -- path returns 0 with the mode of a regular file, whether from the write buffer, the stat cache or
  -- the bucket, the file has a content, its buffer or else its stored object, and `st_size` is the
  -- length of that. The callbacks other than uploads run without interruption, and an upload takes
  -- effect remotely when it begins.
  pub getattr-st_size :
      (bucket : Bytes) (config : GcsfsConfig) (cloud : client.Cloud) {t : Threads client}
      (run : Interleaved client (mounted laws bucket config cloud) t) (now : ℕ) (path : Bytes)
      → AreNormalTurns run
      → AreDefinedTurns run
      → IsNormal path
      → (getattr client now path t.fs).0 ≡ pos 0
      → (getattr client now path t.fs).1.st_mode ≡ file_mode
      → HasLength (contents client t.fs (object_of path)) (getattr client now path t.fs).1.st_size
  getattr-st_size bucket config cloud {t} run now path turns defined n good file =
      getattr-HasLength metadata now path t.fs
        (Interleaved-IsTruthful laws metadata bucket config cloud run turns defined) n good file
