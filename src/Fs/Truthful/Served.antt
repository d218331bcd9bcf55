-- ===== src/Fs/Truthful/Served.antt =====
-- `getattr` and then `read` of src/gcs_fs.cpp, as a program does that reads a whole file.
use gcscfuse.Base.{
  ℕ, suc, ◌<◌, ◌≡◌, some, length, take_all, true, false, refl, inl, inr, arith, ap, ◌∙◌,
  Option-cases,
}
use gcscfuse.Base.Bytes.{Bytes}
use gcscfuse.Base.Dict.{lookup}
use gcscfuse.Base.Int.{pos}
use gcscfuse.Config.{GcsfsConfig}
use gcscfuse.Fs.Contents.{contents, buffered_or, read-contents}
use gcscfuse.Fs.Invariant.{IsConsistent}
use gcscfuse.Fs.Lookups.{getattr}
use gcscfuse.Fs.Reads.{read}
use gcscfuse.Fs.Reads.Buffer.{read_buffer-slice}
use gcscfuse.Fs.Spec.Changes.{direct-cache, IsDirect}
use gcscfuse.Fs.Spec.Direct.{Reach-IsDirect}
use gcscfuse.Fs.Spec.Quiet.{core-getattr}
use gcscfuse.Fs.State.{Gcsfs, construct, object_of, is_valid_path}
use gcscfuse.Fs.Steps.{Reach, next, getattr_step, Reach-IsConsistent}
use gcscfuse.Fs.Truthful.{IsNormal, MetadataLaws}
use gcscfuse.Fs.Truthful.Runs.{IsNormalRun, Reach-IsTruthful}
use gcscfuse.Fs.Truthful.Sizes.{getattr-HasLength}
use gcscfuse.Gcs.Laws.{StorageLaws}
use gcscfuse.Gcs.Sdk.{StorageClient}
use gcscfuse.Reader.{chunk}
use gcscfuse.Reader.Slice.{slice, delivers, content_of}
use gcscfuse.StatCache.Trie.{file_mode}

-- The whole of a text.
slice-whole : (content : Bytes) (size : ℕ) → length content ≡ size → slice content size 0 ≡ content
slice-whole content size h = take_all size content (omega arith)

module _ (client : StorageClient) where
  read-whole :
      (fuel now : ℕ) (path : Bytes) (fs : Gcsfs client) (content : Bytes) (size : ℕ)
      → IsConsistent client fs
      → IsDirect fs.bucket_name fs.reader
      → contents client fs (object_of path) ≡ some content
      → length content ≡ size
      → size < chunk
      → is_valid_path client now path fs ≡ true
      → (fs' : Gcsfs client) × (read client (suc fuel) now path size 0 fs
          ≡ some (delivers content, fs'))
  read-whole fuel now path fs content size h d c l small valid =
      elim (Option-cases (lookup (object_of path) fs.write_buffers)) [
        | inr (b, e) ↦
            let k : b ≡ content = ground arith in
            (
              fs,
              unfold read in
                  rw
                    (
                      valid,
                      e,
                      read_buffer-slice b size 0 (omega arith) (omega arith),
                      k,
                      slice-whole content size l,
                    )
                    refl,
            )
        | inl e ↦
            let (cache, uses) = direct-cache fs.bucket_name fs.reader d in
            let stored : client.read_object fs.cloud fs.bucket_name (object_of path)
                ≡ some content =
              ground arith in
            let (fs', done, kept) =
              read-contents client fuel now path size 0 fs cache h uses (rw stored (omega arith))
                valid (omega arith) (omega arith) in
            (
              fs',
              done
                  ∙ ap (λ o. some (delivers (slice (content_of o) size 0), fs')) c
                  ∙ ap (λ t. some (delivers t, fs')) (slice-whole content size l),
            )
      ]

module _ {client : StorageClient} (laws : StorageLaws client) (metadata : MetadataLaws client) where
  -- With the laws of the storage library and of its metadata, the content cache on and the dummy
  -- reader off, in every state that a mount reaches by callbacks that return, on paths as FUSE passes
  -- them: when `getattr` of such a path returns 0 with the mode of a regular file and a size below
  -- 1 MiB, and the path is valid when it is read, a `read` of `st_size` bytes from the beginning, with
  -- one round of fuel, returns the whole content of the file, which is its buffer or else its stored
  -- object, and which has `st_size` bytes.
  pub getattr-read :
      (bucket : Bytes) (config : GcsfsConfig) (cloud : client.Cloud) {fs : Gcsfs client}
      (run : Reach client (construct client bucket config cloud) fs) (fuel now later : ℕ)
      (path : Bytes)
      → config.enable_file_content_cache ≡ true
      → config.enable_dummy_reader ≡ false
      → IsNormalRun run
      → IsNormal path
      → (getattr client now path fs).0 ≡ pos 0
      → (getattr client now path fs).1.st_mode ≡ file_mode
      → (getattr client now path fs).1.st_size < chunk
      → is_valid_path client later path (getattr client now path fs).2 ≡ true
      → (content : Bytes) × (fs' : Gcsfs client) × (contents client fs (object_of path)
          ≡ some content)
        × (length content ≡ (getattr client now path fs).1.st_size)
        × (read client
              (suc fuel)
              later
              path
              (getattr client now path fs).1.st_size
              0
              (getattr client now path fs).2
            ≡ some (delivers content, fs'))
  getattr-read bucket config cloud {fs} run fuel now later path caching real r n good file small
        valid =
      let (content, c, l) =
        getattr-HasLength metadata now path fs
          (Reach-IsTruthful laws metadata bucket config cloud run r) n good file in
      let asked : Reach client (construct client bucket config cloud)
          (getattr client now path fs).2 =
        next run (getattr_step now path fs) in
      let same =
        ap
          (λ s.
            buffered_or (lookup (object_of path) s.3) (client.read_object s.1 s.0 (object_of path)))
          (core-getattr client now path fs) in
      let (fs', done) =
        read-whole client fuel later path (getattr client now path fs).2 content
          (getattr client now path fs).1.st_size (Reach-IsConsistent laws bucket config cloud asked)
          (Reach-IsDirect laws bucket config cloud caching real asked) (same ∙ c) l small valid in
      (content, fs', c, l, done)
