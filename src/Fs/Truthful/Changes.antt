-- ===== src/Fs/Truthful/Changes.antt =====
-- `create`, `write`, `truncate` and `read` of src/gcs_fs.cpp against the truth of the stat cache.
use gcscfuse.Base.{ℕ, ◌≡◌, some, refl, arith}
use gcscfuse.Base.Bytes.{Bytes, same_iff}
use gcscfuse.Base.Dict.{lookup-insert}
use gcscfuse.Base.Int.{ℤ}
use gcscfuse.Fs.Frame.Leaves.{read-leaves, truncate-leaves}
use gcscfuse.Fs.Reads.{read}
use gcscfuse.Fs.State.{Gcsfs, object_of, with_stat_cache, mark_dirty}
use gcscfuse.Fs.Truthful.{IsTruthful, IsNormal}
use gcscfuse.Fs.Truthful.Lookups.{file_recorded}
use gcscfuse.Fs.Truthful.Records.{hidden-IsTrue}
use gcscfuse.Fs.Writes.{create, write, truncate, truncated, put_buffer}
use gcscfuse.Gcs.Sdk.{StorageClient}
use gcscfuse.Reader.{ReadResult, Reader}
use gcscfuse.StatCache.Cache.{insert_file}
use mathlib.Core.Path.{subst}

module _ (client : StorageClient) where
  -- The end of a callback that changes a buffer.
  rewritten-IsTruthful :
      (now : ℕ) (path content : Bytes) (size : ℕ) (fs : Gcsfs client)
      → IsNormal path
      → IsTruthful client fs
      → IsTruthful client (
          with_stat_cache client
            (insert_file now path size now)
            (mark_dirty client (object_of path) (put_buffer client (object_of path) content fs)))
  unfolding mark_dirty
  rewritten-IsTruthful now path content size fs n h =
      file_recorded now path size now
        (mark_dirty client (object_of path) (put_buffer client (object_of path) content fs))
        (record {
          stats = h.stats;
          files = hidden-IsTrue h.files (λ k b.
              (ground (arith, lookup-insert (object_of path) k content fs.write_buffers), refl));
        })
        n
        (λ b. absurd (
          ground (
            arith,
            lookup-insert (object_of path) (object_of path) content fs.write_buffers,
            same_iff (object_of path) (object_of path),
          )))

  pub create-IsTruthful :
      (now : ℕ) (path : Bytes) (flags : ℕ) (fs : Gcsfs client)
      → IsNormal path
      → IsTruthful client fs
      → IsTruthful client (create client now path flags fs).2
  unfolding create
  create-IsTruthful now path flags fs n h = rewritten-IsTruthful now path _ 0 fs n h

  pub write-IsTruthful :
      (now : ℕ) (path buf : Bytes) (offset : ℕ) (fs : Gcsfs client)
      → IsNormal path
      → IsTruthful client fs
      → IsTruthful client (write client now path buf offset fs).1
  unfolding write
  write-IsTruthful now path buf offset fs n h = rewritten-IsTruthful now path _ _ fs n h

  truncated-IsTruthful :
      (now : ℕ) (path : Bytes) (size : ℕ) (content : Bytes) (fs : Gcsfs client)
      → IsNormal path
      → IsTruthful client fs
      → IsTruthful client (truncated client now path size content fs).1
  unfolding truncated
  truncated-IsTruthful now path size content fs n h = rewritten-IsTruthful now path _ size fs n h

  -- The reader has no part in it.
  reader-IsTruthful :
      (fs : Gcsfs client) (r : Reader)
      → IsTruthful client fs
      → IsTruthful client (record fs { reader = r })
  reader-IsTruthful fs r h = record { stats = h.stats; files = h.files }

  pub read-IsTruthful :
      (fuel now : ℕ) (path : Bytes) (size offset : ℕ) (fs : Gcsfs client) {r : ReadResult}
      {fs' : Gcsfs client}
      → IsTruthful client fs
      → read client fuel now path size offset fs ≡ some (r, fs')
      → IsTruthful client fs'
  read-IsTruthful fuel now path size offset fs h e =
      let (reader, k) = read-leaves client fuel now path size offset fs e in
      subst (IsTruthful client) k (reader-IsTruthful fs reader h)

  pub truncate-IsTruthful :
      (fuel inner now : ℕ) (path : Bytes) (size : ℕ) (fs : Gcsfs client) {result : ℤ}
      {fs' : Gcsfs client}
      → IsNormal path
      → IsTruthful client fs
      → truncate client fuel inner now path size fs ≡ some (result, fs')
      → IsTruthful client fs'
  truncate-IsTruthful fuel inner now path size fs n h e =
      let (content, reader, k) = truncate-leaves client fuel inner now path size fs e in
      subst (IsTruthful client) k (
        truncated-IsTruthful now path size content (record fs { reader = reader }) n
          (reader-IsTruthful fs reader h))
