-- ===== src/Fs/Frame/Survives.antt =====
-- What `write` of src/gcs_fs.cpp wrote, after other callbacks, an upload and a new mount.
use gcscfuse.Base.{
  length-drop, drop, length-take, arith, ℕ, suc, ◌+◌, ◌<◌, ◌≡◌, ◌∙◌, ap, some, length, true, false,
}
use gcscfuse.Base.Bytes.{Bytes}
use gcscfuse.Base.Dict.{lookup}
use gcscfuse.Base.Int.{pos}
use gcscfuse.Config.{GcsfsConfig}
use gcscfuse.Fs.Contents.Attributes.{Describes}
use gcscfuse.Fs.Contents.Written.{lookup-write}
use gcscfuse.Fs.Frame.Runs.{Spares, contents-Reach}
use gcscfuse.Fs.Invariant.{IsConsistent}
use gcscfuse.Fs.Invariant.Keeps.{write-IsConsistent}
use gcscfuse.Fs.Reads.{read}
use gcscfuse.Fs.Remount.{read-remounted}
use gcscfuse.Fs.State.{Gcsfs, construct, object_of}
use gcscfuse.Fs.Steps.{Reach, here, next, Step-IsConsistent}
use gcscfuse.Fs.Upload.{flush}
use gcscfuse.Fs.Writes.{write, overwritten, buffer_or_new}
use gcscfuse.Fs.Writes.Splice.{overwritten-slice}
use gcscfuse.Gcs.Laws.{StorageLaws}
use gcscfuse.Gcs.Sdk.{StorageClient}
use gcscfuse.Reader.{chunk, size_mod}
use gcscfuse.Reader.Slice.{delivers}

module _ {client : StorageClient} (laws : StorageLaws client) where
  run-IsConsistent :
      {start fs : Gcsfs client}
      → Reach client start fs
      → IsConsistent client start
      → IsConsistent client fs
  run-IsConsistent here h = h
  run-IsConsistent (next r s) h = Step-IsConsistent laws s (run-IsConsistent r h)

  -- With the laws of the storage library: after a `write` in a consistent state, any run of callbacks
  -- that return, none of which creates, writes, truncates or deletes the file, and a `flush` of it
  -- that returned 0, a new mount of the same bucket, with the content cache on and the dummy reader
  -- off, reads at the offset the bytes that were written, in one round, if the buffer that `write`
  -- made is below 1 MiB, the metadata call agrees with the read call on the object by then, and the
  -- range ends below the limit of `size_t`.
  pub write-survives :
      (fuel now later last : ℕ) (path buf : Bytes) (offset : ℕ) (config : GcsfsConfig)
      (start : Gcsfs client) {fs : Gcsfs client}
      (run : Reach client (write client now path buf offset start).1 fs)
      → IsConsistent client start
      → Spares (object_of path) run
      → (flush client later path fs).0 ≡ pos 0
      → config.enable_file_content_cache ≡ true
      → config.enable_dummy_reader ≡ false
      → offset + length buf < size_mod
      → length
          (overwritten buf offset (buffer_or_new (lookup (object_of path) start.write_buffers)))
        < chunk
      → Describes
          (client.get_object_metadata
            (flush client later path fs).1.cloud
            fs.bucket_name
            (object_of path))
          (client.read_object (flush client later path fs).1.cloud fs.bucket_name (object_of path))
      → (fs' : Gcsfs client) × (read client
            (suc fuel)
            last
            path
            (length buf)
            offset
            (construct client fs.bucket_name config (flush client later path fs).1.cloud)
          ≡ some (delivers buf, fs'))
  write-survives fuel now later last path buf offset config start {fs} run h spares e caching real
        room small agrees =
      let content : Bytes =
        overwritten buf offset (buffer_or_new (lookup (object_of path) start.write_buffers)) in
      let whole =
        (overwritten-slice buf offset (buffer_or_new (lookup (object_of path) start.write_buffers))
          room).1 in
      let hs : length buf < 2147483648 = omega (
        arith,
        ap length whole,
        length-take (length buf) (drop offset content),
        length-drop offset content,
      ) in
      let (fs', done) =
        read-remounted laws fuel later last path (length buf) offset content config fs
          (run-IsConsistent run (write-IsConsistent client now path buf offset start h))
          ((contents-Reach laws (object_of path) run spares).1
            ∙ lookup-write client now path buf offset start)
          e caching real small agrees hs room in
      (fs', done ∙ ap (λ t. some (delivers t, fs')) whole)
