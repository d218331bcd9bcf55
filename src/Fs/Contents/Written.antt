-- ===== src/Fs/Contents/Written.antt =====
-- What `read` returns of what `write` wrote.
use gcscfuse.Base.{ap, ◌∙◌, ℕ, ◌+◌, ◌<◌, ◌≡◌, refl, true, some, arith, length}
use gcscfuse.Base.Bytes.{Bytes, same_refl}
use gcscfuse.Base.Dict.{lookup, lookup-insert}
use gcscfuse.Fs.Reads.Buffer.{read_buffer-slice}
use gcscfuse.Fs.Reads.{read}
use gcscfuse.Fs.State.{Gcsfs, object_of, is_valid_path}
use gcscfuse.Fs.Writes.{write, overwritten, buffer_or_new}
use gcscfuse.Fs.Writes.Splice.{overwritten-slice}
use gcscfuse.Gcs.Sdk.{StorageClient}
use gcscfuse.Reader.{size_mod}
use gcscfuse.Reader.Slice.{delivers, slice}

module _ (client : StorageClient) where
  read-buffered :
      (fuel now : ℕ) (path : Bytes) (size offset : ℕ) (fs : Gcsfs client) (content : Bytes)
      → is_valid_path client now path fs ≡ true
      → lookup (object_of path) fs.write_buffers ≡ some content
      → size < 2147483648
      → offset + size < size_mod
      → read client fuel now path size offset fs ≡ some (delivers (slice content size offset), fs)
  unfolding read
  read-buffered fuel now path size offset fs content valid b hs ho =
      rw (valid, b, read_buffer-slice content size offset hs ho) refl

  pub lookup-write :
      (now : ℕ) (path buf : Bytes) (offset : ℕ) (fs : Gcsfs client)
      → lookup (object_of path) (write client now path buf offset fs).1.write_buffers
        ≡ some (overwritten buf offset (buffer_or_new (lookup (object_of path) fs.write_buffers)))
  unfolding write
  lookup-write now path buf offset fs = ground (
    arith,
    same_refl (object_of path),
    lookup-insert (object_of path) (object_of path)
        (overwritten buf offset (buffer_or_new (lookup (object_of path) fs.write_buffers)))
        fs.write_buffers,
  )

  -- After a `write`, a `read` of the same range returns the bytes that were written and changes
  -- nothing, if the path is valid by then and the range is below the limits of `int` and `size_t`.
  pub read-write :
      (fuel now later : ℕ) (path buf : Bytes) (offset : ℕ) (fs : Gcsfs client)
      → is_valid_path client later path (write client now path buf offset fs).1 ≡ true
      → length buf < 2147483648
      → offset + length buf < size_mod
      → read client fuel later path (length buf) offset (write client now path buf offset fs).1
        ≡ some (delivers buf, (write client now path buf offset fs).1)
  read-write fuel now later path buf offset fs valid hs ho =
      let old : Bytes = buffer_or_new (lookup (object_of path) fs.write_buffers) in
      let fs' : Gcsfs client = (write client now path buf offset fs).1 in
      read-buffered fuel later path (length buf) offset fs' (overwritten buf offset old) valid
        (lookup-write now path buf offset fs) hs ho
      ∙ ap (λ t. some (delivers t, fs')) (overwritten-slice buf offset old ho).1
