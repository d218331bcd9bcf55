-- ===== src/Fs/Writes.antt =====
-- `create`, `write`, `truncate` and `unlink` of src/gcs_fs.cpp.
pub mod Splice
use Prim.Native.Nat.{bit_or}
use gcscfuse.Base.{
  ℕ, zero, suc, ◌+◌, ◌-◌, ◌*◌, ◌%◌, Bool, true, false, [], ◌++◌, ◌∷◌, Option, none, some, not, ◌&&◌,
  ltb, leb, length, take, drop, replicate, is_empty, if◌then◌else◌,
}
use gcscfuse.Base.Bytes.{Bytes, slash}
use gcscfuse.Base.Dict.{lookup, insert, erase}
use gcscfuse.Base.Int.{ℤ, pos, leb_ℤ, to_int}
use gcscfuse.Fs.State.{
  Gcsfs, enoent, eio, eisdir, object_of, is_valid_path, is_directory, mark_dirty, with_stat_cache,
}
use gcscfuse.Gcs.Client
use gcscfuse.Gcs.Sdk.{StorageClient, Outcome, ok, failed, thrown}
use gcscfuse.Reader
use gcscfuse.Reader.{Reader, size_mod, chunk, invalidate}
use gcscfuse.StatCache.Cache
use gcscfuse.StatCache.Cache.{insert_file}

-- `content.resize(n, '\0')`
unfoldable pub resize : ℕ → Bytes → Bytes
resize n content = take n content ++ replicate (n - length content) 0

-- `write_buffers_[object_name]`, which makes an empty buffer where there is none.
abbrev pub buffer_or_new : Option Bytes → Bytes
buffer_or_new none = []
buffer_or_new (some content) = content

-- The buffer after `buf` was written at an offset.
unfoldable pub overwritten : Bytes → ℕ → Bytes → Bytes
unfolding resize
overwritten buf offset content =
    let size : ℕ = length buf in
    let padded = if ltb (length content) offset then resize offset content else content in
    let end : ℕ = (offset + size) % size_mod in
    let grown = if ltb (length padded) end then resize end padded else padded in
    take offset grown ++ buf ++ drop (offset + size) grown

module _ (client : StorageClient) where
  open client use {Cloud}

  abbrev pub put_buffer : Bytes → Bytes → Gcsfs client → Gcsfs client
  put_buffer object_name content fs = record fs {
    write_buffers = insert object_name content fs.write_buffers;
  }

  -- The result, and the flags with O_CREAT.
  unfoldable pub create : ℕ → Bytes → ℕ → Gcsfs client → ℤ × ℕ × Gcsfs client
  unfolding mark_dirty
  create now path flags fs = (
    pos 0,
    bit_or flags 64,
    with_stat_cache client (insert_file now path 0 now)
        (mark_dirty client (object_of path) (put_buffer (object_of path) [] fs)),
  )

  -- `buf` holds the `size` bytes to write.
  unfoldable pub write : ℕ → Bytes → Bytes → ℕ → Gcsfs client → ℤ × Gcsfs client
  unfolding mark_dirty
  write now path buf offset fs =
      let content =
        overwritten buf offset (buffer_or_new (lookup (object_of path) fs.write_buffers)) in
      (
        to_int (length buf),
        with_stat_cache client (insert_file now path (length content) now)
            (mark_dirty client (object_of path) (put_buffer (object_of path) content fs)),
      )

  -- The loop of `truncate` that reads the stored content. `acc` is the part of `content` before
  -- `total_read`, and `cap` the size of `content`. Fuel counts the rounds, and `inner` is the fuel
  -- of the reader.
  unfoldable pub load_stored : ℕ → ℕ → Reader → Bytes → Bytes → ℕ → Cloud → Option (Bytes × Reader)
  load_stored zero inner reader object_name acc cap cloud = none
  load_stored (suc fuel) inner reader object_name acc cap cloud =
      let total_read : ℕ = length acc in
      let cap' : ℕ = if leb cap total_read then cap * 2 else cap in
      elim (Reader.read client inner reader object_name (cap' - total_read) total_read cloud) [
        | none ↦ none
        | some (r, reader') ↦ elim (leb_ℤ r.count (pos 0)) [
          | true ↦ some (acc, reader')
          | false ↦ load_stored fuel inner reader' object_name (acc ++ r.bytes) cap' cloud
        ]
      ]

  -- The end of `truncate`, once the buffer has its content.
  unfoldable pub truncated : ℕ → Bytes → ℕ → Bytes → Gcsfs client → ℤ × Gcsfs client
  unfolding mark_dirty resize
  truncated now path size content fs = (
    pos 0,
    with_stat_cache client (insert_file now path size now)
        (mark_dirty client (object_of path) (put_buffer (object_of path) (resize size content) fs)),
  )

  unfoldable pub truncate : ℕ → ℕ → ℕ → Bytes → ℕ → Gcsfs client → Option (ℤ × Gcsfs client)
  truncate fuel inner now path size fs =
      let content = buffer_or_new (lookup (object_of path) fs.write_buffers) in
      if is_empty content && is_valid_path client now path fs
      then elim (load_stored fuel inner fs.reader (object_of path) [] chunk fs.cloud) [
        | none ↦ none
        | some (stored, reader) ↦
            some (truncated now path size stored (record fs { reader = reader }))
      ]
      else some (truncated now path size content fs)

  -- What follows the call of `deleteObject`, by its result or the exception that is caught.
  unfoldable pub after_delete : Bytes → Outcome Bool → Gcsfs client → ℤ × Gcsfs client
  after_delete object_name thrown fs = (eio, fs)
  after_delete object_name failed fs = (eio, fs)
  after_delete object_name (ok false) fs = (eio, fs)
  after_delete object_name (ok true) fs = (
    pos 0,
    record fs {
      reader = invalidate object_name fs.reader;
      write_buffers = erase object_name fs.write_buffers;
      dirty_files = erase object_name fs.dirty_files;
      stat_cache = Cache.remove (slash ∷ object_name) fs.stat_cache;
    },
  )

  unfoldable pub unlink : ℕ → Bytes → Gcsfs client → ℤ × Gcsfs client
  unlink now path fs =
      if not (is_valid_path client now path fs)
      then (enoent, fs)
      else if is_directory client now path fs
      then (eisdir, fs)
      else (let (deleted, cloud) =
            Client.delete_object client fs.bucket_name (object_of path) fs.cloud in
          after_delete (object_of path) deleted (record fs { cloud = cloud }))
