-- ===== src/Fs/Reads.antt =====
-- `read` of src/gcs_fs.cpp.
pub mod Buffer
pub mod Returns
use gcscfuse.Base.{ℕ, ◌+◌, ◌-◌, ◌%◌, Option, none, some, not, ltb, length, drop, [], if◌then◌else◌}
use gcscfuse.Base.Bytes.{Bytes}
use gcscfuse.Base.Dict.{lookup}
use gcscfuse.Fs.State.{Gcsfs, enoent, object_of, is_valid_path}
use gcscfuse.Gcs.Sdk.{StorageClient}
use gcscfuse.Reader
use gcscfuse.Reader.{ReadResult, copied, nothing_read, size_mod}

-- The read from a write buffer.
unfoldable pub read_buffer : Bytes → ℕ → ℕ → ReadResult
read_buffer content size offset =
    let len : ℕ = length content in
    if ltb offset len
    then copied (drop offset content)
        (if ltb len ((offset + size) % size_mod) then len - offset else size)
    else copied [] 0

module _ (client : StorageClient) where
  -- Fuel is that of the reader's loop.
  unfoldable pub read : ℕ → ℕ → Bytes → ℕ → ℕ → Gcsfs client → Option (ReadResult × Gcsfs client)
  read fuel now path size offset fs =
      if not (is_valid_path client now path fs)
      then some (record { count = enoent; bytes = [] }, fs)
      else elim (lookup (object_of path) fs.write_buffers) [
        | some content ↦ some (read_buffer content size offset, fs)
        | none ↦ elim (Reader.read client fuel fs.reader (object_of path) size offset fs.cloud) [
          | none ↦ none
          | some (r, reader) ↦ some (r, record fs { reader = reader })
        ]
      ]
