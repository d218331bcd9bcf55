-- ===== src/Fs/Contents.antt =====
-- The abstract file system: what each object name holds, the write buffer before the remote
-- object, and how the callbacks read and change it.
pub mod Durable
pub mod Written
pub mod Attributes
pub mod Stored
pub mod Truncated
pub mod Endless
pub mod Recreated
use gcscfuse.Reader.{chunk, ReadResult, copied, read_from_cache, cached, direct, size_mod}
use gcscfuse.Reader.Loading.{content_at}
use gcscfuse.Reader.Coherence.{read-IsCoherent, IsCoherent, read_small-IsCoherent}
use gcscfuse.Reader.Loading.Rounds.{loaded}
use gcscfuse.Reader.Loading.Large.{loaded_iff}
use gcscfuse.Reader.Loading.Needed.{needed, needed-small}
use gcscfuse.Base.{
  ◌≤◌, ap, sym, ltb, drop, ◌-◌, ◌%◌, leb, ℕ, suc, ◌+◌, ◌<◌, ◌≡◌, refl, true, false, Option, none,
  some, arith, if◌then◌else◌, length, inl, inr, Option-cases, Bool-cases, [], ◌∙◌,
}
use gcscfuse.Reader.Slice.{read_from_cache-slice, delivers, slice, content_of}
use mathlib.Core.Path.{subst}
use gcscfuse.Base.Bytes.{Bytes, same}
use gcscfuse.Base.Dict.{Dict, lookup, lookup-insert}
use gcscfuse.Base.Int.{to_int}
use gcscfuse.Fs.State.{Gcsfs, object_of, is_valid_path}
use gcscfuse.Fs.Invariant.{IsConsistent, buffered}
use gcscfuse.Fs.Reads.{read}
use gcscfuse.Fs.Reads.Buffer.{read_buffer-slice}
use gcscfuse.Fs.Writes.{create, write, overwritten, buffer_or_new}
use gcscfuse.Gcs.Sdk.{StorageClient}
use gcscfuse.Reader

abbrev pub buffered_or : Option Bytes → Option Bytes → Option Bytes
buffered_or none remote = remote
buffered_or (some content) remote = some content

-- What a read shows of a file: the buffer, or what the rounds load of the object.
abbrev pub shown : Option Bytes → Option Bytes → Bytes
shown none remote = loaded (content_of remote)
shown (some content) remote = content

module _ (client : StorageClient) where
  abbrev pub contents : Gcsfs client → Bytes → Option Bytes
  contents fs k =
      buffered_or (lookup k fs.write_buffers) (client.read_object fs.cloud fs.bucket_name k)

  -- `create` empties its file and `write` splices its bytes into the buffer of its file, which is
  -- empty where there is none. Neither changes another file.
  pub contents-create-write :
      (now : ℕ) (path buf : Bytes) (flags offset : ℕ) (fs : Gcsfs client) (k : Bytes)
      → (contents (create client now path flags fs).2 k
          ≡ (if same (object_of path) k then some [] else contents fs k))
        × (contents (write client now path buf offset fs).1 k ≡ (
            if same (object_of path) k
            then some
                (overwritten buf offset (buffer_or_new (lookup (object_of path) fs.write_buffers)))
            else contents fs k))
  unfolding create write
  contents-create-write now path buf flags offset fs k = (
    ground (arith, lookup-insert (object_of path) k [] fs.write_buffers),
    ground (
      arith,
      lookup-insert (object_of path) k
          (overwritten buf offset (buffer_or_new (lookup (object_of path) fs.write_buffers)))
          fs.write_buffers,
    ),
  )

  forwarded :
      (fuel now : ℕ) (path : Bytes) (size offset : ℕ) (fs : Gcsfs client) (text : Bytes)
      {r reader : Reader.Reader}
      → is_valid_path client now path fs ≡ true
      → lookup (object_of path) fs.write_buffers ≡ none
      → fs.reader ≡ r
      → Reader.read client fuel r (object_of path) size offset fs.cloud
        ≡ some (delivers (slice text size offset), reader)
      → read client fuel now path size offset fs
        ≡ some (delivers (slice text size offset), record fs { reader = reader })
  unfolding read
  forwarded fuel now path size offset fs text valid b uses e = rw (valid, b, uses, e) refl

  -- In a consistent state with the content cache on and the dummy reader off, a read of a valid path
  -- whose object is below 512 MiB returns the requested part of the buffer, or without one of what
  -- the rounds load of the object, for `size` and `offset` below the limits of `int` and `size_t`
  -- and with the rounds that the object needs.
  pub read-shown :
      (fuel now : ℕ) (path : Bytes) (size offset : ℕ) (fs : Gcsfs client) (cache : Dict Bytes)
      → IsConsistent client fs
      → fs.reader ≡ cached (direct fs.bucket_name) cache
      → length (content_at client fs.bucket_name (object_of path) fs.cloud) < 536870912
      → needed (content_at client fs.bucket_name (object_of path) fs.cloud) ≤ fuel
      → is_valid_path client now path fs ≡ true
      → size < 2147483648
      → offset + size < size_mod
      → (fs' : Gcsfs client) × (read client fuel now path size offset fs
          ≡ some (
            delivers (
                slice
                  (shown
                    (lookup (object_of path) fs.write_buffers)
                    (client.read_object fs.cloud fs.bucket_name (object_of path)))
                  size
                  offset),
            fs',
          ))
        × ((k : Bytes) → contents fs' k ≡ contents fs k)
  unfolding read
  read-shown fuel now path size offset fs cache h uses small enough valid hs ho =
      elim (Option-cases (lookup (object_of path) fs.write_buffers)) [
        | inr (content, b) ↦
            (fs, rw (valid, b, read_buffer-slice content size offset hs ho) refl, λ k. refl)
        | inl b ↦
            let text : Bytes =
              loaded (content_at client fs.bucket_name (object_of path) fs.cloud) in
            let (cache', done, kept) =
              read-IsCoherent client fuel (buffered client fs) fs.bucket_name cache (object_of path)
                size offset fs.cloud
                (subst (λ r. IsCoherent client (buffered client fs) r fs.cloud) uses h.coherent)
                small enough (ground arith) hs ho in
            (
              record fs { reader = cached (direct fs.bucket_name) cache' },
              forwarded fuel now path size offset fs text valid b uses done
                  ∙ ap
                      (λ o. some (
                        delivers (
                            slice
                              (shown o
                                (client.read_object fs.cloud fs.bucket_name (object_of path)))
                              size offset),
                        record fs { reader = cached (direct fs.bucket_name) cache' },
                      ))
                      (sym b),
              λ k. refl,
            )
      ]

  shown-small :
      (buffer remote : Option Bytes)
      → length (content_of remote) < chunk
      → shown buffer remote ≡ content_of (buffered_or buffer remote)
  shown-small none remote h = (loaded_iff (content_of remote)).1 h
  shown-small (some content) remote h = refl

  -- In a consistent state with the content cache on and the dummy reader off, a read with at least
  -- one round of fuel, of a valid path whose object is below 1 MiB, returns the requested part of the
  -- file, buffered or remote, and leaves every file as it is, for `size` and `offset` below the limits
  -- of `int` and `size_t`.
  pub read-contents :
      (fuel now : ℕ) (path : Bytes) (size offset : ℕ) (fs : Gcsfs client) (cache : Dict Bytes)
      → IsConsistent client fs
      → fs.reader ≡ cached (direct fs.bucket_name) cache
      → length (content_at client fs.bucket_name (object_of path) fs.cloud) < chunk
      → is_valid_path client now path fs ≡ true
      → size < 2147483648
      → offset + size < size_mod
      → (fs' : Gcsfs client) × (read client (suc fuel) now path size offset fs
          ≡ some (delivers (slice (content_of (contents fs (object_of path))) size offset), fs'))
        × ((k : Bytes) → contents fs' k ≡ contents fs k)
  read-contents fuel now path size offset fs cache h uses small valid hs ho =
      let (fs', done, kept) =
        read-shown (suc fuel) now path size offset fs cache h uses (omega arith)
          (needed-small fuel (content_at client fs.bucket_name (object_of path) fs.cloud) small)
          valid hs ho in
      (
        fs',
        done
            ∙ ap (λ t. some (delivers (slice t size offset), fs'))
                (shown-small (lookup (object_of path) fs.write_buffers) _ small),
        kept,
      )
