-- ===== src/Fs/Reads/Returns.antt =====
-- What every `read` of src/gcs_fs.cpp gives its caller, whatever the reader.
use gcscfuse.Base.{
  [], replicate, ℕ, ◌+◌, ◌<◌, ◌≤◌, ◌≡◌, refl, ◌⊎◌, inl, inr, Option-cases, Bool-cases, arith, some,
  length, take, length-take, drop,
}
use gcscfuse.Base.Bytes.{Bytes}
use gcscfuse.Base.Dict.{Dict, lookup}
use gcscfuse.Base.Int.{pos}
use gcscfuse.Fs.Reads.{read}
use gcscfuse.Fs.Reads.Buffer.{read_buffer-slice}
use gcscfuse.Fs.State.{Gcsfs, object_of, is_valid_path, enoent}
use gcscfuse.Gcs.Sdk.{StorageClient}
use gcscfuse.Reader
use gcscfuse.Reader.{
  BaseReader, direct, dummy, base, cached, ReadResult, size_mod, base_read, cached_read,
}
use gcscfuse.Reader.Loading.Large.{text_at, cached_read-loaded}
use gcscfuse.Reader.Loading.Rounds.{loaded}
use gcscfuse.Reader.Slice.{
  delivers, slice, direct_read-start, dummy_read-slice, read_from_cache-slice, content_of,
}

-- The count is that of the bytes that were put into the buffer of the caller, and they fit it.
abbrev pub Fits : ℕ → ReadResult → Type 0
Fits size r = (r.count ≡ pos (length r.bytes)) × (length r.bytes ≤ size)

-- The reader below the cache, if there is one.
abbrev pub base_of : Reader.Reader → BaseReader
base_of (base b) = b
base_of (cached b cache) = b

slice-Fits : (content : Bytes) (size offset : ℕ) → Fits size (delivers (slice content size offset))
slice-Fits content size offset = (refl, omega (arith, length-take size (drop offset content)))

take-Fits : (content : Bytes) (size : ℕ) → Fits size (delivers (take size content))
take-Fits content size = (refl, omega (arith, length-take size content))

module _ (client : StorageClient) where
  open client use {Cloud}

  base_returns :
      (b : BaseReader) (object_name : Bytes) (size offset : ℕ) (cloud : Cloud)
      → size < 2147483648
      → Fits size (base_read client b object_name size offset cloud)
  unfolding base_read
  base_returns (direct bucket) object_name size offset cloud hs =
      rw (direct_read-start client bucket object_name size offset cloud hs)
        (take-Fits (content_of (client.read_object cloud bucket object_name)) size)
  base_returns (dummy max_size) object_name size offset cloud hs =
      rw (dummy_read-slice max_size size offset hs) (slice-Fits (replicate max_size 0) size offset)

  module _ (fuel : ℕ) (enough : 11 ≤ fuel) (object_name : Bytes) (size offset : ℕ)
      (hs : size < 2147483648) (ho : offset + size < size_mod) (cloud : Cloud) where
    cached_returns :
        (b : BaseReader) (cache : Dict Bytes)
        → length (text_at client b object_name cloud) < 536870912
        → (text : Bytes) × (cache' : Dict Bytes) × (cached_read client fuel b cache object_name size
              offset cloud
            ≡ some (delivers (slice text size offset), cache'))
    unfolding cached_read
    cached_returns b cache small = elim (Option-cases (lookup object_name cache)) [
      | inr (content, hit) ↦ (
        content,
        cache,
        rw (hit, cached_read) (rw (read_from_cache-slice content size offset hs ho) refl),
      )
      | inl miss ↦ (
        loaded (text_at client b object_name cloud),
        _,
        (cached_read-loaded client fuel b cache object_name size offset cloud enough miss small hs
            ho).0,
      )
    ]

    reader_returns :
        (r : Reader.Reader)
        → length (text_at client (base_of r) object_name cloud) < 536870912
        → (x : ReadResult) × (r' : Reader.Reader) × (Reader.read client fuel r object_name size
              offset cloud
            ≡ some (x, r'))
          × (Fits size x)
    unfolding Reader.read
    reader_returns (base b) small = (
      base_read client b object_name size offset cloud,
      base b,
      refl,
      base_returns b object_name size offset cloud hs,
    )
    reader_returns (cached b cache) small =
        let (text, cache', e) = cached_returns b cache small in
        (
          delivers (slice text size offset),
          cached b cache',
          rw (e, Reader.read) refl,
          slice-Fits text size offset,
        )

  -- Every `read` of less than 2 GiB, of a range that ends below the limit of `size_t`, returns within
  -- eleven rounds, if what its reader reads is below 512 MiB. It returns `-ENOENT`, or the number of the bytes that it put into the buffer of the
  -- caller, which are no more than the caller asked for.
  pub read-returns :
      (fuel now : ℕ) (path : Bytes) (size offset : ℕ) (fs : Gcsfs client)
      → 11 ≤ fuel
      → length (text_at client (base_of fs.reader) (object_of path) fs.cloud) < 536870912
      → size < 2147483648
      → offset + size < size_mod
      → (x : ReadResult) × (fs' : Gcsfs client) × (read client fuel now path size offset fs
          ≡ some (x, fs'))
        × ((x ≡ record { count = enoent; bytes = [] }) ⊎ Fits size x)
  unfolding read
  read-returns fuel now path size offset fs enough small hs ho =
      elim (Bool-cases (is_valid_path client now path fs)) [
        | inr missing ↦ (record { count = enoent; bytes = [] }, fs, rw missing refl, inl refl)
        | inl valid ↦ elim (Option-cases (lookup (object_of path) fs.write_buffers)) [
          | inr (content, b) ↦ (
            delivers (slice content size offset),
            fs,
            rw (valid, b, read_buffer-slice content size offset hs ho) refl,
            inr (slice-Fits content size offset),
          )
          | inl b ↦
              let (x, r', e, f) =
                reader_returns fuel enough (object_of path) size offset hs ho fs.cloud fs.reader
                  small in
              (x, record fs { reader = r' }, rw (valid, b, e) refl, inr f)
        ]
      ]
