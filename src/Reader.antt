-- ===== src/Reader.antt =====
-- src/reader.hpp: `GCSDirectReader`, `DummyReader` and `CachedReader`. A read gives the returned
-- count and the bytes that it put into the buffer.
pub mod Slice
pub mod Loading
pub mod Coherence
use gcscfuse.Base.{
  ℕ, zero, suc, ◌+◌, ◌-◌, ◌*◌, ◌%◌, Bool, true, false, List, [], ◌∷◌, ◌++◌, Option, none, some,
  if◌then◌else◌, length, take, drop, replicate, ltb, leb, is_empty,
}
use gcscfuse.Base.Bytes.{Bytes}
use gcscfuse.Base.Dict.{Dict, lookup, insert, erase}
use gcscfuse.Base.Int.{ℤ, pos, leb_ℤ, ltb_ℤ, to_int}
use gcscfuse.Gcs.Client
use gcscfuse.Gcs.Sdk.{StorageClient}

-- 2 ^ 64, for `size_t`; an `off_t` is given by its 64 bits, which `static_cast<size_t>` keeps.
abbrev pub size_mod : ℕ
size_mod = 18446744073709551616

-- `1024 * 1024`
abbrev pub chunk : ℕ
chunk = 1048576

pub record ReadResult : Type 0 where
  pub count : ℤ
  pub bytes : Bytes

abbrev pub nothing_read : ReadResult
nothing_read = record { count = pos 0; bytes = [] }

-- `memcpy(buf, content.c_str() + offset, size); return static_cast<int>(size)`
unfoldable pub copied : Bytes → ℕ → ReadResult
copied content size = record { count = to_int size; bytes = take size content }

-- The copy of a part of a text in memory: the body of `readFromCache`.
unfoldable pub read_from_cache : Bytes → ℕ → ℕ → ReadResult
unfolding copied
read_from_cache content size offset =
    let len : ℕ = length content in
    if leb len offset
    then nothing_read
    else copied (drop offset content)
        (if ltb len ((offset + size) % size_mod) then len - offset else size)

-- The readers that `GCSFS` wraps: `GCSDirectReader` with its bucket, and `DummyReader`.
pub data BaseReader : Type 0 where
  direct : Bytes → BaseReader
  dummy : ℕ → BaseReader

-- The reader of a file system: a base reader, or a `CachedReader` around one, with its cache.
pub data Reader : Type 0 where
  base : BaseReader → Reader
  cached : BaseReader → Dict Bytes → Reader

-- `DummyReader::read`
unfoldable pub dummy_read : ℕ → ℕ → ℕ → ReadResult
dummy_read max_size size offset =
    if leb max_size offset
    then nothing_read
    else (let available : ℕ = max_size - offset in
        let n : ℕ = if ltb available size then available else size in
        record { count = to_int n; bytes = replicate n 0 })

-- The loop of `CachedReader::read`. `acc` is the part of `full_content` before `total_read`, and
-- `cap` the size of `full_content`, whose rest is cut off at the end. `read n` is what the
-- underlying reader returns for `n` bytes at offset 0. Fuel counts the rounds.
unfoldable pub load : ℕ → (ℕ → ReadResult) → Bytes → ℕ → Option Bytes
load zero read acc cap = none
load (suc fuel) read acc cap =
    let total_read : ℕ = length acc in
    let cap' : ℕ = if leb_ℤ (to_int cap) (pos total_read) then cap * 2 else cap in
    let r = read (cap' - total_read) in
    let rest = load fuel read (acc ++ r.bytes) cap' in
    if leb_ℤ r.count (pos 0)
    then some acc
    else if ltb_ℤ r.count (to_int (cap' - total_read))
    then some (acc ++ r.bytes)
    else rest

module _ (client : StorageClient) where
  open client use {Cloud}

  -- `GCSDirectReader::read`
  unfoldable pub direct_read : Bytes → Bytes → ℕ → ℕ → Cloud → ReadResult
  unfolding copied
  direct_read bucket_name object_name size offset cloud =
      let content =
        Client.read_object client
          (record {
            bucket_name = bucket_name;
            object_name = object_name;
            range = some (offset, (offset + size) % size_mod);
          })
          cloud in
      let len : ℕ = length content in
      if ltb 0 len then copied content (if ltb len size then len else size) else nothing_read

  unfoldable pub base_read : BaseReader → Bytes → ℕ → ℕ → Cloud → ReadResult
  base_read (direct bucket_name) object_name size offset cloud =
      direct_read bucket_name object_name size offset cloud
  base_read (dummy max_size) object_name size offset cloud = dummy_read max_size size offset

  -- `CachedReader::read`, with the cache that it leaves.
  unfoldable pub cached_read :
      ℕ → BaseReader → Dict Bytes → Bytes → ℕ → ℕ → Cloud → Option (ReadResult × Dict Bytes)
  cached_read fuel underlying cache object_name size offset cloud =
      elim (lookup object_name cache) [
        | some content ↦ some (read_from_cache content size offset, cache)
        | none ↦ elim (load fuel (λ n. base_read underlying object_name n 0 cloud) [] chunk) [
          | none ↦ none
          | some full_content ↦
              if is_empty full_content
              then some (nothing_read, cache)
              else some
                  (read_from_cache full_content size offset, insert object_name full_content cache)
        ]
      ]

  -- The virtual call `reader_->read`, with the reader that it leaves.
  unfoldable pub read : ℕ → Reader → Bytes → ℕ → ℕ → Cloud → Option (ReadResult × Reader)
  read fuel (base b) object_name size offset cloud =
      some (base_read b object_name size offset cloud, base b)
  read fuel (cached b cache) object_name size offset cloud =
      elim (cached_read fuel b cache object_name size offset cloud) [
        | none ↦ none
        | some (r, cache') ↦ some (r, cached b cache')
      ]

-- `reader_->invalidate` and `reader_->clear`; the base readers keep nothing.
unfoldable pub invalidate : Bytes → Reader → Reader
invalidate object_name (base b) = base b
invalidate object_name (cached b cache) = cached b (erase object_name cache)

unfoldable pub clear : Reader → Reader
clear (base b) = base b
clear (cached b cache) = cached b []
