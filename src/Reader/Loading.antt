-- ===== src/Reader/Loading.antt =====
-- What `CachedReader` of src/reader.hpp loads from a direct reader.
pub mod Rounds
pub mod Large
pub mod Needed
use gcscfuse.Reader.Loading.Rounds.{load-small}
use gcscfuse.Reader.Slice.{
  slice_nil, delivers, slice, content_of, read_from_cache-slice, direct_read-start,
}
use mathlib.Core.List.{append-nil}
use gcscfuse.Base.Bytes.{same, Bytes}
use gcscfuse.Base.Dict.{lookup-insert, Dict, lookup, insert}
use gcscfuse.Reader.{
  BaseReader, ReadResult, size_mod, chunk, read_from_cache, direct, nothing_read, load, cached_read,
  base_read,
}
use gcscfuse.Base.{
  Option-cases, inl, inr, if◌then◌else◌, ℕ, suc, ◌+◌, ◌-◌, ◌*◌, ◌<◌, ◌≤◌, ◌≡◌, ◌≢◌, refl, ap, sym,
  ◌∙◌, false, [], ◌∷◌, ◌++◌, Option, some, none, arith, ltb, leb, length, take, length-take,
  length-append, take_all, is_empty,
}
use gcscfuse.Base.Int.{pos, to_int, to_int-pos, leb_ℤ}
use gcscfuse.Gcs.Sdk.{StorageClient}

-- The cache after the content of an object was loaded.
abbrev pub remembered : Bytes → Bytes → Dict Bytes → Dict Bytes
remembered object_name content cache =
    if is_empty content then cache else insert object_name content cache

pub served :
    (content : Bytes) (object_name : Bytes) (cache : Dict Bytes) (size offset : ℕ)
    → size < 2147483648
    → offset + size < size_mod
    → if◌then◌else◌ {A = Option (ReadResult × Dict Bytes)}
        (is_empty content)
        (some (nothing_read, cache))
        (some (read_from_cache content size offset, insert object_name content cache))
      ≡ some (delivers (slice content size offset), remembered object_name content cache)
served [] object_name cache size offset h k =
    ap (λ t. some (delivers t, cache)) (sym (slice_nil size offset))
served (x ∷ content) object_name cache size offset h k =
    rw (read_from_cache-slice (x ∷ content) size offset h k) refl

module _ (client : StorageClient) (bucket : Bytes) where
  open client use {Cloud}

  -- What a read of the object gives.
  abbrev pub content_at : Bytes → Cloud → Bytes
  content_at object_name cloud = content_of (client.read_object cloud bucket object_name)

  pub starts :
      (object_name : Bytes) (cloud : Cloud) (n : ℕ)
      → n < 2147483648
      → base_read client (direct bucket) object_name n 0 cloud
        ≡ delivers (take n (content_at object_name cloud))
  unfolding base_read
  starts object_name cloud n h = direct_read-start client bucket object_name n 0 cloud h

  -- A hit is served from the cache alone.
  pub cached_read-hit :
      (fuel : ℕ) (cache : Dict Bytes) (object_name content : Bytes) (size offset : ℕ)
      (cloud : Cloud)
      → lookup object_name cache ≡ some content
      → size < 2147483648
      → offset + size < size_mod
      → cached_read client fuel (direct bucket) cache object_name size offset cloud
        ≡ some (delivers (slice content size offset), cache)
  unfolding cached_read
  cached_read-hit fuel cache object_name content size offset cloud hit h k =
      rw (hit, cached_read) (rw (read_from_cache-slice content size offset h k) refl)

  -- A hit leaves the cache as it is, for a part of any size.
  pub cached_read-kept :
      (fuel : ℕ) (cache : Dict Bytes) (object_name content : Bytes) (size offset : ℕ)
      (cloud : Cloud)
      → lookup object_name cache ≡ some content
      → cached_read client fuel (direct bucket) cache object_name size offset cloud
        ≡ some (read_from_cache content size offset, cache)
  unfolding cached_read
  cached_read-kept fuel cache object_name content size offset cloud hit = rw (hit, cached_read) refl

-- A read touches no other entry of the cache.
pub cached_read-elsewhere :
    (client : StorageClient) (fuel : ℕ) (b : BaseReader) (cache : Dict Bytes)
    (object_name k : Bytes) (size offset : ℕ) (cloud : client.Cloud) {result : ReadResult}
    {cache' : Dict Bytes}
    → same object_name k ≡ false
    → cached_read client fuel b cache object_name size offset cloud ≡ some (result, cache')
    → lookup k cache' ≡ lookup k cache
unfolding cached_read
cached_read-elsewhere client fuel b cache object_name k size offset cloud {result} {cache'} q e =
    elim (Option-cases (lookup object_name cache)) [
      | inr (content, hit) ↦ ground arith
      | inl miss ↦
          elim (Option-cases (load fuel (λ n. base_read client b object_name n 0 cloud) [] chunk)) [
            | inl never ↦ absurd (ground arith)
            | inr (content, loaded) ↦ ground (arith, lookup-insert object_name k content cache)
          ]
    ]
