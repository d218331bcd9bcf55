-- ===== src/Reader/Coherence.antt =====
-- The content cache of src/reader.hpp against the remote objects.
pub mod Zeros
pub mod Keeps
use gcscfuse.Reader.{
  chunk, BaseReader, cached_read, ReadResult, Reader, size_mod, base, cached, direct, dummy, read,
  invalidate,
}
use gcscfuse.Reader.Loading.Needed.{
  needed, cached_read-needed, cached_read-remembered, needed-small,
}
use gcscfuse.Reader.Loading.Rounds.{loaded}
use gcscfuse.Reader.Loading.Large.{loaded_iff}
use gcscfuse.Base.{
  replicate, ap, suc, is_empty, Option, ◌≤◌, sym, ltb, Bool-cases, none, Bool, false, ◌∙◌, ℕ, ◌+◌,
  ◌<◌, ◌≡◌, ◌≢◌, refl, some, arith, length, inl, inr, Option-cases,
}
use gcscfuse.Reader.Loading.{
  cached_read-elsewhere, cached_read-kept, cached_read-hit, content_at, remembered,
}
use mathlib.Core.Path.{subst}
use gcscfuse.Base.Bytes.{Bytes, same, same_iff}
use gcscfuse.Base.Dict.{Dict, lookup, lookup-insert, lookup-erase}
use gcscfuse.Gcs.Sdk.{StorageClient}
use gcscfuse.Reader.Slice.{content_of, delivers, slice}

-- What the cache holds of an object below 512 MiB: what the rounds load of it, which is the object
-- itself where it is below 1 MiB. Nothing is held of an object that is not there.
abbrev pub IsHeld : Option Bytes → Bytes → Type 0
IsHeld object content = (object ≡ some (content_of object)) × (content ≡ loaded (content_of object))

loaded-there :
    (object : Option Bytes)
    → is_empty (loaded (content_of object)) ≡ false
    → object ≡ some (content_of object)
loaded-there none h = absurd (ground arith)
loaded-there (some content) h = refl

module _ (client : StorageClient) where
  open client use {Cloud}

  -- The cache holds what it should: above the direct reader for the names that nothing shadows, and
  -- above the dummy reader, which has the same zeros for every name, for all.
  unfoldable pub IsCoherent : (Bytes → Bool) → Reader → Cloud → Type 0
  IsCoherent shadowed (base b) cloud = Unit
  IsCoherent shadowed (cached (dummy max_size) cache) cloud =
      (k c : Bytes)
      → lookup k cache ≡ some c
      → max_size < 536870912
      → c ≡ loaded (replicate max_size 0)
  IsCoherent shadowed (cached (direct bucket) cache) cloud =
      (k c : Bytes)
      → shadowed k ≡ false
      → lookup k cache ≡ some c
      → length (content_at client bucket k cloud) < 536870912
      → IsHeld (client.read_object cloud bucket k) c

  pub remembered-IsCoherent :
      (shadowed : Bytes → Bool) (bucket object_name : Bytes) (cache : Dict Bytes) (cloud : Cloud)
      → IsCoherent shadowed (cached (direct bucket) cache) cloud
      → IsCoherent shadowed
          (cached
            (direct bucket)
            (remembered object_name (loaded (content_at client bucket object_name cloud)) cache))
          cloud
  unfolding IsCoherent
  remembered-IsCoherent shadowed bucket object_name cache cloud h k c sh e l =
      let text : Bytes = loaded (content_at client bucket object_name cloud) in
      elim (Bool-cases (is_empty text)) [
        | inl nothing ↦ h k c sh (ground arith) l
        | inr full ↦ elim (Bool-cases (same object_name k)) [
          | inl q ↦
              subst (λ j. IsHeld (client.read_object cloud bucket j) c)
                ((same_iff object_name k).0 q)
                (
                  loaded-there (client.read_object cloud bucket object_name) full,
                  ground (arith, lookup-insert object_name k text cache),
                )
          | inr q ↦ h k c sh (ground (arith, lookup-insert object_name k text cache)) l
        ]
      ]

  module _ (fuel : ℕ) (shadowed : Bytes → Bool) (bucket : Bytes) (cache : Dict Bytes)
      (object_name : Bytes) (size offset : ℕ) (cloud : Cloud) where
    -- A read through a coherent content cache above the direct reader, of an object below 512 MiB
    -- that nothing shadows, returns the requested part of what the rounds load of the remote object,
    -- hit or miss, and leaves the cache coherent, for `size` and `offset` below the limits of `int`
    -- and `size_t` and with the rounds that the object needs: one below 1 MiB, where the object
    -- itself is loaded, and eleven from there on.
    pub read-IsCoherent :
        IsCoherent shadowed (cached (direct bucket) cache) cloud
        → length (content_at client bucket object_name cloud) < 536870912
        → needed (content_at client bucket object_name cloud) ≤ fuel
        → shadowed object_name ≡ false
        → size < 2147483648
        → offset + size < size_mod
        → (cache' : Dict Bytes) × (read client fuel
              (cached (direct bucket) cache)
              object_name
              size
              offset
              cloud
            ≡ some (
              delivers (slice (loaded (content_at client bucket object_name cloud)) size offset),
              cached (direct bucket) cache',
            ))
          × IsCoherent shadowed (cached (direct bucket) cache') cloud
    unfolding read IsCoherent
    read-IsCoherent h small enough sh hs ho = elim (Option-cases (lookup object_name cache)) [
      | inl miss ↦ (
        remembered object_name (loaded (content_at client bucket object_name cloud)) cache,
        rw
            (
              cached_read-needed client bucket fuel cache object_name size offset cloud miss enough
                  small hs ho,
              read,
            )
            refl,
        remembered-IsCoherent shadowed bucket object_name cache cloud h,
      )
      | inr (content, hit) ↦ (
        cache,
        rw
            (
              cached_read-hit client bucket fuel cache object_name content size offset cloud hit hs
                  ho,
              read,
              (h object_name content sh hit small).1,
            )
            refl,
        h,
      )
    ]

  -- The same of an object below 1 MiB, which is loaded as it is in one round.
  pub read_small-IsCoherent :
      (fuel : ℕ) (shadowed : Bytes → Bool) (bucket : Bytes) (cache : Dict Bytes)
      (object_name : Bytes) (size offset : ℕ) (cloud : Cloud)
      → IsCoherent shadowed (cached (direct bucket) cache) cloud
      → length (content_at client bucket object_name cloud) < chunk
      → shadowed object_name ≡ false
      → size < 2147483648
      → offset + size < size_mod
      → (cache' : Dict Bytes) × (read client
            (suc fuel)
            (cached (direct bucket) cache)
            object_name
            size
            offset
            cloud
          ≡ some (
            delivers (slice (content_at client bucket object_name cloud) size offset),
            cached (direct bucket) cache',
          ))
        × IsCoherent shadowed (cached (direct bucket) cache') cloud
  read_small-IsCoherent fuel shadowed bucket cache object_name size offset cloud h small sh hs ho =
      let content : Bytes = content_at client bucket object_name cloud in
      let (cache', done, kept) =
        read-IsCoherent (suc fuel) shadowed bucket cache object_name size offset cloud h
          (omega arith) (needed-small fuel content small) sh hs ho in
      (
        cache',
        done
            ∙ ap (λ t. some (delivers (slice t size offset), cached (direct bucket) cache'))
                ((loaded_iff content).1 small),
        kept,
      )
