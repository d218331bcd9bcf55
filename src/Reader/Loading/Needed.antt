-- ===== src/Reader/Loading/Needed.antt =====
-- The rounds that the loop of `CachedReader::read` of src/reader.hpp needs.
use gcscfuse.Base.{
  ℕ, zero, suc, ◌+◌, ◌-◌, ◌<◌, ◌≤◌, ◌≡◌, ap, sym, ◌∙◌, ltb, length, take, ◌++◌, some, none, [],
  arith, inl, inr, Bool-cases, Option-cases, if◌then◌else◌,
}
use gcscfuse.Base.Bytes.{Bytes}
use gcscfuse.Base.Dict.{Dict, lookup}
use gcscfuse.Base.Int.{pos, to_int, leb_ℤ, ltb_ℤ}
use gcscfuse.Gcs.Sdk.{StorageClient}
use gcscfuse.Reader.{ReadResult, direct, base_read, cached_read, load, chunk, size_mod}
use gcscfuse.Reader.Loading.{served, remembered, content_at, starts}
use gcscfuse.Reader.Loading.Rounds.{loaded, load-loaded, load-small, grown}
use gcscfuse.Reader.Slice.{delivers, slice}

-- A loop that ends does the same with more fuel.
load_mono :
    (fuel more : ℕ) (read : ℕ → ReadResult) (acc : Bytes) (cap : ℕ) (full : Bytes)
    → fuel ≤ more
    → load fuel read acc cap ≡ some full
    → load more read acc cap ≡ some full
unfolding load
load_mono zero more read acc cap full h e = absurd (ground arith)
load_mono (suc fuel) zero read acc cap full h e = absurd (omega arith)
load_mono (suc fuel) (suc more) read acc cap full h e =
    let cap' : ℕ = grown cap (length acc) in
    let r : ReadResult = read (cap' - length acc) in
    elim (Bool-cases (leb_ℤ r.count (pos 0))) [
      | inl last ↦ ground arith
      | inr goes ↦ elim (Bool-cases (ltb_ℤ r.count (to_int (cap' - length acc)))) [
        | inl short ↦ ground arith
        | inr filled ↦
            let rest =
              load_mono fuel more read (acc ++ r.bytes) cap' full (omega arith) (ground arith) in
            ground arith
      ]
    ]

-- The rounds for a text.
abbrev pub needed : Bytes → ℕ
needed content = if ltb (length content) chunk then 1 else 11

pub needed-small : (fuel : ℕ) (content : Bytes) → length content < chunk → needed content ≤ suc fuel
needed-small fuel content h = ground arith

module _ (read : ℕ → ReadResult) (content : Bytes)
    (starts : (n : ℕ) → n < 2147483648 → read n ≡ delivers (take n content)) where
  load-needed :
      (fuel : ℕ)
      → needed content ≤ fuel
      → length content < 536870912
      → load fuel read [] chunk ≡ some (loaded content)
  load-needed zero h l = absurd (ground arith)
  load-needed (suc fuel) h l = elim (Bool-cases (ltb (length content) chunk)) [
    | inl f ↦ rw f (load-small read content starts fuel (ground arith))
    | inr f ↦ load-loaded read content starts (suc fuel) (ground arith) l
  ]

  -- A loop that ends has loaded that text, whatever the fuel.
  pub load-eq :
      (fuel : ℕ) (full : Bytes)
      → length content < 536870912
      → load fuel read [] chunk ≡ some full
      → full ≡ loaded content
  load-eq fuel full l e =
      let more = load_mono fuel (fuel + 11) read [] chunk full (omega arith) e in
      let all = load-loaded read content starts (fuel + 11) (omega arith) l in cc (more, all)

module _ (client : StorageClient) (bucket : Bytes) where
  open client use {Cloud}

  pub cached_read-needed :
      (fuel : ℕ) (cache : Dict Bytes) (object_name : Bytes) (size offset : ℕ) (cloud : Cloud)
      → lookup object_name cache ≡ none
      → needed (content_at client bucket object_name cloud) ≤ fuel
      → length (content_at client bucket object_name cloud) < 536870912
      → size < 2147483648
      → offset + size < size_mod
      → cached_read client fuel (direct bucket) cache object_name size offset cloud
        ≡ some (
          delivers (slice (loaded (content_at client bucket object_name cloud)) size offset),
          remembered object_name (loaded (content_at client bucket object_name cloud)) cache,
        )
  unfolding cached_read
  cached_read-needed fuel cache object_name size offset cloud miss enough l hs ho =
      let content : Bytes = content_at client bucket object_name cloud in
      rw (miss, cached_read)
        (rw
          (
            load-needed (λ n. base_read client (direct bucket) object_name n 0 cloud) content
                (starts client bucket object_name cloud) fuel enough l,
            cached_read,
          )
          (served (loaded content) object_name cache size offset hs ho))

  -- The cache after a miss that returned, whatever the fuel and the part that was asked for.
  pub cached_read-remembered :
      (fuel : ℕ) (cache : Dict Bytes) (object_name : Bytes) (size offset : ℕ) (cloud : Cloud)
      {result : ReadResult} {cache' : Dict Bytes}
      → lookup object_name cache ≡ none
      → length (content_at client bucket object_name cloud) < 536870912
      → cached_read client fuel (direct bucket) cache object_name size offset cloud
        ≡ some (result, cache')
      → remembered object_name (loaded (content_at client bucket object_name cloud)) cache ≡ cache'
  unfolding cached_read
  cached_read-remembered fuel cache object_name size offset cloud {result} {cache'} miss l e =
      let content : Bytes = content_at client bucket object_name cloud in
      elim (Option-cases
        (load fuel (λ n. base_read client (direct bucket) object_name n 0 cloud) [] chunk)) [
          | inl never ↦ absurd (ground arith)
          | inr (full, done) ↦
              let same_text : full ≡ loaded content =
                load-eq (λ n. base_read client (direct bucket) object_name n 0 cloud) content
                  (starts client bucket object_name cloud) fuel full l done in
              ap (λ t. remembered object_name t cache) (sym same_text) ∙ ground arith
        ]
