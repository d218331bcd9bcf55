-- ===== src/Reader/Coherence/Keeps.antt =====
-- The content cache of src/reader.hpp against the remote objects, after reads and changes.
use gcscfuse.Base.{
  sym, ltb, Bool-cases, none, Bool, false, ◌∙◌, ℕ, ◌<◌, ◌≡◌, ◌≢◌, some, arith, length, inl, inr,
  Option-cases,
}
use gcscfuse.Reader.Coherence.Zeros.{dummy_keeps}
use gcscfuse.Reader.Coherence.{IsCoherent, IsHeld, remembered-IsCoherent}
use gcscfuse.Reader.{
  BaseReader, cached_read, ReadResult, Reader, base, cached, direct, dummy, read, invalidate,
}
use gcscfuse.Reader.Loading.Needed.{cached_read-remembered}
use gcscfuse.Reader.Loading.{cached_read-elsewhere, cached_read-kept, content_at}
use mathlib.Core.Path.{subst}
use gcscfuse.Base.Bytes.{Bytes, same, same_iff}
use gcscfuse.Base.Dict.{Dict, lookup, lookup-erase}
use gcscfuse.Gcs.Sdk.{StorageClient}
use gcscfuse.Reader.Slice.{content_of}

module _ (client : StorageClient) where
  open client use {Cloud}

  -- A miss remembers an object below 512 MiB, and one on another object leaves these alone.
  miss_keeps :
      (fuel : ℕ) (shadowed : Bytes → Bool) (bucket : Bytes) (cache : Dict Bytes)
      (object_name : Bytes) (size offset : ℕ) (cloud : Cloud) {result : ReadResult}
      {cache' : Dict Bytes}
      → IsCoherent client shadowed (cached (direct bucket) cache) cloud
      → lookup object_name cache ≡ none
      → cached_read client fuel (direct bucket) cache object_name size offset cloud
        ≡ some (result, cache')
      → IsCoherent client shadowed (cached (direct bucket) cache') cloud
  unfolding IsCoherent
  miss_keeps fuel shadowed bucket cache object_name size offset cloud {result} {cache'} h miss e =
      elim (Bool-cases (ltb (length (content_at client bucket object_name cloud)) 536870912)) [
        | inl f ↦
            subst (λ t. IsCoherent client shadowed (cached (direct bucket) t) cloud)
              (cached_read-remembered client bucket fuel cache object_name size offset cloud miss
                (ground arith) e)
              (remembered-IsCoherent client shadowed bucket object_name cache cloud h)
        | inr f ↦ λ k c sh x l. elim (Bool-cases (same object_name k)) [
          | inl q ↦
              let l' : length (content_at client bucket object_name cloud) < 536870912 =
                subst (λ t. length (content_at client bucket t cloud) < 536870912)
                  (sym ((same_iff object_name k).0 q)) l in
              absurd (ground arith)
          | inr q ↦
              h k c sh
                (sym (
                    cached_read-elsewhere client fuel (direct bucket) cache object_name k size
                      offset cloud q e)
                  ∙ x)
                l
        ]
      ]

  cached_read-keeps :
      (fuel : ℕ) (shadowed : Bytes → Bool) (b : BaseReader) (cache : Dict Bytes)
      (object_name : Bytes) (size offset : ℕ) (cloud : Cloud) {result : ReadResult}
      {cache' : Dict Bytes}
      → IsCoherent client shadowed (cached b cache) cloud
      → cached_read client fuel b cache object_name size offset cloud ≡ some (result, cache')
      → IsCoherent client shadowed (cached b cache') cloud
  cached_read-keeps fuel shadowed (dummy m) cache object_name size offset cloud h e =
      dummy_keeps client fuel shadowed m cache object_name size offset cloud h e
  cached_read-keeps fuel shadowed (direct bucket) cache object_name size offset cloud {result}
        {cache'} h e =
      elim (Option-cases (lookup object_name cache)) [
        | inr (content, hit) ↦
            let k : cache ≡ cache' = cc (
              e,
              cached_read-kept client bucket fuel cache object_name content size offset cloud hit,
            ) in
            subst (λ t. IsCoherent client shadowed (cached (direct bucket) t) cloud) k h
        | inl miss ↦ miss_keeps fuel shadowed bucket cache object_name size offset cloud h miss e
      ]

  -- A read leaves the cache coherent, whatever is shadowed and whatever it returns.
  pub read-keeps :
      (fuel : ℕ) (shadowed : Bytes → Bool) (r : Reader) (object_name : Bytes) (size offset : ℕ)
      (cloud : Cloud) {result : ReadResult} {r' : Reader}
      → IsCoherent client shadowed r cloud
      → read client fuel r object_name size offset cloud ≡ some (result, r')
      → IsCoherent client shadowed r' cloud
  unfolding read
  read-keeps fuel shadowed (base b) object_name size offset cloud {result} {r'} h e =
      let k : base b ≡ r' = ground arith in subst (λ t. IsCoherent client shadowed t cloud) k h
  read-keeps fuel shadowed (cached b cache) object_name size offset cloud {result} {r'} h e =
      elim (Option-cases (cached_read client fuel b cache object_name size offset cloud)) [
        | inl none_read ↦ absurd (ground arith)
        | inr ((x, cache'), found) ↦
            let k : cached b cache' ≡ r' = ground arith in
            subst (λ t. IsCoherent client shadowed t cloud) k
              (cached_read-keeps fuel shadowed b cache object_name size offset cloud h found)
      ]

  -- The cache stays coherent when one object changes remotely and is then invalidated.
  pub invalidate-IsCoherent :
      (shadowed shadowed' : Bytes → Bool) (object_name : Bytes) (r : Reader) (cloud cloud' : Cloud)
      → IsCoherent client shadowed r cloud
      → ((k : Bytes) → k ≢ object_name → shadowed' k ≡ shadowed k)
      → ((bucket k : Bytes)
          → k ≢ object_name
          → client.read_object cloud' bucket k ≡ client.read_object cloud bucket k)
      → IsCoherent client shadowed' (invalidate object_name r) cloud'
  unfolding IsCoherent invalidate
  invalidate-IsCoherent shadowed shadowed' object_name (base b) cloud cloud' h sh same_elsewhere =
      tt
  invalidate-IsCoherent shadowed shadowed' object_name (cached (dummy m) cache) cloud cloud' h sh
        same_elsewhere =
      λ k c e l. elim (Bool-cases (same object_name k)) [
        | inl q ↦ absurd (ground (arith, lookup-erase object_name k cache))
        | inr q ↦ h k c (ground (arith, lookup-erase object_name k cache)) l
      ]
  invalidate-IsCoherent shadowed shadowed' object_name (cached (direct bucket) cache) cloud cloud' h
        sh same_elsewhere =
      λ k c s e l. elim (Bool-cases (same object_name k)) [
        | inl q ↦ absurd (ground (arith, lookup-erase object_name k cache))
        | inr q ↦
            let other : k ≢ object_name = ground (arith, same_iff object_name k) in
            subst (λ o. IsHeld o c) (sym (same_elsewhere bucket k other))
              (h k c (ground (arith, sh k other)) (ground (arith, lookup-erase object_name k cache))
                (subst (λ t. length (content_of t) < 536870912) (same_elsewhere bucket k other) l))
      ]

  -- The cache stays coherent when an object changes remotely that is shadowed, and when more is
  -- shadowed.
  pub shadow-IsCoherent :
      (shadowed shadowed' : Bytes → Bool) (r : Reader) (cloud cloud' : Cloud)
      → IsCoherent client shadowed r cloud
      → ((k : Bytes) → shadowed' k ≡ false → shadowed k ≡ false)
      → ((bucket k : Bytes)
          → shadowed' k ≡ false
          → client.read_object cloud' bucket k ≡ client.read_object cloud bucket k)
      → IsCoherent client shadowed' r cloud'
  unfolding IsCoherent
  shadow-IsCoherent shadowed shadowed' (base b) cloud cloud' h sh same_elsewhere = tt
  shadow-IsCoherent shadowed shadowed' (cached (dummy m) cache) cloud cloud' h sh same_elsewhere = h
  shadow-IsCoherent shadowed shadowed' (cached (direct bucket) cache) cloud cloud' h sh
        same_elsewhere =
      λ k c s e l.
        subst (λ o. IsHeld o c) (sym (same_elsewhere bucket k s))
          (h k c (sh k s) e
            (subst (λ t. length (content_of t) < 536870912) (same_elsewhere bucket k s) l))
