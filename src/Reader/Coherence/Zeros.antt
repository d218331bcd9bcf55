-- ===== src/Reader/Coherence/Zeros.antt =====
-- The content cache of src/reader.hpp above the dummy reader, after reads.
use gcscfuse.Base.{
  length-replicate, replicate, is_empty, ap, [], sym, Bool-cases, none, Bool, ◌∙◌, ℕ, ◌<◌, ◌≡◌,
  some, arith, inl, inr, Option-cases,
}
use gcscfuse.Reader.Coherence.{IsCoherent}
use gcscfuse.Reader.{chunk, base_read, load, cached_read, ReadResult, cached, dummy}
use gcscfuse.Reader.Loading.Needed.{load-eq}
use gcscfuse.Reader.Loading.{remembered}
use mathlib.Core.Path.{subst}
use gcscfuse.Base.Bytes.{Bytes, same}
use gcscfuse.Base.Dict.{Dict, lookup-insert, lookup}
use gcscfuse.Gcs.Sdk.{StorageClient}
use gcscfuse.Reader.Loading.Rounds.{loaded}
use gcscfuse.Reader.Loading.Large.{base_read-start}

module _ (client : StorageClient) where
  open client use {Cloud}

  -- Above the dummy reader a miss remembers what the rounds load of its zeros.
  dummy-remembered :
      (fuel max_size : ℕ) (cache : Dict Bytes) (object_name : Bytes) (size offset : ℕ)
      (cloud : Cloud) {result : ReadResult} {cache' : Dict Bytes}
      → lookup object_name cache ≡ none
      → max_size < 536870912
      → cached_read client fuel (dummy max_size) cache object_name size offset cloud
        ≡ some (result, cache')
      → remembered object_name (loaded (replicate max_size 0)) cache ≡ cache'
  unfolding cached_read
  dummy-remembered fuel max_size cache object_name size offset cloud {result} {cache'} miss l e =
      let zeros : Bytes = replicate max_size 0 in
      elim (Option-cases
        (load fuel (λ n. base_read client (dummy max_size) object_name n 0 cloud) [] chunk)) [
          | inl never ↦ absurd (ground arith)
          | inr (full, done) ↦
              let same_text : full ≡ loaded zeros =
                load-eq (λ n. base_read client (dummy max_size) object_name n 0 cloud) zeros
                  (λ n. base_read-start client (dummy max_size) object_name cloud n) fuel full
                  (rw length-replicate l) done in
              ap (λ t. remembered object_name t cache) (sym same_text) ∙ ground arith
        ]

  remembered-zeros :
      (shadowed : Bytes → Bool) (max_size : ℕ) (object_name : Bytes) (cache : Dict Bytes)
      (cloud : Cloud)
      → IsCoherent client shadowed (cached (dummy max_size) cache) cloud
      → IsCoherent client shadowed
          (cached (dummy max_size) (remembered object_name (loaded (replicate max_size 0)) cache))
          cloud
  unfolding IsCoherent
  remembered-zeros shadowed max_size object_name cache cloud h k c e l =
      let text : Bytes = loaded (replicate max_size 0) in
      elim (Bool-cases (is_empty text)) [
        | inl nothing ↦ h k c (ground arith) l
        | inr full ↦ elim (Bool-cases (same object_name k)) [
          | inl q ↦ ground (arith, lookup-insert object_name k text cache)
          | inr q ↦ h k c (ground (arith, lookup-insert object_name k text cache)) l
        ]
      ]

  -- A read leaves the cache above the dummy reader coherent.
  pub dummy_keeps :
      (fuel : ℕ) (shadowed : Bytes → Bool) (max_size : ℕ) (cache : Dict Bytes) (object_name : Bytes)
      (size offset : ℕ) (cloud : Cloud) {result : ReadResult} {cache' : Dict Bytes}
      → IsCoherent client shadowed (cached (dummy max_size) cache) cloud
      → cached_read client fuel (dummy max_size) cache object_name size offset cloud
        ≡ some (result, cache')
      → IsCoherent client shadowed (cached (dummy max_size) cache') cloud
  unfolding IsCoherent
  dummy_keeps fuel shadowed m cache object_name size offset cloud {result} {cache'} h e k c x l =
      elim (Option-cases (lookup object_name cache)) [
        | inl miss ↦
            subst (λ t. IsCoherent client shadowed (cached (dummy m) t) cloud)
              (dummy-remembered fuel m cache object_name size offset cloud miss l e)
              (remembered-zeros shadowed m object_name cache cloud h) k c x l
        | inr (content, hit) ↦ h k c (unfold cached_read in ground arith) l
      ]
