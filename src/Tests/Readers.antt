-- ===== src/Tests/Readers.antt =====
-- Witnesses for the readers, and runs of them.
use gcscfuse.Reader.{chunk, read_from_cache, cached_read, cached, direct, read}
use gcscfuse.Base.{
  ◌<◌, ◌↔◌, ℕ, ◌≡◌, refl, false, some, arith, [], ◌∷◌, length, replicate, length-replicate,
}
use gcscfuse.Reader.Loading.{remembered}
use gcscfuse.Reader.Slice.{slice, delivers, read_from_cache-slice}
use gcscfuse.Reader.Loading.Large.{cached_read-loaded, text_at}
use gcscfuse.Reader.Loading.Rounds.{loaded}
use gcscfuse.Base.Bytes.{Bytes, codes, same}
use gcscfuse.Base.Dict.{Dict, lookup}
use gcscfuse.Reader.Coherence.{IsCoherent, read-IsCoherent}
use gcscfuse.Tests.Memory.{memory}

-- The object "a" holds "hello".
abbrev pub one_object : Dict Bytes
one_object = (codes "a", codes "hello") ∷ []

empty_cache-IsCoherent : IsCoherent memory (λ k. false) (cached (direct (codes "b")) []) one_object
unfolding IsCoherent lookup
empty_cache-IsCoherent = λ k c s e l. ground arith

read-IsCoherent_example :
    (cache' : Dict Bytes) × (read memory 1
        (cached (direct (codes "b")) [])
        (codes "a")
        3
        1
        one_object
      ≡ some (delivers (codes "ell"), cached (direct (codes "b")) cache'))
    × IsCoherent memory (λ k. false) (cached (direct (codes "b")) cache') one_object
unfolding lookup same
read-IsCoherent_example =
    read-IsCoherent memory 1 (λ k. false) (codes "b") [] (codes "a") 3 1 one_object
      empty_cache-IsCoherent (omega arith) (omega arith) refl (omega arith) (omega arith)

read_from_cache-slice_example : read_from_cache (codes "hello") 10 3 ≡ delivers (codes "lo")
read_from_cache-slice_example =
    read_from_cache-slice (codes "hello") 10 3 (omega arith) (omega arith)

-- There is a text of every length.
sized : (n : ℕ) → (content : Bytes) × (length content ≡ n)
sized n = (replicate n 65, length-replicate n 65)

-- An object of 1 MiB and 7 bytes.
abbrev large_object : Dict Bytes
large_object = (codes "a", (sized 1048583).0) ∷ []

abbrev large_text : Bytes
large_text = text_at memory (direct (codes "b")) (codes "a") large_object

large_text-length : length large_text ≡ 1048583
unfolding lookup same
large_text-length = (sized 1048583).1

cached_read-loaded_example :
    (cached_read memory 11 (direct (codes "b")) [] (codes "a") 4 8 large_object
      ≡ some
          (delivers (slice (loaded large_text) 4 8), remembered (codes "a") (loaded large_text) []))
    × ((loaded large_text ≡ large_text) ↔ (length large_text < chunk))
unfolding lookup
cached_read-loaded_example =
    cached_read-loaded memory 11 (direct (codes "b")) [] (codes "a") 4 8 large_object (omega arith)
      refl (omega (arith, large_text-length)) (omega arith) (omega arith)
