-- ===== src/Reader/Loading/Large.antt =====
-- `CachedReader::read` of src/reader.hpp around either base reader, for objects below 512 MiB.
use gcscfuse.Base.{
  ltb→lt, ℕ, zero, suc, ◌+◌, ◌*◌, ◌<◌, ◌≤◌, ◌≡◌, ◌≢◌, ◌↔◌, refl, ap, sym, ◌∙◌, ltb, length, take,
  replicate, ◌++◌, some, none, arith, inl, inr, Bool-cases, length-append, length-take,
}
use gcscfuse.Base.Bytes.{Bytes}
use gcscfuse.Base.Dict.{Dict, lookup}
use gcscfuse.Gcs.Sdk.{StorageClient}
use gcscfuse.Reader.{BaseReader, direct, dummy, base_read, cached_read, chunk, size_mod}
use gcscfuse.Reader.Loading.{served, remembered, content_at}
use gcscfuse.Reader.Loading.Rounds.{loaded, repeated, load-loaded}
use gcscfuse.Reader.Slice.{delivers, slice, direct_read-start, dummy_read-slice}

length-repeated :
    (j : ℕ) (content : Bytes) (cap : ℕ) → length content ≤ length (repeated j content cap)
unfolding repeated
length-repeated zero content cap = omega arith
length-repeated (suc j) content cap = elim (Bool-cases (ltb (length content) cap)) [
  | inl f ↦ rw f (omega arith)
  | inr f ↦ rw f (
      omega (
        arith,
        length-append (take cap content) (repeated j content (cap * 2)),
        length-repeated j content (cap * 2),
      ))
]

-- What is loaded is the text itself exactly where it is below 1 MiB.
pub loaded_iff : (content : Bytes) → (loaded content ≡ content) ↔ (length content < chunk)
loaded_iff content = elim (Bool-cases (ltb (length content) chunk)) [
  | inl f ↦ (λ e. ltb→lt (length content) chunk f, λ h. rw f refl)
  | inr f ↦
      let fits : chunk ≤ length content = ground arith in
      let shape : loaded content ≡ take chunk content ++ repeated 9 content chunk = rw f refl in
      let longer : loaded content ≢ content = λ e. omega (
        arith,
        ap (length {A = ℕ}) (sym e ∙ shape),
        length-append (take chunk content) (repeated 9 content chunk),
        length-take chunk content,
        length-repeated 9 content chunk,
      ) in
      (λ e. absurd (longer e), λ h. absurd (omega arith))
]

module _ (client : StorageClient) where
  open client use {Cloud}

  -- The text that a base reader reads from the beginning.
  abbrev pub text_at : BaseReader → Bytes → Cloud → Bytes
  text_at (direct bucket) object_name cloud = content_at client bucket object_name cloud
  text_at (dummy max_size) object_name cloud = replicate max_size 0

  pub base_read-start :
      (b : BaseReader) (object_name : Bytes) (cloud : Cloud) (n : ℕ)
      → n < 2147483648
      → base_read client b object_name n 0 cloud ≡ delivers (take n (text_at b object_name cloud))
  unfolding base_read
  base_read-start (direct bucket) object_name cloud n h =
      direct_read-start client bucket object_name n 0 cloud h
  base_read-start (dummy max_size) object_name cloud n h = dummy_read-slice max_size n 0 h

  -- On a miss, eleven rounds are enough to load an object below 512 MiB. What is served and
  -- remembered is `loaded` of it, which is the object itself exactly where it is below 1 MiB.
  pub cached_read-loaded :
      (fuel : ℕ) (b : BaseReader) (cache : Dict Bytes) (object_name : Bytes) (size offset : ℕ)
      (cloud : Cloud)
      → 11 ≤ fuel
      → lookup object_name cache ≡ none
      → length (text_at b object_name cloud) < 536870912
      → size < 2147483648
      → offset + size < size_mod
      → (cached_read client fuel b cache object_name size offset cloud
          ≡ some (
            delivers (slice (loaded (text_at b object_name cloud)) size offset),
            remembered object_name (loaded (text_at b object_name cloud)) cache,
          ))
        × ((loaded (text_at b object_name cloud) ≡ text_at b object_name cloud)
            ↔ (length (text_at b object_name cloud) < chunk))
  unfolding cached_read
  cached_read-loaded fuel b cache object_name size offset cloud enough miss small hs ho =
      let content : Bytes = text_at b object_name cloud in
      (
        rw (miss, cached_read)
            (rw
              (
                load-loaded (λ n. base_read client b object_name n 0 cloud) content
                    (base_read-start b object_name cloud) fuel enough small,
                cached_read,
              )
              (served (loaded content) object_name cache size offset hs ho)),
        loaded_iff content,
      )
