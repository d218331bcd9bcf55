-- ===== src/Reader/Slice.antt =====
-- The part of a text that a reader of src/reader.hpp copies out.
use gcscfuse.Reader.{
  nothing_read, ReadResult, size_mod, copied, read_from_cache, direct_read, dummy_read,
}
use gcscfuse.Base.{
  if◌then◌else◌, none, lt→ltb, ℕ, zero, suc, ◌+◌, ◌-◌, ◌%◌, ◌<◌, ◌≤◌, ◌≡◌, refl, ap, sym, ◌∙◌, inl,
  inr, [], ◌∷◌, Option, some, arith, ltb, leb, length, take, drop, Bool-cases, length-take,
  length-drop, take_all, drop_all, replicate, length-replicate,
}
use Prim.Native.Nat.{min}
use gcscfuse.Base.Bytes.{Bytes}
use gcscfuse.Base.Int.{pos, to_int, to_int-pos}
use gcscfuse.Gcs.Client
use gcscfuse.Gcs.Sdk.{StorageClient}

-- The bytes of a text from an offset on, at most `size` of them.
abbrev pub slice : Bytes → ℕ → ℕ → Bytes
slice content size offset = take size (drop offset content)

-- The result of a read that returned these bytes.
abbrev pub delivers : Bytes → ReadResult
delivers s = record { count = pos (length s); bytes = s }

copied-delivers :
    (content : Bytes) (n : ℕ)
    → n ≤ length content
    → n < 2147483648
    → copied content n ≡ delivers (take n content)
unfolding copied
copied-delivers content n h k = rw (to_int-pos n k) (
    ap (λ m. record { count = pos m; bytes = take n content })
      (omega (arith, length-take n content)))

take_nil : (n : ℕ) → take {A = ℕ} n [] ≡ []
take_nil zero = refl
take_nil (suc n) = refl

pub slice_nil : (size offset : ℕ) → slice [] size offset ≡ []
slice_nil size offset = ap (take size) (drop_all offset [] (omega arith)) ∙ take_nil size

-- What is taken past the end of a text is all of it.
take-min :
    (content : Bytes) (n m : ℕ)
    → length content ≤ m
    → n ≡ length content
    → take n content ≡ take m content
take-min content n m h e = take_all n content (omega arith) ∙ sym (take_all m content h)

-- Below the limits of `int` and `size_t`, `readFromCache` returns the requested part of the text,
-- and its length as the count.
pub read_from_cache-slice :
    (content : Bytes) (size offset : ℕ)
    → size < 2147483648
    → offset + size < size_mod
    → read_from_cache content size offset ≡ delivers (slice content size offset)
unfolding read_from_cache
read_from_cache-slice content size offset h k = elim (Bool-cases (leb (length content) offset)) [
  | inl e ↦
      let past : length content ≤ offset = ground arith in
      rw e (ap delivers (sym (ap (take size) (drop_all offset content past) ∙ take_nil size)))
  | inr e ↦
      let m : (offset + size) % size_mod ≡ offset + size = omega arith in
      let within : offset < length content = ground arith in
      rw (e, m)
        (elim (Bool-cases (ltb (length content) (offset + size))) [
          | inl l ↦
              let lt : length content < offset + size = ground arith in
              rw l (
                copied-delivers (drop offset content) (length content - offset)
                  (omega (arith, length-drop offset content)) (omega arith)
                ∙ ap delivers (
                    take-min (drop offset content) (length content - offset) size
                      (omega (arith, length-drop offset content))
                      (omega (arith, length-drop offset content))))
          | inr l ↦
              let ge : offset + size ≤ length content = ground arith in
              rw l (
                copied-delivers (drop offset content) size
                  (omega (arith, length-drop offset content)) h)
        ])
]

-- The body of `GCSDirectReader::read` behind the request.
first_bytes :
    (content : Bytes) (size : ℕ)
    → size < 2147483648
    → (if ltb 0 (length content)
        then copied content (if ltb (length content) size then length content else size)
        else nothing_read)
      ≡ delivers (take size content)
first_bytes [] size h = ap delivers (sym (take_nil size))
first_bytes (x ∷ content) size h =
    rw (lt→ltb 0 (length (x ∷ content)) (omega arith))
      (elim (Bool-cases (ltb (length (x ∷ content)) size)) [
        | inl l ↦
            let lt : length (x ∷ content) < size = ground arith in
            rw l (
              copied-delivers (x ∷ content) (length (x ∷ content)) (omega arith) (omega arith)
              ∙ ap delivers (take-min (x ∷ content) (length (x ∷ content)) size (omega arith) refl))
        | inr l ↦ rw l (copied-delivers (x ∷ content) size (ground arith) h)
      ])

-- The content that a read of an object gives: empty where the read fails.
abbrev pub content_of : Option Bytes → Bytes
content_of none = []
content_of (some content) = content

module _ (client : StorageClient) where
  open client use {Cloud}

  read_object-content :
      (bucket object_name : Bytes) (range : Option (ℕ × ℕ)) (cloud : Cloud)
      → Client.read_object client
          (record { bucket_name = bucket; object_name = object_name; range = range })
          cloud
        ≡ content_of (client.read_object cloud bucket object_name)
  unfolding Client.read_object
  read_object-content bucket object_name range cloud = ground arith

  -- The direct reader returns the first bytes of the object, whatever the offset, and none where
  -- the read fails.
  pub direct_read-start :
      (bucket object_name : Bytes) (size offset : ℕ) (cloud : Cloud)
      → size < 2147483648
      → direct_read client bucket object_name size offset cloud
        ≡ delivers (take size (content_of (client.read_object cloud bucket object_name)))
  unfolding direct_read
  direct_read-start bucket object_name size offset cloud h =
      rw (read_object-content bucket object_name (some (offset, (offset + size) % size_mod)) cloud)
        (first_bytes (content_of (client.read_object cloud bucket object_name)) size h)

replicate_cong : (a : ℕ) (n m : ℕ) → n ≡ m → replicate n a ≡ replicate m a
replicate_cong a n m e = ap (λ k. replicate k a) e

drop-replicate : (k n : ℕ) (a : ℕ) → drop k (replicate n a) ≡ replicate (n - k) a
drop-replicate zero n a = replicate_cong a n (n - 0) (omega arith)
drop-replicate (suc k) zero a = replicate_cong a 0 (0 - suc k) (omega arith)
drop-replicate (suc k) (suc n) a =
    drop-replicate k n a ∙ replicate_cong a (n - k) (suc n - suc k) (omega arith)

take-replicate : (k n : ℕ) (a : ℕ) → take k (replicate n a) ≡ replicate (min k n) a
take-replicate zero n a = replicate_cong a 0 (min 0 n) (omega arith)
take-replicate (suc k) zero a = replicate_cong a 0 (min (suc k) 0) (omega arith)
take-replicate (suc k) (suc n) a =
    ap (◌∷◌ a) (take-replicate k n a)
    ∙ replicate_cong a (suc (min k n)) (min (suc k) (suc n)) (omega arith)

zeros-delivers :
    (n m : ℕ)
    → n ≡ m
    → n < 2147483648
    → ◌≡◌ {A = ReadResult}
        (record { count = to_int n; bytes = replicate n 0 })
        (record { count = pos m; bytes = replicate m 0 })
zeros-delivers n m e h =
    rw (to_int-pos n h) (ap (λ k. record { count = pos k; bytes = replicate k 0 }) e)

-- `DummyReader` returns the requested part of a file of `max_size` zeros.
pub dummy_read-slice :
    (max_size size offset : ℕ)
    → size < 2147483648
    → dummy_read max_size size offset ≡ delivers (slice (replicate max_size 0) size offset)
unfolding dummy_read
dummy_read-slice max_size size offset h = elim (Bool-cases (leb max_size offset)) [
  | inl e ↦
      let past : max_size ≤ offset = ground arith in
      rw (e, drop-replicate) (ground (arith, take-replicate size (max_size - offset) 0))
  | inr e ↦
      rw (e, drop-replicate, take-replicate, length-replicate)
        (elim (Bool-cases (ltb (max_size - offset) size)) [
          | inl l ↦ rw l (
              zeros-delivers (max_size - offset) (min size (max_size - offset)) (ground arith)
                (ground arith))
          | inr l ↦ rw l (zeros-delivers size (min size (max_size - offset)) (ground arith) h)
        ])
]

-- The body of `GCSDirectReader::read`, for a text that is not empty and a part of any size.
some_bytes :
    (content : Bytes) (size : ℕ)
    → 0 < length content
    → length content < 2147483648
    → (if ltb 0 (length content)
        then copied content (if ltb (length content) size then length content else size)
        else nothing_read)
      ≡ delivers (take size content)
some_bytes content size p h = elim (Bool-cases (ltb (length content) size)) [
  | inl l ↦
      let lt : length content < size = ground arith in
      rw (lt→ltb 0 (length content) p, l)
        (copied-delivers content (length content) (omega arith) h
          ∙ ap delivers (take-min content (length content) size (omega arith) refl))
  | inr l ↦
      let ge : size ≤ length content = ground arith in
      rw (lt→ltb 0 (length content) p, l) (copied-delivers content size ge (omega arith))
]

module _ (client : StorageClient) where
  open client use {Cloud}

  pub direct_read-any :
      (bucket object_name : Bytes) (size offset : ℕ) (cloud : Cloud)
      → 0 < length (content_of (client.read_object cloud bucket object_name))
      → length (content_of (client.read_object cloud bucket object_name)) < 2147483648
      → direct_read client bucket object_name size offset cloud
        ≡ delivers (take size (content_of (client.read_object cloud bucket object_name)))
  unfolding direct_read
  direct_read-any bucket object_name size offset cloud p h =
      rw
        (read_object-content client bucket object_name (some (offset, (offset + size) % size_mod))
          cloud)
        (some_bytes (content_of (client.read_object cloud bucket object_name)) size p h)
