-- ===== src/Fs/Reads/Buffer.antt =====
-- The read of src/gcs_fs.cpp from a write buffer.
use gcscfuse.Base.{
  ltb, drop, ◌-◌, ◌%◌, leb, ℕ, ◌+◌, ◌<◌, ◌≡◌, refl, true, false, arith, if◌then◌else◌, length, inl,
  inr, Bool-cases, [], ◌∙◌,
}
use gcscfuse.Reader.Slice.{read_from_cache-slice, delivers, slice}
use gcscfuse.Reader.{copied, read_from_cache, size_mod}
use gcscfuse.Base.Bytes.{Bytes}
use gcscfuse.Base.Int.{to_int}
use gcscfuse.Fs.Reads.{read_buffer}

from_cache :
    (content : Bytes) (size offset : ℕ)
    → leb (length content) offset ≡ false
    → copied (drop offset content) (
        if ltb (length content) ((offset + size) % size_mod) then length content - offset else size)
      ≡ read_from_cache content size offset
unfolding read_from_cache
from_cache content size offset e = rw e refl

pub read_buffer-slice :
    (content : Bytes) (size offset : ℕ)
    → size < 2147483648
    → offset + size < size_mod
    → read_buffer content size offset ≡ delivers (slice content size offset)
unfolding read_buffer
read_buffer-slice content size offset hs ho = elim (Bool-cases (leb (length content) offset)) [
  | inl e ↦
      let f : ltb offset (length content) ≡ false = ground arith in
      let same_end : copied [] 0 ≡ read_from_cache content size offset =
        unfold read_from_cache copied to_int in rw e refl in
      rw f (same_end ∙ read_from_cache-slice content size offset hs ho)
  | inr e ↦
      let f : ltb offset (length content) ≡ true = ground arith in
      rw f (from_cache content size offset e ∙ read_from_cache-slice content size offset hs ho)
]
