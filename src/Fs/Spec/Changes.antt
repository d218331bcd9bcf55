-- ===== src/Fs/Spec/Changes.antt =====
-- `create`, `write` and the end of `truncate` of src/gcs_fs.cpp against the specification, and the
-- reader that they keep.
use gcscfuse.Fs.Writes.{resize, overwritten, buffer_or_new, load_stored, truncated, create, write}
use gcscfuse.Base.{
  zero, suc, ◌++◌, Bool-cases, ◌-◌, ◌*◌, leb, if◌then◌else◌, [], length, inr, inl, arith,
  Option-cases, ap, some, ◌≡◌, ℕ,
}
use gcscfuse.Base.Int.{pos, leb_ℤ}
use gcscfuse.Base.Dict.{lookup-insert, lookup, Dict}
use gcscfuse.Fs.State.{object_of, mark_dirty, Gcsfs}
use gcscfuse.Fs.Spec.{created, looked, Sets, Agree, Does, Files, written}
use gcscfuse.Reader.{base, dummy, direct, cached, ReadResult, invalidate}
use gcscfuse.Fs.Spec.Quiet.{core}
use gcscfuse.Gcs.Sdk.{StorageClient}
use gcscfuse.Base.Bytes.{Bytes}
use gcscfuse.Reader
use mathlib.Core.Path.{subst}

-- The content cache over the direct reader of the bucket.
abbrev pub IsDirect : Bytes → Reader.Reader → Type 0
IsDirect bucket (cached (direct b) cache) = b ≡ bucket
IsDirect bucket (cached (dummy max_size) cache) = ⊥
IsDirect bucket (base b) = ⊥

pub invalidate-IsDirect :
    (bucket name : Bytes) (r : Reader.Reader)
    → IsDirect bucket r
    → IsDirect bucket (invalidate name r)
unfolding invalidate
invalidate-IsDirect bucket name (cached (direct b) cache) d = d
invalidate-IsDirect bucket name (cached (dummy m) cache) d = d
invalidate-IsDirect bucket name (base b) d = d

-- The cache that it has.
pub direct-cache :
    (bucket : Bytes) (r : Reader.Reader)
    → IsDirect bucket r
    → (cache : Dict Bytes) × (r ≡ cached (direct bucket) cache)
direct-cache bucket (cached (direct b) cache) d = (cache, ap (λ t. cached (direct t) cache) d)
direct-cache bucket (cached (dummy m) cache) d = absurd d
direct-cache bucket (base b) d = absurd d

pub transport-IsDirect :
    {bucket bucket' : Bytes} {r r' : Reader.Reader}
    → bucket' ≡ bucket
    → r' ≡ r
    → IsDirect bucket r
    → IsDirect bucket' r'
transport-IsDirect e k d = rw (e, k) d

module _ (client : StorageClient) where
  -- The bucket and the reader of a state that changed.
  abbrev pub SameReader : Gcsfs client → Gcsfs client → Type 0
  SameReader fs fs' = (fs'.bucket_name ≡ fs.bucket_name) × (fs'.reader ≡ fs.reader)

  pub create-SameReader :
      (now : ℕ) (path : Bytes) (flags : ℕ) (fs : Gcsfs client)
      → SameReader fs (create client now path flags fs).2
  unfolding create mark_dirty
  create-SameReader now path flags fs = (ground arith, ground arith)

  pub write-SameReader :
      (now : ℕ) (path buf : Bytes) (offset : ℕ) (fs : Gcsfs client)
      → SameReader fs (write client now path buf offset fs).1
  unfolding write mark_dirty
  write-SameReader now path buf offset fs = (ground arith, ground arith)

  pub truncated-SameReader :
      (now : ℕ) (path : Bytes) (size : ℕ) (content : Bytes) (fs : Gcsfs client)
      → SameReader fs (truncated client now path size content fs).1
  unfolding truncated mark_dirty
  truncated-SameReader now path size content fs = (ground arith, ground arith)

  abbrev pub files : Gcsfs client → Files
  files fs = record {
    stored = λ k. client.read_object fs.cloud fs.bucket_name k;
    buffer = λ k. lookup k fs.write_buffers;
  }

  pub Does-quiet :
      (fs fs' : Gcsfs client)
      → core client fs' ≡ core client fs
      → IsDirect fs.bucket_name fs.reader
      → Does looked (files fs) (files fs') × IsDirect fs'.bucket_name fs'.reader
  Does-quiet fs fs' e d = (
    (λ k. ap (λ c. client.read_object c.1 c.0 k) e, λ k. ap (λ c. lookup k c.3) e),
    transport-IsDirect (ap (λ c. c.0) e) (ap (λ c. c.2) e) d,
  )

  pub Does-create :
      (now : ℕ) (path : Bytes) (flags : ℕ) (fs : Gcsfs client)
      → Does (created (object_of path)) (files fs) (files (create client now path flags fs).2)
  unfolding create mark_dirty
  Does-create now path flags fs =
      (λ k. ground arith, λ k. ground (arith, lookup-insert (object_of path) k [] fs.write_buffers))

  pub Does-write :
      (now : ℕ) (path buf : Bytes) (offset : ℕ) (fs : Gcsfs client)
      → Does
          (written (object_of path) buf offset)
          (files fs)
          (files (write client now path buf offset fs).1)
  unfolding write mark_dirty
  Does-write now path buf offset fs = (
    λ k. ground arith,
    λ k. ground (
      arith,
      lookup-insert (object_of path) k
          (overwritten buf offset (buffer_or_new (lookup (object_of path) fs.write_buffers)))
          fs.write_buffers,
    ),
  )

  pub truncated-Sets :
      (now : ℕ) (path : Bytes) (size : ℕ) (content : Bytes) (fs : Gcsfs client)
      → (let fs' = (truncated client now path size content fs).1 in
          Agree (files fs).stored (files fs').stored
          × Sets (object_of path) (some (resize size content)) (files fs).buffer (files fs').buffer)
  unfolding truncated mark_dirty
  truncated-Sets now path size content fs = (
    λ k. ground arith,
    λ k. ground (arith, lookup-insert (object_of path) k (resize size content) fs.write_buffers),
  )

  pub read-IsDirect :
      (fuel : ℕ) (bucket : Bytes) (r : Reader.Reader) (name : Bytes) (size offset : ℕ)
      (cloud : client.Cloud) {x : ReadResult} {r' : Reader.Reader}
      → IsDirect bucket r
      → Reader.read client fuel r name size offset cloud ≡ some (x, r')
      → IsDirect bucket r'
  unfolding Reader.read
  read-IsDirect fuel bucket (cached (direct b) cache) name size offset cloud {x} {r'} d e =
      elim (Option-cases (Reader.cached_read client fuel (direct b) cache name size offset cloud)) [
        | inl never ↦ absurd (ground arith)
        | inr ((y, cache'), done) ↦
            let k : cached (direct b) cache' ≡ r' = ground arith in subst (IsDirect bucket) k d
      ]
  read-IsDirect fuel bucket (cached (dummy m) cache) name size offset cloud {x} {r'} d e = absurd d
  read-IsDirect fuel bucket (base b) name size offset cloud {x} {r'} d e = absurd d

  pub load_stored-IsDirect :
      (fuel inner : ℕ) (bucket : Bytes) (r : Reader.Reader) (name acc : Bytes) (room : ℕ)
      (cloud : client.Cloud) {stored : Bytes} {r' : Reader.Reader}
      → IsDirect bucket r
      → load_stored client fuel inner r name acc room cloud ≡ some (stored, r')
      → IsDirect bucket r'
  unfolding load_stored
  load_stored-IsDirect zero inner bucket r name acc room cloud d e = absurd (ground arith)
  load_stored-IsDirect (suc fuel) inner bucket r name acc room cloud {stored} {r'} d e =
      let total_read : ℕ = length acc in
      let room' : ℕ = if leb room total_read then room * 2 else room in
      elim (Option-cases (Reader.read client inner r name (room' - total_read) total_read cloud)) [
        | inl never ↦ absurd (ground arith)
        | inr ((x, next), done) ↦
            let d' =
              read-IsDirect inner bucket r name (room' - total_read) total_read cloud d done in
            elim (Bool-cases (leb_ℤ x.count (pos 0))) [
              | inl last ↦ let k : next ≡ r' = ground arith in subst (IsDirect bucket) k d'
              | inr more ↦
                  load_stored-IsDirect fuel inner bucket next name (acc ++ x.bytes) room' cloud
                    {stored = stored} {r' = r'} d' (ground arith)
            ]
      ]
