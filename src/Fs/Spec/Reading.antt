-- ===== src/Fs/Spec/Reading.antt =====
-- `read` and `truncate` of src/gcs_fs.cpp against the specification.
use gcscfuse.Base.{
  if◌then◌else◌, ◌≤◌, refl, ◌∷◌, [], Option-cases, inl, arith, ◌+◌, inr, ◌<◌, Bool-cases, some,
  length, ◌≡◌, ℕ,
}
use gcscfuse.Fs.Spec.{seen, resized, Source, Does, served}
use gcscfuse.Fs.Writes.{load_stored, truncated, truncate}
use gcscfuse.Fs.Spec.Changes.{
  transport-IsDirect, truncated-SameReader, direct-cache, load_stored-IsDirect, truncated-Sets,
  read-IsDirect, files, IsDirect,
}
use gcscfuse.Reader.Loading.Needed.{needed}
use gcscfuse.Fs.Contents.Stored.{load_stored-loaded}
use gcscfuse.Fs.Contents.Stored.Rounds.{looped}
use gcscfuse.Reader.Loading.Rounds.{loaded}
use gcscfuse.Reader.{direct, cached, size_mod, chunk, ReadResult}
use gcscfuse.Fs.Contents.Truncated.{truncate-loaded}
use gcscfuse.Reader.Coherence.{IsCoherent}
use gcscfuse.Fs.Invariant.{buffered, IsConsistent}
use gcscfuse.Fs.Contents.{read-shown}
use gcscfuse.Reader.Slice.{slice, delivers}
use mathlib.Core.Path.{subst}
use gcscfuse.Fs.Reads.{read}
use gcscfuse.Base.Dict.{lookup}
use gcscfuse.Fs.State.{enoent, is_valid_path, object_of, Gcsfs}
use gcscfuse.Reader.Loading.{content_at}
use gcscfuse.Base.Int.{ℤ}
use gcscfuse.Base.Bytes.{Bytes}
use gcscfuse.Gcs.Sdk.{StorageClient}
use gcscfuse.Reader

module _ (client : StorageClient) where
  pub read-reader :
      (fuel now : ℕ) (path : Bytes) (size offset : ℕ) (fs : Gcsfs client) {r : ReadResult}
      {fs' : Gcsfs client}
      → IsDirect fs.bucket_name fs.reader
      → read client fuel now path size offset fs ≡ some (r, fs')
      → (reader : Reader.Reader) × (record fs { reader = reader } ≡ fs')
        × IsDirect fs.bucket_name reader
  unfolding read
  read-reader fuel now path size offset fs {r} {fs'} d e =
      elim (Bool-cases (is_valid_path client now path fs)) [
        | inr missing ↦ (fs.reader, ground arith, d)
        | inl valid ↦ elim (Option-cases (lookup (object_of path) fs.write_buffers)) [
          | inr (content, b) ↦ (fs.reader, ground arith, d)
          | inl b ↦
              elim (Option-cases
                (Reader.read client fuel fs.reader (object_of path) size offset fs.cloud)) [
                  | inl never ↦ absurd (ground arith)
                  | inr ((x, reader), done) ↦ (
                    reader,
                    ground arith,
                    read-IsDirect client fuel fs.bucket_name fs.reader (object_of path) size offset
                        fs.cloud d done,
                  )
                ]
        ]
      ]

  read-value :
      (fuel now : ℕ) (path : Bytes) (size offset : ℕ) (fs : Gcsfs client) {r : ReadResult}
      {fs' : Gcsfs client}
      → IsConsistent client fs
      → IsDirect fs.bucket_name fs.reader
      → length (content_at client fs.bucket_name (object_of path) fs.cloud) < 536870912
      → needed (content_at client fs.bucket_name (object_of path) fs.cloud) ≤ fuel
      → size < 2147483648
      → offset + size < size_mod
      → read client fuel now path size offset fs ≡ some (r, fs')
      → r ≡ (
          if is_valid_path client now path fs
          then delivers (slice (seen (files client fs) (object_of path)) size offset)
          else record { count = enoent; bytes = [] })
  read-value fuel now path size offset fs h d small enough hs ho e =
      elim (Bool-cases (is_valid_path client now path fs)) [
        | inr missing ↦ unfold read in ground arith
        | inl valid ↦
            let (cache, uses) = direct-cache fs.bucket_name fs.reader d in
            let (fs2, done, kept) =
              read-shown client fuel now path size offset fs cache h uses small enough valid hs
                ho in
            ground (arith, done)
      ]

  pub Does-read :
      (fuel now : ℕ) (path : Bytes) (size offset : ℕ) (fs : Gcsfs client) {r : ReadResult}
      {fs' : Gcsfs client}
      → IsConsistent client fs
      → IsDirect fs.bucket_name fs.reader
      → length (content_at client fs.bucket_name (object_of path) fs.cloud) < 536870912
      → needed (content_at client fs.bucket_name (object_of path) fs.cloud) ≤ fuel
      → size < 2147483648
      → offset + size < size_mod
      → read client fuel now path size offset fs ≡ some (r, fs')
      → Does
          (served (object_of path) size offset (is_valid_path client now path fs) r)
          (files client fs)
          (files client fs')
        × IsDirect fs'.bucket_name fs'.reader
  Does-read fuel now path size offset fs {r} {fs'} h d small enough hs ho e =
      let (reader, k, d') = read-reader fuel now path size offset fs d e in
      subst
        (λ t.
          Does (served (object_of path) size offset (is_valid_path client now path fs) r)
            (files client fs) (files client t)
          × IsDirect t.bucket_name t.reader)
        k
        (
          (λ k. refl, λ k. refl, read-value fuel now path size offset fs h d small enough hs ho e),
          d',
        )

  -- The text that a `truncate` that returns resizes, and the reader that it leaves.
  truncate-Source :
      (fuel inner now : ℕ) (path : Bytes) (size : ℕ) (fs : Gcsfs client) {result : ℤ}
      {fs' : Gcsfs client}
      → IsConsistent client fs
      → IsDirect fs.bucket_name fs.reader
      → length (content_at client fs.bucket_name (object_of path) fs.cloud) < 536870912
      → needed (content_at client fs.bucket_name (object_of path) fs.cloud) ≤ inner
      → looped (content_at client fs.bucket_name (object_of path) fs.cloud) ≤ fuel
      → truncate client fuel inner now path size fs ≡ some (result, fs')
      → (content : Bytes) × (reader : Reader.Reader) × ((truncated client now path size content
            (record fs { reader = reader })).1
          ≡ fs')
        × Source
            (is_valid_path client now path fs)
            (lookup (object_of path) fs.write_buffers)
            (client.read_object fs.cloud fs.bucket_name (object_of path))
            content
        × IsDirect fs.bucket_name reader
  unfolding truncate
  truncate-Source fuel inner now path size fs {result} {fs'} h d small enough rounds e =
      elim (Option-cases (lookup (object_of path) fs.write_buffers)) [
        | inr (x ∷ s, b) ↦ (x ∷ s, fs.reader, ground arith, rw b refl, d)
        | inr ([], b) ↦ elim (Bool-cases (is_valid_path client now path fs)) [
          | inr missing ↦ ([], fs.reader, ground arith, rw (b, missing) refl, d)
          | inl valid ↦
              elim (Option-cases
                (load_stored client fuel inner fs.reader (object_of path) [] chunk fs.cloud)) [
                  | inl never ↦ absurd (ground arith)
                  | inr ((stored, reader), done) ↦ (
                    stored,
                    reader,
                    ground arith,
                    rw (b, valid) tt,
                    load_stored-IsDirect client fuel inner fs.bucket_name fs.reader (object_of path)
                        [] chunk fs.cloud d done,
                  )
                ]
        ]
        | inl b ↦ elim (Bool-cases (is_valid_path client now path fs)) [
          | inr missing ↦ ([], fs.reader, ground arith, rw (b, missing) refl, d)
          | inl valid ↦
              let (cache, uses) = direct-cache fs.bucket_name fs.reader d in
              let (cache', done) =
                load_stored-loaded client inner (buffered client fs) fs.bucket_name (object_of path)
                  fs.cloud small enough (ground arith) fuel cache rounds
                  (subst (λ r. IsCoherent client (buffered client fs) r fs.cloud) uses
                    h.coherent) in
              let same_load =
                truncate-loaded client fuel inner now path size fs valid b uses done in
              (
                loaded (content_at client fs.bucket_name (object_of path) fs.cloud),
                cached (direct fs.bucket_name) cache',
                ground (arith, same_load),
                rw (b, valid) refl,
                refl,
              )
        ]
      ]

  pub Does-truncate :
      (fuel inner now : ℕ) (path : Bytes) (size : ℕ) (fs : Gcsfs client) {result : ℤ}
      {fs' : Gcsfs client}
      → IsConsistent client fs
      → IsDirect fs.bucket_name fs.reader
      → length (content_at client fs.bucket_name (object_of path) fs.cloud) < 536870912
      → needed (content_at client fs.bucket_name (object_of path) fs.cloud) ≤ inner
      → looped (content_at client fs.bucket_name (object_of path) fs.cloud) ≤ fuel
      → truncate client fuel inner now path size fs ≡ some (result, fs')
      → Does
          (resized (object_of path) size (is_valid_path client now path fs))
          (files client fs)
          (files client fs')
        × IsDirect fs'.bucket_name fs'.reader
  Does-truncate fuel inner now path size fs {result} {fs'} h d small enough rounds e =
      let (content, reader, k, source, d') =
        truncate-Source fuel inner now path size fs h d small enough rounds e in
      let fs1 : Gcsfs client = record fs { reader = reader } in
      let same = truncated-SameReader client now path size content fs1 in
      let (kept, sets) = truncated-Sets client now path size content fs1 in
      subst
        (λ t.
          Does (resized (object_of path) size (is_valid_path client now path fs)) (files client fs)
            (files client t)
          × IsDirect t.bucket_name t.reader)
        k ((kept, content, source, sets), transport-IsDirect same.0 same.1 d')
