-- ===== src/Fs/Spec/Direct.antt =====
-- The reader of src/gcs_fs.cpp with the content cache on and the dummy reader off, in runs.
use gcscfuse.Base.{
  ℕ, ◌≡◌, ◌&&◌, [], some, is_empty, false, true, refl, inl, inr, arith, Bool-cases, Option-cases,
}
use gcscfuse.Base.Bytes.{Bytes}
use gcscfuse.Base.Dict.{lookup}
use gcscfuse.Base.Int.{ℤ}
use gcscfuse.Config.{GcsfsConfig}
use gcscfuse.Fs.Invariant.{IsConsistent}
use gcscfuse.Fs.Invariant.Keeps.{release-eq-flush}
use gcscfuse.Fs.Lookups.{getattr, readdir}
use gcscfuse.Fs.Spec.Changes.{
  IsDirect, Does-quiet, transport-IsDirect, truncated-SameReader, create-SameReader,
  write-SameReader, load_stored-IsDirect,
}
use gcscfuse.Fs.Spec.Quiet.{core-getattr, core-readdir}
use gcscfuse.Fs.Spec.Reading.{read-reader}
use gcscfuse.Fs.Spec.Remote.{Does-flush, Does-unlink}
use gcscfuse.Fs.State.{Gcsfs, construct, object_of, is_valid_path}
use gcscfuse.Fs.Steps.{
  Step, Reach, here, next, getattr_step, readdir_step, read_step, create_step, write_step,
  truncate_step, flush_step, release_step, unlink_step, Reach-IsConsistent,
}
use gcscfuse.Fs.Writes.{truncate, truncated, load_stored, buffer_or_new}
use gcscfuse.Gcs.Laws.{StorageLaws}
use gcscfuse.Gcs.Sdk.{StorageClient}
use gcscfuse.Reader.{chunk}
use mathlib.Core.Path.{subst}

module _ (client : StorageClient) where
  truncated-IsDirect :
      (now : ℕ) (path : Bytes) (size : ℕ) (content : Bytes) (fs : Gcsfs client) {fs' : Gcsfs client}
      → (truncated client now path size content fs).1 ≡ fs'
      → IsDirect fs.bucket_name fs.reader
      → IsDirect fs'.bucket_name fs'.reader
  truncated-IsDirect now path size content fs k d =
      let same = truncated-SameReader client now path size content fs in
      subst (λ t. IsDirect t.bucket_name t.reader) k (transport-IsDirect same.0 same.1 d)

  truncate-IsDirect :
      (fuel inner now : ℕ) (path : Bytes) (size : ℕ) (fs : Gcsfs client) {result : ℤ}
      {fs' : Gcsfs client}
      → IsDirect fs.bucket_name fs.reader
      → truncate client fuel inner now path size fs ≡ some (result, fs')
      → IsDirect fs'.bucket_name fs'.reader
  unfolding truncate
  truncate-IsDirect fuel inner now path size fs {result} {fs'} d e =
      let content : Bytes = buffer_or_new (lookup (object_of path) fs.write_buffers) in
      elim (Bool-cases (is_empty content && is_valid_path client now path fs)) [
        | inr direct ↦ truncated-IsDirect now path size content fs {fs' = fs'} (ground arith) d
        | inl loads ↦
            elim (Option-cases
              (load_stored client fuel inner fs.reader (object_of path) [] chunk fs.cloud)) [
                | inl never ↦ absurd (ground arith)
                | inr ((stored, reader), done) ↦
                    truncated-IsDirect now path size stored (record fs { reader = reader })
                      {fs' = fs'} (ground arith)
                      (load_stored-IsDirect client fuel inner fs.bucket_name fs.reader
                        (object_of path) [] chunk fs.cloud d done)
              ]
      ]

module _ {client : StorageClient} (laws : StorageLaws client) where
  Step-IsDirect :
      {fs fs' : Gcsfs client}
      → Step client fs fs'
      → IsConsistent client fs
      → IsDirect fs.bucket_name fs.reader
      → IsDirect fs'.bucket_name fs'.reader
  Step-IsDirect (getattr_step now path fs) h d =
      (Does-quiet client fs (getattr client now path fs).2 (core-getattr client now path fs) d).1
  Step-IsDirect (readdir_step now path fs) h d =
      (Does-quiet client fs (readdir client now path fs).2 (core-readdir client now path fs) d).1
  Step-IsDirect (read_step fuel now path size offset fs r fs' e) h d =
      let (reader, k, d') = read-reader client fuel now path size offset fs d e in
      subst (λ t. IsDirect t.bucket_name t.reader) k d'
  Step-IsDirect (create_step now path flags fs) h d =
      let same = create-SameReader client now path flags fs in transport-IsDirect same.0 same.1 d
  Step-IsDirect (write_step now path buf offset fs) h d =
      let same = write-SameReader client now path buf offset fs in
      transport-IsDirect same.0 same.1 d
  Step-IsDirect (truncate_step fuel inner now path size fs result fs' e) h d =
      truncate-IsDirect client fuel inner now path size fs d e
  Step-IsDirect (flush_step now path fs) h d = (Does-flush laws now path fs h d).1
  Step-IsDirect (release_step now path fs) h d =
      rw (release-eq-flush laws now path fs) (Does-flush laws now path fs h d).1
  Step-IsDirect (unlink_step now path fs) h d = (Does-unlink laws now path fs d).1

  pub Reach-IsDirect :
      (bucket : Bytes) (config : GcsfsConfig) (cloud : client.Cloud) {fs : Gcsfs client}
      → config.enable_file_content_cache ≡ true
      → config.enable_dummy_reader ≡ false
      → Reach client (construct client bucket config cloud) fs
      → IsDirect fs.bucket_name fs.reader
  unfolding construct
  Reach-IsDirect bucket config cloud caching real here = rw (caching, real) refl
  Reach-IsDirect bucket config cloud caching real (next r s) =
      Step-IsDirect s (Reach-IsConsistent laws bucket config cloud r)
        (Reach-IsDirect bucket config cloud caching real r)
