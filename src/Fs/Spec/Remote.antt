-- ===== src/Fs/Spec/Remote.antt =====
-- `flush` and `unlink` of src/gcs_fs.cpp against the specification.
use mathlib.Core.Path.{subst}
use gcscfuse.Base.{
  sym, Option-cases, inl, inr, Bool-cases, arith, some, ◌≡◌, Bool, ℕ, true, false, refl,
}
use gcscfuse.Fs.State.{is_directory, is_valid_path, is_dirty, object_of, Gcsfs}
use gcscfuse.Fs.Spec.Changes.{invalidate-IsDirect, transport-IsDirect, files, IsDirect}
use gcscfuse.Fs.Writes.{buffer_or_new, after_delete, unlink}
use gcscfuse.Base.Dict.{lookup-erase, lookup}
use gcscfuse.Base.Bytes.{same_iff, Bytes}
use gcscfuse.Fs.Upload.{is_zero, after_upload, upload_to_gcs, flush}
use gcscfuse.Fs.Spec.{flushed, unlinked, Does}
use gcscfuse.Fs.Invariant.{IsConsistent, clean-stored}
use gcscfuse.Gcs.Client
use gcscfuse.Gcs.Laws.{
  StorageLaws, write_object-reads, write_object-elsewhere, delete_object-reads,
  delete_object-elsewhere, delete_object-failed,
}
use gcscfuse.Gcs.Sdk.{StorageClient, ok, failed, thrown, Outcome}

module _ {client : StorageClient} (laws : StorageLaws client) where
  Does-after_upload :
      (now : ℕ) (path content : Bytes) (fs : Gcsfs client) (success : Bool)
      → IsDirect fs.bucket_name fs.reader
      → lookup (object_of path) fs.write_buffers ≡ some content
      → (Client.write_object client fs.bucket_name (object_of path) content fs.cloud).0 ≡ success
      → (let (result, fs') = after_upload client now path content success (record fs {
        cloud = (Client.write_object client fs.bucket_name (object_of path) content fs.cloud).1;
      }) in
          Does (flushed (object_of path) (is_zero result)) (files client fs) (files client fs')
          × IsDirect fs'.bucket_name fs'.reader)
  unfolding after_upload
  Does-after_upload now path content fs false d b e = (
    (
      λ k. refl,
      client.read_object
          (Client.write_object client fs.bucket_name (object_of path) content fs.cloud).1
          fs.bucket_name (object_of path),
      λ k. ground (
        arith,
        same_iff (object_of path) k,
        write_object-elsewhere laws fs.bucket_name (object_of path) content fs.cloud fs.bucket_name
            k,
      ),
    ),
    d,
  )
  Does-after_upload now path content fs true d b e = (
    (
      λ k. ground (
        arith,
        same_iff (object_of path) k,
        write_object-reads laws fs.bucket_name (object_of path) content fs.cloud,
        write_object-elsewhere laws fs.bucket_name (object_of path) content fs.cloud fs.bucket_name
            k,
      ),
      λ k. ground arith,
    ),
    transport-IsDirect (ground arith) (ground arith)
        (invalidate-IsDirect fs.bucket_name (object_of path) fs.reader d),
  )

  upload-content :
      (now : ℕ) (path content : Bytes) (fs : Gcsfs client)
      → lookup (object_of path) fs.write_buffers ≡ some content
      → upload_to_gcs client now path fs
        ≡ after_upload client now path content
            (Client.write_object client fs.bucket_name (object_of path) content fs.cloud).0
            (record fs {
              cloud =
                  (Client.write_object client fs.bucket_name (object_of path) content fs.cloud).1;
            })
  unfolding upload_to_gcs
  upload-content now path content fs b = rw (b, upload_to_gcs) refl

  Does-upload :
      (now : ℕ) (path content : Bytes) (fs : Gcsfs client)
      → IsDirect fs.bucket_name fs.reader
      → lookup (object_of path) fs.write_buffers ≡ some content
      → (let (result, fs') = upload_to_gcs client now path fs in
          Does (flushed (object_of path) (is_zero result)) (files client fs) (files client fs')
          × IsDirect fs'.bucket_name fs'.reader)
  Does-upload now path content fs d b =
      subst
        (λ t.
          Does (flushed (object_of path) (is_zero t.0)) (files client fs) (files client t.1)
          × IsDirect t.1.bucket_name t.1.reader)
        (sym (upload-content now path content fs b))
        (Does-after_upload now path content fs _ d b refl)

  pub Does-flush :
      (now : ℕ) (path : Bytes) (fs : Gcsfs client)
      → IsConsistent client fs
      → IsDirect fs.bucket_name fs.reader
      → (let (result, fs') = flush client now path fs in
          Does (flushed (object_of path) (is_zero result)) (files client fs) (files client fs')
          × IsDirect fs'.bucket_name fs'.reader)
  unfolding flush
  Does-flush now path fs h d = elim (Bool-cases (is_dirty client (object_of path) fs)) [
    | inr clean ↦ rw clean (
      (
        λ k. ground (
          arith,
          same_iff (object_of path) k,
          clean-stored client h k (buffer_or_new (lookup (object_of path) fs.write_buffers)),
        ),
        λ k. refl,
      ),
      d,
    )
    | inl dirty ↦ rw dirty (elim (Option-cases (lookup (object_of path) fs.write_buffers)) [
      | inl none_left ↦ absurd (ground (arith, h.tracked (object_of path) dirty))
      | inr (content, b) ↦ Does-upload now path content fs d b
    ])
  ]

  Does-after_delete :
      (name : Bytes) (fs : Gcsfs client) (deleted : Outcome Bool)
      → IsDirect fs.bucket_name fs.reader
      → (Client.delete_object client fs.bucket_name name fs.cloud).0 ≡ deleted
      → (let (result, fs') =
            after_delete client name deleted (record fs {
              cloud = (Client.delete_object client fs.bucket_name name fs.cloud).1;
            }) in
          Does (unlinked name (is_zero result)) (files client fs) (files client fs')
          × IsDirect fs'.bucket_name fs'.reader)
  unfolding after_delete
  Does-after_delete name fs thrown d e = (
    (
      λ k. delete_object-failed laws fs.bucket_name name fs.cloud (λ q. cc) fs.bucket_name k,
      λ k. refl,
    ),
    d,
  )
  Does-after_delete name fs failed d e = (
    (
      λ k. delete_object-failed laws fs.bucket_name name fs.cloud (λ q. cc) fs.bucket_name k,
      λ k. refl,
    ),
    d,
  )
  Does-after_delete name fs (ok false) d e = (
    (
      λ k. delete_object-failed laws fs.bucket_name name fs.cloud (λ q. cc) fs.bucket_name k,
      λ k. refl,
    ),
    d,
  )
  Does-after_delete name fs (ok true) d e = (
    (
      λ k. ground (
        arith,
        same_iff name k,
        delete_object-reads laws fs.bucket_name name fs.cloud e,
        delete_object-elsewhere laws fs.bucket_name name fs.cloud fs.bucket_name k,
      ),
      λ k. lookup-erase name k fs.write_buffers,
    ),
    invalidate-IsDirect fs.bucket_name name fs.reader d,
  )

  pub Does-unlink :
      (now : ℕ) (path : Bytes) (fs : Gcsfs client)
      → IsDirect fs.bucket_name fs.reader
      → (let (result, fs') = unlink client now path fs in
          Does (unlinked (object_of path) (is_zero result)) (files client fs) (files client fs')
          × IsDirect fs'.bucket_name fs'.reader)
  unfolding unlink
  Does-unlink now path fs d = elim (Bool-cases (is_valid_path client now path fs)) [
    | inr missing ↦ rw missing ((λ k. refl, λ k. refl), d)
    | inl there ↦ rw there (elim (Bool-cases (is_directory client now path fs)) [
      | inl dir ↦ rw dir ((λ k. refl, λ k. refl), d)
      | inr file ↦ rw file (Does-after_delete (object_of path) fs _ d refl)
    ])
  ]
