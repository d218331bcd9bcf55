-- ===== src/Fs/Contents/Durable.antt =====
-- `flush` and `unlink` in the abstract file system of `Fs.Contents`.
use gcscfuse.Gcs.Sdk.{thrown, failed, ok, Outcome, StorageClient}
use gcscfuse.Fs.State.{is_directory, is_valid_path, Gcsfs, object_of, is_dirty}
use gcscfuse.Base.{
  ap, ◌&&◌, ℕ, ◌≡◌, refl, Bool, true, false, none, some, arith, if◌then◌else◌, inl, inr,
  Option-cases, Bool-cases,
}
use gcscfuse.Base.Bytes.{same_refl, Bytes, same, same_iff}
use gcscfuse.Fs.Upload.{is_zero, flush, upload_to_gcs, after_upload}
use gcscfuse.Base.Dict.{lookup, lookup-insert, lookup-erase}
use gcscfuse.Base.Int.{pos}
use gcscfuse.Fs.Contents.{contents, buffered_or}
use gcscfuse.Fs.Invariant.{IsConsistent, clean-stored}
use gcscfuse.Fs.Writes.{unlink, after_delete}
use gcscfuse.Gcs.Client
use gcscfuse.Gcs.Laws.{
  StorageLaws, write_object-reads, write_object-elsewhere, delete_object-reads,
  delete_object-elsewhere, delete_object-failed,
}

module _ {client : StorageClient} (laws : StorageLaws client) where
  -- `flush` changes no file, whether the upload succeeds or fails.
  pub contents-flush :
      (now : ℕ) (path : Bytes) (fs : Gcsfs client) (k : Bytes)
      → contents client (flush client now path fs).1 k ≡ contents client fs k
  unfolding flush upload_to_gcs after_upload
  contents-flush now path fs k = elim (Option-cases (lookup (object_of path) fs.write_buffers)) [
    | inl e ↦ ground arith
    | inr (content, e) ↦ ground (
      arith,
      same_iff (object_of path) k,
      write_object-elsewhere laws fs.bucket_name (object_of path) content fs.cloud fs.bucket_name k,
    )
  ]

  -- In a consistent state, after a `flush` that returned 0 what was buffered is stored remotely
  -- and the file is clean.
  pub flush-durable :
      (now : ℕ) (path : Bytes) (fs : Gcsfs client) (content : Bytes)
      → IsConsistent client fs
      → lookup (object_of path) fs.write_buffers ≡ some content
      → (flush client now path fs).0 ≡ pos 0
      → (client.read_object (flush client now path fs).1.cloud fs.bucket_name (object_of path)
          ≡ some content)
        × (is_dirty client (object_of path) (flush client now path fs).1 ≡ false)
  unfolding flush upload_to_gcs after_upload is_dirty
  flush-durable now path fs content h b e = (
    ground (
      arith,
      clean-stored client h (object_of path) content b,
      write_object-reads laws fs.bucket_name (object_of path) content fs.cloud,
    ),
    ground (
      arith,
      lookup-insert (object_of path) (object_of path) false fs.dirty_files,
      same_refl (object_of path),
    ),
  )

  contents-after_delete :
      (name : Bytes) (fs : Gcsfs client) (k : Bytes) (deleted : Outcome Bool)
      → (Client.delete_object client fs.bucket_name name fs.cloud).0 ≡ deleted
      → (let (result, fs') =
            after_delete client name deleted (record fs {
              cloud = (Client.delete_object client fs.bucket_name name fs.cloud).1;
            }) in
          contents client fs' k
          ≡ (if is_zero result && same name k then none else contents client fs k))
  unfolding after_delete
  contents-after_delete name fs k thrown e =
      ap (buffered_or (lookup k fs.write_buffers))
        (delete_object-failed laws fs.bucket_name name fs.cloud (λ q. cc) fs.bucket_name k)
  contents-after_delete name fs k failed e =
      ap (buffered_or (lookup k fs.write_buffers))
        (delete_object-failed laws fs.bucket_name name fs.cloud (λ q. cc) fs.bucket_name k)
  contents-after_delete name fs k (ok false) e =
      ap (buffered_or (lookup k fs.write_buffers))
        (delete_object-failed laws fs.bucket_name name fs.cloud (λ q. cc) fs.bucket_name k)
  contents-after_delete name fs k (ok true) e = ground (
    arith,
    same_iff name k,
    lookup-erase name k fs.write_buffers,
    delete_object-reads laws fs.bucket_name name fs.cloud e,
    delete_object-elsewhere laws fs.bucket_name name fs.cloud fs.bucket_name k,
  )

  -- An `unlink` that returned 0 leaves its file without content, and the others as they were; one
  -- that returned anything else changes no file.
  pub contents-unlink :
      (now : ℕ) (path : Bytes) (fs : Gcsfs client) (k : Bytes)
      → contents client (unlink client now path fs).1 k ≡ (
          if is_zero (unlink client now path fs).0 && same (object_of path) k
          then none
          else contents client fs k)
  unfolding unlink
  contents-unlink now path fs k = elim (Bool-cases (is_valid_path client now path fs)) [
    | inr missing ↦ rw missing refl
    | inl there ↦ rw there (elim (Bool-cases (is_directory client now path fs)) [
      | inl dir ↦ rw dir refl
      | inr file ↦ rw file (contents-after_delete (object_of path) fs k _ refl)
    ])
  ]
