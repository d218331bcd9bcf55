-- ===== src/Fs/Truthful/Remote.antt =====
-- `flush`, `release` and `unlink` of src/gcs_fs.cpp against the truth of the stat cache.
use gcscfuse.Base.{
  ℕ, ◌≡◌, ◌≢◌, ◌∷◌, some, length, Bool, false, true, refl, inl, inr, arith, ap, ◌∙◌, sym,
  Bool-cases, Option-cases,
}
use gcscfuse.Base.Bytes.{Bytes, slash, same_iff}
use gcscfuse.Base.Dict.{lookup, lookup-erase}
use gcscfuse.Fs.State.{Gcsfs, object_of, is_dirty, is_valid_path, is_directory}
use gcscfuse.Fs.Truthful.{IsTruthful, IsNormal}
use gcscfuse.Fs.Truthful.Lookups.{file_recorded}
use gcscfuse.Fs.Truthful.Records.{hidden-IsTrue, remove-IsTrue}
use gcscfuse.Fs.Upload.{upload_to_gcs, after_upload, flush}
use gcscfuse.Fs.Writes.{unlink, after_delete}
use gcscfuse.Gcs.Client
use gcscfuse.Gcs.Laws.{
  StorageLaws, write_object-elsewhere, delete_object-elsewhere, delete_object-failed,
}
use gcscfuse.Gcs.Sdk.{StorageClient, Outcome, ok, failed, thrown}
use gcscfuse.StatCache.Cache.Invariant.{remove-IsValid}

module _ {client : StorageClient} (laws : StorageLaws client) where
  pub sent-IsTruthful :
      (name content old : Bytes) (fs : Gcsfs client)
      → lookup name fs.write_buffers ≡ some old
      → IsTruthful client fs
      → IsTruthful client (record fs {
        cloud = (Client.write_object client fs.bucket_name name content fs.cloud).1;
      })
  sent-IsTruthful name content old fs e h = record {
    stats = h.stats;
    files = hidden-IsTrue h.files (λ k b. (
      b,
      write_object-elsewhere laws fs.bucket_name name content fs.cloud fs.bucket_name k
          (λ q. absurd (ground (arith, sym b ∙ ap (λ j. lookup j fs.write_buffers) q ∙ e))),
    ));
  }

  upload_to_gcs-IsTruthful :
      (now : ℕ) (path : Bytes) (fs : Gcsfs client)
      → IsNormal path
      → IsTruthful client fs
      → IsTruthful client (upload_to_gcs client now path fs).1
  unfolding upload_to_gcs after_upload
  upload_to_gcs-IsTruthful now path fs n h =
      elim (Option-cases (lookup (object_of path) fs.write_buffers)) [
        | inl e ↦ rw (e, upload_to_gcs) h
        | inr (content, e) ↦
            let sent =
              Client.write_object client fs.bucket_name (object_of path) content fs.cloud in
            let h' = sent-IsTruthful (object_of path) content content fs e h in
            elim (Bool-cases sent.0) [
              | inl good ↦
                  rw (e, upload_to_gcs)
                    (rw (good, after_upload)
                      (file_recorded now path (length content) now _
                        (record { stats = h'.stats; files = h'.files }) n
                        (λ b. absurd (ground (arith, sym b ∙ e)))))
              | inr bad ↦ rw (e, upload_to_gcs) (rw (bad, after_upload) h')
            ]
      ]

  pub flush-IsTruthful :
      (now : ℕ) (path : Bytes) (fs : Gcsfs client)
      → IsNormal path
      → IsTruthful client fs
      → IsTruthful client (flush client now path fs).1
  unfolding flush
  flush-IsTruthful now path fs n h = elim (Bool-cases (is_dirty client (object_of path) fs)) [
    | inl dirty ↦ rw dirty (upload_to_gcs-IsTruthful now path fs n h)
    | inr clean ↦ rw clean h
  ]

  -- A delete that failed.
  kept-IsTruthful :
      (name : Bytes) (fs : Gcsfs client)
      → (Client.delete_object client fs.bucket_name name fs.cloud).0 ≢ ok true
      → IsTruthful client fs
      → IsTruthful client
          (record fs { cloud = (Client.delete_object client fs.bucket_name name fs.cloud).1 })
  kept-IsTruthful name fs bad h = record {
    stats = h.stats;
    files =
        hidden-IsTrue h.files
          (λ k b. (b, delete_object-failed laws fs.bucket_name name fs.cloud bad fs.bucket_name k));
  }

  deleted-IsTruthful :
      (name : Bytes) (fs : Gcsfs client) (deleted : Outcome Bool)
      → (Client.delete_object client fs.bucket_name name fs.cloud).0 ≡ deleted
      → IsTruthful client fs
      → IsTruthful client
          (after_delete client name deleted
            (record fs { cloud = (Client.delete_object client fs.bucket_name name fs.cloud).1 })).1
  unfolding after_delete
  deleted-IsTruthful name fs (ok true) e h = record {
    stats = remove-IsValid (slash ∷ name) h.stats;
    files = remove-IsTrue name h.files (λ k q. (
      ground (arith, same_iff name k, lookup-erase name k fs.write_buffers),
      delete_object-elsewhere laws fs.bucket_name name fs.cloud fs.bucket_name k q,
    ));
  }
  deleted-IsTruthful name fs (ok false) e h = kept-IsTruthful name fs (λ q. cc) h
  deleted-IsTruthful name fs failed e h = kept-IsTruthful name fs (λ q. cc) h
  deleted-IsTruthful name fs thrown e h = kept-IsTruthful name fs (λ q. cc) h

  pub unlink-IsTruthful :
      (now : ℕ) (path : Bytes) (fs : Gcsfs client)
      → IsTruthful client fs
      → IsTruthful client (unlink client now path fs).1
  unfolding unlink
  unlink-IsTruthful now path fs h = elim (Bool-cases (is_valid_path client now path fs)) [
    | inr missing ↦ rw missing h
    | inl there ↦ rw there (elim (Bool-cases (is_directory client now path fs)) [
      | inl dir ↦ rw dir h
      | inr file ↦ rw file (deleted-IsTruthful (object_of path) fs _ refl h)
    ])
  ]
