-- ===== src/Fs/Invariant/Deleting.antt =====
-- `unlink` of src/gcs_fs.cpp against the invariant.
use gcscfuse.Base.{◌∙◌, ℕ, ◌≡◌, ◌≢◌, refl, Bool, true, false, arith, Bool-cases, inl, inr, ◌∷◌}
use gcscfuse.Fs.Invariant.{IsConsistentBut, buffered}
use gcscfuse.StatCache.Cache
use gcscfuse.StatCache.Cache.Invariant.{remove-IsValid}
use gcscfuse.Base.Bytes.{Bytes, same_iff, slash}
use gcscfuse.Base.Dict.{lookup, erase, lookup-erase}
use gcscfuse.Fs.State.{Gcsfs, is_dirty, object_of, is_present, is_valid_path, is_directory}
use gcscfuse.Fs.Writes.{unlink, after_delete}
use gcscfuse.Gcs.Client
use gcscfuse.Gcs.Laws.{StorageLaws, delete_object-elsewhere, delete_object-failed}
use gcscfuse.Gcs.Sdk.{StorageClient, Outcome, ok, failed, thrown}
use gcscfuse.Reader.{invalidate}
use gcscfuse.Reader.Coherence.Keeps.{shadow-IsCoherent, invalidate-IsCoherent}

module _ {client : StorageClient} (laws : StorageLaws client) {raced : Bytes → Bool} where
  deleted-IsConsistent :
      (name : Bytes) (fs : Gcsfs client)
      → IsConsistentBut client raced fs
      → IsConsistentBut client raced (record fs {
        cloud = (Client.delete_object client fs.bucket_name name fs.cloud).1;
        reader = invalidate name fs.reader;
        write_buffers = erase name fs.write_buffers;
        dirty_files = erase name fs.dirty_files;
        stat_cache = Cache.remove (slash ∷ name) fs.stat_cache;
      })
  unfolding is_dirty
  deleted-IsConsistent name fs h = record {
    stats = remove-IsValid (slash ∷ name) h.stats;
    tracked = λ k d. ground (
      arith,
      lookup-erase name k fs.dirty_files,
      lookup-erase name k fs.write_buffers,
      h.tracked k,
    );
    synced = λ k c b d u. ground (
      arith,
      same_iff name k,
      lookup-erase name k fs.dirty_files,
      lookup-erase name k fs.write_buffers,
      h.synced k c,
      delete_object-elsewhere laws fs.bucket_name name fs.cloud fs.bucket_name k,
    );
    coherent =
        invalidate-IsCoherent client (buffered client fs)
          (λ k. is_present (lookup k (erase name fs.write_buffers))) name fs.reader fs.cloud
          (Client.delete_object client fs.bucket_name name fs.cloud).1 h.coherent
          (λ k s. ground (arith, same_iff name k, lookup-erase name k fs.write_buffers))
          (λ b k s. delete_object-elsewhere laws fs.bucket_name name fs.cloud b k s);
  }

  -- A delete that failed, which leaves every object as it was.
  kept-IsConsistent :
      (name : Bytes) (fs : Gcsfs client)
      → (Client.delete_object client fs.bucket_name name fs.cloud).0 ≢ ok true
      → IsConsistentBut client raced fs
      → IsConsistentBut client raced
          (record fs { cloud = (Client.delete_object client fs.bucket_name name fs.cloud).1 })
  unfolding is_dirty
  kept-IsConsistent name fs bad h = record {
    stats = h.stats;
    tracked = h.tracked;
    synced = λ k c b d u.
        delete_object-failed laws fs.bucket_name name fs.cloud bad fs.bucket_name k
        ∙ h.synced k c b d u;
    coherent =
        shadow-IsCoherent client (buffered client fs) (buffered client fs) fs.reader fs.cloud
          (Client.delete_object client fs.bucket_name name fs.cloud).1 h.coherent (λ k s. s)
          (λ b k s. delete_object-failed laws fs.bucket_name name fs.cloud bad b k);
  }

  after_delete-IsConsistent :
      (name : Bytes) (fs : Gcsfs client) (deleted : Outcome Bool)
      → (Client.delete_object client fs.bucket_name name fs.cloud).0 ≡ deleted
      → IsConsistentBut client raced fs
      → IsConsistentBut client raced
          (after_delete client name deleted
            (record fs { cloud = (Client.delete_object client fs.bucket_name name fs.cloud).1 })).1
  unfolding after_delete
  after_delete-IsConsistent name fs thrown e h = kept-IsConsistent name fs (λ q. cc) h
  after_delete-IsConsistent name fs failed e h = kept-IsConsistent name fs (λ q. cc) h
  after_delete-IsConsistent name fs (ok false) e h = kept-IsConsistent name fs (λ q. cc) h
  after_delete-IsConsistent name fs (ok true) e h = deleted-IsConsistent name fs h

  -- `unlink` keeps the invariant, whether it refuses, fails or deletes.
  pub unlink-IsConsistent :
      (now : ℕ) (path : Bytes) (fs : Gcsfs client)
      → IsConsistentBut client raced fs
      → IsConsistentBut client raced (unlink client now path fs).1
  unfolding unlink
  unlink-IsConsistent now path fs h = elim (Bool-cases (is_valid_path client now path fs)) [
    | inr missing ↦ rw missing h
    | inl there ↦ rw there (elim (Bool-cases (is_directory client now path fs)) [
      | inl dir ↦ rw dir h
      | inr file ↦ rw file (after_delete-IsConsistent (object_of path) fs _ refl h)
    ])
  ]
