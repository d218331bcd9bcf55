-- ===== src/Fs/Invariant/Keeps.antt =====
-- `create`, `write`, `uploadToGCS`, `flush` and `release` of src/gcs_fs.cpp against the invariant.
use gcscfuse.Base.{
  Bool, ap, ◌∙◌, sym, [], ℕ, ◌≡◌, refl, true, false, some, arith, length, Bool-cases, inl, inr,
  Option-cases,
}
use mathlib.Core.Bool.{false≢true}
use gcscfuse.Base.Dict.{insert, lookup, lookup-insert}
use gcscfuse.Reader.{invalidate}
use gcscfuse.StatCache.Cache.{insert_file}
use gcscfuse.Fs.Invariant.{
  IsConsistentBut, buffered, with_stat_cache-IsConsistent, put_dirty-IsConsistent,
}
use gcscfuse.StatCache.Cache.Invariant.{insert_file-IsValid}
use mathlib.Core.Path.{subst}
use gcscfuse.Base.Bytes.{same, Bytes, same_iff}
use gcscfuse.Fs.State.{Gcsfs, is_dirty, mark_dirty, object_of, with_stat_cache}
use gcscfuse.Fs.Upload.{upload_to_gcs, after_upload, flush, release}
use gcscfuse.Fs.Writes.{create, write, put_buffer, truncated}
use gcscfuse.Gcs.Client
use gcscfuse.Gcs.Laws.{StorageLaws, write_object-reads, write_object-elsewhere}
use gcscfuse.Gcs.Sdk.{StorageClient}
use gcscfuse.Reader.Coherence.Keeps.{shadow-IsCoherent, invalidate-IsCoherent}

module _ (client : StorageClient) {raced : Bytes → Bool} where
  -- The end of a callback that changes a buffer: the buffer, the flag and the stat cache.
  rewritten-IsConsistent :
      (now : ℕ) (path content : Bytes) (size : ℕ) (fs : Gcsfs client)
      → IsConsistentBut client raced fs
      → IsConsistentBut client raced (
          with_stat_cache client
            (insert_file now path size now)
            (mark_dirty client (object_of path) (put_buffer client (object_of path) content fs)))
  rewritten-IsConsistent now path content size fs h =
      with_stat_cache-IsConsistent client (insert_file now path size now) _
        (λ c v. insert_file-IsValid now path size now v)
        (put_dirty-IsConsistent client (object_of path) content fs h)

  -- `create` keeps the invariant.
  pub create-IsConsistent :
      (now : ℕ) (path : Bytes) (flags : ℕ) (fs : Gcsfs client)
      → IsConsistentBut client raced fs
      → IsConsistentBut client raced (create client now path flags fs).2
  unfolding create
  create-IsConsistent now path flags fs h = rewritten-IsConsistent now path [] 0 fs h

  -- `write` keeps the invariant.
  pub write-IsConsistent :
      (now : ℕ) (path buf : Bytes) (offset : ℕ) (fs : Gcsfs client)
      → IsConsistentBut client raced fs
      → IsConsistentBut client raced (write client now path buf offset fs).1
  unfolding write
  write-IsConsistent now path buf offset fs h = rewritten-IsConsistent now path _ _ fs h

  pub truncated-IsConsistent :
      (now : ℕ) (path : Bytes) (size : ℕ) (content : Bytes) (fs : Gcsfs client)
      → IsConsistentBut client raced fs
      → IsConsistentBut client raced (truncated client now path size content fs).1
  unfolding truncated
  truncated-IsConsistent now path size content fs h = rewritten-IsConsistent now path _ size fs h

  -- The flag cleared and the cached content dropped, where what is buffered is stored.
  pub settled-IsConsistent :
      (name : Bytes) (fs : Gcsfs client)
      → (raced name ≡ false
          → (content : Bytes) → lookup name fs.write_buffers ≡ some content
          → client.read_object fs.cloud fs.bucket_name name ≡ some content)
      → IsConsistentBut client raced fs
      → IsConsistentBut client raced (record fs {
        reader = invalidate name fs.reader;
        dirty_files = insert name false fs.dirty_files;
      })
  unfolding is_dirty
  settled-IsConsistent name fs stored h = record {
    stats = h.stats;
    tracked = λ k d. ground (arith, lookup-insert name k false fs.dirty_files, h.tracked k);
    synced = λ k c b d u. elim (Bool-cases (same name k)) [
      | inl e ↦
          let q : name ≡ k = (same_iff name k).0 e in
          subst (λ j. client.read_object fs.cloud fs.bucket_name j ≡ some c) q
            (stored (ap raced q ∙ u) c (ap (λ j. lookup j fs.write_buffers) q ∙ b))
      | inr e ↦ h.synced k c b (ground (arith, lookup-insert name k false fs.dirty_files)) u
    ];
    coherent =
        invalidate-IsCoherent client (buffered client fs) (buffered client fs) name fs.reader
          fs.cloud fs.cloud h.coherent (λ k s. refl) (λ b k s. refl);
  }

module _ {client : StorageClient} (laws : StorageLaws client) {raced : Bytes → Bool} where
  -- The remote call of an upload, of a file that is dirty and stays so.
  pub sent-IsConsistent :
      (name content : Bytes) (fs : Gcsfs client)
      → is_dirty client name fs ≡ true
      → IsConsistentBut client raced fs
      → IsConsistentBut client raced (record fs {
        cloud = (Client.write_object client fs.bucket_name name content fs.cloud).1;
      })
  unfolding is_dirty
  sent-IsConsistent name content fs dirty h = record {
    stats = h.stats;
    tracked = h.tracked;
    synced = λ k c b d u. ground (
      arith,
      h.synced k c,
      write_object-elsewhere laws fs.bucket_name name content fs.cloud fs.bucket_name k,
    );
    coherent =
        shadow-IsCoherent client (buffered client fs) (buffered client fs) fs.reader fs.cloud
          (Client.write_object client fs.bucket_name name content fs.cloud).1 h.coherent (λ k s. s)
          (λ b k s.
            write_object-elsewhere laws fs.bucket_name name content fs.cloud b k
              (λ e. false≢true (sym s ∙ ap (buffered client fs) e ∙ h.tracked name dirty)));
  }

  -- `uploadToGCS` keeps the invariant for a dirty file, whether the upload succeeds or fails.
  pub upload_to_gcs-IsConsistent :
      (now : ℕ) (path : Bytes) (fs : Gcsfs client)
      → is_dirty client (object_of path) fs ≡ true
      → IsConsistentBut client raced fs
      → IsConsistentBut client raced (upload_to_gcs client now path fs).1
  unfolding upload_to_gcs after_upload
  upload_to_gcs-IsConsistent now path fs dirty h =
      elim (Option-cases (lookup (object_of path) fs.write_buffers)) [
        | inl e ↦ rw (e, upload_to_gcs) h
        | inr (content, e) ↦
            let sent =
              Client.write_object client fs.bucket_name (object_of path) content fs.cloud in
            elim (Bool-cases sent.0) [
              | inl good ↦
                  rw (e, upload_to_gcs)
                    (rw (good, after_upload)
                      (with_stat_cache-IsConsistent client
                        (insert_file now path (length content) now) _
                        (λ c v. insert_file-IsValid now path (length content) now v)
                        (settled-IsConsistent client (object_of path) _
                          (λ u c b.
                            write_object-reads laws fs.bucket_name (object_of path) content fs.cloud
                              good
                            ∙ sym e
                            ∙ b)
                          (sent-IsConsistent (object_of path) content fs dirty h))))
              | inr bad ↦
                  rw (e, upload_to_gcs)
                    (rw (bad, after_upload) (sent-IsConsistent (object_of path) content fs dirty h))
            ]
      ]

  -- `flush` keeps the invariant.
  pub flush-IsConsistent :
      (now : ℕ) (path : Bytes) (fs : Gcsfs client)
      → IsConsistentBut client raced fs
      → IsConsistentBut client raced (flush client now path fs).1
  unfolding flush
  flush-IsConsistent now path fs h = elim (Bool-cases (is_dirty client (object_of path) fs)) [
    | inl dirty ↦ rw dirty (upload_to_gcs-IsConsistent now path fs dirty h)
    | inr clean ↦ rw clean h
  ]

module _ {client : StorageClient} (laws : StorageLaws client) where
  -- `release` returns what `flush` returns, and does what it does.
  pub release-eq-flush :
      (now : ℕ) (path : Bytes) (fs : Gcsfs client)
      → release client now path fs ≡ flush client now path fs
  unfolding flush release upload_to_gcs after_upload
  release-eq-flush now path fs = ground arith
