-- ===== src/Fs/Interleaved/Races.antt =====
-- What an upload of src/gcs_fs.cpp does to the callbacks that run before it returns.
use gcscfuse.Base.{
  Bool, List, ◌∷◌, ◌++◌, ℕ, ◌≡◌, ◌∙◌, ap, sym, true, false, none, some, ◌↔◌, inl, inr, arith,
  length,
}
use gcscfuse.Fs.Interleaved.Carried.{
  settled_with-IsConsistent, begin_upload-sent, finish_upload-settled, sent, rest-All,
}
use gcscfuse.Config.{GcsfsConfig}
use gcscfuse.Fs.Interleaved.{Interleaved, Flight, begin_upload, finish_upload, settled, watched}
use gcscfuse.Fs.Interleaved.Keeps.{Interleaved-IsSafe, mounted}
use gcscfuse.Base.Bytes.{Bytes, same_refl}
use gcscfuse.Base.Dict.{lookup, lookup-insert, lookup-erase, insert}
use gcscfuse.Base.Int.{ℤ, pos}
use gcscfuse.Fs.Invariant.{IsConsistent, clean-stored}
use gcscfuse.Fs.State.{Gcsfs, is_dirty, object_of, mark_dirty, with_stat_cache}
use gcscfuse.Fs.Upload.{flush}
use gcscfuse.Fs.Writes.{write, overwritten, unlink, after_delete, buffer_or_new}
use gcscfuse.Gcs.Client
use gcscfuse.Gcs.Laws.{StorageLaws, write_object-reads}
use gcscfuse.Gcs.Sdk.{StorageClient}
use gcscfuse.StatCache.Cache.{insert_file}
use mathlib.Core.Path.{subst}

module _ (client : StorageClient) where
  -- In a consistent state, the end of a successful upload keeps the state consistent exactly when
  -- the buffer of its file by then, if there is one, is what is stored.
  pub finish_upload-IsConsistent :
      (now : ℕ) (flight : Flight) (fs : Gcsfs client) {result : ℤ} {fs' : Gcsfs client}
      → IsConsistent client fs
      → flight.success ≡ true
      → finish_upload client now flight fs ≡ some (result, fs')
      → IsConsistent client fs' ↔ (
          (content : Bytes)
          → lookup (object_of flight.path) fs.write_buffers ≡ some content
          → client.read_object fs.cloud fs.bucket_name (object_of flight.path) ≡ some content)
  finish_upload-IsConsistent now flight fs {result} {fs'} h good e =
      let name : Bytes = object_of flight.path in
      elim (finish_upload-settled client now flight fs result fs' e h.stats) [
        | inl (bad, q) ↦ absurd (ground arith)
        | inr (ok, c, v, q) ↦ (
          λ k content b.
              clean-stored client (subst (IsConsistent client) (sym q) k) name content b (
                unfold is_dirty in
                ground (arith, lookup-insert name name false fs.dirty_files, same_refl name)),
          λ stored.
              subst (IsConsistent client) q
                (settled_with-IsConsistent client name fs c v (λ u. stored) h),
        )
      ]

module _ {client : StorageClient} (laws : StorageLaws client) where
  -- After the remote call of an upload that sent `content`: a `write`, then the end of the upload,
  -- then a `flush`. The upload succeeds, the buffer has the new bytes and the object does not, and
  -- the `flush` returns 0 and changes nothing.
  abbrev pub IsLost : ℕ → ℕ → ℕ → Bytes → Bytes → ℕ → Bytes → Flight × Gcsfs client → Type 0
  IsLost now later last path buf offset content (flight, sending) =
      let written = (write client now path buf offset sending).1 in
      (fs' : Gcsfs client) × (finish_upload client later (watched client written flight) written
        ≡ some (pos 0, fs'))
      × (lookup (object_of path) fs'.write_buffers ≡ some (overwritten buf offset content))
      × (client.read_object fs'.cloud fs'.bucket_name (object_of path) ≡ some content)
      × (flush client last path fs' ≡ (pos 0, fs'))

  sent-IsLost :
      (now later last : ℕ) (path buf : Bytes) (offset : ℕ) (fs : Gcsfs client) (content : Bytes)
      → lookup (object_of path) fs.write_buffers ≡ some content
      → (Client.write_object client fs.bucket_name (object_of path) content fs.cloud).0 ≡ true
      → IsLost now later last path buf offset content (sent client fs path content)
  unfolding write mark_dirty finish_upload flush is_dirty
  sent-IsLost now later last path buf offset fs content b good =
      let name : Bytes = object_of path in
      let written : Gcsfs client =
        (write client now path buf offset (sent client fs path content).1).1 in
      (
        with_stat_cache client
            (insert_file later path (length (buffer_or_new (lookup name written.write_buffers)))
              later)
            (settled client name written),
        ground (
          arith,
          same_refl name,
          lookup-insert name name (overwritten buf offset content) fs.write_buffers,
        ),
        ground (
          arith,
          same_refl name,
          lookup-insert name name (overwritten buf offset content) fs.write_buffers,
        ),
        ground (arith, write_object-reads laws fs.bucket_name name content fs.cloud),
        ground (
          arith,
          same_refl name,
          lookup-insert name name false (insert name true fs.dirty_files),
        ),
      )

  -- A `write` that runs while an upload of its file is under way is lost once that upload
  -- succeeded: the buffer has the new bytes and the object does not, the file counts as clean, and
  -- a later `flush` returns 0 and does nothing.
  pub write-IsLost :
      (now later last : ℕ) (path buf : Bytes) (offset : ℕ) (fs : Gcsfs client) (content : Bytes)
      (flight : Flight) (sending : Gcsfs client)
      → lookup (object_of path) fs.write_buffers ≡ some content
      → begin_upload client path fs ≡ some (flight, sending)
      → flight.success ≡ true
      → IsLost now later last path buf offset content (flight, sending)
  write-IsLost now later last path buf offset fs content flight sending b e good =
      let (content', b', q) = begin_upload-sent client path fs (flight, sending) e in
      let p : sent client fs path content ≡ (flight, sending) =
        ap (sent client fs path) (ground arith) ∙ q in
      subst
        (λ (r : Flight × Gcsfs client).
          r.0.success ≡ true → IsLost now later last path buf offset content r)
        p (sent-IsLost now later last path buf offset fs content b) good

  unlinked :
      (now : ℕ) (path : Bytes) (fs : Gcsfs client)
      → (unlink client now path fs).0 ≡ pos 0
      → (lookup (object_of path) (unlink client now path fs).1.write_buffers ≡ none)
        × ((unlink client now path fs).1.config ≡ fs.config)
  unfolding unlink after_delete
  unlinked now path fs u = (
    ground (
      arith,
      lookup-erase (object_of path) (object_of path) fs.write_buffers,
      same_refl (object_of path),
    ),
    ground arith,
  )

  -- When the stat cache is on and an `unlink` deletes a file while an upload of it is under way
  -- that succeeds, the end of the upload uses the buffer that `unlink` erased.
  pub finish_upload-unlink :
      (now later : ℕ) (path : Bytes) (fs : Gcsfs client) (flight : Flight) (sending : Gcsfs client)
      → begin_upload client path fs ≡ some (flight, sending)
      → flight.success ≡ true
      → fs.config.enable_stat_cache ≡ true
      → (unlink client now path sending).0 ≡ pos 0
      → (let erased = (unlink client now path sending).1 in
          finish_upload client later (watched client erased flight) erased ≡ none)
  finish_upload-unlink now later path fs flight sending e good on u =
      let (content, b, q) = begin_upload-sent client path fs (flight, sending) e in
      subst
        (λ (r : Flight × Gcsfs client).
          r.0.success ≡ true
          → (unlink client now path r.1).0 ≡ pos 0
          → (let erased = (unlink client now path r.1).1 in
              finish_upload client later (watched client erased r.0) erased ≡ none))
        q
        (λ good u.
          let (gone, kept) = unlinked now path (sent client fs path content).1 u in
          unfold finish_upload in ground arith)
        good u

  -- However the callbacks of several threads interleave with uploads that are under way: when one of
  -- these returns 0 and no race spoiled its file, what its file has buffered by then is stored
  -- remotely, and the file is clean.
  pub finish_upload-durable :
      (bucket : Bytes) (config : GcsfsConfig) (cloud : client.Cloud) (now : ℕ) (fs : Gcsfs client)
      (earlier : List Flight) (flight : Flight) (later : List Flight) (raced : Bytes → Bool)
      (content : Bytes) {fs' : Gcsfs client}
      → Interleaved client
          (mounted laws bucket config cloud)
          (record { fs = fs; flights = earlier ++ flight ∷ later; raced = raced })
      → finish_upload client now flight fs ≡ some (pos 0, fs')
      → raced (object_of flight.path) ≡ false
      → lookup (object_of flight.path) fs.write_buffers ≡ some content
      → (client.read_object fs'.cloud fs'.bucket_name (object_of flight.path) ≡ some content)
        × (is_dirty client (object_of flight.path) fs' ≡ false)
  finish_upload-durable bucket config cloud now fs earlier flight later raced content {fs'} r e
        unspoiled b =
      let name : Bytes = object_of flight.path in
      let h = Interleaved-IsSafe laws bucket config cloud r in
      let own = (rest-All raced fs earlier flight later h.carried).1 in
      elim (finish_upload-settled client now flight fs (pos 0) fs' e h.consistent.stats) [
        | inl (bad, q) ↦ absurd (unfold finish_upload in ground arith)
        | inr (good, c, v, q) ↦
            subst
              (λ (g : Gcsfs client).
                (client.read_object g.cloud g.bucket_name name ≡ some content)
                × (is_dirty client name g ≡ false))
              q
              (
                own.1 good unspoiled content b,
                unfold is_dirty in
                    ground (arith, lookup-insert name name false fs.dirty_files, same_refl name),
              )
      ]
