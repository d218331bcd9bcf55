-- ===== src/Fs/Frame/Runs.antt =====
-- Runs of the callbacks of src/gcs_fs.cpp that leave a file alone.
use gcscfuse.Base.{[], ℕ, ◌≡◌, false, refl, arith, ap, ◌∙◌}
use gcscfuse.Base.Bytes.{Bytes, same}
use gcscfuse.Base.Dict.{lookup, lookup-erase, lookup-insert}
use gcscfuse.Fs.Contents.{contents, buffered_or, contents-create-write}
use gcscfuse.Fs.Contents.Durable.{contents-flush, contents-unlink}
use gcscfuse.Fs.Frame.Leaves.{read-leaves, truncate-leaves}
use gcscfuse.Fs.Invariant.Keeps.{release-eq-flush}
use gcscfuse.Fs.Lookups.{getattr, readdir}
use gcscfuse.Fs.Spec.Changes.{truncated-Sets}
use gcscfuse.Fs.Spec.Quiet.{core, core-getattr, core-readdir}
use gcscfuse.Fs.State.{Gcsfs, object_of, mark_dirty}
use gcscfuse.Fs.Steps.{
  Step, Reach, here, next, getattr_step, readdir_step, read_step, create_step, write_step,
  truncate_step, flush_step, release_step, unlink_step,
}
use gcscfuse.Fs.Upload.{flush, upload_to_gcs, after_upload}
use gcscfuse.Fs.Writes.{buffer_or_new, overwritten, create, write, unlink, after_delete, truncated}
use gcscfuse.Gcs.Laws.{StorageLaws}
use gcscfuse.Gcs.Sdk.{StorageClient}
use mathlib.Core.Path.{ap₂, subst}

-- The callback does not create, write, truncate or delete the file of this object. It may read it,
-- look it up or upload it.
abbrev pub SparesStep :
    {client : StorageClient} {fs fs' : Gcsfs client} → Bytes → Step client fs fs' → Type 0
SparesStep name (getattr_step now path fs) = Unit
SparesStep name (readdir_step now path fs) = Unit
SparesStep name (read_step fuel now path size offset fs r fs' e) = Unit
SparesStep name (create_step now path flags fs) = same (object_of path) name ≡ false
SparesStep name (write_step now path buf offset fs) = same (object_of path) name ≡ false
SparesStep name (truncate_step fuel inner now path size fs result fs' e) =
    same (object_of path) name ≡ false
SparesStep name (flush_step now path fs) = Unit
SparesStep name (release_step now path fs) = Unit
SparesStep name (unlink_step now path fs) = same (object_of path) name ≡ false

abbrev pub Spares :
    {client : StorageClient} {start fs : Gcsfs client} → Bytes → Reach client start fs → Type 0
Spares name here = Unit
Spares name (next r s) = Spares name r × SparesStep name s

module _ (client : StorageClient) where
  -- The buffer and the content of the file are the same in both states.
  abbrev pub Keeps : Bytes → Gcsfs client → Gcsfs client → Type 0
  Keeps name fs fs' =
      (lookup name fs'.write_buffers ≡ lookup name fs.write_buffers)
      × (contents client fs' name ≡ contents client fs name)

  quiet-Keeps :
      (name : Bytes) (fs fs' : Gcsfs client) → core client fs' ≡ core client fs → Keeps name fs fs'
  quiet-Keeps name fs fs' e = (
    ap (λ s. lookup name s.3) e,
    ap (λ s. buffered_or (lookup name s.3) (client.read_object s.1 s.0 name)) e,
  )

  truncated-Keeps :
      (name : Bytes) (now : ℕ) (path : Bytes) (size : ℕ) (content : Bytes) (fs : Gcsfs client)
      → same (object_of path) name ≡ false
      → Keeps name fs (truncated client now path size content fs).1
  truncated-Keeps name now path size content fs other =
      let (stored, sets) = truncated-Sets client now path size content fs in
      let b : lookup name (truncated client now path size content fs).1.write_buffers
          ≡ lookup name fs.write_buffers =
        ground (arith, sets name) in
      (b, ap₂ buffered_or b (stored name))

module _ {client : StorageClient} (laws : StorageLaws client) where
  flush-Keeps :
      (name : Bytes) (now : ℕ) (path : Bytes) (fs : Gcsfs client)
      → Keeps client name fs (flush client now path fs).1
  unfolding flush upload_to_gcs after_upload
  flush-Keeps name now path fs = (ground arith, contents-flush laws now path fs name)

  unlink-Keeps :
      (name : Bytes) (now : ℕ) (path : Bytes) (fs : Gcsfs client)
      → same (object_of path) name ≡ false
      → Keeps client name fs (unlink client now path fs).1
  unlink-Keeps name now path fs other = (
    unfold unlink after_delete in
        ground (arith, lookup-erase (object_of path) name fs.write_buffers),
    ground (arith, contents-unlink laws now path fs name),
  )

  Step-Keeps :
      (name : Bytes) {fs fs' : Gcsfs client} (s : Step client fs fs')
      → SparesStep name s
      → Keeps client name fs fs'
  Step-Keeps name (getattr_step now path fs) spares =
      quiet-Keeps client name fs (getattr client now path fs).2 (core-getattr client now path fs)
  Step-Keeps name (readdir_step now path fs) spares =
      quiet-Keeps client name fs (readdir client now path fs).2 (core-readdir client now path fs)
  Step-Keeps name (read_step fuel now path size offset fs r fs' e) spares =
      let (reader, k) = read-leaves client fuel now path size offset fs e in
      subst (Keeps client name fs) k (refl, refl)
  Step-Keeps name (create_step now path flags fs) spares = (
    unfold create mark_dirty in
        ground (arith, lookup-insert (object_of path) name [] fs.write_buffers),
    ground (arith, (contents-create-write client now path [] flags 0 fs name).0),
  )
  Step-Keeps name (write_step now path buf offset fs) spares = (
    unfold write mark_dirty in
        ground (
          arith,
          lookup-insert (object_of path) name
              (overwritten buf offset (buffer_or_new (lookup (object_of path) fs.write_buffers)))
              fs.write_buffers,
        ),
    ground (arith, (contents-create-write client now path buf 0 offset fs name).1),
  )
  Step-Keeps name (truncate_step fuel inner now path size fs result fs' e) spares =
      let (content, reader, k) = truncate-leaves client fuel inner now path size fs e in
      subst (Keeps client name fs) k
        (truncated-Keeps client name now path size content (record fs { reader = reader }) spares)
  Step-Keeps name (flush_step now path fs) spares = flush-Keeps name now path fs
  Step-Keeps name (release_step now path fs) spares =
      rw (release-eq-flush laws now path fs) (flush-Keeps name now path fs)
  Step-Keeps name (unlink_step now path fs) spares = unlink-Keeps name now path fs spares

  -- With the laws of the storage library, over any run of callbacks that return, from any state: if
  -- none of them creates, writes, truncates or deletes the file of a name, then the content of this
  -- file and its write buffer are at the end what they were at the start, whatever was read, looked
  -- up, uploaded or done to other files, and whichever uploads failed.
  pub contents-Reach :
      (name : Bytes) {start fs : Gcsfs client} (run : Reach client start fs)
      → Spares name run
      → (contents client fs name ≡ contents client start name)
        × (lookup name fs.write_buffers ≡ lookup name start.write_buffers)
  contents-Reach name here spares = (refl, refl)
  contents-Reach name (next r s) spares =
      let (c, b) = contents-Reach name r spares.0 in
      let (b', c') = Step-Keeps name s spares.1 in (c' ∙ c, b' ∙ b)
