-- ===== src/Fs/Spec/Refines.antt =====
-- Runs of the callbacks of src/gcs_fs.cpp against the specification.
use gcscfuse.Fs.Contents.Stored.Rounds.{looped}
use gcscfuse.Base.{ℕ, ◌+◌, none, ◌≤◌, ◌∷◌, ◌<◌, ◌≡◌, [], List, length, true, false, refl}
use gcscfuse.Fs.Lookups.{readdir, getattr}
use gcscfuse.Fs.Spec.Remote.{Does-unlink, Does-flush}
use gcscfuse.Fs.Invariant.Keeps.{release-eq-flush}
use gcscfuse.Fs.Spec.Reading.{Does-truncate, Does-read}
use gcscfuse.Fs.Spec.Changes.{
  Does-write, write-SameReader, transport-IsDirect, Does-create, create-SameReader, Does-quiet,
  files, IsDirect,
}
use gcscfuse.Fs.Writes.{unlink}
use gcscfuse.Fs.Spec.{
  unlinked, flushed, resized, created, Ran, Does, looked, Event, served, written,
}
use gcscfuse.Fs.Upload.{release, flush, is_zero}
use gcscfuse.Fs.Steps.{
  unlink_step, release_step, flush_step, truncate_step, write_step, Reach-IsConsistent, create_step,
  read_step, readdir_step, getattr_step, next, Reach, Step, here,
}
use gcscfuse.Reader.{size_mod}
use gcscfuse.Fs.Spec.Quiet.{core-getattr, core-readdir}
use gcscfuse.Reader.Loading.Needed.{needed}
use gcscfuse.Fs.State.{is_valid_path, object_of, construct, Gcsfs}
use gcscfuse.Base.Dict.{lookup}
use gcscfuse.Reader.Loading.{content_at}
use gcscfuse.Config.{GcsfsConfig}
use gcscfuse.Fs.Invariant.{IsConsistent}
use gcscfuse.Base.Bytes.{Bytes}
use gcscfuse.Gcs.Laws.{StorageLaws}
use gcscfuse.Gcs.Sdk.{StorageClient}

module _ (client : StorageClient) where
  -- What a step is in the specification.
  abbrev pub event : {fs fs' : Gcsfs client} → Step client fs fs' → Event
  event (getattr_step now path fs) = looked
  event (readdir_step now path fs) = looked
  event (read_step fuel now path size offset fs r fs' e) =
      served (object_of path) size offset (is_valid_path client now path fs) r
  event (create_step now path flags fs) = created (object_of path)
  event (write_step now path buf offset fs) = written (object_of path) buf offset
  event (truncate_step fuel inner now path size fs result fs' e) =
      resized (object_of path) size (is_valid_path client now path fs)
  event (flush_step now path fs) = flushed (object_of path) (is_zero (flush client now path fs).0)
  event (release_step now path fs) =
      flushed (object_of path) (is_zero (release client now path fs).0)
  event (unlink_step now path fs) =
      unlinked (object_of path) (is_zero (unlink client now path fs).0)

  -- The object is below 512 MiB, and the fuel covers the rounds that it needs.
  abbrev pub IsLoadable : ℕ → Bytes → Gcsfs client → Type 0
  IsLoadable fuel path fs =
      let content = content_at client fs.bucket_name (object_of path) fs.cloud in
      (length content < 536870912) × (needed content ≤ fuel)

  -- What a call of the reader needs: an object below 512 MiB and the rounds that it needs; for a
  -- read a range below the limits of `int` and `size_t`, for `truncate` the rounds of its loop.
  abbrev pub InLimits : {fs fs' : Gcsfs client} → Step client fs fs' → Type 0
  InLimits (getattr_step now path fs) = Unit
  InLimits (readdir_step now path fs) = Unit
  InLimits (read_step fuel now path size offset fs r fs' e) =
      (size < 2147483648) × (offset + size < size_mod) × IsLoadable fuel path fs
  InLimits (create_step now path flags fs) = Unit
  InLimits (write_step now path buf offset fs) = Unit
  InLimits (truncate_step fuel inner now path size fs result fs' e) =
      (looped (content_at client fs.bucket_name (object_of path) fs.cloud) ≤ fuel)
      × IsLoadable inner path fs
  InLimits (flush_step now path fs) = Unit
  InLimits (release_step now path fs) = Unit
  InLimits (unlink_step now path fs) = Unit

  abbrev pub events : {start fs : Gcsfs client} → Reach client start fs → List Event
  events here = []
  events (next r s) = event s ∷ events r

  abbrev pub AllInLimits : {start fs : Gcsfs client} → Reach client start fs → Type 0
  AllInLimits here = Unit
  AllInLimits (next r s) = InLimits s × AllInLimits r

module _ {client : StorageClient} (laws : StorageLaws client) where
  Step-Does :
      {fs fs' : Gcsfs client} (s : Step client fs fs')
      → InLimits client s
      → IsConsistent client fs
      → IsDirect fs.bucket_name fs.reader
      → Does (event client s) (files client fs) (files client fs')
        × IsDirect fs'.bucket_name fs'.reader
  Step-Does (getattr_step now path fs) l h d =
      Does-quiet client fs (getattr client now path fs).2 (core-getattr client now path fs) d
  Step-Does (readdir_step now path fs) l h d =
      Does-quiet client fs (readdir client now path fs).2 (core-readdir client now path fs) d
  Step-Does (read_step fuel now path size offset fs r fs' e) l h d =
      Does-read client fuel now path size offset fs h d l.2.0 l.2.1 l.0 l.1 e
  Step-Does (create_step now path flags fs) l h d =
      let same = create-SameReader client now path flags fs in
      (Does-create client now path flags fs, transport-IsDirect same.0 same.1 d)
  Step-Does (write_step now path buf offset fs) l h d =
      let same = write-SameReader client now path buf offset fs in
      (Does-write client now path buf offset fs, transport-IsDirect same.0 same.1 d)
  Step-Does (truncate_step fuel inner now path size fs result fs' e) l h d =
      Does-truncate client fuel inner now path size fs h d l.1.0 l.1.1 l.0 e
  Step-Does (flush_step now path fs) l h d = Does-flush laws now path fs h d
  Step-Does (release_step now path fs) l h d =
      rw (release-eq-flush laws now path fs) (Does-flush laws now path fs h d)
  Step-Does (unlink_step now path fs) l h d = Does-unlink laws now path fs d

  Reach-Does :
      (bucket : Bytes) (config : GcsfsConfig) (cloud : client.Cloud) {fs : Gcsfs client}
      → config.enable_file_content_cache ≡ true
      → config.enable_dummy_reader ≡ false
      → (r : Reach client (construct client bucket config cloud) fs) → AllInLimits client r
      → Ran
          (events client r)
          (files client (construct client bucket config cloud))
          (files client fs)
        × IsDirect fs.bucket_name fs.reader
  unfolding construct
  Reach-Does bucket config cloud caching real here l =
      ((λ k. refl, λ k. refl), rw (caching, real) refl)
  Reach-Does bucket config cloud caching real (next r s) l =
      let (ran, d) = Reach-Does bucket config cloud caching real r l.1 in
      let (does, d') = Step-Does s l.0 (Reach-IsConsistent laws bucket config cloud r) d in
      ((_, ran, does), d')

  -- With the content cache on and the dummy reader off, every sequence of callbacks that return,
  -- from the start of a mount, is a run of the specification from the stored objects and no buffer:
  -- each callback does what its event says, whatever the caches hold. A read of a valid path returns
  -- the requested part of the buffer of its file, or without one of what the rounds load of its
  -- object, and of another path `-ENOENT`. `truncate` resizes a buffer that is not empty; without a
  -- buffer what such a read shows, or an empty text where the path is not valid; of a valid path with
  -- an empty buffer it resizes a text that the specification leaves open. Whether its path was valid
  -- is part of the event. Where a callback reads, the object is below 512 MiB, the range is below the limits of `int` and
  -- `size_t`, and there is one round of fuel for an object below 1 MiB and eleven else; `truncate`
  -- has two rounds of its own loop for an object below 1 MiB and thirteen else.
  pub Reach-Ran :
      (bucket : Bytes) (config : GcsfsConfig) (cloud : client.Cloud) {fs : Gcsfs client}
      → config.enable_file_content_cache ≡ true
      → config.enable_dummy_reader ≡ false
      → (r : Reach client (construct client bucket config cloud) fs) → AllInLimits client r
      → Ran
          (events client r)
          (record { stored = λ k. client.read_object cloud bucket k; buffer = λ k. none })
          (files client fs)
  unfolding construct lookup
  Reach-Ran bucket config cloud caching real r l =
      (Reach-Does bucket config cloud caching real r l).0
