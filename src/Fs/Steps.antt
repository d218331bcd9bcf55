-- ===== src/Fs/Steps.antt =====
-- Runs of the file system of src/gcs_fs.cpp: the callbacks as steps.
use gcscfuse.Reader.{BaseReader, base, cached, direct, dummy, ReadResult}
use gcscfuse.Reader.Coherence.{IsCoherent}
use gcscfuse.Base.Dict.{lookup}
use gcscfuse.StatCache.Cache.Invariant.{init-IsValid, set_cache_timeout-IsValid}
use gcscfuse.Fs.State.{is_dirty, Gcsfs, construct}
use gcscfuse.Base.{Bool, true, false, [], if◌then◌else◌, arith, ℕ, ◌≡◌, some}
use gcscfuse.Base.Bytes.{Bytes}
use gcscfuse.Base.Int.{ℤ}
use gcscfuse.Config.{GcsfsConfig}
use gcscfuse.Fs.Invariant.{IsConsistent, IsConsistentBut}
use gcscfuse.Fs.Invariant.Deleting.{unlink-IsConsistent}
use gcscfuse.Fs.Invariant.Keeps.{
  create-IsConsistent, write-IsConsistent, flush-IsConsistent, release-eq-flush,
}
use gcscfuse.Fs.Invariant.Loading.{read-IsConsistent, truncate-IsConsistent}
use gcscfuse.Fs.Invariant.Reading.{getattr-IsConsistent, readdir-IsConsistent}
use gcscfuse.Fs.Lookups.{getattr, readdir}
use gcscfuse.Fs.Reads.{read}
use gcscfuse.Fs.Upload.{flush, release}
use gcscfuse.Fs.Writes.{create, write, truncate, unlink}
use gcscfuse.Gcs.Laws.{StorageLaws}
use gcscfuse.Gcs.Sdk.{StorageClient}

-- One callback, with any arguments and at any time. `open` changes nothing. A callback that calls
-- the reader is a step where it returns.
pub data Step (client : StorageClient) : Gcsfs client → Gcsfs client → Type 0 where
  getattr_step :
      (now : ℕ) (path : Bytes) (fs : Gcsfs client) → Step client fs (getattr client now path fs).2
  readdir_step :
      (now : ℕ) (path : Bytes) (fs : Gcsfs client) → Step client fs (readdir client now path fs).2
  read_step :
      (fuel now : ℕ) (path : Bytes) (size offset : ℕ) (fs : Gcsfs client) (r : ReadResult)
      (fs' : Gcsfs client)
      → read client fuel now path size offset fs ≡ some (r, fs')
      → Step client fs fs'
  create_step :
      (now : ℕ) (path : Bytes) (flags : ℕ) (fs : Gcsfs client)
      → Step client fs (create client now path flags fs).2
  write_step :
      (now : ℕ) (path buf : Bytes) (offset : ℕ) (fs : Gcsfs client)
      → Step client fs (write client now path buf offset fs).1
  truncate_step :
      (fuel inner now : ℕ) (path : Bytes) (size : ℕ) (fs : Gcsfs client) (result : ℤ)
      (fs' : Gcsfs client)
      → truncate client fuel inner now path size fs ≡ some (result, fs')
      → Step client fs fs'
  flush_step :
      (now : ℕ) (path : Bytes) (fs : Gcsfs client) → Step client fs (flush client now path fs).1
  release_step :
      (now : ℕ) (path : Bytes) (fs : Gcsfs client) → Step client fs (release client now path fs).1
  unlink_step :
      (now : ℕ) (path : Bytes) (fs : Gcsfs client) → Step client fs (unlink client now path fs).1

pub data Reach (client : StorageClient) (start : Gcsfs client) : Gcsfs client → Type 0 where
  here : Reach client start start
  next :
      {fs fs' : Gcsfs client} → Reach client start fs → Step client fs fs' → Reach client start fs'

module _ {client : StorageClient} (laws : StorageLaws client) {raced : Bytes → Bool} where
  pub Step-IsConsistent :
      {fs fs' : Gcsfs client}
      → Step client fs fs'
      → IsConsistentBut client raced fs
      → IsConsistentBut client raced fs'
  Step-IsConsistent (getattr_step now path fs) h = getattr-IsConsistent client now path fs h
  Step-IsConsistent (readdir_step now path fs) h = readdir-IsConsistent client now path fs h
  Step-IsConsistent (read_step fuel now path size offset fs r fs' e) h =
      read-IsConsistent client fuel now path size offset fs h e
  Step-IsConsistent (create_step now path flags fs) h =
      create-IsConsistent client now path flags fs h
  Step-IsConsistent (write_step now path buf offset fs) h =
      write-IsConsistent client now path buf offset fs h
  Step-IsConsistent (truncate_step fuel inner now path size fs result fs' e) h =
      truncate-IsConsistent client fuel inner now path size fs h e
  Step-IsConsistent (flush_step now path fs) h = flush-IsConsistent laws now path fs h
  Step-IsConsistent (release_step now path fs) h =
      rw (release-eq-flush laws now path fs) (flush-IsConsistent laws now path fs h)
  Step-IsConsistent (unlink_step now path fs) h = unlink-IsConsistent laws now path fs h

module _ {client : StorageClient} (laws : StorageLaws client) where
  empty-IsCoherent :
      (caching : Bool) (shadowed : Bytes → Bool) (b : BaseReader) (cloud : client.Cloud)
      → IsCoherent client shadowed (if caching then cached b [] else base b) cloud
  unfolding IsCoherent lookup
  empty-IsCoherent false shadowed b cloud = tt
  empty-IsCoherent true shadowed (dummy m) cloud = λ k c e l. ground arith
  empty-IsCoherent true shadowed (direct bucket) cloud = λ k c s e l. ground arith

  -- The constructor sets up a consistent state: nothing is buffered or cached.
  pub construct-IsConsistent :
      (bucket : Bytes) (config : GcsfsConfig) (cloud : client.Cloud)
      → IsConsistent client (construct client bucket config cloud)
  unfolding construct
  construct-IsConsistent bucket config cloud = record {
    stats = set_cache_timeout-IsValid config.stat_cache_timeout init-IsValid;
    tracked = λ k d. unfold is_dirty lookup in ground arith;
    synced = λ k c b d u. unfold lookup in ground arith;
    coherent = empty-IsCoherent config.enable_file_content_cache _ _ cloud;
  }

  -- In every state that a mount reaches, by callbacks that return, what is dirty is buffered, what
  -- is buffered and clean is stored remotely with the same content, and the stat cache is well
  -- formed. With the dummy reader off, what the content cache holds of a remote object below 512 MiB
  -- that is not buffered is what the rounds load of it, which is the object itself below 1 MiB; with
  -- the dummy reader on, what it holds of any name is what the rounds load of the zeros of that
  -- reader.
  pub Reach-IsConsistent :
      (bucket : Bytes) (config : GcsfsConfig) (cloud : client.Cloud) {fs : Gcsfs client}
      → Reach client (construct client bucket config cloud) fs
      → IsConsistent client fs
  Reach-IsConsistent bucket config cloud here = construct-IsConsistent bucket config cloud
  Reach-IsConsistent bucket config cloud (next r s) =
      Step-IsConsistent laws s (Reach-IsConsistent bucket config cloud r)
