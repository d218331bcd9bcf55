-- ===== src/Fs/Truthful/Runs.antt =====
-- Runs of the file system of src/gcs_fs.cpp on the paths that FUSE passes.
use gcscfuse.Base.{◌∷◌, []}
use gcscfuse.Base.Bytes.{Bytes}
use gcscfuse.Config.{GcsfsConfig}
use gcscfuse.Fs.Invariant.Keeps.{release-eq-flush}
use gcscfuse.Fs.State.{Gcsfs, construct}
use gcscfuse.Fs.Steps.{
  Step, Reach, here, next, getattr_step, readdir_step, read_step, create_step, write_step,
  truncate_step, flush_step, release_step, unlink_step,
}
use gcscfuse.Fs.Truthful.{IsTruthful, IsNormal, MetadataLaws}
use gcscfuse.Fs.Truthful.Changes.{
  create-IsTruthful, write-IsTruthful, read-IsTruthful, truncate-IsTruthful,
}
use gcscfuse.Fs.Truthful.Entries.{readdir-IsTruthful}
use gcscfuse.Fs.Truthful.Lookups.{getattr-IsTruthful}
use gcscfuse.Fs.Truthful.Remote.{flush-IsTruthful, unlink-IsTruthful}
use gcscfuse.Gcs.Laws.{StorageLaws}
use gcscfuse.Gcs.Sdk.{StorageClient}
use gcscfuse.StatCache.Cache.History.{view-cache_after, timeout_set}
use gcscfuse.StatCache.Cache.Invariant.{init-IsValid, set_cache_timeout-IsValid}

-- The path of a callback is as FUSE passes it.
abbrev pub IsNormalStep :
    {client : StorageClient} {fs fs' : Gcsfs client} → Step client fs fs' → Type 0
IsNormalStep (getattr_step now path fs) = IsNormal path
IsNormalStep (readdir_step now path fs) = IsNormal path
IsNormalStep (read_step fuel now path size offset fs r fs' e) = IsNormal path
IsNormalStep (create_step now path flags fs) = IsNormal path
IsNormalStep (write_step now path buf offset fs) = IsNormal path
IsNormalStep (truncate_step fuel inner now path size fs result fs' e) = IsNormal path
IsNormalStep (flush_step now path fs) = IsNormal path
IsNormalStep (release_step now path fs) = IsNormal path
IsNormalStep (unlink_step now path fs) = IsNormal path

abbrev pub IsNormalRun :
    {client : StorageClient} {start fs : Gcsfs client} → Reach client start fs → Type 0
IsNormalRun here = Unit
IsNormalRun (next r s) = IsNormalRun r × IsNormalStep s

module _ {client : StorageClient} (laws : StorageLaws client) (metadata : MetadataLaws client) where
  pub Step-IsTruthful :
      {fs fs' : Gcsfs client} (s : Step client fs fs')
      → IsNormalStep s
      → IsTruthful client fs
      → IsTruthful client fs'
  Step-IsTruthful (getattr_step now path fs) n h = getattr-IsTruthful metadata now path fs n h
  Step-IsTruthful (readdir_step now path fs) n h = readdir-IsTruthful metadata now path fs n h
  Step-IsTruthful (read_step fuel now path size offset fs r fs' e) n h =
      read-IsTruthful client fuel now path size offset fs h e
  Step-IsTruthful (create_step now path flags fs) n h =
      create-IsTruthful client now path flags fs n h
  Step-IsTruthful (write_step now path buf offset fs) n h =
      write-IsTruthful client now path buf offset fs n h
  Step-IsTruthful (truncate_step fuel inner now path size fs result fs' e) n h =
      truncate-IsTruthful client fuel inner now path size fs n h e
  Step-IsTruthful (flush_step now path fs) n h = flush-IsTruthful laws now path fs n h
  Step-IsTruthful (release_step now path fs) n h =
      rw (release-eq-flush laws now path fs) (flush-IsTruthful laws now path fs n h)
  Step-IsTruthful (unlink_step now path fs) n h = unlink-IsTruthful laws now path fs h

  pub construct-IsTruthful :
      (bucket : Bytes) (config : GcsfsConfig) (cloud : client.Cloud)
      → IsTruthful client (construct client bucket config cloud)
  unfolding construct
  construct-IsTruthful bucket config cloud = record {
    stats = set_cache_timeout-IsValid config.stat_cache_timeout init-IsValid;
    files = record {
      holds =
          λ c cs k. rw (view-cache_after (timeout_set config.stat_cache_timeout ∷ []) (c ∷ cs)) tt;
    };
  }

  -- With the laws of the storage library and of its metadata, in every state that a mount reaches by
  -- callbacks that return, on paths as FUSE passes them: the stat cache is well formed, and whatever
  -- path below the root it records as a regular file, fresh or expired, whose object is not buffered,
  -- that object is stored in the bucket, with the recorded size.
  pub Reach-IsTruthful :
      (bucket : Bytes) (config : GcsfsConfig) (cloud : client.Cloud) {fs : Gcsfs client}
      (run : Reach client (construct client bucket config cloud) fs)
      → IsNormalRun run
      → IsTruthful client fs
  Reach-IsTruthful bucket config cloud here n = construct-IsTruthful bucket config cloud
  Reach-IsTruthful bucket config cloud (next r s) n =
      Step-IsTruthful s n.1 (Reach-IsTruthful bucket config cloud r n.0)
