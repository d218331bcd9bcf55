-- ===== src/Fs/Invariant.antt =====
-- The invariant of the file system of src/gcs_fs.cpp: what is dirty is buffered, what is buffered
-- and clean is stored, and what the content cache holds of an object below 512 MiB that is not
-- buffered is what the rounds load of it, or with the dummy reader on of its zeros.
pub mod Keeps
pub mod Deleting
pub mod Reading
pub mod Loading
use gcscfuse.Reader.{Reader}
use gcscfuse.Base.{
  ℕ, ◌≡◌, ◌≢◌, refl, Bool, true, false, Option, none, some, arith, if◌then◌else◌, length,
  Bool-cases, inl, inr, Option-cases,
}
use gcscfuse.Base.Bytes.{Bytes, same, same_iff}
use gcscfuse.Base.Dict.{lookup, lookup-insert, lookup-erase}
use gcscfuse.Base.Int.{ℤ, pos}
use gcscfuse.Fs.State.{Gcsfs, is_present, is_dirty, mark_dirty, with_stat_cache}
use gcscfuse.Fs.Writes.{put_buffer}
use gcscfuse.Gcs.Sdk.{StorageClient}
use gcscfuse.Reader.Coherence.{IsCoherent}
use gcscfuse.Reader.Coherence.Keeps.{shadow-IsCoherent}
use gcscfuse.StatCache.Cache.{StatCache}
use gcscfuse.StatCache.Cache.Invariant.{IsValid}

module _ (client : StorageClient) where
  -- The names that the write buffers hide from the reader.
  abbrev pub buffered : Gcsfs client → Bytes → Bool
  buffered fs k = is_present (lookup k fs.write_buffers)

  -- Consistent, but for what the remote store has of the names that a race spoiled.
  pub record IsConsistentBut (raced : Bytes → Bool) (fs : Gcsfs client) : Type 0 where
    pub stats : IsValid fs.stat_cache
    pub tracked : (k : Bytes) → is_dirty client k fs ≡ true → buffered fs k ≡ true
    pub synced :
        (k content : Bytes)
        → lookup k fs.write_buffers ≡ some content
        → is_dirty client k fs ≡ false
        → raced k ≡ false
        → client.read_object fs.cloud fs.bucket_name k ≡ some content
    pub coherent : IsCoherent client (buffered fs) fs.reader fs.cloud

  abbrev pub IsConsistent : Gcsfs client → Type 0
  IsConsistent fs = IsConsistentBut (λ k. false) fs

  pub clean-stored :
      {fs : Gcsfs client}
      → IsConsistent fs
      → (k content : Bytes) → lookup k fs.write_buffers ≡ some content
      → is_dirty client k fs ≡ false
      → client.read_object fs.cloud fs.bucket_name k ≡ some content
  clean-stored h k content b d = h.synced k content b d refl

module _ (client : StorageClient) {raced : Bytes → Bool} where
  -- A change of the stat cache alone.
  pub with_stat_cache-IsConsistent :
      (change : StatCache → StatCache) (fs : Gcsfs client)
      → ((c : StatCache) → IsValid c → IsValid (change c))
      → IsConsistentBut client raced fs
      → IsConsistentBut client raced (with_stat_cache client change fs)
  unfolding is_dirty
  with_stat_cache-IsConsistent change fs keep h = elim (Bool-cases fs.config.enable_stat_cache) [
    | inl e ↦ simp e (record {
      stats = keep fs.stat_cache h.stats;
      tracked = h.tracked;
      synced = h.synced;
      coherent = h.coherent;
    })
    | inr e ↦ simp e h
  ]

  -- A new buffer that is marked dirty.
  pub put_dirty-IsConsistent :
      (name content : Bytes) (fs : Gcsfs client)
      → IsConsistentBut client raced fs
      → IsConsistentBut client raced (mark_dirty client name (put_buffer client name content fs))
  unfolding is_dirty mark_dirty
  put_dirty-IsConsistent name content fs h = record {
    stats = h.stats;
    tracked = λ k d. ground (
      arith,
      lookup-insert name k content fs.write_buffers,
      lookup-insert name k true fs.dirty_files,
      h.tracked k,
    );
    synced = λ k c b d u. ground (
      arith,
      lookup-insert name k content fs.write_buffers,
      lookup-insert name k true fs.dirty_files,
      h.synced k c,
    );
    coherent =
        shadow-IsCoherent client (buffered client fs)
          (buffered client (mark_dirty client name (put_buffer client name content fs))) fs.reader
          fs.cloud fs.cloud h.coherent
          (λ k s. ground (arith, lookup-insert name k content fs.write_buffers)) (λ b k s. refl);
  }

  -- A reader that read.
  pub reader-IsConsistent :
      (fs : Gcsfs client) (r : Reader)
      → IsCoherent client (buffered client fs) r fs.cloud
      → IsConsistentBut client raced fs
      → IsConsistentBut client raced (record fs { reader = r })
  unfolding is_dirty
  reader-IsConsistent fs r c h = record {
    stats = h.stats;
    tracked = h.tracked;
    synced = h.synced;
    coherent = c;
  }
