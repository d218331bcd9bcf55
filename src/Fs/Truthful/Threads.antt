-- ===== src/Fs/Truthful/Threads.antt =====
-- The stat cache of src/gcs_fs.cpp while uploads of other threads are under way.
use gcscfuse.Base.{length, ℕ, ◌≡◌, some, true, inl, inr, arith, Bool-cases}
use gcscfuse.Base.Bytes.{Bytes}
use gcscfuse.Base.Dict.{lookup}
use gcscfuse.Base.Int.{ℤ}
use gcscfuse.Config.{GcsfsConfig}
use gcscfuse.Fs.Interleaved.{
  Flight, Threads, Interleaving, Interleaved, alone, begun, finished, finished_erased, begin,
  proceed, finish_upload, settled,
}
use gcscfuse.Fs.Interleaved.Carried.{IsSafe, begin_upload-sent, rest-All}
use gcscfuse.Fs.Interleaved.Keeps.{mounted, Interleaved-IsSafe}
use gcscfuse.Fs.Invariant.{buffered}
use gcscfuse.Fs.State.{Gcsfs, object_of, with_stat_cache}
use gcscfuse.Fs.Writes.{buffer_or_new}
use gcscfuse.StatCache.Cache.{insert_file}
use gcscfuse.Fs.Truthful.{IsTruthful, IsNormal, MetadataLaws}
use gcscfuse.Fs.Truthful.Lookups.{file_recorded}
use gcscfuse.Fs.Truthful.Remote.{sent-IsTruthful}
use gcscfuse.Fs.Truthful.Runs.{IsNormalStep, Step-IsTruthful, construct-IsTruthful}
use gcscfuse.Gcs.Laws.{StorageLaws}
use gcscfuse.Gcs.Sdk.{StorageClient}
use mathlib.Core.Path.{subst}

-- The path of a callback or an upload is as FUSE passes it.
abbrev pub IsNormalTurn :
    {client : StorageClient} {t t' : Threads client} → Interleaving client t t' → Type 0
IsNormalTurn (alone t s) = IsNormalStep s
IsNormalTurn (begun path t dirty e) = IsNormal path
IsNormalTurn (finished now fs earlier flight later raced e) = IsNormal flight.path
IsNormalTurn (finished_erased now size fs earlier flight later raced good e) = IsNormal flight.path

abbrev pub AreNormalTurns :
    {client : StorageClient} {start t : Threads client} → Interleaved client start t → Type 0
AreNormalTurns begin = Unit
AreNormalTurns (proceed r s) = AreNormalTurns r × IsNormalTurn s

-- No upload used a buffer that `unlink` had erased.
abbrev pub IsDefinedTurn :
    {client : StorageClient} {t t' : Threads client} → Interleaving client t t' → Type 0
IsDefinedTurn (alone t s) = Unit
IsDefinedTurn (begun path t dirty e) = Unit
IsDefinedTurn (finished now fs earlier flight later raced e) = Unit
IsDefinedTurn (finished_erased now size fs earlier flight later raced good e) = ⊥

abbrev pub AreDefinedTurns :
    {client : StorageClient} {start t : Threads client} → Interleaved client start t → Type 0
AreDefinedTurns begin = Unit
AreDefinedTurns (proceed r s) = AreDefinedTurns r × IsDefinedTurn s

module _ (client : StorageClient) where
  settled-IsTruthful :
      (name : Bytes) (fs : Gcsfs client)
      → IsTruthful client fs
      → IsTruthful client (settled client name fs)
  settled-IsTruthful name fs h = record { stats = h.stats; files = h.files }

  -- The end of an upload, which records the size of a buffer that is there.
  finished-IsTruthful :
      (now : ℕ) (flight : Flight) (fs : Gcsfs client) {result : ℤ} {fs' : Gcsfs client}
      → finish_upload client now flight fs ≡ some (result, fs')
      → (flight.live ≡ true → buffered client fs (object_of flight.path) ≡ true)
      → IsNormal flight.path
      → IsTruthful client fs
      → IsTruthful client fs'
  unfolding finish_upload
  finished-IsTruthful now flight fs {result} {fs'} e live n h =
      let over : Gcsfs client = settled client (object_of flight.path) fs in
      let size : ℕ = length (buffer_or_new (lookup (object_of flight.path) fs.write_buffers)) in
      elim (Bool-cases flight.success) [
        | inr bad ↦ let k : fs ≡ fs' = ground arith in subst (IsTruthful client) k h
        | inl good ↦ elim (Bool-cases fs.config.enable_stat_cache) [
          | inr off ↦
              let k : over ≡ fs' = ground arith in
              subst (IsTruthful client) k (settled-IsTruthful (object_of flight.path) fs h)
          | inl on ↦ elim (Bool-cases flight.live) [
            | inr erased ↦ absurd (ground arith)
            | inl there ↦
                let k : with_stat_cache client (insert_file now flight.path size now) over ≡ fs' =
                  ground arith in
                subst (IsTruthful client) k (
                  file_recorded now flight.path size now over
                    (settled-IsTruthful (object_of flight.path) fs h) n
                    (λ b. absurd (ground (arith, live there))))
          ]
        ]
      ]

module _ {client : StorageClient} (laws : StorageLaws client) (metadata : MetadataLaws client) where
  Interleaving-IsTruthful :
      {t t' : Threads client} (s : Interleaving client t t')
      → IsNormalTurn s
      → IsDefinedTurn s
      → IsSafe t
      → IsTruthful client t.fs
      → IsTruthful client t'.fs
  Interleaving-IsTruthful (alone t s) n d safe h = Step-IsTruthful laws metadata s n h
  Interleaving-IsTruthful (begun path t {flight} {fs'} dirty e) n d safe h =
      let (content, b, q) = begin_upload-sent client path t.fs (flight, fs') e in
      subst (λ (r : Flight × Gcsfs client). IsTruthful client r.1) q
        (sent-IsTruthful laws (object_of path) content content t.fs b h)
  Interleaving-IsTruthful (finished now fs earlier flight later raced e) n d safe h =
      finished-IsTruthful client now flight fs e
        (rest-All raced fs earlier flight later safe.carried).1.0 n h
  Interleaving-IsTruthful (finished_erased now size fs earlier flight later raced good e) n d safe
        h =
      absurd d

  -- With the laws of the storage library and of its metadata, however the callbacks of several threads
  -- interleave with uploads that are under way, on paths as FUSE passes them, as long as no successful
  -- upload ended, with the stat cache on, after `unlink` erased its buffer: the stat cache is well
  -- formed, and whatever path below the root it records as a regular file, fresh or expired, whose
  -- object is not buffered, that object is stored in the bucket, with the recorded size. The
  -- callbacks other than uploads run without interruption, and an upload takes effect remotely when
  -- it begins.
  pub Interleaved-IsTruthful :
      (bucket : Bytes) (config : GcsfsConfig) (cloud : client.Cloud) {t : Threads client}
      (run : Interleaved client (mounted laws bucket config cloud) t)
      → AreNormalTurns run
      → AreDefinedTurns run
      → IsTruthful client t.fs
  Interleaved-IsTruthful bucket config cloud begin n d =
      construct-IsTruthful laws metadata bucket config cloud
  Interleaved-IsTruthful bucket config cloud (proceed r s) n d =
      Interleaving-IsTruthful s n.1 d.1 (Interleaved-IsSafe laws bucket config cloud r)
        (Interleaved-IsTruthful bucket config cloud r n.0 d.0)
