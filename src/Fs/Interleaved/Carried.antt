-- ===== src/Fs/Interleaved/Carried.antt =====
-- The uploads of src/gcs_fs.cpp that are under way, and what they rely on.
use gcscfuse.Base.{
  ℕ, ◌≡◌, ◌∙◌, ap, sym, refl, Bool, true, false, List, [], ◌∷◌, ◌++◌, Option, none, some, map, ◌⊎◌,
  inl, inr, All, arith, Bool-cases, Option-cases, length,
}
use gcscfuse.Base.Bytes.{Bytes, same_refl, same-eq}
use gcscfuse.Base.Dict.{lookup}
use gcscfuse.Base.Int.{ℤ}
use gcscfuse.StatCache.Cache.{insert_file, StatCache}
use gcscfuse.StatCache.Cache.Invariant.{insert_file-IsValid, IsValid}
use gcscfuse.Fs.Writes.{buffer_or_new}
use gcscfuse.Fs.Interleaved.{
  Flight, Threads, begin_upload, finish_upload, untouched, is_flying, spoiled, watched, settled,
  same_option,
}
use gcscfuse.Fs.Invariant.Keeps.{settled-IsConsistent}
use gcscfuse.Fs.Invariant.{IsConsistentBut, buffered}
use gcscfuse.Fs.State.{Gcsfs, is_dirty, object_of}
use gcscfuse.Gcs.Client
use gcscfuse.Gcs.Sdk.{StorageClient}

same_option-eq : (a b : Option Bytes) → same_option a b ≡ true → a ≡ b
same_option-eq none none h = refl
same_option-eq (some a) (some b) h = ap some (same-eq a b h)
same_option-eq none (some b) h = absurd (ground arith)
same_option-eq (some a) none h = absurd (ground arith)

module _ {client : StorageClient} where
  pub untouched-eq :
      (k : Bytes) (fs fs' : Gcsfs client)
      → untouched client k fs fs' ≡ true
      → (lookup k fs.write_buffers ≡ lookup k fs'.write_buffers)
        × (client.read_object fs.cloud fs.bucket_name k
            ≡ client.read_object fs'.cloud fs'.bucket_name k)
  unfolding untouched
  untouched-eq k fs fs' h = (same_option-eq _ _ (ground arith), same_option-eq _ _ (ground arith))

  -- More races are excused, or the file is dirty.
  pub excused-IsConsistent :
      {raced raced' : Bytes → Bool} {fs : Gcsfs client}
      → ((k : Bytes) → raced' k ≡ false → (raced k ≡ false) ⊎ (is_dirty client k fs ≡ true))
      → IsConsistentBut client raced fs
      → IsConsistentBut client raced' fs
  excused-IsConsistent more h = record {
    stats = h.stats;
    tracked = h.tracked;
    synced =
        λ k c b d u. elim (more k u) [ inl e ↦ h.synced k c b d e | inr e ↦ absurd (ground arith) ];
    coherent = h.coherent;
  }

  -- An upload refers to a buffer while that is there, and what it stored is the buffer, unless a
  -- race spoiled the file.
  abbrev pub IsCarried : (Bytes → Bool) → Gcsfs client → Flight → Type 0
  IsCarried raced fs flight =
      (flight.live ≡ true → buffered client fs (object_of flight.path) ≡ true)
      × (flight.success ≡ true
          → raced (object_of flight.path) ≡ false
          → (content : Bytes) → lookup (object_of flight.path) fs.write_buffers ≡ some content
          → client.read_object fs.cloud fs.bucket_name (object_of flight.path) ≡ some content)

  pub record IsSafe (t : Threads client) : Type 0 where
    pub consistent : IsConsistentBut client t.raced t.fs
    pub carried : All (IsCarried t.raced t.fs) t.flights

  alone-IsCarried :
      (t : Threads client) (fs' : Gcsfs client) (flight : Flight)
      → is_flying (object_of flight.path) t.flights ≡ true
      → IsCarried t.raced t.fs flight
      → IsCarried (spoiled client t fs') fs' (watched client fs' flight)
  alone-IsCarried t fs' flight flies h = (
    λ l. ground arith,
    λ s u c b.
        let (same_buffer, same_object) =
          untouched-eq (object_of flight.path) t.fs fs' (ground arith) in
        sym same_object ∙ h.1 s (ground arith) c (same_buffer ∙ b),
  )

  pub alone-All :
      (t : Threads client) (fs' : Gcsfs client) (flights : List Flight)
      → ((k : Bytes) → is_flying k flights ≡ true → is_flying k t.flights ≡ true)
      → All (IsCarried t.raced t.fs) flights
      → All (IsCarried (spoiled client t fs') fs') (map (watched client fs') flights)
  alone-All t fs' [] fly h = tt
  alone-All t fs' (f ∷ flights) fly (c, h) = (
    alone-IsCarried t fs' f (fly (object_of f.path) (ground (arith, same_refl (object_of f.path))))
        c,
    alone-All t fs' flights (λ k e. fly k (ground arith)) h,
  )

  -- The end of an upload changes no buffer and no object.
  pub rest-All :
      (raced : Bytes → Bool) (fs : Gcsfs client) (earlier : List Flight) (flight : Flight)
      (later : List Flight)
      → All (IsCarried raced fs) (earlier ++ flight ∷ later)
      → All (IsCarried raced fs) (earlier ++ later) × IsCarried raced fs flight
  rest-All raced fs [] flight later (c, h) = (h, c)
  rest-All raced fs (e ∷ earlier) flight later (c, h) =
      let (rest, own) = rest-All raced fs earlier flight later h in ((c, rest), own)

  pub map-All :
      (raced : Bytes → Bool) (fs fs' : Gcsfs client) (flights : List Flight)
      → ((f : Flight) → IsCarried raced fs f → IsCarried raced fs' f)
      → All (IsCarried raced fs) flights
      → All (IsCarried raced fs') flights
  map-All raced fs fs' [] each h = tt
  map-All raced fs fs' (f ∷ flights) each (c, h) = (each f c, map-All raced fs fs' flights each h)

module _ (client : StorageClient) where
  -- The state and the upload after the remote call for a buffer.
  abbrev pub sent : Gcsfs client → Bytes → Bytes → Flight × Gcsfs client
  sent fs path content =
      let (success, cloud) =
        Client.write_object client fs.bucket_name (object_of path) content fs.cloud in
      (record { path = path; success = success; live = true }, record fs { cloud = cloud })

  pub begin_upload-sent :
      (path : Bytes) (fs : Gcsfs client) (r : Flight × Gcsfs client)
      → begin_upload client path fs ≡ some r
      → (content : Bytes) × (lookup (object_of path) fs.write_buffers ≡ some content)
        × (sent fs path content ≡ r)
  unfolding begin_upload
  begin_upload-sent path fs r e = elim (Option-cases (lookup (object_of path) fs.write_buffers)) [
    | inl b ↦ absurd (ground arith)
    | inr (content, b) ↦ (content, b, ground arith)
  ]

  pub finish_upload-settled :
      (now : ℕ) (flight : Flight) (fs : Gcsfs client) (result : ℤ) (fs' : Gcsfs client)
      → finish_upload client now flight fs ≡ some (result, fs')
      → IsValid fs.stat_cache
      → ((flight.success ≡ false) × (fs ≡ fs'))
        ⊎ ((flight.success ≡ true)
            × (c : StatCache) × IsValid c
            × (record (settled client (object_of flight.path) fs) { stat_cache = c } ≡ fs'))
  unfolding finish_upload
  finish_upload-settled now flight fs result fs' e v =
      let size : ℕ = length (buffer_or_new (lookup (object_of flight.path) fs.write_buffers)) in
      elim (Bool-cases flight.success) [
        | inr bad ↦ inl (bad, ground arith)
        | inl good ↦ elim (Bool-cases fs.config.enable_stat_cache) [
          | inr off ↦ inr (good, fs.stat_cache, v, ground arith)
          | inl on ↦ inr (
            good,
            insert_file now flight.path size now fs.stat_cache,
            insert_file-IsValid now flight.path size now v,
            ground arith,
          )
        ]
      ]

  pub settled_with-IsConsistent :
      (name : Bytes) (fs : Gcsfs client) (c : StatCache) {raced : Bytes → Bool}
      → IsValid c
      → (raced name ≡ false
          → (content : Bytes) → lookup name fs.write_buffers ≡ some content
          → client.read_object fs.cloud fs.bucket_name name ≡ some content)
      → IsConsistentBut client raced fs
      → IsConsistentBut client raced (record (settled client name fs) { stat_cache = c })
  settled_with-IsConsistent name fs c v stored h =
      let k = settled-IsConsistent client name fs stored h in
      record {
        stats = v;
        tracked = λ j d. unfold is_dirty in k.tracked j d;
        synced = λ j x b d u. unfold is_dirty in k.synced j x b d u;
        coherent = k.coherent;
      }
