-- ===== src/Fs/Interleaved/Keeps.antt =====
-- The invariant of the file system of src/gcs_fs.cpp while uploads are under way.
use gcscfuse.Fs.Interleaved.Carried.{
  settled_with-IsConsistent, sent, begin_upload-sent, finish_upload-settled, IsSafe, IsCarried,
  untouched-eq, excused-IsConsistent, alone-All, rest-All, map-All,
}
use gcscfuse.Base.{
  ℕ, ◌≡◌, ◌∙◌, ap, sym, refl, Bool, true, false, List, [], ◌∷◌, ◌++◌, some, inl, inr, All, arith,
  Bool-cases,
}
use gcscfuse.Base.Bytes.{Bytes, same, same_refl, same_iff}
use gcscfuse.Base.Dict.{lookup}
use gcscfuse.Base.Int.{ℤ}
use gcscfuse.StatCache.Cache.{insert_file, StatCache}
use gcscfuse.StatCache.Cache.Invariant.{insert_file-IsValid, IsValid}
use gcscfuse.Fs.Interleaved.{
  Flight, Threads, Interleaving, Interleaved, alone, begun, finished, finished_erased, begin,
  proceed, finish_upload, is_flying, restored, settled,
}
use gcscfuse.Fs.Invariant.Keeps.{sent-IsConsistent}
use gcscfuse.Fs.State.{is_present, Gcsfs, is_dirty, object_of, construct}
use gcscfuse.Fs.Steps.{Step-IsConsistent, construct-IsConsistent}
use gcscfuse.Config.{GcsfsConfig}
use gcscfuse.Gcs.Laws.{StorageLaws, write_object-reads}
use gcscfuse.Gcs.Sdk.{StorageClient}
use mathlib.Core.Path.{subst}

module _ {client : StorageClient} (laws : StorageLaws client) where
  others-All :
      (t : Threads client) (flight : Flight) (fs' : Gcsfs client) (flights : List Flight)
      → ((k : Bytes) → is_flying k flights ≡ true → is_flying k t.flights ≡ true)
      → ((k : Bytes) → lookup k t.fs.write_buffers ≡ lookup k fs'.write_buffers)
      → All (IsCarried t.raced t.fs) flights
      → All (IsCarried (restored client t flight fs') fs') flights
  others-All t flight fs' [] fly keeps h = tt
  others-All t flight fs' (f ∷ flights) fly keeps ((live, holds), h) =
      let name : Bytes = object_of f.path in
      let flies : is_flying name t.flights ≡ true = fly name (ground (arith, same_refl name)) in
      (
        (
          λ l. ground (arith, keeps name, live l),
          λ s u c b.
              let (same_buffer, same_object) = untouched-eq name t.fs fs' (ground arith) in
              sym same_object ∙ holds s (ground arith) c (keeps name ∙ b),
        ),
        others-All t flight fs' flights (λ k e. fly k (ground arith)) keeps h,
      )

  begun-IsSafe :
      (t : Threads client) (path content : Bytes)
      → is_dirty client (object_of path) t.fs ≡ true
      → lookup (object_of path) t.fs.write_buffers ≡ some content
      → IsSafe t
      → (let (flight, fs') = sent client t.fs path content in
          IsSafe (record {
            fs = fs';
            flights = flight ∷ t.flights;
            raced = restored client t flight fs';
          }))
  begun-IsSafe t path content dirty b h =
      let name : Bytes = object_of path in
      let flight : Flight = (sent client t.fs path content).0 in
      let fs' : Gcsfs client = (sent client t.fs path content).1 in
      record {
        consistent =
            excused-IsConsistent
              (λ k u. elim (Bool-cases (same name k)) [
                | inl e ↦ inr (
                    ap (λ j. is_dirty client j fs') (sym ((same_iff name k).0 e))
                    ∙ unfold is_dirty in dirty)
                | inr e ↦ inl (ground arith)
              ])
              (sent-IsConsistent laws name content t.fs dirty h.consistent);
        carried = (
          (
            λ l. ap is_present b,
            λ s u c e.
                write_object-reads laws t.fs.bucket_name name content t.fs.cloud s ∙ sym b ∙ e,
          ),
          others-All t flight fs' t.flights (λ k e. e) (λ k. refl) h.carried,
        );
      }

  settled-IsSafe :
      (fs : Gcsfs client) (earlier : List Flight) (flight : Flight) (later : List Flight)
      (raced : Bytes → Bool) (c : StatCache)
      → flight.success ≡ true
      → IsValid c
      → IsSafe (record { fs = fs; flights = earlier ++ flight ∷ later; raced = raced })
      → IsSafe (record {
        fs = record (settled client (object_of flight.path) fs) { stat_cache = c };
        flights = earlier ++ later;
        raced = raced;
      })
  settled-IsSafe fs earlier flight later raced c good v h =
      let (rest, own) = rest-All raced fs earlier flight later h.carried in
      record {
        consistent =
            settled_with-IsConsistent client (object_of flight.path) fs c v (own.1 good)
              h.consistent;
        carried =
            map-All raced fs (record (settled client (object_of flight.path) fs) { stat_cache = c })
              (earlier ++ later) (λ f x. x) rest;
      }

  finished-IsSafe :
      (now : ℕ) (fs : Gcsfs client) (earlier : List Flight) (flight : Flight) (later : List Flight)
      (raced : Bytes → Bool) {result : ℤ} {fs' : Gcsfs client}
      → finish_upload client now flight fs ≡ some (result, fs')
      → IsSafe (record { fs = fs; flights = earlier ++ flight ∷ later; raced = raced })
      → IsSafe (record { fs = fs'; flights = earlier ++ later; raced = raced })
  finished-IsSafe now fs earlier flight later raced {result} {fs'} e h =
      elim (finish_upload-settled client now flight fs result fs' e h.consistent.stats) [
        | inl (bad, q) ↦
            subst (λ g. IsSafe (record { fs = g; flights = earlier ++ later; raced = raced })) q
              (record {
                consistent = h.consistent;
                carried = (rest-All raced fs earlier flight later h.carried).0;
              })
        | inr (good, c, v, q) ↦
            subst (λ g. IsSafe (record { fs = g; flights = earlier ++ later; raced = raced })) q
              (settled-IsSafe fs earlier flight later raced c good v h)
      ]

  Interleaving-IsSafe : {t t' : Threads client} → Interleaving client t t' → IsSafe t → IsSafe t'
  Interleaving-IsSafe (alone t {fs'} s) h = record {
    consistent =
        excused-IsConsistent (λ k u. inl (ground arith)) (Step-IsConsistent laws s h.consistent);
    carried = alone-All t fs' t.flights (λ k e. e) h.carried;
  }
  Interleaving-IsSafe (begun path t {flight} {fs'} dirty e) h =
      let (content, b, q) = begin_upload-sent client path t.fs (flight, fs') e in
      subst
        (λ (r : Flight × Gcsfs client).
          IsSafe
            (record { fs = r.1; flights = r.0 ∷ t.flights; raced = restored client t r.0 r.1 }))
        q (begun-IsSafe t path content dirty b h)
  Interleaving-IsSafe (finished now fs earlier flight later raced e) h =
      finished-IsSafe now fs earlier flight later raced e h
  Interleaving-IsSafe (finished_erased now size fs earlier flight later raced good e) h =
      settled-IsSafe fs earlier flight later raced
        (insert_file now flight.path size now fs.stat_cache) good
        (insert_file-IsValid now flight.path size now h.consistent.stats) h

  -- The threads of a new mount.
  abbrev pub mounted : Bytes → GcsfsConfig → client.Cloud → Threads client
  mounted bucket config cloud = record {
    fs = construct client bucket config cloud;
    flights = [];
    raced = λ k. false;
  }

  -- However the callbacks of several threads interleave with uploads that are under way, the state
  -- is consistent, but for the stored content of the files that a race spoiled: those whose buffer
  -- or object changed while an upload of them was under way, and of which no upload began since
  -- with no other under way and succeeded. An upload whose buffer was not erased refers to a buffer
  -- that is there, and what a successful upload stored is what its file, unless spoiled, has
  -- buffered by then. The callbacks other than uploads run without interruption, and an upload
  -- takes effect remotely when it begins.
  pub Interleaved-IsSafe :
      (bucket : Bytes) (config : GcsfsConfig) (cloud : client.Cloud) {t : Threads client}
      → Interleaved client (mounted bucket config cloud) t
      → IsSafe t
  Interleaved-IsSafe bucket config cloud begin = record {
    consistent = construct-IsConsistent laws bucket config cloud;
    carried = tt;
  }
  Interleaved-IsSafe bucket config cloud (proceed r s) =
      Interleaving-IsSafe s (Interleaved-IsSafe bucket config cloud r)
