-- ===== src/Fs/Interleaved.antt =====
-- `uploadToGCS` of src/gcs_fs.cpp on one of several threads: the call of `writeObject` blocks, and
-- the callbacks of other threads run before it returns.
pub mod Carried
pub mod Keeps
pub mod Races
use gcscfuse.Base.{
  ◌++◌, ◌≡◌, map, ◌∷◌, ◌||◌, ℕ, Bool, true, false, List, [], Option, none, some, not, ◌&&◌, length,
  if◌then◌else◌,
}
use gcscfuse.Fs.State.{is_dirty, Gcsfs, eio, object_of, with_stat_cache}
use gcscfuse.Fs.Steps.{Step}
use gcscfuse.Base.Bytes.{same, Bytes}
use gcscfuse.Base.Dict.{lookup, insert}
use gcscfuse.Base.Int.{ℤ, pos}
use gcscfuse.Fs.Invariant.{buffered}
use gcscfuse.Fs.Writes.{buffer_or_new}
use gcscfuse.Gcs.Client
use gcscfuse.Gcs.Sdk.{StorageClient}
use gcscfuse.Reader.{invalidate}
use gcscfuse.StatCache.Cache.{insert_file}

-- An upload that has not returned yet: its path, what `writeObject` returns, and whether the buffer
-- that `content` refers to is still there.
pub record Flight : Type 0 where
  pub path : Bytes
  pub success : Bool
  pub live : Bool

abbrev pub is_flying : Bytes → List Flight → Bool
is_flying k [] = false
is_flying k (flight ∷ flights) = same (object_of flight.path) k || is_flying k flights

abbrev pub same_option : Option Bytes → Option Bytes → Bool
same_option none none = true
same_option (some a) (some b) = same a b
same_option none (some b) = false
same_option (some a) none = false

module _ (client : StorageClient) where
  -- `uploadToGCS` up to the remote call; without a buffer it is over at once.
  unfoldable pub begin_upload : Bytes → Gcsfs client → Option (Flight × Gcsfs client)
  begin_upload path fs = elim (lookup (object_of path) fs.write_buffers) [
    | none ↦ none
    | some content ↦
        let (success, cloud) =
          Client.write_object client fs.bucket_name (object_of path) content fs.cloud in
        some (record { path = path; success = success; live = true }, record fs { cloud = cloud })
  ]

  -- The flag and the reader's cache after an upload.
  abbrev pub settled : Bytes → Gcsfs client → Gcsfs client
  settled object_name fs = record fs {
    reader = invalidate object_name fs.reader;
    dirty_files = insert object_name false fs.dirty_files;
  }

  -- `uploadToGCS` behind the remote call, in the state that it finds by then. The size is that of
  -- the buffer by then; `none` is the use of a reference to a buffer that was erased.
  unfoldable pub finish_upload : ℕ → Flight → Gcsfs client → Option (ℤ × Gcsfs client)
  finish_upload now flight fs =
      if not flight.success
      then some (eio, fs)
      else if fs.config.enable_stat_cache && not flight.live
      then none
      else some (
        pos 0,
        with_stat_cache client
            (insert_file now flight.path
              (length (buffer_or_new (lookup (object_of flight.path) fs.write_buffers))) now)
            (settled (object_of flight.path) fs),
      )

  -- A buffer that was erased does not come back for the uploads that refer to it.
  abbrev pub watched : Gcsfs client → Flight → Flight
  watched fs flight = record flight {
    live = flight.live && buffered client fs (object_of flight.path);
  }

  -- A change of the state leaves the buffer and the object of a name as they were.
  unfoldable pub untouched : Bytes → Gcsfs client → Gcsfs client → Bool
  untouched k fs fs' =
      same_option (lookup k fs.write_buffers) (lookup k fs'.write_buffers)
      && same_option (client.read_object fs.cloud fs.bucket_name k)
          (client.read_object fs'.cloud fs'.bucket_name k)

  -- The state, the uploads under way, and the names that a race spoiled.
  pub record Threads : Type 0 where
    pub fs : Gcsfs client
    pub flights : List Flight
    pub raced : Bytes → Bool

  -- A name is spoiled when its buffer or its object changes while an upload of it is under way.
  abbrev pub spoiled : Threads → Gcsfs client → Bytes → Bool
  spoiled t fs' k = t.raced k || (is_flying k t.flights && not (untouched k t.fs fs'))

  -- A new upload restores its name, where no other upload of it is under way.
  abbrev pub restored : Threads → Flight → Gcsfs client → Bytes → Bool
  restored t flight fs' k =
      not (same (object_of flight.path) k && flight.success && not (is_flying k t.flights))
      && spoiled t fs' k

  -- A whole callback, the beginning of an upload of a dirty file, or the end of any upload that is
  -- under way. The end of one that uses an erased buffer is undefined; where the program goes on, it
  -- records some size.
  pub data Interleaving : Threads → Threads → Type 0 where
    alone :
        (t : Threads) {fs' : Gcsfs client}
        → Step client t.fs fs'
        → Interleaving t
            (record { fs = fs'; flights = map (watched fs') t.flights; raced = spoiled t fs' })
    begun :
        (path : Bytes) (t : Threads) {flight : Flight} {fs' : Gcsfs client}
        → is_dirty client (object_of path) t.fs ≡ true
        → begin_upload path t.fs ≡ some (flight, fs')
        → Interleaving t
            (record { fs = fs'; flights = flight ∷ t.flights; raced = restored t flight fs' })
    finished :
        (now : ℕ) (fs : Gcsfs client) (earlier : List Flight) (flight : Flight)
        (later : List Flight) (raced : Bytes → Bool) {result : ℤ} {fs' : Gcsfs client}
        → finish_upload now flight fs ≡ some (result, fs')
        → Interleaving
            (record { fs = fs; flights = earlier ++ flight ∷ later; raced = raced })
            (record { fs = fs'; flights = earlier ++ later; raced = raced })
    finished_erased :
        (now size : ℕ) (fs : Gcsfs client) (earlier : List Flight) (flight : Flight)
        (later : List Flight) (raced : Bytes → Bool)
        → flight.success ≡ true
        → finish_upload now flight fs ≡ none
        → Interleaving
            (record { fs = fs; flights = earlier ++ flight ∷ later; raced = raced })
            (record {
              fs = record (settled (object_of flight.path) fs) {
                stat_cache = insert_file now flight.path size now fs.stat_cache;
              };
              flights = earlier ++ later;
              raced = raced;
            })

  pub data Interleaved (start : Threads) : Threads → Type 0 where
    begin : Interleaved start start
    proceed : {t t' : Threads} → Interleaved start t → Interleaving t t' → Interleaved start t'
