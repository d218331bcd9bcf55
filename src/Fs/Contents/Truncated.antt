-- ===== src/Fs/Contents/Truncated.antt =====
-- `truncate` of a file that is stored but not buffered.
use gcscfuse.Base.{
  ◌↔◌, ◌≤◌, none, if◌then◌else◌, true, Bool, ℕ, suc, ◌<◌, ◌≡◌, refl, false, some, arith, length, [],
  ◌∙◌, ap,
}
use gcscfuse.Reader.{chunk, size_mod, cached, direct, ReadResult}
use gcscfuse.Reader.Loading.{content_at}
use gcscfuse.Fs.Contents.Stored.{load_stored-loaded}
use gcscfuse.Fs.Contents.Stored.Rounds.{looped, looped-small}
use gcscfuse.Reader.Loading.Needed.{needed, needed-small}
use gcscfuse.Reader.Loading.Rounds.{loaded}
use gcscfuse.Reader.Loading.Large.{loaded_iff}
use gcscfuse.Base.Dict.{lookup-insert, lookup, Dict}
use gcscfuse.Base.Bytes.{same, Bytes}
use mathlib.Core.Path.{subst}
use gcscfuse.Fs.Contents.{contents}
use gcscfuse.Fs.Invariant.{IsConsistent, buffered}
use gcscfuse.Fs.State.{Gcsfs, object_of, is_valid_path}
use gcscfuse.Fs.Writes.{truncate, truncated, resize, load_stored}
use gcscfuse.Base.Int.{pos}
use gcscfuse.Gcs.Sdk.{StorageClient}
use gcscfuse.Reader
use gcscfuse.Reader.Coherence.{IsCoherent}

module _ (client : StorageClient) where
  open client use {Cloud}

  pub load_small :
      (fuel inner : ℕ) (shadowed : Bytes → Bool) (bucket : Bytes) (cache : Dict Bytes)
      (name : Bytes) (cloud : Cloud)
      → IsCoherent client shadowed (cached (direct bucket) cache) cloud
      → length (content_at client bucket name cloud) < chunk
      → shadowed name ≡ false
      → (cache' : Dict Bytes) × (load_stored client
            (suc (suc fuel))
            (suc inner)
            (cached (direct bucket) cache)
            name
            []
            chunk
            cloud
          ≡ some (content_at client bucket name cloud, cached (direct bucket) cache'))
  load_small fuel inner shadowed bucket cache name cloud h small sh =
      let content : Bytes = content_at client bucket name cloud in
      let (cache', done) =
        load_stored-loaded client (suc inner) shadowed bucket name cloud (omega arith)
          (needed-small inner content small) sh (suc (suc fuel)) cache
          (looped-small fuel content small) h in
      (
        cache',
        done ∙ ap (λ t. some (t, cached (direct bucket) cache')) ((loaded_iff content).1 small),
      )

  pub contents-truncated :
      (now : ℕ) (path : Bytes) (size : ℕ) (content : Bytes) (fs : Gcsfs client) (k : Bytes)
      → contents client (truncated client now path size content fs).1 k
        ≡ (if same (object_of path) k then some (resize size content) else contents client fs k)
  unfolding truncated
  contents-truncated now path size content fs k =
      ground (arith, lookup-insert (object_of path) k (resize size content) fs.write_buffers)

  pub truncate-loaded :
      (fuel inner now : ℕ) (path : Bytes) (size : ℕ) (fs : Gcsfs client) {r r' : Reader.Reader}
      {stored : Bytes}
      → is_valid_path client now path fs ≡ true
      → lookup (object_of path) fs.write_buffers ≡ none
      → fs.reader ≡ r
      → load_stored client fuel inner r (object_of path) [] chunk fs.cloud ≡ some (stored, r')
      → truncate client fuel inner now path size fs
        ≡ some (truncated client now path size stored (record fs { reader = r' }))
  unfolding truncate
  truncate-loaded fuel inner now path size fs valid b uses e = rw (valid, b, uses, e) refl

  pub result-truncated :
      (now : ℕ) (path : Bytes) (size : ℕ) (content : Bytes) (fs : Gcsfs client)
      → truncated client now path size content fs
        ≡ (pos 0, (truncated client now path size content fs).1)
  unfolding truncated
  result-truncated now path size content fs = refl

  -- In a consistent state with the content cache on and the dummy reader off, a `truncate` of a valid
  -- path that is not buffered and whose object is below 512 MiB ends after at most two rounds of its
  -- loop below 1 MiB and at most thirteen else, and returns 0, with the rounds that the object needs
  -- in the reader: one below 1 MiB and eleven else. It leaves what the rounds of the reader load of
  -- the object, cut or padded with zeros to the size, and the other files as they were. What is
  -- loaded is the object itself exactly where it is below 1 MiB.
  pub truncate-contents :
      (fuel inner now : ℕ) (path : Bytes) (size : ℕ) (fs : Gcsfs client) (cache : Dict Bytes)
      → IsConsistent client fs
      → fs.reader ≡ cached (direct fs.bucket_name) cache
      → length (content_at client fs.bucket_name (object_of path) fs.cloud) < 536870912
      → needed (content_at client fs.bucket_name (object_of path) fs.cloud) ≤ inner
      → looped (content_at client fs.bucket_name (object_of path) fs.cloud) ≤ fuel
      → is_valid_path client now path fs ≡ true
      → lookup (object_of path) fs.write_buffers ≡ none
      → (let stored = content_at client fs.bucket_name (object_of path) fs.cloud in
          (fs' : Gcsfs client) × (truncate client fuel inner now path size fs ≡ some (pos 0, fs'))
          × ((k : Bytes)
              → contents client fs' k ≡ (
                  if same (object_of path) k
                  then some (resize size (loaded stored))
                  else contents client fs k))
          × ((loaded stored ≡ stored) ↔ (length stored < chunk)))
  truncate-contents fuel inner now path size fs cache h uses small enough rounds valid b =
      let name : Bytes = object_of path in
      let stored : Bytes = content_at client fs.bucket_name name fs.cloud in
      let coherent : IsCoherent client (buffered client fs) (cached (direct fs.bucket_name) cache)
          fs.cloud =
        subst (λ r. IsCoherent client (buffered client fs) r fs.cloud) uses h.coherent in
      let (cache', done) =
        load_stored-loaded client inner (buffered client fs) fs.bucket_name name fs.cloud small
          enough (ground arith) fuel cache rounds coherent in
      let fs1 : Gcsfs client = record fs { reader = cached (direct fs.bucket_name) cache' } in
      (
        (truncated client now path size (loaded stored) fs1).1,
        truncate-loaded fuel inner now path size fs valid b uses done
            ∙ ap some (result-truncated now path size (loaded stored) fs1),
        λ k. contents-truncated now path size (loaded stored) fs1 k,
        loaded_iff stored,
      )
