-- ===== src/Fs/Contents/Recreated.antt =====
-- `truncate` of src/gcs_fs.cpp for a file whose write buffer is empty.
use gcscfuse.Base.{
  if◌then◌else◌, ap, ◌∙◌, refl, suc, arith, ◌<◌, length, [], some, true, ◌≡◌, false, ℕ,
}
use gcscfuse.Fs.Contents.Truncated.{contents-truncated, result-truncated, load_small}
use gcscfuse.Reader.Slice.{content_of}
use gcscfuse.Fs.Writes.{resize, truncated, load_stored, truncate, create}
use gcscfuse.Fs.Contents.{contents}
use gcscfuse.Base.Int.{pos}
use gcscfuse.Base.Dict.{lookup-insert, lookup}
use gcscfuse.Reader.{chunk, direct, cached}
use gcscfuse.Base.Bytes.{same_refl, Bytes}
use gcscfuse.Fs.State.{object_of, is_valid_path, Gcsfs, mark_dirty, construct}
use gcscfuse.Config.{GcsfsConfig}
use gcscfuse.Reader.Coherence.{IsCoherent}
use gcscfuse.Gcs.Sdk.{StorageClient}
use gcscfuse.Reader

module _ (client : StorageClient) where
  empty-IsCoherent :
      (bucket : Bytes) (cloud : client.Cloud)
      → IsCoherent client (λ k. false) (cached (direct bucket) []) cloud
  unfolding IsCoherent lookup
  empty-IsCoherent bucket cloud = λ k c s e l. ground arith

  truncate-emptied :
      (fuel inner now : ℕ) (path : Bytes) (size : ℕ) (fs : Gcsfs client) {r r' : Reader.Reader}
      {stored : Bytes}
      → is_valid_path client now path fs ≡ true
      → lookup (object_of path) fs.write_buffers ≡ some []
      → fs.reader ≡ r
      → load_stored client fuel inner r (object_of path) [] chunk fs.cloud ≡ some (stored, r')
      → truncate client fuel inner now path size fs
        ≡ some (truncated client now path size stored (record fs { reader = r' }))
  unfolding truncate
  truncate-emptied fuel inner now path size fs valid b uses e = rw (valid, b, uses, e) refl

  -- What `create` leaves of a file in a new mount.
  create-parts :
      (now : ℕ) (path : Bytes) (flags : ℕ) (fs : Gcsfs client)
      → (let fs' = (create client now path flags fs).2 in
          (lookup (object_of path) fs'.write_buffers ≡ some [])
          × (fs'.reader ≡ fs.reader)
          × (fs'.cloud ≡ fs.cloud)
          × (fs'.bucket_name ≡ fs.bucket_name))
  unfolding create mark_dirty
  create-parts now path flags fs = (
    ground (
      arith,
      same_refl (object_of path),
      lookup-insert (object_of path) (object_of path) [] fs.write_buffers,
    ),
    ground arith,
    ground arith,
    ground arith,
  )

  -- In a new mount with the content cache on and the dummy reader off, a file below 1 MiB that is
  -- created anew and then resized has its old content again, cut or padded to the size, if the path
  -- is valid in between.
  pub truncate-recreated :
      (fuel inner now later : ℕ) (path : Bytes) (flags size : ℕ) (bucket content : Bytes)
      (config : GcsfsConfig) (cloud : client.Cloud)
      → config.enable_file_content_cache ≡ true
      → config.enable_dummy_reader ≡ false
      → client.read_object cloud bucket (object_of path) ≡ some content
      → length content < chunk
      → is_valid_path client later path
          (create client now path flags (construct client bucket config cloud)).2
        ≡ true
      → (fs' : Gcsfs client) × (truncate client
            (suc (suc fuel))
            (suc inner)
            later
            path
            size
            (create client now path flags (construct client bucket config cloud)).2
          ≡ some (pos 0, fs'))
        × (contents client fs' (object_of path) ≡ some (resize size content))
  unfolding construct
  truncate-recreated fuel inner now later path flags size bucket content config cloud caching real
        stored small valid =
      let created : Gcsfs client =
        (create client now path flags (construct client bucket config cloud)).2 in
      let (b, reader, same_cloud, same_bucket) =
        create-parts now path flags (construct client bucket config cloud) in
      let (cache', loaded) =
        load_small client fuel inner (λ k. false) bucket [] (object_of path) cloud
          (empty-IsCoherent bucket cloud) (rw stored small) refl in
      let uses : created.reader ≡ cached (direct bucket) [] = reader ∙ rw (caching, real) refl in
      let fs1 : Gcsfs client = record created { reader = cached (direct bucket) cache' } in
      let at_cloud : load_stored client (suc (suc fuel)) (suc inner) (cached (direct bucket) [])
            (object_of path) [] chunk created.cloud
          ≡ some (content, cached (direct bucket) cache') =
        ap
          (load_stored client (suc (suc fuel)) (suc inner) (cached (direct bucket) [])
            (object_of path) [] chunk)
          same_cloud
        ∙ loaded
        ∙ ap (λ o. some (content_of o, cached (direct bucket) cache')) stored in
      (
        (truncated client later path size content fs1).1,
        truncate-emptied (suc (suc fuel)) (suc inner) later path size created valid b uses at_cloud
            ∙ ap some (result-truncated client later path size content fs1),
        contents-truncated client later path size content fs1 (object_of path)
            ∙ ap
                (λ b.
                  if b then some (resize size content) else contents client fs1 (object_of path))
                (same_refl (object_of path)),
      )
