-- ===== src/Fs/Remount.antt =====
-- What src/gcs_fs.cpp keeps of a file from one mount to the next.
use gcscfuse.Base.{
  refl, ap, ◌∙◌, [], suc, inr, arith, ◌+◌, inl, ◌<◌, sym, length, false, true, some, ◌≡◌, ℕ,
}
use gcscfuse.Reader.Slice.{content_of, slice, delivers}
use gcscfuse.Fs.Steps.{construct-IsConsistent}
use gcscfuse.Fs.Contents.{read-contents}
use gcscfuse.Fs.Contents.Durable.{flush-durable}
use gcscfuse.Reader.{size_mod, chunk}
use gcscfuse.Fs.Contents.Attributes.{found, get_object_metadata-answer, Found, Describes}
use gcscfuse.Fs.Upload.{flush}
use gcscfuse.Fs.State.{object_of, Gcsfs, is_valid_path, construct}
use gcscfuse.Fs.Invariant.{IsConsistent}
use gcscfuse.Config.{GcsfsConfig}
use gcscfuse.Base.Dict.{lookup}
use gcscfuse.Base.Bytes.{Bytes}
use gcscfuse.Gcs.Laws.{StorageLaws}
use gcscfuse.Gcs.Sdk.{StorageClient}
use gcscfuse.Fs.Reads.{read}
use mathlib.Core.Path.{subst}
use gcscfuse.Base.Int.{pos}
use gcscfuse.Gcs.Client

module _ {client : StorageClient} (laws : StorageLaws client) where
  -- A path is valid if the client has metadata of its object.
  described-valid :
      (now : ℕ) (path content : Bytes) (fs : Gcsfs client)
      → client.read_object fs.cloud fs.bucket_name (object_of path) ≡ some content
      → Describes
          (client.get_object_metadata fs.cloud fs.bucket_name (object_of path))
          (client.read_object fs.cloud fs.bucket_name (object_of path))
      → is_valid_path client now path fs ≡ true
  unfolding is_valid_path Client.object_exists
  described-valid now path content fs stored agrees =
      elim (subst (λ a. Found a (client.read_object fs.cloud fs.bucket_name (object_of path)))
        (sym (get_object_metadata-answer client fs.bucket_name (object_of path) fs.cloud))
        (found _ _ agrees)) [
          | inl (missing, gone) ↦ absurd (ground arith)
          | inr (m, c, answer, kept, size) ↦ ground arith
        ]

  -- After a `flush` that returned 0 in a consistent state, a new mount of the same bucket, with the
  -- content cache on and the dummy reader off, reads the content that was buffered, if that is below
  -- 1 MiB, the metadata call agrees with the read call on the object, and the range is below the
  -- limits of `int` and `size_t`.
  pub read-remounted :
      (fuel now later : ℕ) (path : Bytes) (size offset : ℕ) (content : Bytes) (config : GcsfsConfig)
      (fs : Gcsfs client)
      → IsConsistent client fs
      → lookup (object_of path) fs.write_buffers ≡ some content
      → (flush client now path fs).0 ≡ pos 0
      → config.enable_file_content_cache ≡ true
      → config.enable_dummy_reader ≡ false
      → length content < chunk
      → Describes
          (client.get_object_metadata
            (flush client now path fs).1.cloud
            fs.bucket_name
            (object_of path))
          (client.read_object (flush client now path fs).1.cloud fs.bucket_name (object_of path))
      → size < 2147483648
      → offset + size < size_mod
      → (fs' : Gcsfs client) × (read client
            (suc fuel)
            later
            path
            size
            offset
            (construct client fs.bucket_name config (flush client now path fs).1.cloud)
          ≡ some (delivers (slice content size offset), fs'))
  unfolding construct lookup
  read-remounted fuel now later path size offset content config fs h b e caching real small agrees
        hs ho =
      let cloud : client.Cloud = (flush client now path fs).1.cloud in
      let mounted : Gcsfs client = construct client fs.bucket_name config cloud in
      let stored : client.read_object cloud fs.bucket_name (object_of path) ≡ some content =
        (flush-durable laws now path fs content h b e).0 in
      let (fs', done, kept) =
        read-contents client fuel later path size offset mounted []
          (construct-IsConsistent laws fs.bucket_name config cloud) (rw (caching, real) refl)
          (rw stored small) (described-valid later path content mounted stored agrees) hs ho in
      (fs', done ∙ ap (λ o. some (delivers (slice (content_of o) size offset), fs')) stored)
