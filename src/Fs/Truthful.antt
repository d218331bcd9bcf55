-- ===== src/Fs/Truthful.antt =====
-- The stat cache of `GCSFS` of src/gcs_fs.cpp against the buffers and the stored objects.
pub mod Records
pub mod Paths
pub mod Lookups
pub mod Entries
pub mod Changes
pub mod Remote
pub mod Runs
pub mod Sizes
pub mod Served
pub mod Threads
use gcscfuse.Base.{
  ℕ, ◌≡◌, ◌⊎◌, ◌++◌, List, [], ◌∷◌, Option, none, some, All, length, is_empty, false, refl, inl,
  inr, arith, ap, ◌∙◌, sym,
}
use gcscfuse.Base.Bytes.{Bytes, slash}
use gcscfuse.Base.Dict.{lookup}
use gcscfuse.Fs.State.{Gcsfs, root_path}
use gcscfuse.Gcs.Sdk.{StorageClient, SdkMetadata, ok, Listing, end, object, bad_status, throws}
use gcscfuse.StatCache.Cache.{StatCache}
use gcscfuse.StatCache.Cache.Invariant.{IsValid}
use gcscfuse.StatCache.Cache.View.{view}
use gcscfuse.StatCache.Path.{path_of, split_path, strip_leading}
use gcscfuse.StatCache.Path.RoundTrip.{IsComponent, split_path-path_of}
use gcscfuse.StatCache.Trie.{StatInfo, file_mode}

-- An object is there, with a content of this length.
abbrev pub HasLength : Option Bytes → ℕ → Type 0
HasLength stored size = (content : Bytes) × (stored ≡ some content) × (length content ≡ size)

-- What a listing says of the stored objects is so: each has the prefix and its length.
abbrev pub AreListed : (Bytes → Option Bytes) → Bytes → Listing → Type 0
AreListed stored prefix end = Unit
AreListed stored prefix (object m rest) =
    ((relative : Bytes) × (m.name ≡ prefix ++ relative))
    × HasLength (stored m.name) m.size
    × AreListed stored prefix rest
AreListed stored prefix (bad_status rest) = AreListed stored prefix rest
AreListed stored prefix throws = Unit

-- What the storage library documents of metadata: those of an object, asked for or listed, have its
-- length, and a listing has the names with the prefix.
pub record MetadataLaws (client : StorageClient) : Type 0 where
  pub described :
      (cloud : client.Cloud) (bucket name : Bytes) (m : SdkMetadata)
      → client.get_object_metadata cloud bucket name ≡ ok m
      → HasLength (client.read_object cloud bucket name) m.size
  pub listed :
      (cloud : client.Cloud) (bucket prefix delimiter : Bytes) (max_results : ℕ)
      → AreListed
          (client.read_object cloud bucket)
          prefix
          (client.list_objects cloud bucket prefix delimiter max_results)

-- The object of the path with these components.
abbrev pub name_of : List Bytes → Bytes
name_of [] = []
name_of (c ∷ cs) = c ++ path_of cs

-- A path as FUSE passes it: the root, or components with a slash before each and none behind.
abbrev pub IsNormal : Bytes → Type 0
IsNormal path =
    (path ≡ root_path)
    ⊎ ((c : Bytes) × (cs : List Bytes) × All IsComponent (c ∷ cs) × (path ≡ path_of (c ∷ cs)))

-- A file that is recorded and not buffered is stored, with the size that is recorded.
abbrev pub IsTrueOf : Option StatInfo → Option Bytes → Option Bytes → Type 0
IsTrueOf none buffer stored = Unit
IsTrueOf (some info) buffer stored =
    info.mode ≡ file_mode → buffer ≡ none → HasLength stored info.size

-- Of every path below the root.
pub record IsTrue (cache : StatCache) (buffer stored : Bytes → Option Bytes) : Type 0 where
  pub holds :
      (c : Bytes) (cs : List Bytes)
      → All IsComponent (c ∷ cs)
      → IsTrueOf (view cache (c ∷ cs)) (buffer (c ++ path_of cs)) (stored (c ++ path_of cs))

-- The stat cache is well formed and true of the buffers and of the bucket.
pub record IsTruthful (client : StorageClient) (fs : Gcsfs client) : Type 0 where
  pub stats : IsValid fs.stat_cache
  pub files :
      IsTrue fs.stat_cache
        (λ k. lookup k fs.write_buffers)
        (λ k. client.read_object fs.cloud fs.bucket_name k)
