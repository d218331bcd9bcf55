-- ===== src/Fs/State.antt =====
-- The state of `GCSFS` of src/gcs_fs.hpp, which is `Gcsfs`, its constructor, and the tests on paths.
use gcscfuse.Base.{ℕ, Bool, true, false, [], ◌∷◌, ◌++◌, Option, none, some, ◌==◌, if◌then◌else◌}
use gcscfuse.Base.Bytes.{Bytes, same, slash}
use gcscfuse.Base.Dict.{Dict, insert, lookup}
use gcscfuse.Base.Int.{ℤ, negsuc}
use gcscfuse.Config.{GcsfsConfig}
use gcscfuse.Gcs.Client
use gcscfuse.Gcs.Sdk.{StorageClient}
use gcscfuse.Reader.{BaseReader, direct, dummy, Reader, base, cached, chunk}
use gcscfuse.StatCache.Cache
use gcscfuse.StatCache.Cache.{StatCache, get_stat, set_cache_timeout}
use gcscfuse.StatCache.Path.{strip_leading}
use gcscfuse.StatCache.Trie.{StatInfo}

-- The results of the callbacks: 0 or a count, or the negated error number.
abbrev pub enoent : ℤ
enoent = negsuc 1

abbrev pub eio : ℤ
eio = negsuc 4

abbrev pub eisdir : ℤ
eisdir = negsuc 20

abbrev pub einval : ℤ
einval = negsuc 21

-- The members of `GCSFS`; `cloud` is the remote state that `gcs_client_` acts on.
pub record Gcsfs (client : StorageClient) : Type 0 where
  pub bucket_name : Bytes
  pub config : GcsfsConfig
  pub cloud : client.Cloud
  pub stat_cache : StatCache
  pub reader : Reader
  pub write_buffers : Dict Bytes
  pub dirty_files : Dict Bool

abbrev pub is_present {ℓ} : {A : Type ℓ} → Option A → Bool
is_present none = false
is_present (some a) = true

abbrev is_known_dir : Option StatInfo → Bool
is_known_dir none = false
is_known_dir (some info) = info.is_directory

abbrev pub root_path : Bytes
root_path = slash ∷ []

-- The object of a path: the path without its leading slash.
abbrev pub object_of : Bytes → Bytes
object_of path = strip_leading path

unfoldable pub ends_with_slash : Bytes → Bool
ends_with_slash [] = false
ends_with_slash (c ∷ []) = c == slash
ends_with_slash (c ∷ d ∷ s) = ends_with_slash (d ∷ s)

-- `if (!s.empty() && s.back() != '/') s += '/'`
unfoldable pub dir_prefix : Bytes → Bytes
unfolding ends_with_slash
dir_prefix [] = []
dir_prefix (c ∷ s) = if ends_with_slash (c ∷ s) then c ∷ s else (c ∷ s) ++ slash ∷ []

module _ (client : StorageClient) where
  -- The members that the constructor sets up.
  unfoldable pub construct : Bytes → GcsfsConfig → client.Cloud → Gcsfs client
  construct bucket_name config cloud =
      let base_reader : BaseReader =
        if config.enable_dummy_reader then dummy chunk else direct bucket_name in
      record {
        bucket_name = bucket_name;
        config = config;
        cloud = cloud;
        stat_cache = set_cache_timeout config.stat_cache_timeout Cache.init;
        reader =
            if config.enable_file_content_cache then cached base_reader [] else base base_reader;
        write_buffers = [];
        dirty_files = [];
      }

  -- The fresh entry of the stat cache, if that is enabled.
  abbrev pub cached_stat : ℕ → Bytes → Gcsfs client → Option StatInfo
  cached_stat now path fs =
      if fs.config.enable_stat_cache then get_stat now path fs.stat_cache else none

  -- `if (config_.enable_stat_cache) stat_cache_.…`
  abbrev pub with_stat_cache : (StatCache → StatCache) → Gcsfs client → Gcsfs client
  with_stat_cache change fs =
      if fs.config.enable_stat_cache then record fs { stat_cache = change fs.stat_cache } else fs

  unfoldable pub is_valid_path : ℕ → Bytes → Gcsfs client → Bool
  unfolding dir_prefix
  is_valid_path now path fs =
      if same path root_path
      then true
      else if is_present (cached_stat now path fs)
      then true
      else if Client.object_exists client fs.bucket_name (object_of path) fs.cloud
      then true
      else Client.directory_exists client fs.bucket_name (dir_prefix (object_of path)) fs.cloud

  unfoldable pub is_directory : ℕ → Bytes → Gcsfs client → Bool
  unfolding dir_prefix
  is_directory now path fs =
      if same path root_path
      then true
      else if is_known_dir (cached_stat now path fs)
      then true
      else Client.directory_exists client fs.bucket_name (dir_prefix (object_of path)) fs.cloud

  unfoldable pub mark_dirty : Bytes → Gcsfs client → Gcsfs client
  mark_dirty object_name fs = record fs { dirty_files = insert object_name true fs.dirty_files }

  abbrev flag_of : Option Bool → Bool
  flag_of none = false
  flag_of (some dirty) = dirty

  unfoldable pub is_dirty : Bytes → Gcsfs client → Bool
  is_dirty object_name fs = flag_of (lookup object_name fs.dirty_files)
