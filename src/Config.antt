-- ===== src/Config.antt =====
-- src/config.hpp: `GCSFSConfig`, which is `GcsfsConfig`; src/config.cpp: its layers.
pub mod Text
pub mod Usage
pub mod Layers
pub mod Args
pub mod Load
use gcscfuse.Base.{Bool, true, false, List, []}
use gcscfuse.Base.Bytes.{Bytes}
use gcscfuse.Base.Int.{ℤ, pos}

pub record GcsfsConfig : Type 0 where
  pub enable_stat_cache : Bool
  pub stat_cache_timeout : ℤ
  pub enable_file_content_cache : Bool
  pub enable_dummy_reader : Bool
  pub debug_mode : Bool
  pub verbose_logging : Bool
  pub bucket_name : Bytes
  pub mount_point : Bytes
  pub fuse_args : List Bytes

-- The default member initialisers.
abbrev pub initial : GcsfsConfig
initial = record {
  enable_stat_cache = true;
  stat_cache_timeout = pos 60;
  enable_file_content_cache = true;
  enable_dummy_reader = false;
  debug_mode = false;
  verbose_logging = false;
  bucket_name = [];
  mount_point = [];
  fuse_args = [];
}

-- Every field but `enable_dummy_reader` is reset.
unfoldable pub load_defaults : GcsfsConfig → GcsfsConfig
load_defaults c = record c {
  enable_stat_cache = true;
  stat_cache_timeout = pos 60;
  enable_file_content_cache = true;
  debug_mode = false;
  verbose_logging = false;
  bucket_name = [];
  mount_point = [];
  fuse_args = [];
}
