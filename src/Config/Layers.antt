-- ===== src/Config/Layers.antt =====
-- `loadFromYAML` and `loadFromEnv` of src/config.cpp. The YAML library and the environment are
-- parameters.
use gcscfuse.Base.{Bool, true, false, Option, none, some}
use gcscfuse.Base.Bytes.{Bytes, codes}
use gcscfuse.Base.Int.{ℤ}
use gcscfuse.Config.{GcsfsConfig}
use gcscfuse.Config.Text.{parse_bool, atoi}

pub data Error : Type 0 where
  yaml_parsing_error : Error
  config_file_not_found : Bytes → Error
  bucket_name_required : Error
  mount_point_required : Error
  negative_timeout : Error

-- `raise` is the `std::runtime_error` that the caller gets; `exit` is `exit(0)`,
-- after this text was written to the standard output.
pub data Loaded {ℓ} (A : Type ℓ) : Type ℓ where
  ok : A → Loaded A
  raise : Error → Loaded A
  exit : Bytes → Loaded A

infixl 5 ◌>>=◌
abbrev pub ◌>>=◌ {ℓ κ} : {A : Type ℓ} {B : Type κ} → Loaded A → (A → Loaded B) → Loaded B
exit output >>= f = exit output
raise e >>= f = raise e
ok a >>= f = f a

-- `config[key]` and its conversion: no such key, a value, or a value of another kind, for which
-- the library throws.
pub data Entry {ℓ} (A : Type ℓ) : Type ℓ where
  absent : Entry A
  value : A → Entry A
  bad : Entry A

pub record YamlNode : Type 0 where
  pub as_string : Bytes → Entry Bytes
  pub as_bool : Bytes → Entry Bool
  pub as_int : Bytes → Entry ℤ

-- `YAML::LoadFile`: `BadFile`, another exception of the library, or the document.
pub data YamlFile : Type 0 where
  bad_file : YamlFile
  invalid : YamlFile
  document : YamlNode → YamlFile

abbrev pub assign {ℓ} :
    {A : Type ℓ} → Entry A → (A → GcsfsConfig → GcsfsConfig) → GcsfsConfig → Loaded GcsfsConfig
assign absent set c = ok c
assign (value a) set c = ok (set a c)
assign bad set c = raise yaml_parsing_error

-- The keys of a document, in the order of the source.
unfoldable pub load_document : YamlNode → GcsfsConfig → Loaded GcsfsConfig
load_document config c = do
  c ← assign (config.as_string (codes "bucket_name")) (λ s c. record c { bucket_name = s }) c
  c ← assign (config.as_string (codes "mount_point")) (λ s c. record c { mount_point = s }) c
  c ←
      assign (config.as_bool (codes "enable_stat_cache"))
        (λ b c. record c { enable_stat_cache = b }) c
  c ←
      assign (config.as_int (codes "stat_cache_timeout"))
        (λ t c. record c { stat_cache_timeout = t }) c
  c ←
      assign (config.as_bool (codes "enable_file_content_cache"))
        (λ b c. record c { enable_file_content_cache = b }) c
  c ← assign (config.as_bool (codes "debug")) (λ b c. record c { debug_mode = b }) c
  assign (config.as_bool (codes "verbose")) (λ b c. record c { verbose_logging = b }) c

-- The configuration, and whether the file exists.
unfoldable pub load_from_yaml : YamlFile → GcsfsConfig → Loaded (GcsfsConfig × Bool)
unfolding load_document
load_from_yaml bad_file c = ok (c, false)
load_from_yaml invalid c = raise yaml_parsing_error
load_from_yaml (document config) c = do c' ← load_document config c; ok (c', true)

abbrev pub from_env {ℓ} : {A : Type ℓ} → Option Bytes → (Bytes → A) → A → A
from_env none read old = old
from_env (some text) read old = read text

-- `getenv` is the parameter: each variable that is set overrides its field.
unfoldable pub load_from_env : (Bytes → Option Bytes) → GcsfsConfig → GcsfsConfig
load_from_env getenv c = record c {
  bucket_name = from_env (getenv (codes "GCSFUSE_BUCKET")) (λ s. s) c.bucket_name;
  mount_point = from_env (getenv (codes "GCSFUSE_MOUNT_POINT")) (λ s. s) c.mount_point;
  enable_stat_cache = from_env (getenv (codes "GCSFUSE_STAT_CACHE")) parse_bool c.enable_stat_cache;
  stat_cache_timeout = from_env (getenv (codes "GCSFUSE_STAT_CACHE_TTL")) atoi c.stat_cache_timeout;
  enable_file_content_cache =
      from_env (getenv (codes "GCSFUSE_FILE_CACHE")) parse_bool c.enable_file_content_cache;
  debug_mode = from_env (getenv (codes "GCSFUSE_DEBUG")) parse_bool c.debug_mode;
  verbose_logging = from_env (getenv (codes "GCSFUSE_VERBOSE")) parse_bool c.verbose_logging;
}
