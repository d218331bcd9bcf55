-- ===== src/Config/Args.antt =====
-- `extractConfigPath`, `parseFromArgs` and `toFuseArgs` of src/config.cpp. `getopt_long` is a
-- parameter: the options that it returns, in turn, and the arguments that it leaves behind them.
use gcscfuse.Base.{
  ℕ, true, false, List, [], ◌∷◌, ◌++◌, Option, none, some, ◌==◌, if◌then◌else◌, take, drop, length,
}
use gcscfuse.Base.Bytes.{Bytes, codes, same}
use gcscfuse.Config.{GcsfsConfig}
use gcscfuse.Config.Text.{atoi}

-- The arguments behind the program's name.
unfoldable pub extract_config_path : List Bytes → Option Bytes
unfolding same
extract_config_path [] = none
extract_config_path (arg ∷ []) =
    if same (take 9 arg) (codes "--config=") then some (drop 9 arg) else none
extract_config_path (arg ∷ next ∷ rest) =
    let later = extract_config_path (next ∷ rest) in
    if same arg (codes "--config")
    then some next
    else if same (take 9 arg) (codes "--config=")
    then some (drop 9 arg)
    else later

-- What one call of `getopt_long` returns: the long option at an index of `long_options`, which it
-- stores in `option_index`; a short option, which leaves `option_index` alone; or '?'. The text
-- is `optarg`.
pub data Getopt : Type 0 where
  long : ℕ → Bytes → Getopt
  short : ℕ → Bytes → Getopt
  unknown : Getopt

-- `long_options[i].val`
unfoldable pub long_option_val : ℕ → ℕ
long_option_val i =
    if i == 0
    then b'c'
    else if i == 1
    then b's'
    else if i == 2
    then b'T'
    else if i == 3
    then b'f'
    else if i == 4
    then b'F'
    else if i == 5
    then b'D'
    else if i == 6
    then b'd'
    else if i == 7
    then b'v'
    else if i == 8
    then b'h'
    else 0

-- The body of the `switch`, for an option character with the current `option_index`; `none` is
-- `exit(0)` after the usage text.
unfoldable pub on_option : ℕ → Bytes → ℕ → GcsfsConfig → Option GcsfsConfig
unfolding long_option_val
on_option opt optarg option_index c =
    if opt == b'c'
    then some c
    else if opt == b's'
    then some (record c { enable_stat_cache = false })
    else if opt == b'T'
    then some (record c { stat_cache_timeout = atoi optarg })
    else if opt == b'f'
    then (if long_option_val option_index == b'f'
        then some (record c { enable_file_content_cache = false })
        else some (record c { fuse_args = c.fuse_args ++ codes "-f" ∷ [] }))
    else if opt == b'F'
    then some (record c { enable_file_content_cache = false })
    else if opt == b'D'
    then some (record c { enable_dummy_reader = true })
    else if opt == b'd'
    then (if long_option_val option_index == b'd'
        then some (record c { debug_mode = true })
        else some (record c { fuse_args = c.fuse_args ++ codes "-d" ∷ [] }))
    else if opt == b'v'
    then some (record c { verbose_logging = true })
    else if opt == b'o'
    then some (record c { fuse_args = (c.fuse_args ++ codes "-o" ∷ []) ++ optarg ∷ [] })
    else if opt == b'h'
    then none
    else some c

abbrev and_then : Option GcsfsConfig → (GcsfsConfig → Option GcsfsConfig) → Option GcsfsConfig
and_then none f = none
and_then (some c) f = f c

-- The `while` loop over the options.
unfoldable pub parse_options : List Getopt → ℕ → GcsfsConfig → Option GcsfsConfig
unfolding on_option
parse_options [] option_index c = some c
parse_options (long i optarg ∷ rest) option_index c =
    and_then (on_option (long_option_val i) optarg i c) (parse_options rest i)
parse_options (short opt optarg ∷ rest) option_index c =
    and_then (on_option opt optarg option_index c) (parse_options rest option_index)
parse_options (unknown ∷ rest) option_index c = parse_options rest option_index c

-- Bucket name, mount point, and what is handed on to FUSE.
unfoldable pub apply_positional : List Bytes → GcsfsConfig → GcsfsConfig
apply_positional [] c = c
apply_positional (bucket ∷ []) c = record c { bucket_name = bucket }
apply_positional (bucket ∷ mount ∷ rest) c = record c {
  bucket_name = bucket;
  mount_point = mount;
  fuse_args = c.fuse_args ++ rest;
}

unfoldable pub parse_from_args : List Getopt → List Bytes → GcsfsConfig → Option GcsfsConfig
unfolding parse_options apply_positional
parse_from_args options positional_args c =
    and_then (parse_options options 0 c) (λ c'. some (apply_positional positional_args c'))

-- `argc` and the texts of `argv`.
unfoldable pub to_fuse_args : GcsfsConfig → ℕ × List Bytes
to_fuse_args c = let args = codes "gcs_fs" ∷ c.mount_point ∷ c.fuse_args in (length args, args)
