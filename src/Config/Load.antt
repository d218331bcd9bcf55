-- ===== src/Config/Load.antt =====
-- `validate` and `load` of src/config.cpp.
pub mod Laws
pub mod Exits
pub mod Priority
pub mod Switches
use gcscfuse.Base.{Bool, true, false, List, Option, none, some, if◌then◌else◌, is_empty}
use gcscfuse.Base.Bytes.{Bytes}
use gcscfuse.Base.Int.{pos, ltb_ℤ}
use gcscfuse.Config.{GcsfsConfig, initial, load_defaults}
use gcscfuse.Config.Args.{Getopt, extract_config_path, parse_from_args}
use gcscfuse.Config.Usage.{print_usage}
use gcscfuse.Config.Layers.{
  Loaded, ok, raise, exit, ◌>>=◌, YamlFile, load_from_yaml, load_from_env, bucket_name_required,
  mount_point_required, negative_timeout, config_file_not_found,
}

-- The configuration itself, if it is valid.
unfoldable pub validate : GcsfsConfig → Loaded GcsfsConfig
validate c =
    if is_empty c.bucket_name
    then raise bucket_name_required
    else if is_empty c.mount_point
    then raise mount_point_required
    else if ltb_ℤ c.stat_cache_timeout (pos 0)
    then raise negative_timeout
    else ok c

-- What surrounds a run: `argv[0]`, the arguments behind it and how `getopt_long` takes them apart, the environment,
-- and the YAML files.
pub record Inputs : Type 0 where
  pub program_name : Bytes
  pub args : List Bytes
  pub options : List Getopt
  pub positional_args : List Bytes
  pub getenv : Bytes → Option Bytes
  pub yaml_file : Bytes → YamlFile

unfoldable pub load_yaml_layer : Inputs → GcsfsConfig → Loaded GcsfsConfig
load_yaml_layer inputs c = elim (extract_config_path inputs.args) [
  | none ↦ ok c
  | some path ↦ do
    (c', found) ← load_from_yaml (inputs.yaml_file path) c
    if found then ok c' else raise (config_file_not_found path)
]

abbrev or_exit : Bytes → Option GcsfsConfig → Loaded GcsfsConfig
or_exit output none = exit output
or_exit output (some c) = ok c

unfoldable pub load : Inputs → Loaded GcsfsConfig
unfolding load_yaml_layer
load inputs = do
  c ← load_yaml_layer inputs (load_defaults initial)
  c' ←
      or_exit (print_usage inputs.program_name)
        (parse_from_args inputs.options inputs.positional_args (load_from_env inputs.getenv c))
  validate c'
