-- ===== src/Tests/Settings.antt =====
-- Witnesses for the configuration, and runs of it.
use gcscfuse.Config.Load.Switches.{load-switches, switches}
use gcscfuse.Tests.Memory.{memory_laws, memory}
use gcscfuse.Main.{main-runs, main}
use gcscfuse.Base.{length, suc, List, ℕ, ◌≡◌, refl, true, false, none, some, [], ◌∷◌, Option, ◌⊎◌}
use gcscfuse.Fs.State.{construct, Gcsfs}
use gcscfuse.Fs.Invariant.{IsConsistent}
use gcscfuse.Base.Int.{pos, ℤ}
use gcscfuse.Tests.Readers.{one_object}
use gcscfuse.Config.Layers.{
  exit, raise, Error, Entry, absent, value, YamlNode, document, ok, load_document, load_from_yaml,
  load_from_env,
}
use gcscfuse.Base.Bytes.{Bytes, codes, same}
use gcscfuse.Config.{GcsfsConfig, initial, load_defaults}
use gcscfuse.Config.Text.{to_lower, parse_bool}
use gcscfuse.Config.Args.{
  long, short, extract_config_path, on_option, long_option_val, parse_options, apply_positional,
  parse_from_args, to_fuse_args,
}
use gcscfuse.Config.Usage.{print_usage}
use gcscfuse.Config.Load.{validate, Inputs, load_yaml_layer, load}
use gcscfuse.Config.Load.Laws.{parse_options-stale, IsUsable}
use gcscfuse.Config.Load.Priority.{load-priority}

program : Unit {0}
unfolding same to_lower parse_bool load_defaults load_document load_from_yaml load_from_env
    extract_config_path on_option long_option_val parse_options apply_positional parse_from_args
    to_fuse_args validate load_yaml_layer load
program = tt

-- A document with one text at `bucket_name`.
abbrev yaml_entry : Bytes → Entry Bytes
yaml_entry key = elim (same key (codes "bucket_name")) [
  | true ↦ value (codes "from-yaml")
  | false ↦ absent
]

abbrev yaml : YamlNode
yaml = record { as_string = yaml_entry; as_bool = λ key. absent; as_int = λ key. absent }

abbrev env : Bytes → Option Bytes
env name = elim (same name (codes "GCSFUSE_MOUNT_POINT")) [
  | true ↦ some (codes "/env")
  | false ↦ none
]

abbrev inputs : Inputs
inputs = record {
  program_name = codes "gcscfuse";
  args = codes "--config" ∷ codes "c.yaml" ∷ codes "--debug" ∷ [];
  options = long 0 (codes "c.yaml") ∷ long 6 [] ∷ [];
  positional_args = [];
  getenv = env;
  yaml_file = λ path. document yaml;
}

abbrev loaded : GcsfsConfig
loaded = record initial {
  bucket_name = codes "from-yaml";
  mount_point = codes "/env";
  debug_mode = true;
}

load_run : load inputs ≡ ok loaded
unfolding program
load_run = refl

load-priority_example :
    (loaded.bucket_name ≡ codes "from-yaml") × (loaded.mount_point ≡ codes "/env")
unfolding program
load-priority_example = load-priority inputs loaded load_run

-- Without the stat cache, and verbose.
abbrev switched_inputs : Inputs
switched_inputs = record inputs { options = long 1 [] ∷ short b'v' [] ∷ [] }

abbrev switched_config : GcsfsConfig
switched_config = record loaded {
  enable_stat_cache = false;
  debug_mode = false;
  verbose_logging = true;
}

load_switched : load switched_inputs ≡ ok switched_config
unfolding program
load_switched = refl

load-switches_example : switches switched_config ≡ (false, pos 60, false, true)
unfolding program
load-switches_example = load-switches switched_inputs switched_config load_switched

parse_options-stale_example :
    (parse_options (long 3 [] ∷ short b'v' [] ∷ short b'f' [] ∷ []) 0 initial
      ≡ some (record initial { enable_file_content_cache = false; verbose_logging = true }))
    × (parse_options (long 6 [] ∷ short b'v' [] ∷ short b'd' [] ∷ []) 0 initial
        ≡ some (record initial { debug_mode = true; verbose_logging = true }))
unfolding program
parse_options-stale_example = parse_options-stale [] [] (short b'v' [] ∷ []) [] 0 initial refl

-- What FUSE returns: the number of its arguments.
abbrev status : ℕ → List Bytes → Gcsfs memory → ℤ
status argc argv fs = pos argc

main-runs_example :
    ((load inputs ≡ exit (print_usage (codes "gcscfuse")))
      × (main memory status inputs one_object ≡ pos 0))
    ⊎ ((e : Error) × (load inputs ≡ raise e) × (main memory status inputs one_object ≡ pos 1))
    ⊎ ((config : GcsfsConfig) × (load inputs ≡ ok config)
        × IsUsable config
        × IsConsistent memory (construct memory config.bucket_name config one_object)
        × (main memory status inputs one_object ≡ pos (suc (suc (length config.fuse_args)))))
main-runs_example = main-runs memory_laws status inputs one_object
