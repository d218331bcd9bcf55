-- ===== src/Config/Load/Switches.antt =====
-- Which layer of src/config.cpp each switch of a loaded configuration comes from, for the switches
-- whose option has no second meaning.
use gcscfuse.Base.Int.{pos, ℤ}
use gcscfuse.Config.Text.{parse_bool, atoi}
use gcscfuse.Config.{initial, load_defaults, GcsfsConfig}
use gcscfuse.Base.Bytes.{codes, Bytes}
use gcscfuse.Config.Layers.{
  ◌>>=◌, YamlFile, from_env, load_from_env, load_from_yaml, load_document, config_file_not_found,
  Entry, YamlNode, bad_file, invalid, document, ok, raise,
}
use gcscfuse.Config.Args.{
  apply_positional, parse_from_args, extract_config_path, long_option_val, parse_options, on_option,
  Getopt, long, short, unknown,
}
use gcscfuse.Config.Load.{load, load_yaml_layer, Inputs}
use gcscfuse.Base.{
  Option, inr, inl, Option-cases, if◌then◌else◌, arith, not, ◌||◌, ◌≡◌, ◌==◌, ◌&&◌, Bool, List, ℕ,
  true, false, none, some, refl, [], ◌∷◌, ap, ◌∙◌,
}
use gcscfuse.Config.Load.Laws.{>>=-ok, load-args}
use gcscfuse.Config.Load.Priority.{entry_or, after_document}

-- The character that the `switch` of `parseFromArgs` looks at, and the text.
abbrev char_of : Getopt → ℕ
char_of (long i optarg) = long_option_val i
char_of (short opt optarg) = opt
char_of unknown = b'?'

abbrev text_of : Getopt → Bytes
text_of (long i optarg) = optarg
text_of (short opt optarg) = optarg
text_of unknown = []

abbrev pub given : ℕ → List Getopt → Bool
given opt [] = false
given opt (o ∷ rest) = (char_of o == opt) || given opt rest

-- The last timeout among the options, else `old`.
abbrev pub last_timeout : List Getopt → ℤ → ℤ
last_timeout [] old = old
last_timeout (o ∷ rest) old =
    last_timeout rest (if char_of o == b'T' then atoi (text_of o) else old)

-- What a YAML file leaves of a setting.
abbrev pub file_or {ℓ} : {A : Type ℓ} → (YamlNode → Entry A) → YamlFile → A → A
file_or read bad_file old = old
file_or read invalid old = old
file_or read (document node) old = entry_or (read node) old

abbrev pub in_file {ℓ} : {A : Type ℓ} → (YamlNode → Entry A) → Inputs → A → A
in_file read inputs old = elim (extract_config_path inputs.args) [
  | none ↦ old
  | some path ↦ file_or read (inputs.yaml_file path) old
]

-- The four settings.
abbrev Switches : Type 0
Switches = Bool × ℤ × Bool × Bool

abbrev pub switches : GcsfsConfig → Switches
switches c = (c.enable_stat_cache, c.stat_cache_timeout, c.enable_dummy_reader, c.verbose_logging)

abbrev pub switched : List Getopt → Switches → Switches
switched options (cache, timeout, dummy, verbose) = (
  cache && not (given b's' options),
  last_timeout options timeout,
  dummy || given b'D' options,
  verbose || given b'v' options,
)

on_option-switches :
    (opt : ℕ) (optarg : Bytes) (i : ℕ) (c : GcsfsConfig) {c' : GcsfsConfig}
    → on_option opt optarg i c ≡ some c'
    → switches c' ≡ switched (short opt optarg ∷ []) (switches c)
unfolding on_option
on_option-switches opt optarg i c {c'} h = ground arith

switched-cons :
    (o : Getopt) (rest : List Getopt) (s : Switches)
    → switched rest (switched (short (char_of o) (text_of o) ∷ []) s) ≡ switched (o ∷ rest) s
switched-cons o rest s = ground arith

parse_options-switches :
    (options : List Getopt) (i : ℕ) (c : GcsfsConfig) {c' : GcsfsConfig}
    → parse_options options i c ≡ some c'
    → switches c' ≡ switched options (switches c)
unfolding parse_options
parse_options-switches [] i c {c'} h = ground arith
parse_options-switches (unknown ∷ rest) i c {c'} h = parse_options-switches rest i c h
parse_options-switches (long j optarg ∷ rest) i c {c'} h =
    elim (Option-cases (on_option (long_option_val j) optarg j c)) [
      | inl e ↦ cc (rw e at h)
      | inr (d, e) ↦
          parse_options-switches rest j d (rw e at h)
          ∙ ap (switched rest) (on_option-switches (long_option_val j) optarg j c e)
          ∙ switched-cons (long j optarg) rest (switches c)
    ]
parse_options-switches (short opt optarg ∷ rest) i c {c'} h =
    elim (Option-cases (on_option opt optarg i c)) [
      | inl e ↦ cc (rw e at h)
      | inr (d, e) ↦
          parse_options-switches rest i d (rw e at h)
          ∙ ap (switched rest) (on_option-switches opt optarg i c e)
          ∙ switched-cons (short opt optarg) rest (switches c)
    ]

positional-switches :
    (positional_args : List Bytes) (d : GcsfsConfig)
    → switches (apply_positional positional_args d) ≡ switches d
unfolding apply_positional
positional-switches [] d = refl
positional-switches (b ∷ []) d = refl
positional-switches (b ∷ m ∷ rest) d = refl

parse_from_args-switches :
    (options : List Getopt) (positional_args : List Bytes) (c : GcsfsConfig) {c' : GcsfsConfig}
    → parse_from_args options positional_args c ≡ some c'
    → switches c' ≡ switched options (switches c)
unfolding parse_from_args
parse_from_args-switches options positional_args c {c'} h =
    elim (Option-cases (parse_options options 0 c)) [
      | inl e ↦ cc (rw e at h)
      | inr (d, e) ↦
          let applied : ◌≡◌ {A = Option GcsfsConfig} (some (apply_positional positional_args d))
              (some c') =
            rw e at h in
          let same : switches c' ≡ switches (apply_positional positional_args d) = ground arith in
          same ∙ positional-switches positional_args d ∙ parse_options-switches options 0 c e
    ]

-- What the lower layers leave: the defaults, under the file, under the environment.
abbrev pub lower : Inputs → Switches
lower inputs = (
  from_env (inputs.getenv (codes "GCSFUSE_STAT_CACHE")) parse_bool
      (in_file (λ n. n.as_bool (codes "enable_stat_cache")) inputs true),
  from_env (inputs.getenv (codes "GCSFUSE_STAT_CACHE_TTL")) atoi
      (in_file (λ n. n.as_int (codes "stat_cache_timeout")) inputs (pos 60)),
  false,
  from_env (inputs.getenv (codes "GCSFUSE_VERBOSE")) parse_bool
      (in_file (λ n. n.as_bool (codes "verbose")) inputs false),
)

document-switches :
    (node : YamlNode) (c : GcsfsConfig) {a : GcsfsConfig}
    → load_document node c ≡ ok a
    → switches a ≡ (
      entry_or (node.as_bool (codes "enable_stat_cache")) c.enable_stat_cache,
      entry_or (node.as_int (codes "stat_cache_timeout")) c.stat_cache_timeout,
      c.enable_dummy_reader,
      entry_or (node.as_bool (codes "verbose")) c.verbose_logging,
    )
unfolding load_document
document-switches node c {a} h = ground arith

file-switches :
    (file : YamlFile) (path : Bytes) {a : GcsfsConfig}
    → (do
      (c', found) ← load_from_yaml file (load_defaults initial)
      if found then ok c' else raise (config_file_not_found path))
      ≡ ok a
    → switches a ≡ (
      file_or (λ n. n.as_bool (codes "enable_stat_cache")) file true,
      file_or (λ n. n.as_int (codes "stat_cache_timeout")) file (pos 60),
      false,
      file_or (λ n. n.as_bool (codes "verbose")) file false,
    )
unfolding load_from_yaml load_defaults
file-switches bad_file path {a} h = cc
file-switches invalid path {a} h = cc
file-switches (document node) path {a} h =
    document-switches node (load_defaults initial)
      (after_document (load_document node (load_defaults initial)) (config_file_not_found path) h)

yaml_layer-switches :
    (inputs : Inputs) {a : GcsfsConfig}
    → load_yaml_layer inputs (load_defaults initial) ≡ ok a
    → switches a ≡ (
      in_file (λ n. n.as_bool (codes "enable_stat_cache")) inputs true,
      in_file (λ n. n.as_int (codes "stat_cache_timeout")) inputs (pos 60),
      false,
      in_file (λ n. n.as_bool (codes "verbose")) inputs false,
    )
unfolding load_yaml_layer load_defaults
yaml_layer-switches inputs {a} h = elim (Option-cases (extract_config_path inputs.args)) [
  | inl e ↦ ground arith
  | inr (path, e) ↦
      rw (e, in_file) (file-switches (inputs.yaml_file path) path (rw (e, load_yaml_layer) at h))
]

-- The environment on top of other settings.
abbrev over_env : (Bytes → Option Bytes) → Switches → Switches
over_env getenv (cache, timeout, dummy, verbose) = (
  from_env (getenv (codes "GCSFUSE_STAT_CACHE")) parse_bool cache,
  from_env (getenv (codes "GCSFUSE_STAT_CACHE_TTL")) atoi timeout,
  dummy,
  from_env (getenv (codes "GCSFUSE_VERBOSE")) parse_bool verbose,
)

load_from_env-switches :
    (getenv : Bytes → Option Bytes) (c : GcsfsConfig)
    → switches (load_from_env getenv c) ≡ over_env getenv (switches c)
unfolding load_from_env
load_from_env-switches getenv c = refl

-- The stat cache, its timeout, the dummy reader and the verbose log of a loaded configuration: the
-- options, on top of the environment variable if it is set, else the YAML key, else the default.
-- The stat cache is on unless an option disables it, the timeout is that of the last option, and the
-- dummy reader and the verbose log are on if an option enables them.
pub load-switches :
    (inputs : Inputs) (c : GcsfsConfig)
    → load inputs ≡ ok c
    → switches c ≡ switched inputs.options (lower inputs)
unfolding load
load-switches inputs c h =
    let (a, ha, ka) = >>=-ok (load_yaml_layer inputs (load_defaults initial)) _ h in
    parse_from_args-switches inputs.options inputs.positional_args (load_from_env inputs.getenv a)
      (load-args inputs c a h ha).1
    ∙ ap (switched inputs.options) (
        load_from_env-switches inputs.getenv a
        ∙ ap (over_env inputs.getenv) (yaml_layer-switches inputs ha))
