-- ===== src/Config/Load/Priority.antt =====
-- Which layer of src/config.cpp each name of a loaded configuration comes from.
use gcscfuse.Config.Load.Laws.{>>=-ok, load-args}
use gcscfuse.Base.{
  if◌then◌else◌, Option-cases, inl, inr, ◌∙◌, ap, ℕ, ◌≡◌, refl, Bool, true, List, [], ◌∷◌, Option,
  none, some, arith,
}
use gcscfuse.Base.Bytes.{Bytes, codes}
use gcscfuse.Config.{GcsfsConfig, initial, load_defaults}
use gcscfuse.Config.Args.{
  long_option_val, parse_options, on_option, Getopt, long, short, unknown, apply_positional,
  extract_config_path, parse_from_args,
}
use gcscfuse.Config.Layers.{
  Error, exit, config_file_not_found, bad_file, invalid, document, Entry, absent, value, bad,
  YamlNode, load_document, Loaded, ok, raise, ◌>>=◌, YamlFile, load_from_yaml, load_from_env,
}
use gcscfuse.Config.Load.{Inputs, load_yaml_layer, load}

-- The value of the highest layer that sets it.
abbrev pub override {ℓ} : {A : Type ℓ} → Option A → A → A
override none old = old
override (some a) old = a

abbrev pub first_arg : List Bytes → Option Bytes
first_arg [] = none
first_arg (a ∷ rest) = some a

abbrev pub second_arg : List Bytes → Option Bytes
second_arg [] = none
second_arg (a ∷ rest) = first_arg rest

on_option-names :
    (opt : ℕ) (optarg : Bytes) (i : ℕ) (c c' : GcsfsConfig)
    → on_option opt optarg i c ≡ some c'
    → (c'.bucket_name ≡ c.bucket_name) × (c'.mount_point ≡ c.mount_point)
unfolding on_option
on_option-names opt optarg i c c' h = ground arith

parse_options-names :
    (options : List Getopt) (i : ℕ) (c c' : GcsfsConfig)
    → parse_options options i c ≡ some c'
    → (c'.bucket_name ≡ c.bucket_name) × (c'.mount_point ≡ c.mount_point)
unfolding parse_options
parse_options-names [] i c c' h = ground arith
parse_options-names (unknown ∷ rest) i c c' h = parse_options-names rest i c c' h
parse_options-names (long j optarg ∷ rest) i c c' h =
    elim (Option-cases (on_option (long_option_val j) optarg j c)) [
      | inl e ↦ cc (rw e at h)
      | inr (d, e) ↦
          let (x, y) = parse_options-names rest j d c' (rw e at h) in
          let (z, w) = on_option-names (long_option_val j) optarg j c d e in (x ∙ z, y ∙ w)
    ]
parse_options-names (short opt optarg ∷ rest) i c c' h =
    elim (Option-cases (on_option opt optarg i c)) [
      | inl e ↦ cc (rw e at h)
      | inr (d, e) ↦
          let (x, y) = parse_options-names rest i d c' (rw e at h) in
          let (z, w) = on_option-names opt optarg i c d e in (x ∙ z, y ∙ w)
    ]

apply_positional-names :
    (positional_args : List Bytes) (c : GcsfsConfig)
    → ((apply_positional positional_args c).bucket_name
        ≡ override (first_arg positional_args) c.bucket_name)
      × ((apply_positional positional_args c).mount_point
          ≡ override (second_arg positional_args) c.mount_point)
unfolding apply_positional
apply_positional-names [] c = (refl, refl)
apply_positional-names (b ∷ []) c = (refl, refl)
apply_positional-names (b ∷ m ∷ rest) c = (refl, refl)

parse_from_args-names :
    (options : List Getopt) (positional_args : List Bytes) (c c' : GcsfsConfig)
    → parse_from_args options positional_args c ≡ some c'
    → (c'.bucket_name ≡ override (first_arg positional_args) c.bucket_name)
      × (c'.mount_point ≡ override (second_arg positional_args) c.mount_point)
unfolding parse_from_args
parse_from_args-names options positional_args c c' h =
    elim (Option-cases (parse_options options 0 c)) [
      | inl e ↦ cc (rw e at h)
      | inr (d, e) ↦
          let (x, y) = parse_options-names options 0 c d e in
          let (z, w) = apply_positional-names positional_args d in
          let applied : ◌≡◌ {A = Option GcsfsConfig} (some (apply_positional positional_args d))
              (some c') =
            rw e at h in
          (cc (x, z), cc (y, w))
    ]

abbrev pub entry_or {ℓ} : {A : Type ℓ} → Entry A → A → A
entry_or absent old = old
entry_or (value a) old = a
entry_or bad old = old

load_document-names :
    (node : YamlNode) (c a : GcsfsConfig)
    → load_document node c ≡ ok a
    → (a.bucket_name ≡ entry_or (node.as_string (codes "bucket_name")) c.bucket_name)
      × (a.mount_point ≡ entry_or (node.as_string (codes "mount_point")) c.mount_point)
unfolding load_document
load_document-names node c a h = ground arith

abbrev pub file_text : YamlFile → Bytes → Bytes
file_text (document node) key = entry_or (node.as_string key) []
file_text bad_file key = []
file_text invalid key = []

pub after_document :
    (r : Loaded GcsfsConfig) (missing : Error) {a : GcsfsConfig}
    → (◌>>=◌ {B = GcsfsConfig × Bool} r (λ c. ok (c, true)) >>= λ x.
        if x.1 then ok x.0 else raise missing)
      ≡ ok a
    → r ≡ ok a
after_document (ok c) missing h = h
after_document (raise e) missing h = cc
after_document (exit output) missing h = cc

file-names :
    (file : YamlFile) (path : Bytes) (a : GcsfsConfig)
    → (do
      (c', found) ← load_from_yaml file (load_defaults initial)
      if found then ok c' else raise (config_file_not_found path))
      ≡ ok a
    → (a.bucket_name ≡ file_text file (codes "bucket_name"))
      × (a.mount_point ≡ file_text file (codes "mount_point"))
unfolding load_from_yaml load_defaults
file-names bad_file path a h = cc
file-names invalid path a h = cc
file-names (document node) path a h =
    load_document-names node (load_defaults initial) a
      (after_document (load_document node (load_defaults initial)) (config_file_not_found path) h)

-- The text that the YAML layer leaves in a field whose default is empty.
abbrev pub yaml_text : Inputs → Bytes → Bytes
yaml_text inputs key = elim (extract_config_path inputs.args) [
  | none ↦ []
  | some path ↦ file_text (inputs.yaml_file path) key
]

yaml_layer-names :
    (inputs : Inputs) (a : GcsfsConfig)
    → load_yaml_layer inputs (load_defaults initial) ≡ ok a
    → (a.bucket_name ≡ yaml_text inputs (codes "bucket_name"))
      × (a.mount_point ≡ yaml_text inputs (codes "mount_point"))
unfolding load_yaml_layer load_defaults
yaml_layer-names inputs a h = elim (Option-cases (extract_config_path inputs.args)) [
  | inl e ↦ ground arith
  | inr (path, e) ↦
      rw (e, yaml_text) (file-names (inputs.yaml_file path) path a (rw (e, load_yaml_layer) at h))
]

load_from_env-names :
    (getenv : Bytes → Option Bytes) (c : GcsfsConfig)
    → ((load_from_env getenv c).bucket_name
        ≡ override (getenv (codes "GCSFUSE_BUCKET")) c.bucket_name)
      × ((load_from_env getenv c).mount_point
          ≡ override (getenv (codes "GCSFUSE_MOUNT_POINT")) c.mount_point)
unfolding load_from_env
load_from_env-names getenv c = (ground arith, ground arith)

-- The bucket and the mount point of a loaded configuration: the positional argument if there is
-- one, else the environment variable if it is set, else the YAML key, else empty.
pub load-priority :
    (inputs : Inputs) (c : GcsfsConfig)
    → load inputs ≡ ok c
    → (c.bucket_name
        ≡ override (first_arg inputs.positional_args) (
            override
              (inputs.getenv (codes "GCSFUSE_BUCKET"))
              (yaml_text inputs (codes "bucket_name"))))
      × (c.mount_point
          ≡ override (second_arg inputs.positional_args) (
              override
                (inputs.getenv (codes "GCSFUSE_MOUNT_POINT"))
                (yaml_text inputs (codes "mount_point"))))
unfolding load
load-priority inputs c h =
    let (a, ha, ka) = >>=-ok (load_yaml_layer inputs (load_defaults initial)) _ h in
    let (x, y) = yaml_layer-names inputs a ha in
    let (z, w) =
      parse_from_args-names inputs.options inputs.positional_args (load_from_env inputs.getenv a) c
        (load-args inputs c a h ha).1 in
    let (u, v) = load_from_env-names inputs.getenv a in
    (
      z
          ∙ ap (override (first_arg inputs.positional_args))
              (u ∙ ap (override (inputs.getenv (codes "GCSFUSE_BUCKET"))) x),
      w
          ∙ ap (override (second_arg inputs.positional_args))
              (v ∙ ap (override (inputs.getenv (codes "GCSFUSE_MOUNT_POINT"))) y),
    )
