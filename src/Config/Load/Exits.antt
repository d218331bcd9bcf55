-- ===== src/Config/Load/Exits.antt =====
-- How `load` of src/config.cpp ends the program.
use gcscfuse.Base.{
  ◌≡◌, refl, Option, none, some, Bool, true, false, is_empty, Option-cases, inl, inr, if◌then◌else◌,
}
use gcscfuse.Base.Bytes.{Bytes}
use gcscfuse.Base.Int.{pos, ltb_ℤ}
use gcscfuse.Config.{GcsfsConfig, initial, load_defaults}
use gcscfuse.Config.Args.{extract_config_path, parse_from_args}
use gcscfuse.Config.Layers.{
  Loaded, ok, raise, exit, ◌>>=◌, Entry, absent, value, bad, assign, YamlFile, bad_file, invalid,
  document, YamlNode, load_document, load_from_yaml, load_from_env,
}
use gcscfuse.Config.Load.{validate, Inputs, load_yaml_layer, or_exit, load}
use gcscfuse.Config.Usage.{print_usage}
use mathlib.Core.Path.{subst}

-- Whatever ends the program has written this text.
abbrev ExitsWith {ℓ} : {A : Type ℓ} → Bytes → Loaded A → Type 0
ExitsWith output (ok a) = Unit
ExitsWith output (raise e) = Unit
ExitsWith output (exit written) = written ≡ output

>>=-ExitsWith {ℓ κ} :
    {A : Type ℓ} {B : Type κ} (output : Bytes) (m : Loaded A) (f : A → Loaded B)
    → ExitsWith output m
    → ((a : A) → ExitsWith output (f a))
    → ExitsWith output (m >>= f)
>>=-ExitsWith output (ok a) f h k = k a
>>=-ExitsWith output (raise e) f h k = tt
>>=-ExitsWith output (exit written) f h k = h

or_exit-ExitsWith : (output : Bytes) (o : Option GcsfsConfig) → ExitsWith output (or_exit output o)
or_exit-ExitsWith output none = refl
or_exit-ExitsWith output (some c) = tt

if-ExitsWith {ℓ} :
    {A : Type ℓ} (output : Bytes) (b : Bool) (m n : Loaded A)
    → ExitsWith output m
    → ExitsWith output n
    → ExitsWith output (if b then m else n)
if-ExitsWith output true m n h k = h
if-ExitsWith output false m n h k = k

validate-ExitsWith : (output : Bytes) (c : GcsfsConfig) → ExitsWith output (validate c)
unfolding validate
validate-ExitsWith output c = if-ExitsWith output (is_empty c.bucket_name) _ _ tt (
    if-ExitsWith output (is_empty c.mount_point) _ _ tt
      (if-ExitsWith output (ltb_ℤ c.stat_cache_timeout (pos 0)) _ _ tt tt))

assign-ExitsWith {ℓ} :
    {A : Type ℓ} (output : Bytes) (e : Entry A) (set : A → GcsfsConfig → GcsfsConfig)
    (c : GcsfsConfig)
    → ExitsWith output (assign e set c)
assign-ExitsWith output absent set c = tt
assign-ExitsWith output (value a) set c = tt
assign-ExitsWith output bad set c = tt

load_document-ExitsWith :
    (output : Bytes) (config : YamlNode) (c : GcsfsConfig)
    → ExitsWith output (load_document config c)
unfolding load_document
load_document-ExitsWith output config c = search (>>=-ExitsWith, assign-ExitsWith) depth 16

load_from_yaml-ExitsWith :
    (output : Bytes) (file : YamlFile) (c : GcsfsConfig) → ExitsWith output (load_from_yaml file c)
unfolding load_from_yaml
load_from_yaml-ExitsWith output bad_file c = tt
load_from_yaml-ExitsWith output invalid c = tt
load_from_yaml-ExitsWith output (document config) c =
    >>=-ExitsWith output (load_document config c) _ (load_document-ExitsWith output config c)
      (λ c'. tt)

load_yaml_layer-ExitsWith :
    (output : Bytes) (inputs : Inputs) (c : GcsfsConfig)
    → ExitsWith output (load_yaml_layer inputs c)
unfolding load_yaml_layer
load_yaml_layer-ExitsWith output inputs c = elim (Option-cases (extract_config_path inputs.args)) [
  | inl e ↦ rw (e, load_yaml_layer) tt
  | inr (path, e) ↦
      rw (e, load_yaml_layer)
        (>>=-ExitsWith output (load_from_yaml (inputs.yaml_file path) c) _
          (load_from_yaml-ExitsWith output (inputs.yaml_file path) c)
          (λ r. if-ExitsWith output r.1 _ _ tt tt))
]

-- Whenever `load` ends the program, the usage text was written.
pub load-exit :
    (inputs : Inputs) (output : Bytes)
    → load inputs ≡ exit output
    → output ≡ print_usage inputs.program_name
unfolding load
load-exit inputs output h =
    let usage : Bytes = print_usage inputs.program_name in
    subst (ExitsWith usage) h (
      >>=-ExitsWith usage (load_yaml_layer inputs (load_defaults initial)) _
        (load_yaml_layer-ExitsWith usage inputs (load_defaults initial))
        (λ c.
          >>=-ExitsWith usage
            (or_exit usage (
              parse_from_args inputs.options inputs.positional_args
                (load_from_env inputs.getenv c)))
            validate (or_exit-ExitsWith usage _) (validate-ExitsWith usage)))
