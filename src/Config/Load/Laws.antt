-- ===== src/Config/Load/Laws.antt =====
-- What `validate` and `load` of src/config.cpp guarantee, and how options are taken apart.
use gcscfuse.Base.{
  [], inr, inl, Option-cases, true, ◌++◌, Bool, ◌∙◌, ap, ◌↔◌, ℕ, ◌≡◌, refl, false, List, ◌∷◌,
  Option, none, some, arith, is_empty,
}
use gcscfuse.Config.Args.{unknown, on_option, parse_options, Getopt, long, short, parse_from_args}
use mathlib.Core.Path.{subst}
use gcscfuse.Base.Bytes.{Bytes}
use gcscfuse.Base.Int.{pos, ltb_ℤ}
use gcscfuse.Config.{GcsfsConfig, initial, load_defaults}
use gcscfuse.Config.Usage.{print_usage}
use gcscfuse.Config.Layers.{exit, Loaded, ok, raise, ◌>>=◌, load_from_env}
use gcscfuse.Config.Load.{validate, Inputs, load_yaml_layer, or_exit, load}

-- `validate` accepts exactly the configurations with a bucket, a mount point and a timeout that
-- is not negative, and hands them on as they are.
pub validate_iff :
    (c c' : GcsfsConfig)
    → (validate c ≡ ok c') ↔ (
        (c ≡ c')
        × (is_empty c.bucket_name ≡ false)
        × (is_empty c.mount_point ≡ false)
        × (ltb_ℤ c.stat_cache_timeout (pos 0) ≡ false))
unfolding validate
validate_iff c c' = (λ h. ground arith, λ h. ground arith)

pub >>=-ok {ℓ κ} :
    {A : Type ℓ} {B : Type κ} (m : Loaded A) (f : A → Loaded B) {b : B}
    → (m >>= f) ≡ ok b
    → (a : A) × (m ≡ ok a) × (f a ≡ ok b)
>>=-ok (ok a) f h = (a, refl, h)
>>=-ok (raise e) f h = cc
>>=-ok (exit output) f h = cc

or_exit-ok :
    (output : Bytes) (o : Option GcsfsConfig) {c : GcsfsConfig}
    → or_exit output o ≡ ok c
    → o ≡ some c
or_exit-ok output none h = cc
or_exit-ok output (some b) h = cc

-- The program can run with it.
abbrev pub IsUsable : GcsfsConfig → Type 0
IsUsable c =
    (is_empty c.bucket_name ≡ false)
    × (is_empty c.mount_point ≡ false)
    × (ltb_ℤ c.stat_cache_timeout (pos 0) ≡ false)

-- A loaded configuration is what the arguments make of the lower layers.
pub load-args :
    (inputs : Inputs) (c a : GcsfsConfig)
    → load inputs ≡ ok c
    → load_yaml_layer inputs (load_defaults initial) ≡ ok a
    → IsUsable c
      × (parse_from_args inputs.options inputs.positional_args (load_from_env inputs.getenv a)
          ≡ some c)
unfolding load
load-args inputs c a h e =
    let (b, hb, kb) =
      >>=-ok
        (or_exit (print_usage inputs.program_name)
          (parse_from_args inputs.options inputs.positional_args (load_from_env inputs.getenv a)))
        validate (rw e at h) in
    let v = (validate_iff b c).0 kb in
    (subst IsUsable v.0 (v.1, v.2, v.3), or_exit-ok _ _ (hb ∙ ap ok v.0))

-- A configuration that `load` returns is valid.
pub load-IsUsable : (inputs : Inputs) (c : GcsfsConfig) → load inputs ≡ ok c → IsUsable c
unfolding load
load-IsUsable inputs c h =
    let (a, ha, ka) = >>=-ok (load_yaml_layer inputs (load_defaults initial)) _ h in
    (load-args inputs c a h ha).0

-- One of the options is a long one.
abbrev pub any_long : List Getopt → Bool
any_long [] = false
any_long (long i optarg ∷ options) = true
any_long (short opt optarg ∷ options) = any_long options
any_long (unknown ∷ options) = any_long options

-- Where every option character keeps `P`, and `opt` changes nothing under `P`, `opt` can be left out
-- behind short options.
parse_options-skip :
    (P : GcsfsConfig → Type 0) (opt : ℕ) (text : Bytes) (i : ℕ)
    → ((x : ℕ) (t : Bytes) (c c' : GcsfsConfig) → P c → on_option x t i c ≡ some c' → P c')
    → ((c : GcsfsConfig) → P c → on_option opt text i c ≡ some c)
    → (between rest : List Getopt) (c : GcsfsConfig) → any_long between ≡ false
    → P c
    → parse_options (between ++ short opt text ∷ rest) i c ≡ parse_options (between ++ rest) i c
unfolding parse_options
parse_options-skip P opt text i keeps skips [] rest c h p = rw (skips c p) refl
parse_options-skip P opt text i keeps skips (long j t ∷ between) rest c h p = cc
parse_options-skip P opt text i keeps skips (short x t ∷ between) rest c h p =
    elim (Option-cases (on_option x t i c)) [
      | inl e ↦ rw e refl
      | inr (c', e) ↦
          rw e (parse_options-skip P opt text i keeps skips between rest c' h (keeps x t c c' p e))
    ]
parse_options-skip P opt text i keeps skips (unknown ∷ between) rest c h p =
    parse_options-skip P opt text i keeps skips between rest c h p

-- After `--disable-file-cache` a `-f` is taken for it again, and after `--debug` a `-d`, also with
-- short or unknown options in between: neither reaches FUSE, since a short option leaves
-- `option_index` as the long one set it.
pub parse_options-stale :
    (text text' : Bytes) (between rest : List Getopt) (i : ℕ) (c : GcsfsConfig)
    → any_long between ≡ false
    → (parse_options (long 3 text ∷ (between ++ short b'f' text' ∷ rest)) i c
        ≡ parse_options (long 3 text ∷ (between ++ rest)) i c)
      × (parse_options (long 6 text ∷ (between ++ short b'd' text' ∷ rest)) i c
          ≡ parse_options (long 6 text ∷ (between ++ rest)) i c)
unfolding parse_options on_option
parse_options-stale text text' between rest i c h = (
  parse_options-skip (λ c. c.enable_file_content_cache ≡ false) b'f' text' 3
      (λ x t c c' p e. ground arith) (λ c p. ground arith) between rest
      (record c { enable_file_content_cache = false }) h refl,
  parse_options-skip (λ c. c.debug_mode ≡ true) b'd' text' 6 (λ x t c c' p e. ground arith)
      (λ c p. ground arith) between rest (record c { debug_mode = true }) h refl,
)
