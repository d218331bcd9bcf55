-- ===== src/StatCache/Path/RoundTrip.antt =====
-- `splitPath` of src/stat_cache.cpp against the joining of components.
use mathlib.Core.Bool.{false≢true}
use gcscfuse.Base.{
  ℕ, ◌==◌, false, List, [], ◌∷◌, ◌++◌, is_empty, ◌≡◌, refl, ap, All, sym, arith, sym, ◌∙◌,
  Bool-cases, inl, inr,
}
use gcscfuse.Base.Bytes.{Bytes, slash}
use gcscfuse.StatCache.Path.{
  is_root, strip_leading, strip_trailing, emit, get_lines, split_path, path_of,
}
use mathlib.Core.List.{append_assoc, append-nil}

-- A component is a nonempty text without a slash.
abbrev pub NoSlash : Bytes → Type 0
NoSlash s = All (λ c. (c == slash) ≡ false) s

abbrev pub IsComponent : Bytes → Type 0
IsComponent s = (is_empty s ≡ false) × NoSlash s

All-append_one : (s : Bytes) (c : ℕ) → NoSlash s → (c == slash) ≡ false → NoSlash (s ++ c ∷ [])
All-append_one [] c h k = (k, tt)
All-append_one (x ∷ s) c h k = (h.0, All-append_one s c h.1 k)

emit-IsComponent :
    (s : Bytes) (rest : List Bytes)
    → NoSlash s
    → All IsComponent rest
    → All IsComponent (emit s rest)
unfolding emit
emit-IsComponent [] rest h k = k
emit-IsComponent (c ∷ s) rest h k = ((refl, h), k)

get_lines-IsComponent :
    (component s : Bytes) → NoSlash component → All IsComponent (get_lines component s)
unfolding get_lines
get_lines-IsComponent component [] h = emit-IsComponent component [] h tt
get_lines-IsComponent component (c ∷ s) h = elim (Bool-cases (c == slash)) [
  | inl e ↦ rw e (emit-IsComponent component _ h (get_lines-IsComponent [] s tt))
  | inr e ↦ rw e (get_lines-IsComponent (component ++ c ∷ []) s (All-append_one component c h e))
]

-- Whatever the path, its components are nonempty and hold no slash.
pub split_path-IsComponent : (path : Bytes) → All IsComponent (split_path path)
unfolding split_path
split_path-IsComponent path = elim (Bool-cases (is_root path)) [
  | inl e ↦ rw e tt
  | inr e ↦ rw e (get_lines-IsComponent [] (strip_trailing (strip_leading path)) tt)
]

-- A component is read whole, up to the slash or the end behind it.
get_lines-append :
    (pre s rest : Bytes) → NoSlash s → get_lines pre (s ++ rest) ≡ get_lines (pre ++ s) rest
unfolding get_lines
get_lines-append pre [] rest h = ap (λ p. get_lines p rest) (sym (append-nil pre))
get_lines-append pre (c ∷ s) rest h = rw h.0 (
    get_lines-append (pre ++ c ∷ []) s rest h.1
    ∙ ap (λ p. get_lines p rest) (append_assoc pre (c ∷ []) s))

emit-path : (s : Bytes) (rest : List Bytes) → is_empty s ≡ false → emit s rest ≡ s ∷ rest
unfolding emit
emit-path [] rest h = ground arith
emit-path (c ∷ s) rest h = refl

get_lines-path_of :
    (c : Bytes) (cs : List Bytes)
    → All IsComponent (c ∷ cs)
    → get_lines [] (c ++ path_of cs) ≡ c ∷ cs
unfolding path_of get_lines
get_lines-path_of c [] h = get_lines-append [] c [] h.0.1 ∙ emit-path c [] h.0.0
get_lines-path_of c (d ∷ cs) h =
    get_lines-append [] c (path_of (d ∷ cs)) h.0.1
    ∙ emit-path c _ h.0.0
    ∙ ap (◌∷◌ c) (get_lines-path_of d cs h.1)

strip_trailing-append :
    (xs : Bytes) (y : ℕ) (ys : Bytes)
    → strip_trailing (xs ++ y ∷ ys) ≡ xs ++ strip_trailing (y ∷ ys)
unfolding strip_trailing
strip_trailing-append [] y ys = refl
strip_trailing-append (x ∷ []) y ys = refl
strip_trailing-append (x ∷ x' ∷ xs) y ys = ap (◌∷◌ x) (strip_trailing-append (x' ∷ xs) y ys)

strip_trailing-NoSlash : (s : Bytes) → NoSlash s → strip_trailing s ≡ s
unfolding strip_trailing
strip_trailing-NoSlash [] h = refl
strip_trailing-NoSlash (x ∷ []) h = rw h.0
strip_trailing-NoSlash (x ∷ x' ∷ s) h = ap (◌∷◌ x) (strip_trailing-NoSlash (x' ∷ s) h.1)

strip_trailing-path_of :
    (c : Bytes) (cs : List Bytes)
    → All IsComponent (c ∷ cs)
    → strip_trailing (c ++ path_of cs) ≡ c ++ path_of cs
unfolding path_of strip_trailing
strip_trailing-path_of c [] h = rw append-nil (strip_trailing-NoSlash c h.0.1)
strip_trailing-path_of c ([] ∷ cs) h = absurd (false≢true (sym h.1.0.0))
strip_trailing-path_of c ((x ∷ d) ∷ cs) h =
    strip_trailing-append c slash (x ∷ d ++ path_of cs)
    ∙ ap (λ t. c ++ slash ∷ t) (strip_trailing-path_of (x ∷ d) cs h.1)

-- A path joined from well-formed components splits into the same components.
pub split_path-path_of :
    (c : Bytes) (cs : List Bytes)
    → All IsComponent (c ∷ cs)
    → split_path (path_of (c ∷ cs)) ≡ c ∷ cs
unfolding split_path path_of
split_path-path_of [] cs h = ground arith
split_path-path_of (x ∷ c) cs h =
    ap (get_lines []) (strip_trailing-path_of (x ∷ c) cs h) ∙ get_lines-path_of (x ∷ c) cs h
