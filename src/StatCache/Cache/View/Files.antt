-- ===== src/StatCache/Cache/View/Files.antt =====
-- What `insertFile` of src/stat_cache.cpp makes of the abstract cache.
use gcscfuse.StatCache.Cache.View.{view, get_or, view-nil, view-insert_directory}
use gcscfuse.StatCache.Cache.{
  StatCache, insert_parents, insert_file, write_file, dir_info, file_info,
}
use mathlib.Core.List.{append_assoc, append-nil}
use gcscfuse.Base.{
  ℕ, Bool, true, false, ◌&&◌, ◌||◌, List, [], ◌∷◌, ◌++◌, Option, some, if◌then◌else◌, ◌≡◌, refl,
  arith, ap, sym, is_empty, ◌∙◌, All,
}
use gcscfuse.Base.Bytes.{Bytes, slash, same}
use gcscfuse.StatCache.Path.{split_path, path_of}
use gcscfuse.StatCache.Path.RoundTrip.{split_path-path_of, split_path-IsComponent, IsComponent}
use gcscfuse.StatCache.Trie.{StatInfo, TrieNode, node, find_node, node_or_new, update_node}
use gcscfuse.StatCache.Trie.Lookup.{same_path, written, info_at-update_node}
use gcscfuse.StatCache.Cache.Invariant.{IsValid, insert_directory-IsValid}

-- `is_above p q`: the path `q` is that of a directory in which `p` lies.
unfoldable pub is_above : List Bytes → List Bytes → Bool
is_above (c ∷ cs) [] = true
is_above (c ∷ cs) (y ∷ ys) = same c y && is_above cs ys
is_above [] q = false

-- The paths for which `insertFile` calls `insertDirectory`, as its loop meets them.
is_parent : List Bytes → List Bytes → List Bytes → Bool
is_parent pre (c ∷ d ∷ cs) q = same_path (pre ++ c ∷ []) q || is_parent (pre ++ c ∷ []) (d ∷ cs) q
is_parent pre (c ∷ []) q = false
is_parent pre [] q = false

is_parent-cons :
    (x : Bytes) (pre cs : List Bytes) (y : Bytes) (q : List Bytes)
    → is_parent (x ∷ pre) cs (y ∷ q) ≡ (same x y && is_parent pre cs q)
unfolding is_parent same_path
is_parent-cons x pre [] y q = ground arith
is_parent-cons x pre (c ∷ []) y q = ground arith
is_parent-cons x pre (c ∷ d ∷ cs) y q =
    ground (arith, is_parent-cons x (pre ++ c ∷ []) (d ∷ cs) y q)

is_parent-nil : (pre cs : List Bytes) → is_parent pre cs [] ≡ false
unfolding is_parent same_path
is_parent-nil pre [] = refl
is_parent-nil pre (c ∷ []) = refl
is_parent-nil [] (c ∷ d ∷ cs) = is_parent-nil (c ∷ []) (d ∷ cs)
is_parent-nil (x ∷ pre) (c ∷ d ∷ cs) = is_parent-nil (x ∷ pre ++ c ∷ []) (d ∷ cs)

is_parent-above :
    (cs : List Bytes) (y : Bytes) (q : List Bytes) → is_parent [] cs (y ∷ q) ≡ is_above cs (y ∷ q)
unfolding is_parent is_above same_path
is_parent-above [] y q = refl
is_parent-above (c ∷ []) y q = ground arith
is_parent-above (c ∷ d ∷ cs) y [] =
    ground (arith, is_parent-cons c [] (d ∷ cs) y [], is_parent-nil [] (d ∷ cs))
is_parent-above (c ∷ d ∷ cs) y (z ∷ q) =
    ground (arith, is_parent-cons c [] (d ∷ cs) y (z ∷ q), is_parent-above (d ∷ cs) z q)

pub path_of-append :
    (pre : List Bytes) (c : Bytes) → path_of (pre ++ c ∷ []) ≡ path_of pre ++ slash ∷ c
unfolding path_of
path_of-append [] c = ap (◌∷◌ slash) (append-nil c)
path_of-append (x ∷ pre) c =
    ap (λ t. slash ∷ x ++ t) (path_of-append pre c)
    ∙ ap (◌∷◌ slash) (sym (append_assoc x (path_of pre) (slash ∷ c)))

pub All-snoc :
    (pre : List Bytes) (c : Bytes)
    → All IsComponent pre
    → IsComponent c
    → All IsComponent (pre ++ c ∷ [])
All-snoc [] c h k = (k, tt)
All-snoc (x ∷ pre) c h k = (h.0, All-snoc pre c h.1 k)

split_parent :
    (pre : List Bytes) (c : Bytes)
    → All IsComponent pre
    → IsComponent c
    → split_path (path_of pre ++ slash ∷ c) ≡ pre ++ c ∷ []
split_parent [] c h k = rw (← path_of-append [] c) (split_path-path_of c [] (k, tt))
split_parent (x ∷ pre) c h k =
    rw (← path_of-append (x ∷ pre) c)
      (split_path-path_of x (pre ++ c ∷ []) (h.0, All-snoc pre c h.1 k))

-- A directory recorded unless something is.
abbrev pub or_dir : ℕ → Bool → Option StatInfo → Option StatInfo
or_dir now b o = if b then some (get_or o (dir_info now)) else o

view-insert_parents :
    (now : ℕ) (pre : List Bytes) (parent : Bytes) (cs : List Bytes) (q : List Bytes) {c : StatCache}
    → IsValid c
    → parent ≡ path_of pre
    → All IsComponent pre
    → All IsComponent cs
    → view (insert_parents now parent cs c) q ≡ or_dir now (is_parent pre cs q) (view c q)
unfolding insert_parents is_parent
view-insert_parents now pre parent [] q v e h k = refl
view-insert_parents now pre parent (x ∷ []) q v e h k = refl
view-insert_parents now pre parent (x ∷ y ∷ cs) q {c} v e h k =
    let here : Bytes = parent ++ slash ∷ x in
    let e' : here ≡ path_of (pre ++ x ∷ []) =
      ap (λ t. t ++ slash ∷ x) e ∙ sym (path_of-append pre x) in
    let split : split_path here ≡ pre ++ x ∷ [] =
      ap (λ t. split_path (t ++ slash ∷ x)) e ∙ split_parent pre x h k.0 in
    ground (
      arith,
      view-insert_parents now (pre ++ x ∷ []) here (y ∷ cs) q (insert_directory-IsValid now here v)
          e' (All-snoc pre x h k.0) k.1,
      view-insert_directory now here q v,
      split,
    )

abbrev pub file_view : ℕ → ℕ → ℕ → List Bytes → List Bytes → Option StatInfo → Option StatInfo
file_view now size mtime p q o =
    if is_empty p
    then o
    else if same_path p q
    then some (file_info now size mtime)
    else or_dir now (is_above p q) o

view-parents_above :
    (now : ℕ) (p q : List Bytes) {c : StatCache}
    → IsValid c
    → All IsComponent p
    → view (insert_parents now [] p c) q ≡ or_dir now (is_above p q) (view c q)
unfolding is_above path_of
view-parents_above now p [] {c} v k =
    ground (arith, view-insert_parents now [] [] p [] v refl tt k, is_parent-nil [] p, view-nil v)
view-parents_above now p (y ∷ q) v k =
    rw (← is_parent-above p y q) (view-insert_parents now [] [] p (y ∷ q) v refl tt k)

written-write_file :
    (now size mtime : ℕ) (n : TrieNode)
    → written (write_file now size mtime) n ≡ some (file_info now size mtime)
written-write_file now size mtime (node ch info e) = refl

-- `insertFile` records the file, adds each directory above it where nothing is recorded, and
-- changes nothing else. A path with no component is left alone.
pub view-insert_file :
    (now : ℕ) (path : Bytes) (size mtime : ℕ) (q : List Bytes) {c : StatCache}
    → IsValid c
    → view (insert_file now path size mtime c) q
      ≡ file_view now size mtime (split_path path) q (view c q)
unfolding insert_file
view-insert_file now path size mtime q {c} v = go (split_path path) (split_path-IsComponent path)
  where
    go :
        (p : List Bytes)
        → All IsComponent p
        → view
            (if is_empty p then c else record (insert_parents now [] p c) {
              root = update_node (write_file now size mtime) p (insert_parents now [] p c).root;
            })
            q
          ≡ file_view now size mtime p q (view c q)
    go [] k = refl
    go (x ∷ p) k = ground (
      arith,
      info_at-update_node (write_file now size mtime) (x ∷ p) q
          (insert_parents now [] (x ∷ p) c).root,
      written-write_file now size mtime
          (node_or_new (find_node (x ∷ p) (insert_parents now [] (x ∷ p) c).root)),
      view-parents_above now (x ∷ p) q v k,
    )
