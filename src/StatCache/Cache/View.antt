-- ===== src/StatCache/Cache/View.antt =====
-- The abstract cache: what each path of components holds, and how the operations change it.
pub mod Files
use gcscfuse.StatCache.Cache.{
  info_of, exists_of, StatCache, root_info, insert_directory, insert_parents, insert_file, remove,
  write_dir, write_file, dir_info, file_info,
}
use mathlib.Core.Path.{subst}
use mathlib.Core.List.{append_assoc, append-nil}
use gcscfuse.Base.{
  ℕ, Bool, true, false, not, ◌&&◌, ◌||◌, List, [], ◌∷◌, ◌++◌, Option, none, some, if◌then◌else◌,
  ◌≡◌, refl, arith, ap, sym, Bool-cases, Option-cases, inl, inr, is_empty, ◌∙◌, All,
}
use gcscfuse.Base.Bytes.{Bytes, slash, same}
use gcscfuse.StatCache.Path.{is_root, split_path, path_of}
use gcscfuse.StatCache.Path.RoundTrip.{split_path-path_of, split_path-IsComponent, IsComponent}
use gcscfuse.StatCache.Trie.{
  StatInfo, TrieNode, node, find_node, node_or_new, find_child, update_node, remove_at,
}
use gcscfuse.StatCache.Trie.Lookup.{
  same_path, same_path-eq, info_at-nil, info_at, written, info_at-update_node, info_at-remove_at,
  shown_node, find_node-info_at,
}
use gcscfuse.StatCache.Trie.WellFormed.{IsSound, IsWf, find_child-IsWf}
use gcscfuse.StatCache.Cache.Invariant.{IsValid, insert_directory-IsValid}

-- The metadata recorded for a path of components, expired or not.
abbrev pub view : StatCache → List Bytes → Option StatInfo
view c q = info_at q c.root

abbrev pub get_or : Option StatInfo → StatInfo → StatInfo
get_or none d = d
get_or (some i) d = i

IsWf-agrees : (m : TrieNode) → IsWf m → exists_of m ≡ (info_of m).metadata_loaded
unfolding IsWf
IsWf-agrees (node ch info e) w = w.0.agrees

pub find_node-IsWf :
    (p : List Bytes) (n : TrieNode) {m : TrieNode} → IsWf n → find_node p n ≡ some m → IsWf m
unfolding find_node IsWf
find_node-IsWf [] n w h = subst IsWf (cc) w
find_node-IsWf (c ∷ p) (node ch info e) {m} w h = elim (Option-cases (find_child c ch)) [
  | inl k ↦ ground arith
  | inr (b, k) ↦ find_node-IsWf p b (find_child-IsWf c ch w.1 k) (ground arith)
]

-- At a found node the flag says whether the metadata was loaded.
pub find_node-agrees :
    (p : List Bytes) (n : TrieNode) {m : TrieNode}
    → IsWf n
    → find_node p n ≡ some m
    → exists_of m ≡ (info_of m).metadata_loaded
find_node-agrees p n {m} w h = IsWf-agrees m (find_node-IsWf p n w h)

-- A directory write keeps the metadata that is there.
written-write_dir :
    (now : ℕ) (p : List Bytes) (n : TrieNode)
    → IsWf n
    → written (write_dir now) (node_or_new (find_node p n))
      ≡ some (get_or (shown_node (find_node p n)) (dir_info now))
unfolding IsWf
written-write_dir now p n w = elim (Option-cases (find_node p n)) [
  | inl h ↦ rw h
  | inr (node ch info e, h) ↦
      let s : IsSound info e = (find_node-IsWf p n w h).0 in rw h (ground arith)
]

view-update_dir :
    (now : ℕ) (p q : List Bytes) (n : TrieNode)
    → IsWf n
    → info_at q (update_node (write_dir now) p n)
      ≡ (if same_path p q then some (get_or (info_at q n) (dir_info now)) else info_at q n)
view-update_dir now p q n w = elim (Bool-cases (same_path p q)) [
  | inl h ↦
      rw (info_at-update_node, h)
        (written-write_dir now p n w
          ∙ ap (λ o. some (get_or o (dir_info now)))
              (find_node-info_at p n ∙ ap (λ r. info_at r n) (same_path-eq p q h)))
  | inr h ↦ rw (info_at-update_node, h) refl
]

-- The root is always there.
pub view-nil : {c : StatCache} → IsValid c → view c [] ≡ some root_info
view-nil {c} v = ground (arith, info_at-nil c.root)

same_path-nil : (q : List Bytes) → same_path [] q ≡ is_empty q
unfolding same_path
same_path-nil [] = refl
same_path-nil (x ∷ q) = refl

pub split_path-root : (path : Bytes) → is_root path ≡ true → split_path path ≡ []
unfolding split_path
split_path-root path h = rw h refl

-- `insertDirectory` adds a directory where nothing is recorded, and changes nothing else.
pub view-insert_directory :
    (now : ℕ) (path : Bytes) (q : List Bytes) {c : StatCache}
    → IsValid c
    → view (insert_directory now path c) q ≡ (
        if same_path (split_path path) q then some (get_or (view c q) (dir_info now)) else view c q)
unfolding insert_directory
view-insert_directory now path q {c} v = elim (Bool-cases (is_root path)) [
  | inl e ↦ ground (arith, split_path-root path, view-nil v, same_path-eq [] q)
  | inr e ↦ rw e (view-update_dir now (split_path path) q c.root v.trie)
]

-- `remove` forgets its path alone: what lies below or beside it stays.
pub view-remove :
    (path : Bytes) (q : List Bytes) (c : StatCache)
    → view (remove path c) q ≡ (
        if is_empty (split_path path) || not (same_path (split_path path) q)
        then view c q
        else none)
unfolding remove
view-remove path q c = go (split_path path)
  where
    go :
        (p : List Bytes)
        → view
            (if is_empty p then c else elim (find_node p c.root) [
              | none ↦ c
              | some n ↦ record c { root = remove_at p c.root }
            ])
            q
          ≡ (if is_empty p || not (same_path p q) then view c q else none)
    go [] = refl
    go (x ∷ p) = elim (Option-cases (find_node (x ∷ p) c.root)) [
      | inl h ↦ ground (arith, find_node-info_at (x ∷ p) c.root, same_path-eq (x ∷ p) q)
      | inr (n, h) ↦ ground (arith, info_at-remove_at (x ∷ p) q c.root)
    ]
