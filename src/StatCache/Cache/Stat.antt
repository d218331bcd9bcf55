-- ===== src/StatCache/Cache/Stat.antt =====
-- What `getStat`, `exists` and `isDirectory` return, by the abstract view, and what they return
-- after a change.
use gcscfuse.Base.{
  ◌≤◌, refl, ◌-◌, ◌&&◌, ◌∙◌, Bool-cases, ◌++◌, ◌∷◌, [], List, true, is_empty, Bool, ℕ, false,
  Option, none, some, if◌then◌else◌, ◌≡◌, arith, Option-cases, inl, inr,
}
use gcscfuse.StatCache.Trie.Lookup.{same_path_refl, same_path, find_node-info_at}
use gcscfuse.StatCache.Cache.{
  file_info, is_directory, exists, remove, insert_file, insert_directory, insert_parents, StatCache,
  is_expired, get_stat,
}
use gcscfuse.StatCache.Cache.View.{
  find_node-agrees, view-nil, split_path-root, view-insert_directory, view-remove, view,
}
use gcscfuse.StatCache.Cache.View.Files.{view-insert_file}
use gcscfuse.Base.Int.{leb_ℤ, ℤ, negsuc, ltb_ℤ, pos}
use gcscfuse.Base.Bytes.{slash, Bytes}
use gcscfuse.StatCache.Cache.Invariant.{IsValid, insert_directory-IsValid}
use gcscfuse.StatCache.Path.{is_root, split_path}
use gcscfuse.StatCache.Trie.{StatInfo, node, find_node}

-- The recorded metadata, unless it expired.
abbrev pub fresh : ℕ → StatCache → Option StatInfo → Option StatInfo
fresh now c none = none
fresh now c (some i) = if is_expired now c i then none else some i

-- `getStat` returns the fresh metadata that the view has.
pub get_stat-view :
    (now : ℕ) (path : Bytes) (c : StatCache)
    → is_root path ≡ false
    → get_stat now path c ≡ fresh now c (view c (split_path path))
unfolding get_stat is_expired
get_stat-view now path c h = elim (Option-cases (find_node (split_path path) c.root)) [
  | inl k ↦ ground (arith, find_node-info_at (split_path path) c.root)
  | inr (node ch info e, k) ↦ ground (arith, find_node-info_at (split_path path) c.root)
]

pub timeout-insert_directory :
    (now : ℕ) (path : Bytes) (c : StatCache)
    → (insert_directory now path c).cache_timeout ≡ c.cache_timeout
unfolding insert_directory
timeout-insert_directory now path c = ground arith

timeout-insert_parents :
    (now : ℕ) (parent : Bytes) (cs : List Bytes) (c : StatCache)
    → (insert_parents now parent cs c).cache_timeout ≡ c.cache_timeout
unfolding insert_parents
timeout-insert_parents now parent [] c = refl
timeout-insert_parents now parent (x ∷ []) c = refl
timeout-insert_parents now parent (x ∷ y ∷ cs) c =
    timeout-insert_parents now (parent ++ slash ∷ x) (y ∷ cs)
      (insert_directory now (parent ++ slash ∷ x) c)
    ∙ timeout-insert_directory now (parent ++ slash ∷ x) c

pub timeout-insert_file :
    (now : ℕ) (path : Bytes) (size mtime : ℕ) (c : StatCache)
    → (insert_file now path size mtime c).cache_timeout ≡ c.cache_timeout
unfolding insert_file
timeout-insert_file now path size mtime c =
    ground (arith, timeout-insert_parents now [] (split_path path) c)

-- A path that names something below the root.
abbrev pub IsBelowRoot : Bytes → Type 0
IsBelowRoot path = is_empty (split_path path) ≡ false

below_root : (path : Bytes) → IsBelowRoot path → is_root path ≡ false
unfolding split_path
below_root path h = ground arith

-- A file that was just recorded is returned until exactly the timeout has passed: with a positive
-- timeout it is gone in the first second after, and without one it stays.
pub get_stat-insert_file :
    (now later : ℕ) (path : Bytes) (size mtime : ℕ) {c : StatCache}
    → IsValid c
    → IsBelowRoot path
    → get_stat later path (insert_file now path size mtime c) ≡ (
        if ltb_ℤ (pos 0) c.cache_timeout && ltb_ℤ c.cache_timeout (pos (later - now))
        then none
        else some (file_info now size mtime))
unfolding is_expired
get_stat-insert_file now later path size mtime {c} v h = ground (
  arith,
  get_stat-view later path (insert_file now path size mtime c),
  below_root path h,
  view-insert_file now path size mtime (split_path path) v,
  same_path_refl (split_path path),
  timeout-insert_file now path size mtime c,
)

pub timeout-remove :
    (path : Bytes) (c : StatCache) → (remove path c).cache_timeout ≡ c.cache_timeout
unfolding remove
timeout-remove path c = ground arith

-- A removed path has no metadata, and every other path keeps its own.
pub get_stat-remove :
    (later : ℕ) (path other : Bytes) (c : StatCache)
    → IsBelowRoot path
    → IsBelowRoot other
    → get_stat later other (remove path c)
      ≡ (if same_path (split_path path) (split_path other) then none else get_stat later other c)
unfolding is_expired
get_stat-remove later path other c h b = ground (
  arith,
  get_stat-view later other (remove path c),
  get_stat-view later other c,
  below_root other b,
  view-remove path (split_path other) c,
  timeout-remove path c,
)

-- The cache after a sequence of `insertDirectory`, each with its time and its path, the last one
-- first.
abbrev pub inserted : List (ℕ × Bytes) → StatCache → StatCache
inserted [] c = c
inserted ((now, path) ∷ earlier) c = insert_directory now path (inserted earlier c)

inserted-keeps :
    (inserts : List (ℕ × Bytes)) (q : List Bytes) (info : StatInfo) {c : StatCache}
    → IsValid c
    → view c q ≡ some info
    → IsValid (inserted inserts c)
      × (view (inserted inserts c) q ≡ some info)
      × ((inserted inserts c).cache_timeout ≡ c.cache_timeout)
inserted-keeps [] q info v h = (v, h, refl)
inserted-keeps ((now, path) ∷ earlier) q info {c} v h =
    let (v', h', e) = inserted-keeps earlier q info v h in
    (
      insert_directory-IsValid now path v',
      ground (arith, h', view-insert_directory now path q v'),
      timeout-insert_directory now path (inserted earlier c) ∙ e,
    )

past-later :
    (timeout : ℤ) (a b : ℕ)
    → a ≤ b
    → (if leb_ℤ timeout (pos 0) then false else ltb_ℤ timeout (pos a)) ≡ true
    → (if leb_ℤ timeout (pos 0) then false else ltb_ℤ timeout (pos b)) ≡ true
past-later (pos n) a b le h = ground arith
past-later (negsuc n) a b le h = ground arith

-- What expired stays expired.
is_expired-later :
    (now later : ℕ) (c d : StatCache) (info : StatInfo)
    → d.cache_timeout ≡ c.cache_timeout
    → now ≤ later
    → is_expired now c info ≡ true
    → is_expired later d info ≡ true
unfolding is_expired
is_expired-later now later c d info e le h =
    rw e
      (past-later c.cache_timeout (now - info.cache_time) (later - info.cache_time) (omega arith) h)

-- `insertDirectory` does not renew an entry: once its metadata expired, `getStat` misses it at every
-- later time, whatever directories are inserted in between, this one again included.
pub get_stat-insert_directory_expired :
    (now later : ℕ) (path : Bytes) (inserts : List (ℕ × Bytes)) {c : StatCache} (info : StatInfo)
    → IsValid c
    → IsBelowRoot path
    → view c (split_path path) ≡ some info
    → is_expired now c info ≡ true
    → now ≤ later
    → get_stat later path (inserted inserts c) ≡ none
get_stat-insert_directory_expired now later path inserts {c} info v b h e le =
    let (v', h', same_timeout) = inserted-keeps inserts (split_path path) info v h in
    ground (
      arith,
      get_stat-view later path (inserted inserts c),
      below_root path b,
      h',
      is_expired-later now later c (inserted inserts c) info same_timeout le e,
    )

abbrev pub is_some : Option StatInfo → Bool
is_some none = false
is_some (some i) = true

abbrev pub is_dir : Option StatInfo → Bool
is_dir none = false
is_dir (some i) = i.is_directory

-- `exists` and `isDirectory` ignore the timeout: they answer by the recorded metadata.
pub exists-view :
    (path : Bytes) {c : StatCache}
    → IsValid c
    → (exists path c ≡ is_some (view c (split_path path)))
      × (is_directory path c ≡ is_dir (view c (split_path path)))
unfolding exists is_directory
exists-view path {c} v = elim (Bool-cases (is_root path)) [
  | inl e ↦ ground (arith, split_path-root path, view-nil v)
  | inr e ↦ elim (Option-cases (find_node (split_path path) c.root)) [
    | inl k ↦ ground (arith, find_node-info_at (split_path path) c.root)
    | inr (node ch info x, k) ↦ ground (
      arith,
      find_node-info_at (split_path path) c.root,
      find_node-agrees (split_path path) c.root v.trie k,
    )
  ]
]
