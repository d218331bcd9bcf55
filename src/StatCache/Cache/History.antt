-- ===== src/StatCache/Cache/History.antt =====
-- Every sequence of operations on the `StatCache` of src/stat_cache.cpp against a table from paths
-- to metadata.
use gcscfuse.Base.{
  sym, Bool-cases, inl, inr, arith, ◌++◌, not, ◌||◌, ◌-◌, is_empty, ◌&&◌, ap, if◌then◌else◌, ◌∙◌,
  ◌≡◌, Option, List, ℕ, none, some, refl, [], ◌∷◌,
}
use gcscfuse.StatCache.Trie.{find_child, StatInfo}
use gcscfuse.StatCache.Cache.Stat.{
  fresh, get_stat-view, exists-view, is_dir, is_some, timeout-remove, timeout-insert_directory,
  timeout-insert_file,
}
use gcscfuse.StatCache.Cache.{
  is_expired, list_directory, dir_info, exists, remove, root_info, root_node, insert_directory,
  get_stat, init, insert_file, set_cache_timeout, StatCache, clear, is_directory,
}
use gcscfuse.StatCache.Trie.Lookup.{info_at, same_path}
use gcscfuse.StatCache.Cache.Listing.{list_directory-view, IsAscending}
use gcscfuse.Base.Bytes.{contains, Bytes}
use gcscfuse.StatCache.Cache.Invariant.{
  set_cache_timeout-IsValid, clear-IsValid, remove-IsValid, insert_directory-IsValid,
  insert_file-IsValid, init-IsValid, IsValid,
}
use gcscfuse.StatCache.Cache.View.{get_or, view-remove, view-insert_directory, view}
use gcscfuse.StatCache.Cache.View.Files.{file_view, view-insert_file}
use gcscfuse.Base.Int.{ltb_ℤ, pos, ℤ}
use gcscfuse.StatCache.Path.{is_root, split_path}

pub data Change : Type 0 where
  file_inserted : ℕ → Bytes → ℕ → ℕ → Change
  directory_inserted : ℕ → Bytes → Change
  removed : Bytes → Change
  cleared : Change
  timeout_set : ℤ → Change

-- The cache after one operation, and after a sequence, the last one first.
abbrev pub change : Change → StatCache → StatCache
change (file_inserted now path size mtime) c = insert_file now path size mtime c
change (directory_inserted now path) c = insert_directory now path c
change (removed path) c = remove path c
change cleared c = clear c
change (timeout_set t) c = set_cache_timeout t c

abbrev pub cache_after : List Change → StatCache
cache_after [] = init
cache_after (x ∷ earlier) = change x (cache_after earlier)

-- The table that they make.
abbrev root_only : List Bytes → Option StatInfo
root_only [] = some root_info
root_only (x ∷ q) = none

abbrev pub effect : Change → List Bytes → Option StatInfo → Option StatInfo
effect (file_inserted now path size mtime) q o = file_view now size mtime (split_path path) q o
effect (directory_inserted now path) q o =
    if same_path (split_path path) q then some (get_or o (dir_info now)) else o
effect (removed path) q o =
    if is_empty (split_path path) || not (same_path (split_path path) q) then o else none
effect cleared q o = root_only q
effect (timeout_set t) q o = o

abbrev pub table : List Change → List Bytes → Option StatInfo
table [] q = root_only q
table (x ∷ earlier) q = effect x q (table earlier q)

abbrev pub limit : Change → ℤ → ℤ
limit (timeout_set t) old = t
limit (file_inserted now path size mtime) old = old
limit (directory_inserted now path) old = old
limit (removed path) old = old
limit cleared old = old

abbrev pub timeout : List Change → ℤ
timeout [] = pos 60
timeout (x ∷ earlier) = limit x (timeout earlier)

-- What was recorded, unless more than a positive timeout has passed since.
abbrev pub within : ℕ → ℤ → Option StatInfo → Option StatInfo
within now limit none = none
within now limit (some info) =
    if ltb_ℤ (pos 0) limit && ltb_ℤ limit (pos (now - info.cache_time)) then none else some info

pub change-IsValid : (x : Change) {c : StatCache} → IsValid c → IsValid (change x c)
change-IsValid (file_inserted now path size mtime) v = insert_file-IsValid now path size mtime v
change-IsValid (directory_inserted now path) v = insert_directory-IsValid now path v
change-IsValid (removed path) v = remove-IsValid path v
change-IsValid cleared {c} v = clear-IsValid c
change-IsValid (timeout_set t) v = set_cache_timeout-IsValid t v

pub cache_after-IsValid : (changes : List Change) → IsValid (cache_after changes)
cache_after-IsValid [] = init-IsValid
cache_after-IsValid (x ∷ earlier) = change-IsValid x (cache_after-IsValid earlier)

view-root : (c : StatCache) (q : List Bytes) → c.root ≡ root_node → view c q ≡ root_only q
unfolding info_at find_child
view-root c [] e = ap (info_at []) e
view-root c (x ∷ q) e = ap (info_at (x ∷ q)) e

pub view-change :
    (x : Change) (q : List Bytes) {c : StatCache}
    → IsValid c
    → view (change x c) q ≡ effect x q (view c q)
unfolding clear set_cache_timeout
view-change (file_inserted now path size mtime) q v = view-insert_file now path size mtime q v
view-change (directory_inserted now path) q v = view-insert_directory now path q v
view-change (removed path) q {c} v = view-remove path q c
view-change cleared q {c} v = view-root (clear c) q refl
view-change (timeout_set t) q v = refl

pub view-cache_after :
    (changes : List Change) (q : List Bytes) → view (cache_after changes) q ≡ table changes q
view-cache_after [] q = view-root init q refl
view-cache_after (x ∷ earlier) q =
    view-change x q (cache_after-IsValid earlier) ∙ ap (effect x q) (view-cache_after earlier q)

pub timeout-change :
    (x : Change) (c : StatCache) → (change x c).cache_timeout ≡ limit x c.cache_timeout
unfolding clear set_cache_timeout
timeout-change (timeout_set t) c = refl
timeout-change (file_inserted now path size mtime) c = timeout-insert_file now path size mtime c
timeout-change (directory_inserted now path) c = timeout-insert_directory now path c
timeout-change (removed path) c = timeout-remove path c
timeout-change cleared c = refl

pub timeout-cache_after :
    (changes : List Change) → (cache_after changes).cache_timeout ≡ timeout changes
timeout-cache_after [] = refl
timeout-cache_after (x ∷ earlier) =
    timeout-change x (cache_after earlier) ∙ ap (limit x) (timeout-cache_after earlier)

pub within-fresh :
    (now : ℕ) (c : StatCache) (o : Option StatInfo) → fresh now c o ≡ within now c.cache_timeout o
unfolding is_expired
within-fresh now c none = refl
within-fresh now c (some info) = ground arith

get_stat-table :
    (changes : List Change) (now : ℕ) (path : Bytes)
    → get_stat now path (cache_after changes) ≡ (
        if is_root path
        then some root_info
        else within now (timeout changes) (table changes (split_path path)))
unfolding get_stat
get_stat-table changes now path = elim (Bool-cases (is_root path)) [
  | inl e ↦ rw (e, get_stat) (ap some (cache_after-IsValid changes).root_info_kept)
  | inr e ↦
      get_stat-view now path (cache_after changes) e
      ∙ within-fresh now (cache_after changes) _
      ∙ ap (λ t. within now t (view (cache_after changes) (split_path path)))
          (timeout-cache_after changes)
      ∙ ap (within now (timeout changes)) (view-cache_after changes (split_path path))
      ∙ ap
          (λ b.
            if b
            then some root_info
            else within now (timeout changes) (table changes (split_path path)))
          (sym e)
]

-- After any sequence of operations on a new cache, the cache is valid and answers as the table
-- does: `getStat` by what is recorded unless a positive timeout has passed since, and the root's
-- metadata for the root; `exists` and `isDirectory` by what is recorded, fresh or expired; and
-- `listDirectory` by the names recorded below a directory, in strict key order.
pub cache_after-table :
    (changes : List Change) (now : ℕ) (path name : Bytes)
    → (let c = cache_after changes in
        let recorded = table changes (split_path path) in
        IsValid c
        × (get_stat now path c
            ≡ (if is_root path then some root_info else within now (timeout changes) recorded))
        × (exists path c ≡ is_some recorded)
        × (is_directory path c ≡ is_dir recorded)
        × (contains name (list_directory path c)
            ≡ (is_dir recorded && is_some (table changes (split_path path ++ name ∷ []))))
        × IsAscending (list_directory path c))
cache_after-table changes now path name =
    let v = cache_after-IsValid changes in
    let seen = view-cache_after changes (split_path path) in
    let below = view-cache_after changes (split_path path ++ name ∷ []) in
    let known = exists-view path v in
    let listing = list_directory-view path name v in
    (
      v,
      get_stat-table changes now path,
      known.0 ∙ ap is_some seen,
      known.1 ∙ ap is_dir seen,
      listing.0
          ∙ ap
              (λ o. is_dir o && is_some (view (cache_after changes) (split_path path ++ name ∷ [])))
              seen
          ∙ ap (λ o. is_dir (table changes (split_path path)) && is_some o) below,
      listing.1,
    )
