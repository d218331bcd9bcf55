-- ===== src/StatCache/Cache.antt =====
-- `StatCache`: the operations on the trie by path text. `now` is what `time(nullptr)` returns
-- during the call.
pub mod Invariant
pub mod View
pub mod Stat
pub mod Listing
pub mod History
pub mod Abstract
use gcscfuse.Base.{
  ℕ, ◌-◌, Bool, true, false, not, ◌&&◌, List, [], ◌∷◌, ◌++◌, Option, none, some, if◌then◌else◌,
  is_empty,
}
use gcscfuse.Base.Bytes.{Bytes, slash}
use gcscfuse.Base.Int.{ℤ, pos, ltb_ℤ, leb_ℤ}
use gcscfuse.StatCache.Path.{is_root, split_path}
use gcscfuse.StatCache.Trie.{
  StatInfo, no_info, TrieNode, Children, node, nil, child, exists_of, info_of, children_of,
  find_node, update_node, remove_at, dir_mode, file_mode,
}

pub record StatCache : Type 0 where
  pub root : TrieNode
  pub cache_timeout : ℤ

abbrev pub root_info : StatInfo
root_info = record no_info { is_directory = true; mode = dir_mode; metadata_loaded = true }

abbrev pub root_node : TrieNode
root_node = node nil root_info true

-- `StatCache()`, with its default timeout
abbrev pub init : StatCache
init = record { root = root_node; cache_timeout = pos 60 }

unfoldable pub set_cache_timeout : ℤ → StatCache → StatCache
set_cache_timeout timeout_seconds c = record c { cache_timeout = timeout_seconds }

-- Times are seconds since the epoch. Where the clock stands before `cache_time` the difference is
-- negative in the source and 0 here, and neither is above a positive timeout.
unfoldable pub is_expired : ℕ → StatCache → StatInfo → Bool
is_expired now c info =
    if leb_ℤ c.cache_timeout (pos 0)
    then false
    else ltb_ℤ c.cache_timeout (pos (now - info.cache_time))

abbrev pub dir_info : ℕ → StatInfo
dir_info now = record {
  mode = dir_mode;
  size = 0;
  mtime = now;
  cache_time = now;
  is_directory = true;
  metadata_loaded = true;
}

abbrev pub file_info : ℕ → ℕ → ℕ → StatInfo
file_info now size mtime = record {
  mode = file_mode;
  size = size;
  mtime = mtime;
  cache_time = now;
  is_directory = false;
  metadata_loaded = true;
}

-- The writes of `insertDirectory` and of `insertFile` through the node that they found.
abbrev pub write_dir : ℕ → StatInfo → Bool → StatInfo × Bool
write_dir now info e = if not info.metadata_loaded then (dir_info now, true) else (info, e)

abbrev pub write_file : ℕ → ℕ → ℕ → StatInfo → Bool → StatInfo × Bool
write_file now size mtime info e = (file_info now size mtime, true)

unfoldable pub insert_directory : ℕ → Bytes → StatCache → StatCache
insert_directory now path c =
    if is_root path
    then c
    else record c { root = update_node (write_dir now) (split_path path) c.root }

-- The loop over the components but the last; `parent_path` is its text so far.
unfoldable pub insert_parents : ℕ → Bytes → List Bytes → StatCache → StatCache
unfolding insert_directory
insert_parents now parent_path [] c = c
insert_parents now parent_path (component ∷ []) c = c
insert_parents now parent_path (component ∷ next ∷ rest) c =
    let parent : Bytes = parent_path ++ slash ∷ component in
    insert_parents now parent (next ∷ rest) (insert_directory now parent c)

unfoldable pub insert_file : ℕ → Bytes → ℕ → ℕ → StatCache → StatCache
unfolding insert_parents
insert_file now path size mtime c =
    let components = split_path path in
    let c' = insert_parents now [] components c in
    if is_empty components
    then c
    else record c' { root = update_node (write_file now size mtime) components c'.root }

unfoldable pub get_stat : ℕ → Bytes → StatCache → Option StatInfo
unfolding is_expired
get_stat now path c =
    if is_root path then some (info_of c.root) else elim (find_node (split_path path) c.root) [
      | none ↦ none
      | some n ↦
          if exists_of n && (info_of n).metadata_loaded
          then (if is_expired now c (info_of n) then none else some (info_of n))
          else none
    ]

unfoldable pub exists : Bytes → StatCache → Bool
exists path c =
    if is_root path
    then true
    else elim (find_node (split_path path) c.root) [ none ↦ false | some n ↦ exists_of n ]

unfoldable pub is_directory : Bytes → StatCache → Bool
is_directory path c = if is_root path then true else elim (find_node (split_path path) c.root) [
  | none ↦ false
  | some n ↦ exists_of n && (info_of n).is_directory
]

unfoldable pub clear : StatCache → StatCache
clear c = record c { root = root_node }

-- The names of the children that exist, in key order.
unfoldable pub entries_of : Children → List Bytes
entries_of nil = []
entries_of (child name n rest) =
    let more = entries_of rest in if exists_of n then name ∷ more else more

unfoldable pub list_directory : Bytes → StatCache → List Bytes
unfolding entries_of
list_directory path c = elim (find_node (split_path path) c.root) [
  | none ↦ []
  | some n ↦ if not (info_of n).is_directory then [] else entries_of (children_of n)
]

unfoldable pub remove : Bytes → StatCache → StatCache
remove path c =
    let components = split_path path in
    if is_empty components then c else elim (find_node components c.root) [
      | none ↦ c
      | some n ↦ record c { root = remove_at components c.root }
    ]
