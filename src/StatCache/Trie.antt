-- ===== src/StatCache/Trie.antt =====
-- `StatInfo`, `TrieNode` and the walks over the trie.
pub mod Lookup
pub mod WellFormed
use gcscfuse.Base.{
  ℕ, Bool, true, false, not, ◌&&◌, List, [], ◌∷◌, Option, none, some, if◌then◌else◌,
}
use gcscfuse.Base.Bytes.{Bytes, same, before}

-- `S_IFDIR | 0755` and `S_IFREG | 0644`
abbrev pub dir_mode : ℕ
dir_mode = 0o40755

abbrev pub file_mode : ℕ
file_mode = 0o100644

pub record StatInfo : Type 0 where
  pub mode : ℕ
  pub size : ℕ
  pub mtime : ℕ
  pub cache_time : ℕ
  pub is_directory : Bool
  pub metadata_loaded : Bool

-- `StatInfo()`
abbrev pub no_info : StatInfo
no_info = record {
  mode = 0;
  size = 0;
  mtime = 0;
  cache_time = 0;
  is_directory = false;
  metadata_loaded = false;
}

-- A node: its children in the key order of `std::map`, its metadata, and the flag `exists`.
mutual
  pub data TrieNode : Type 0 where
    node : Children → StatInfo → Bool → TrieNode

  pub data Children : Type 0 where
    nil : Children
    child : Bytes → TrieNode → Children → Children

-- `TrieNode()`
abbrev pub empty_node : TrieNode
empty_node = node nil no_info false

abbrev pub children_of : TrieNode → Children
children_of (node ch info e) = ch

abbrev pub info_of : TrieNode → StatInfo
info_of (node ch info e) = info

abbrev pub exists_of : TrieNode → Bool
exists_of (node ch info e) = e

-- `children.find(name)`
unfoldable pub find_child : Bytes → Children → Option TrieNode
find_child name nil = none
find_child name (child c n rest) = if same c name then some n else find_child name rest

-- `children[name] = n`, at its place in the key order
unfoldable pub set_child : Bytes → TrieNode → Children → Children
set_child name n nil = child name n nil
set_child name n (child c m rest) =
    if same c name
    then child name n rest
    else if before name c
    then child name n (child c m rest)
    else child c m (set_child name n rest)

-- `children.erase(name)`
unfoldable pub erase_child : Bytes → Children → Children
erase_child name nil = nil
erase_child name (child c n rest) =
    let kept = erase_child name rest in if same c name then kept else child c n kept

abbrev pub is_nil : Children → Bool
is_nil nil = true
is_nil (child c n rest) = false

-- `findNode(path, false)`, from a node and the components of the path
unfoldable pub find_node : List Bytes → TrieNode → Option TrieNode
find_node [] n = some n
find_node (c ∷ cs) n = elim (find_child c (children_of n)) [ none ↦ none | some m ↦ find_node cs m ]

abbrev pub node_or_new : Option TrieNode → TrieNode
node_or_new none = empty_node
node_or_new (some n) = n

-- `findNode(path, true)`, and then a write of the metadata and the flag through the pointer
unfoldable pub update_node : (StatInfo → Bool → StatInfo × Bool) → List Bytes → TrieNode → TrieNode
update_node write [] (node ch info e) = let (info', e') = write info e in node ch info' e'
update_node write (c ∷ cs) (node ch info e) =
    node (set_child c (update_node write cs (node_or_new (find_child c ch))) ch) info e

-- `node->children.empty() && !node->exists`
abbrev pub is_prunable : TrieNode → Bool
is_prunable (node ch info e) = is_nil ch && not e

-- The marking of the target in `remove`, and its loop from the target back to the root. Where the
-- loop breaks, the nodes further up keep a child, so that no test above can pass.
unfoldable pub remove_at : List Bytes → TrieNode → TrieNode
remove_at [] (node ch info e) = node ch no_info false
remove_at (c ∷ cs) (node ch info e) = elim (find_child c ch) [
  | none ↦ node ch info e
  | some m ↦
      let m' = remove_at cs m in
      if is_prunable m' then node (erase_child c ch) info e else node (set_child c m' ch) info e
]
