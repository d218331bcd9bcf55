-- ===== src/StatCache/Trie/Lookup.antt =====
-- What a node holds along a path of components, after each operation on the trie.
use gcscfuse.StatCache.Trie.{exists_of}
use gcscfuse.StatCache.Trie.{info_of}
use gcscfuse.Base.Bytes.{same_refl}
use gcscfuse.Base.{
  Bool, true, false, ◌&&◌, List, [], ◌∷◌, Option, none, some, if◌then◌else◌, ◌≡◌, refl, arith,
  Option-cases, inl, inr,
}
use gcscfuse.Base.Bytes.{Bytes, same, same_iff}
use gcscfuse.StatCache.Trie.{
  StatInfo, TrieNode, Children, node, nil, child, empty_node, find_child, set_child, erase_child,
  find_node, node_or_new, update_node, is_prunable, remove_at,
}

unfoldable pub same_path : List Bytes → List Bytes → Bool
same_path [] [] = true
same_path (x ∷ xs) (y ∷ ys) = same x y && same_path xs ys
same_path _ _ = false

pub same_path-eq : (p q : List Bytes) → same_path p q ≡ true → p ≡ q
unfolding same_path
same_path-eq [] [] h = refl
same_path-eq (x ∷ p) (y ∷ q) h = ground (arith, same_iff x y, same_path-eq p q)
same_path-eq [] (y ∷ q) h = ground arith
same_path-eq (x ∷ p) [] h = ground arith

pub same_path_refl : (p : List Bytes) → same_path p p ≡ true
unfolding same_path
same_path_refl [] = refl
same_path_refl (x ∷ p) = rw (same_refl x, same_path_refl p)

-- The metadata that a client may see.
abbrev pub shown : StatInfo → Bool → Option StatInfo
shown info e = if e && info.metadata_loaded then some info else none

unfoldable pub info_at : List Bytes → TrieNode → Option StatInfo
info_at [] (node ch info e) = shown info e
info_at (c ∷ cs) (node ch info e) = elim (find_child c ch) [ none ↦ none | some m ↦ info_at cs m ]

pub info_at-nil : (n : TrieNode) → info_at [] n ≡ shown (info_of n) (exists_of n)
unfolding info_at
info_at-nil (node ch info e) = refl

pub find_child-set_child :
    (c d : Bytes) (n : TrieNode) (ch : Children)
    → find_child d (set_child c n ch) ≡ (if same c d then some n else find_child d ch)
unfolding find_child set_child
find_child-set_child c d n nil = refl
find_child-set_child c d n (child b m rest) =
    ground (arith, same_iff c d, same_iff b c, same_iff b d, find_child-set_child c d n rest)

pub find_child-erase_child :
    (c d : Bytes) (ch : Children)
    → find_child d (erase_child c ch) ≡ (if same c d then none else find_child d ch)
unfolding find_child erase_child
find_child-erase_child c d nil = ground arith
find_child-erase_child c d (child b m rest) =
    ground (arith, same_iff c d, same_iff b c, same_iff b d, find_child-erase_child c d rest)

info_at-empty : (q : List Bytes) → info_at q empty_node ≡ none
unfolding info_at find_child
info_at-empty [] = refl
info_at-empty (c ∷ cs) = refl

-- What a found node shows.
abbrev pub shown_node : Option TrieNode → Option StatInfo
shown_node none = none
shown_node (some (node ch info e)) = shown info e

-- The walk of `getStat` finds what `info_at` says.
pub find_node-info_at : (q : List Bytes) (n : TrieNode) → shown_node (find_node q n) ≡ info_at q n
unfolding find_node info_at
find_node-info_at [] (node ch info e) = refl
find_node-info_at (c ∷ cs) (node ch info e) = elim (Option-cases (find_child c ch)) [
  | inl h ↦ ground arith
  | inr (m, h) ↦ ground (arith, find_node-info_at cs m)
]

-- A path below a new node leads to a new node.
find_node-empty : (p : List Bytes) → node_or_new (find_node p empty_node) ≡ empty_node
unfolding find_node find_child
find_node-empty [] = refl
find_node-empty (c ∷ p) = refl

module _ (write : StatInfo → Bool → StatInfo × Bool) where
  -- The metadata after a write at the node of a path, which may be new.
  abbrev pub written : TrieNode → Option StatInfo
  written (node ch info e) = let (info', e') = write info e in shown info' e'

  pub info_at-update_node :
      (p q : List Bytes) (n : TrieNode)
      → info_at q (update_node write p n)
        ≡ (if same_path p q then written (node_or_new (find_node p n)) else info_at q n)
  unfolding info_at update_node same_path find_node
  info_at-update_node [] [] (node ch info e) = refl
  info_at-update_node [] (d ∷ q) (node ch info e) = refl
  info_at-update_node (c ∷ p) [] (node ch info e) = refl
  info_at-update_node (c ∷ p) (d ∷ q) (node ch info e) = elim (Option-cases (find_child c ch)) [
    | inl k ↦ ground (
      arith,
      find_child-set_child c d (update_node write p empty_node) ch,
      same_iff c d,
      info_at-update_node p q empty_node,
      info_at-empty q,
      find_node-empty p,
    )
    | inr (m, k) ↦ ground (
      arith,
      find_child-set_child c d (update_node write p m) ch,
      same_iff c d,
      info_at-update_node p q m,
    )
  ]

info_at-prunable : (q : List Bytes) (n : TrieNode) → is_prunable n ≡ true → info_at q n ≡ none
unfolding info_at find_child
info_at-prunable [] (node nil info e) h = ground arith
info_at-prunable (c ∷ q) (node nil info e) h = refl
info_at-prunable q (node (child c m rest) info e) h = ground arith

abbrev is_found : Option TrieNode → Bool
is_found none = false
is_found (some n) = true

pub info_at-remove_at :
    (p q : List Bytes) (n : TrieNode)
    → info_at q (remove_at p n) ≡ (if same_path p q then none else info_at q n)
unfolding info_at remove_at same_path
info_at-remove_at [] [] (node ch info e) = ground arith
info_at-remove_at [] (d ∷ q) (node ch info e) = refl
info_at-remove_at (c ∷ p) [] (node ch info e) = ground arith
info_at-remove_at (c ∷ p) (d ∷ q) (node ch info e) = elim (Option-cases (find_child c ch)) [
  | inl k ↦ ground (arith, same_iff c d)
  | inr (m, k) ↦ ground (
    arith,
    same_iff c d,
    find_child-erase_child c d ch,
    find_child-set_child c d (remove_at p m) ch,
    info_at-remove_at p q m,
    info_at-prunable q (remove_at p m),
  )
]
