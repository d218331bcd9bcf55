-- ===== src/StatCache/Cache/Invariant.antt =====
-- The invariant of `StatCache` of src/stat_cache.cpp: a well-formed trie, and its root in place.
use gcscfuse.Base.{
  ℕ, Bool, true, List, [], ◌∷◌, ◌++◌, none, some, if◌then◌else◌, ◌≡◌, refl, arith, Bool-cases, inl,
  inr, is_empty,
}
use gcscfuse.Base.Bytes.{Bytes, slash}
use gcscfuse.Base.Int.{ℤ}
use gcscfuse.StatCache.Path.{is_root, split_path}
use gcscfuse.StatCache.Trie.{
  StatInfo, TrieNode, node, info_of, exists_of, find_node, update_node, remove_at,
}
use gcscfuse.StatCache.Trie.WellFormed.{IsSound, IsWf, IsWrite, update_node-IsWf, remove_at-IsWf}
use gcscfuse.StatCache.Cache.{
  StatCache, init, root_info, set_cache_timeout, insert_directory, insert_parents, insert_file,
  clear, remove, write_dir, write_file,
}

-- The trie is well formed, and the root is still the directory that the constructor made.
pub record IsValid (c : StatCache) : Type 0 where
  pub trie : IsWf c.root
  pub root_info_kept : info_of c.root ≡ root_info
  pub root_exists : exists_of c.root ≡ true

write_dir-IsSound :
    (now : ℕ) (info : StatInfo) (e : Bool)
    → IsSound info e
    → IsSound (write_dir now info e).0 (write_dir now info e).1
write_dir-IsSound now info e s = elim (Bool-cases info.metadata_loaded) [
  | inl h ↦ simp h (record { agrees = s.agrees; kind = s.kind; hidden = s.hidden })
  | inr h ↦ simp h (record { agrees = refl; kind = λ k. refl; hidden = λ k. cc })
]

pub write_dir-IsWrite : (now : ℕ) → IsWrite (write_dir now)
write_dir-IsWrite now = record { sound = write_dir-IsSound now; there = λ info e s. ground arith }

pub write_file-IsWrite : (now size mtime : ℕ) → IsWrite (write_file now size mtime)
write_file-IsWrite now size mtime = record {
  sound = λ info e s. record { agrees = refl; kind = λ h. refl; hidden = λ h. cc };
  there = λ info e s. refl;
}

pub init-IsValid : IsValid init
unfolding IsWf
init-IsValid = record {
  trie = (record { agrees = refl; kind = λ h. refl; hidden = λ h. cc }, tt);
  root_info_kept = refl;
  root_exists = refl;
}

pub set_cache_timeout-IsValid :
    (t : ℤ) {c : StatCache} → IsValid c → IsValid (set_cache_timeout t c)
unfolding set_cache_timeout
set_cache_timeout-IsValid t v = record {
  trie = v.trie;
  root_info_kept = v.root_info_kept;
  root_exists = v.root_exists;
}

-- A write below the root leaves the root's own metadata alone.
root-update_node :
    (write : StatInfo → Bool → StatInfo × Bool) (c : Bytes) (cs : List Bytes) (n : TrieNode)
    → (info_of (update_node write (c ∷ cs) n) ≡ info_of n)
      × (exists_of (update_node write (c ∷ cs) n) ≡ exists_of n)
unfolding update_node
root-update_node write c cs (node ch info e) = (refl, refl)

root-remove_at :
    (c : Bytes) (cs : List Bytes) (n : TrieNode)
    → (info_of (remove_at (c ∷ cs) n) ≡ info_of n)
      × (exists_of (remove_at (c ∷ cs) n) ≡ exists_of n)
unfolding remove_at
root-remove_at c cs (node ch info e) = (ground arith, ground arith)

root-write_dir :
    (now : ℕ) (p : List Bytes) (n : TrieNode)
    → info_of n ≡ root_info
    → exists_of n ≡ true
    → (info_of (update_node (write_dir now) p n) ≡ root_info)
      × (exists_of (update_node (write_dir now) p n) ≡ true)
unfolding update_node
root-write_dir now [] (node ch info e) h k = ground arith
root-write_dir now (c ∷ cs) (node ch info e) h k = (h, k)

-- `insertDirectory` keeps the cache valid.
pub insert_directory-IsValid :
    (now : ℕ) (path : Bytes) {c : StatCache} → IsValid c → IsValid (insert_directory now path c)
unfolding insert_directory
insert_directory-IsValid now path {c} v = elim (Bool-cases (is_root path)) [
  | inl e ↦ rw e v
  | inr e ↦
      let (r, x) = root-write_dir now (split_path path) c.root v.root_info_kept v.root_exists in
      rw e (record {
        trie = update_node-IsWf (write_dir-IsWrite now) (split_path path) c.root v.trie;
        root_info_kept = r;
        root_exists = x;
      })
]

pub insert_parents-IsValid :
    (now : ℕ) (parent : Bytes) (cs : List Bytes) {c : StatCache}
    → IsValid c
    → IsValid (insert_parents now parent cs c)
unfolding insert_parents
insert_parents-IsValid now parent [] v = v
insert_parents-IsValid now parent (x ∷ []) v = v
insert_parents-IsValid now parent (x ∷ y ∷ cs) v =
    insert_parents-IsValid now (parent ++ slash ∷ x) (y ∷ cs)
      (insert_directory-IsValid now (parent ++ slash ∷ x) v)

file-IsValid :
    (now size mtime : ℕ) (x : Bytes) (cs : List Bytes) {c : StatCache}
    → IsValid c
    → IsValid (record c { root = update_node (write_file now size mtime) (x ∷ cs) c.root })
file-IsValid now size mtime x cs {c} v =
    let (r, y) = root-update_node (write_file now size mtime) x cs c.root in
    record {
      trie = update_node-IsWf (write_file-IsWrite now size mtime) (x ∷ cs) c.root v.trie;
      root_info_kept = cc (r, v.root_info_kept);
      root_exists = cc (y, v.root_exists);
    }

insert_file_at-IsValid :
    (now size mtime : ℕ) (cs : List Bytes) {c : StatCache}
    → IsValid c
    → IsValid (
        if is_empty cs then c else record (insert_parents now [] cs c) {
          root = update_node (write_file now size mtime) cs (insert_parents now [] cs c).root;
        })
insert_file_at-IsValid now size mtime [] v = v
insert_file_at-IsValid now size mtime (x ∷ cs) v =
    file-IsValid now size mtime x cs (insert_parents-IsValid now [] (x ∷ cs) v)

-- `insertFile` keeps the cache valid.
pub insert_file-IsValid :
    (now : ℕ) (path : Bytes) (size mtime : ℕ) {c : StatCache}
    → IsValid c
    → IsValid (insert_file now path size mtime c)
unfolding insert_file
insert_file-IsValid now path size mtime v =
    insert_file_at-IsValid now size mtime (split_path path) v

remove_found-IsValid :
    (x : Bytes) (cs : List Bytes) {c : StatCache}
    → IsValid c
    → IsValid (record c { root = remove_at (x ∷ cs) c.root })
remove_found-IsValid x cs {c} v =
    let (r, y) = root-remove_at x cs c.root in
    record {
      trie = remove_at-IsWf (x ∷ cs) c.root v.trie;
      root_info_kept = cc (r, v.root_info_kept);
      root_exists = cc (y, v.root_exists);
    }

remove_components-IsValid :
    (cs : List Bytes) {c : StatCache}
    → IsValid c
    → IsValid (
        if is_empty cs then c else elim (find_node cs c.root) [
          | none ↦ c
          | some n ↦ record c { root = remove_at cs c.root }
        ])
remove_components-IsValid [] v = v
remove_components-IsValid (x ∷ cs) {c} v =
    elim (find_node (x ∷ cs) c.root)
      as (λ f.
        IsValid (elim f [ none ↦ c | some n ↦ record c { root = remove_at (x ∷ cs) c.root } ])) [
          | none ↦ v
          | some n ↦ remove_found-IsValid x cs v
        ]

-- `remove` keeps the cache valid: its pruning leaves no dead leaf.
pub remove-IsValid : (path : Bytes) {c : StatCache} → IsValid c → IsValid (remove path c)
unfolding remove
remove-IsValid path v = remove_components-IsValid (split_path path) v

pub clear-IsValid : (c : StatCache) → IsValid (clear c)
unfolding clear IsWf
clear-IsValid c = record {
  trie = (record { agrees = refl; kind = λ h. refl; hidden = λ h. cc }, tt);
  root_info_kept = refl;
  root_exists = refl;
}
