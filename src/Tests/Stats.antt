-- ===== src/Tests/Stats.antt =====
-- Witnesses for the stat cache, and runs of it.
use gcscfuse.Base.{arith, false, List, ◌≡◌, refl, true, none, some, [], ◌∷◌}
use gcscfuse.StatCache.Cache.History.{
  file_inserted, directory_inserted, removed, cache_after-table, Change, cache_after, cleared,
}
use gcscfuse.StatCache.Cache.Listing.{IsAscending}
use gcscfuse.Base.Bytes.{contains, Bytes, codes, same, before}
use gcscfuse.StatCache.Cache.{
  StatCache, init, set_cache_timeout, is_expired, insert_directory, insert_parents, insert_file,
  get_stat, exists, is_directory, clear, entries_of, list_directory, remove, dir_info,
}
use gcscfuse.StatCache.Cache.Invariant.{IsValid, init-IsValid, insert_file-IsValid}
use gcscfuse.StatCache.Cache.Stat.{get_stat-insert_directory_expired}
use gcscfuse.StatCache.Cache.View.Files.{is_above}
use gcscfuse.StatCache.Cache.Abstract.{answers, answers-table}
use gcscfuse.StatCache.Path.{
  split_path, path_of, is_root, strip_leading, strip_trailing, get_lines, emit,
}
use gcscfuse.StatCache.Path.RoundTrip.{split_path-path_of}
use gcscfuse.StatCache.Trie.{find_node, find_child, set_child, erase_child, update_node, remove_at}
use gcscfuse.StatCache.Trie.Lookup.{same_path, info_at}

program : Unit {0}
unfolding info_at same before is_root strip_leading strip_trailing get_lines emit split_path path_of
    find_node find_child set_child erase_child update_node remove_at same_path is_expired
    insert_directory insert_parents insert_file get_stat exists is_directory clear entries_of
    list_directory remove is_above set_cache_timeout
program = tt

abbrev file_path : Bytes
file_path = codes "/docs/a.txt"

abbrev dir_path : Bytes
dir_path = codes "/docs"

-- The cache after a file was recorded at second 100.
abbrev one_file : StatCache
one_file = insert_file 100 file_path 5 90 init

one_file-IsValid : IsValid one_file
one_file-IsValid = insert_file-IsValid 100 file_path 5 90 init-IsValid

split_path-path_of_example : split_path (codes "/docs/a.txt") ≡ codes "docs" ∷ codes "a.txt" ∷ []
unfolding program
split_path-path_of_example = split_path-path_of (codes "docs") (codes "a.txt" ∷ []) (
  (refl, (refl, (refl, (refl, (refl, tt))))),
  ((refl, (refl, (refl, (refl, (refl, (refl, tt)))))), tt),
)

get_stat-insert_directory_expired_example :
    get_stat 170 dir_path (insert_directory 165 dir_path (insert_directory 161 dir_path one_file))
    ≡ none
unfolding program
get_stat-insert_directory_expired_example =
    get_stat-insert_directory_expired 161 170 dir_path ((165, dir_path) ∷ (161, dir_path) ∷ [])
      (dir_info 100) one_file-IsValid refl refl refl (omega arith)

listed :
    list_directory
      (codes "/")
      (insert_file 1 (codes "/b") 1 1 (insert_file 1 (codes "/a/c") 1 1 init))
    ≡ codes "a" ∷ codes "b" ∷ []
unfolding program
listed = refl

pruned : remove (codes "/b") (insert_file 1 (codes "/b") 1 1 init) ≡ init
unfolding program
pruned = refl

-- A file was recorded at second 100, its directory again at second 170, and the file removed.
abbrev changes : List Change
changes =
    removed file_path ∷ directory_inserted 170 dir_path ∷ file_inserted 100 file_path 5 90 ∷ []

cache_after-table_example :
    (let c = cache_after changes in
      IsValid c
      × (get_stat 160 dir_path c ≡ some (dir_info 100))
      × (exists dir_path c ≡ true)
      × (is_directory dir_path c ≡ true)
      × (contains (codes "a.txt") (list_directory dir_path c) ≡ false)
      × IsAscending (list_directory dir_path c))
unfolding program
cache_after-table_example = cache_after-table changes 160 dir_path (codes "a.txt")

-- After `clear` it does not matter what was recorded before.
answers-table_example :
    answers 160 dir_path (cache_after (directory_inserted 150 dir_path ∷ cleared ∷ changes))
    ≡ answers 160 dir_path (cache_after (directory_inserted 150 dir_path ∷ cleared ∷ []))
answers-table_example =
    answers-table (cleared ∷ changes) (cleared ∷ []) (directory_inserted 150 dir_path ∷ []) 160
      dir_path refl (λ q. refl)
