-- ===== src/Tests/Lookups.antt =====
-- Witnesses for `getattr`, `open` and `readdir`, for `read` within its rounds, and for `truncate` of
-- an empty buffer.
use gcscfuse.Fs.Contents.Recreated.{truncate-recreated}
use gcscfuse.Base.{◌++◌, false, All, true, drop, ◌∷◌, refl, arith, ◌⊎◌, some, ◌≡◌, []}
use gcscfuse.Fs.Lookups.Failing.{lookups-bad_status}
use gcscfuse.Gcs.Sdk.{end, bad_status, StorageClient}
use gcscfuse.Fs.State.{
  eisdir, ends_with_slash, dir_prefix, is_directory, is_valid_path, enoent, construct, Gcsfs,
  mark_dirty,
}
use gcscfuse.Fs.Lookups.{
  dir_stat, full_path, up_to_slash, add_entry, read_entry, read_entries, fetch_file, fetch_attr,
  open_file, readdir, getattr,
}
use gcscfuse.Fs.Lookups.Entries.{readdir-entries, AreDistinct}
use gcscfuse.StatCache.Path.RoundTrip.{IsComponent}
use gcscfuse.Fs.Writes.{create, truncate, resize, after_delete, unlink}
use gcscfuse.Fs.Contents.Attributes.{reported, getattr-contents, getattr-unlink}
use gcscfuse.Fs.Contents.{contents}
use gcscfuse.Base.Bytes.{contains, same, codes, Bytes}
use gcscfuse.Base.Dict.{erase, insert, lookup}
use gcscfuse.Fs.Reads.Returns.{read-returns, Fits}
use gcscfuse.StatCache.Path.{is_root, emit, get_lines, split_path, strip_trailing, strip_leading}
use gcscfuse.Tests.Memory.{memory_laws, memory}
use gcscfuse.Tests.Readers.{one_object}
use gcscfuse.Reader.{ReadResult}
use gcscfuse.Config.{initial, GcsfsConfig}
use gcscfuse.Gcs.Client
use gcscfuse.Gcs.Sdk
use gcscfuse.Base.Int.{pos}
use gcscfuse.StatCache.Cache.{get_stat, set_cache_timeout, remove}
use gcscfuse.StatCache.Trie.{find_node, find_child, remove_at}
use gcscfuse.Fs.Reads.{read, read_buffer}

program : Unit {0}
unfolding strip_leading strip_trailing split_path get_lines emit is_root same lookup insert erase
    construct is_valid_path is_directory dir_prefix ends_with_slash unlink after_delete read
    read_buffer get_stat set_cache_timeout remove remove_at find_node find_child getattr fetch_attr
    fetch_file open_file readdir read_entries read_entry add_entry up_to_slash full_path contains
    Client.get_object_metadata Client.object_exists Client.directory_exists Client.delete_object
    Client.list_objects Client.collect Sdk.get_object_metadata Sdk.list_objects Sdk.delete_object
program = tt

abbrev config : GcsfsConfig
config = record initial { bucket_name = codes "b" }

-- The stat cache is on.
abbrev mounted : Gcsfs memory
mounted = construct memory (codes "b") config one_object

abbrev file_path : Bytes
file_path = codes "/a"

read-returns_example :
    (x : ReadResult) × (fs' : Gcsfs memory) × (read memory 11 5 file_path 3 1 mounted
      ≡ some (x, fs'))
    × ((x ≡ record { count = enoent; bytes = [] }) ⊎ Fits 3 x)
unfolding program
read-returns_example =
    read-returns memory 11 5 file_path 3 1 mounted (omega arith) (omega arith) (omega arith)
      (omega arith)

readdir-entries_example :
    (let (result, names, fs') = readdir memory 5 (codes "/") mounted in
      (result ≡ pos 0)
      × (names ≡ codes "." ∷ codes ".." ∷ drop 2 names)
      × (contains (codes "a") (drop 2 names) ≡ true)
      × AreDistinct (drop 2 names)
      × All IsComponent (drop 2 names))
unfolding program
readdir-entries_example = readdir-entries memory 5 (codes "/") (codes "a") mounted (refl, tt)

getattr-contents_example :
    (let (result, stat, fs') = getattr memory 5 file_path mounted in
      ((result, record stat { st_mtime = 0 }) ≡ reported (some (codes "hello")))
      × (contents memory fs' (codes "a") ≡ some (codes "hello")))
unfolding program
getattr-contents_example = getattr-contents memory 5 file_path mounted (codes "a") refl refl refl

abbrev without : Gcsfs memory
without = (unlink memory 5 file_path mounted).1

getattr-unlink_example :
    ((getattr memory 9 file_path without).0 ≡ enoent)
    × (open_file memory 9 file_path 0 without ≡ enoent)
unfolding program
getattr-unlink_example = getattr-unlink memory_laws 5 9 (codes "a") mounted refl refl refl tt

-- A library whose listings fail.
abbrev failing : StorageClient
failing = record memory {
  list_objects = λ cloud bucket prefix delimiter max_results. bad_status end;
}

abbrev failing_mount : Gcsfs failing
failing_mount = construct failing (codes "b") config one_object

lookups-bad_status_example :
    ((getattr failing 5 (codes "/n") failing_mount).0 ≡ pos 0)
    × ((getattr failing 5 (codes "/n") failing_mount).1 ≡ dir_stat)
    × (open_file failing 5 (codes "/n") 0 failing_mount ≡ eisdir)
    × ((readdir failing 5 (codes "/n") failing_mount).0 ≡ pos 0)
    × ((readdir failing 5 (codes "/n") failing_mount).1 ≡ codes "." ∷ codes ".." ∷ [])
unfolding program
lookups-bad_status_example =
    lookups-bad_status failing 5 (codes "/n") 0 failing_mount end end refl refl refl refl refl
      (omega arith)

abbrev uncached : GcsfsConfig
uncached = record config { enable_stat_cache = false }

truncate-recreated_example :
    (fs' : Gcsfs memory) × (truncate memory 2 1 9 file_path 7
        (create memory 5 file_path 0 (construct memory (codes "b") uncached one_object)).2
      ≡ some (pos 0, fs'))
    × (contents memory fs' (codes "a") ≡ some (codes "hello" ++ 0 ∷ 0 ∷ []))
unfolding program create mark_dirty resize
truncate-recreated_example =
    truncate-recreated memory 0 0 5 9 file_path 0 7 (codes "b") (codes "hello") uncached one_object
      refl refl refl (omega arith) refl
