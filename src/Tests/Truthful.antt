-- ===== src/Tests/Truthful.antt =====
-- Witnesses for the stat cache against the files: a directory is listed, and `getattr` is then
-- answered from the cache.
use gcscfuse.Base.{◌∷◌, [], refl, inl, inr, some, ◌≡◌, length, arith, false, true}
use gcscfuse.Base.Bytes.{before, Bytes, codes, same, contains}
use gcscfuse.Base.Dict.{lookup, insert}
use gcscfuse.Config.{GcsfsConfig, initial}
use gcscfuse.Fs.Contents.{contents}
use gcscfuse.Fs.Interleaved.{
  Threads, Flight, Interleaved, begin, proceed, alone, begun, begin_upload, spoiled, restored,
  watched, untouched,
}
use gcscfuse.Fs.Lookups.{
  readdir, read_entries, read_entry, add_entry, up_to_slash, full_path, getattr,
}
use gcscfuse.Fs.Reads.{read}
use gcscfuse.Fs.State.{
  Gcsfs, construct, dir_prefix, ends_with_slash, cached_stat, is_valid_path, is_dirty, mark_dirty,
}
use gcscfuse.Fs.Steps.{Reach, here, next, readdir_step, create_step}
use gcscfuse.Fs.Truthful.{IsTruthful, IsNormal, HasLength}
use gcscfuse.Fs.Truthful.Runs.{IsNormalRun}
use gcscfuse.Fs.Truthful.Served.{getattr-read}
use gcscfuse.Fs.Truthful.Sizes.{getattr-st_size}
use gcscfuse.Fs.Truthful.Threads.{AreNormalTurns, AreDefinedTurns, Interleaved-IsTruthful}
use gcscfuse.Fs.Writes.{create}
use gcscfuse.Gcs.Client
use gcscfuse.Gcs.Sdk
use gcscfuse.Reader.Slice.{delivers}
use gcscfuse.StatCache.Cache.{
  get_stat, set_cache_timeout, insert_file, insert_parents, is_expired, file_info,
}
use gcscfuse.StatCache.Path.{
  is_root, emit, get_lines, split_path, strip_trailing, strip_leading, path_of,
}
use gcscfuse.StatCache.Trie.{find_node, find_child, update_node, set_child}
use gcscfuse.Tests.Memory.{memory, memory_laws, memory_metadata}
use gcscfuse.Tests.Readers.{one_object}

program : Unit {0}
unfolding create is_dirty mark_dirty insert before begin_upload untouched Client.write_object
    Sdk.write_object strip_leading strip_trailing split_path get_lines emit is_root same lookup
    construct is_valid_path dir_prefix ends_with_slash get_stat set_cache_timeout insert_file
    insert_parents is_expired find_node find_child update_node set_child getattr readdir
    read_entries read_entry add_entry up_to_slash full_path contains path_of Client.list_objects
    Client.collect Sdk.list_objects
program = tt

abbrev config : GcsfsConfig
config = record initial { bucket_name = codes "b" }

abbrev mounted : Gcsfs memory
mounted = construct memory (codes "b") config one_object

abbrev listed : Gcsfs memory
listed = (readdir memory 5 (codes "/") mounted).2

abbrev file_path : Bytes
file_path = codes "/a"

to_listed : Reach memory mounted listed
to_listed = next here (readdir_step 5 (codes "/") mounted)

to_listed-IsNormalRun : IsNormalRun to_listed
unfolding to_listed
to_listed-IsNormalRun = (tt, inl refl)

file_path-IsNormal : IsNormal file_path
unfolding path_of
file_path-IsNormal = inr (codes "a", [], ((refl, (refl, tt)), tt), refl)

answered_from_cache : cached_stat memory 6 file_path listed ≡ some (file_info 5 5 7)
unfolding program
answered_from_cache = refl

abbrev asked : Gcsfs memory
asked = (getattr memory 6 file_path listed).2

getattr-read_example :
    (content : Bytes) × (fs' : Gcsfs memory) × (contents memory listed (codes "a") ≡ some content)
    × (length content ≡ 5)
    × (read memory 1 7 file_path 5 0 asked ≡ some (delivers content, fs'))
unfolding program
getattr-read_example =
    getattr-read memory_laws memory_metadata (codes "b") config one_object to_listed 0 6 7 file_path
      refl refl to_listed-IsNormalRun file_path-IsNormal refl refl (omega arith) refl

-- A file is created, an upload of it begins, and the directory is listed before that ends.
abbrev created : Gcsfs memory
created = (create memory 4 (codes "/n") 0 mounted).2

abbrev flight : Flight
flight = record { path = codes "/n"; success = true; live = true }

abbrev sending : Gcsfs memory
sending = record created { cloud = insert (codes "n") [] one_object }

begins : begin_upload memory (codes "/n") created ≡ some (flight, sending)
unfolding program
begins = refl

dirty : is_dirty memory (codes "n") created ≡ true
unfolding program
dirty = refl

abbrev first : Threads memory
first = record { fs = mounted; flights = []; raced = λ k. false }

abbrev second : Threads memory
second = record { fs = created; flights = []; raced = spoiled memory first created }

abbrev third : Threads memory
third = record {
  fs = sending;
  flights = flight ∷ [];
  raced = restored memory second flight sending;
}

abbrev seen : Gcsfs memory
seen = (readdir memory 5 (codes "/") sending).2

abbrev fourth : Threads memory
fourth = record {
  fs = seen;
  flights = watched memory seen flight ∷ [];
  raced = spoiled memory third seen;
}

to_seen : Interleaved memory first fourth
unfolding program
to_seen =
    proceed
      (proceed (proceed begin (alone first (create_step 4 (codes "/n") 0 mounted)))
        (begun (codes "/n") second dirty begins))
      (alone third (readdir_step 5 (codes "/") sending))

to_seen-AreNormalTurns : AreNormalTurns to_seen
unfolding program to_seen path_of
to_seen-AreNormalTurns =
    let path : IsNormal (codes "/n") = inr (codes "n", [], ((refl, (refl, tt)), tt), refl) in
    (((tt, path), path), inl refl)

to_seen-AreDefinedTurns : AreDefinedTurns to_seen
unfolding to_seen
to_seen-AreDefinedTurns = (((tt, tt), tt), tt)

Interleaved-IsTruthful_example : IsTruthful memory seen
Interleaved-IsTruthful_example =
    Interleaved-IsTruthful memory_laws memory_metadata (codes "b") config one_object to_seen
      to_seen-AreNormalTurns to_seen-AreDefinedTurns

seen_from_cache : cached_stat memory 6 file_path seen ≡ some (file_info 5 5 7)
unfolding program
seen_from_cache = refl

getattr-st_size_example : HasLength (contents memory seen (codes "a")) 5
unfolding program
getattr-st_size_example =
    getattr-st_size memory_laws memory_metadata (codes "b") config one_object to_seen 6 file_path
      to_seen-AreNormalTurns to_seen-AreDefinedTurns file_path-IsNormal refl refl
