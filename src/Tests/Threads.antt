-- ===== src/Tests/Threads.antt =====
-- Witnesses for uploads that other callbacks overlap.
use gcscfuse.Base.{◌≡◌, ◌↔◌, true, false, some, none, refl, [], ◌∷◌}
use gcscfuse.Base.Bytes.{Bytes, codes, same}
use gcscfuse.Base.Dict.{lookup, insert, erase}
use gcscfuse.Base.Int.{pos}
use gcscfuse.Config.{GcsfsConfig, initial}
use gcscfuse.Fs.Interleaved.{
  Flight, Threads, Interleaved, alone, begun, finished, begin, proceed, begin_upload, finish_upload,
  watched, spoiled, restored, untouched,
}
use gcscfuse.Fs.Interleaved.Carried.{IsSafe}
use gcscfuse.Fs.Interleaved.Keeps.{Interleaved-IsSafe}
use gcscfuse.Fs.Interleaved.Races.{
  finish_upload-durable, finish_upload-IsConsistent, write-IsLost, IsLost, finish_upload-unlink,
}
use gcscfuse.Fs.Invariant.{IsConsistent}
use gcscfuse.Fs.State.{
  Gcsfs, construct, is_dirty, mark_dirty, is_valid_path, is_directory, dir_prefix, ends_with_slash,
}
use gcscfuse.Fs.Steps.{create_step, write_step, construct-IsConsistent}
use gcscfuse.Fs.Upload.{upload_to_gcs, after_upload}
use gcscfuse.Fs.Writes.{create, write, overwritten, resize, unlink, after_delete}
use gcscfuse.Gcs.Client
use gcscfuse.Gcs.Sdk
use gcscfuse.Fs.Invariant.Keeps.{write-IsConsistent}
use gcscfuse.StatCache.Cache.{get_stat, insert_file, set_cache_timeout}
use gcscfuse.StatCache.Path.{is_root, split_path, strip_leading}
use gcscfuse.StatCache.Trie.{find_node, find_child, update_node, set_child}
use gcscfuse.Reader.{invalidate}
use gcscfuse.Tests.Memory.{memory, memory_laws}
use gcscfuse.Tests.Readers.{one_object}

program : Unit {0}
unfolding get_stat is_root find_node split_path find_child insert_file update_node set_cache_timeout
    set_child invalidate strip_leading same lookup insert erase construct is_dirty mark_dirty
    is_valid_path is_directory dir_prefix ends_with_slash upload_to_gcs after_upload create write
    overwritten resize unlink after_delete begin_upload finish_upload untouched
    Client.get_object_metadata Client.object_exists Client.directory_exists Client.write_object
    Client.delete_object Sdk.get_object_metadata Sdk.list_objects Sdk.write_object Sdk.delete_object
program = tt

abbrev config : GcsfsConfig
config = record initial { enable_stat_cache = false; bucket_name = codes "b" }

abbrev start : Gcsfs memory
start = construct memory (codes "b") config one_object

abbrev file_path : Bytes
file_path = codes "/n"

-- The file is created, and its upload begins.
abbrev created : Gcsfs memory
created = (create memory 10 file_path 0 start).2

abbrev flight : Flight
flight = record { path = file_path; success = true; live = true }

abbrev sending : Gcsfs memory
sending = record created { cloud = insert (codes "n") [] one_object }

begins : begin_upload memory file_path created ≡ some (flight, sending)
unfolding program
begins = refl

-- It is written before the upload ends.
abbrev written : Gcsfs memory
written = (write memory 11 file_path (codes "xyz") 0 sending).1

abbrev ended : Gcsfs memory
ended = record written { dirty_files = insert (codes "n") false written.dirty_files }

ends : finish_upload memory 12 (watched memory written flight) written ≡ some (pos 0, ended)
unfolding program
ends = refl

-- The steps of two threads.
abbrev first : Threads memory
first = record { fs = start; flights = []; raced = λ k. false }

abbrev second : Threads memory
second = record { fs = created; flights = []; raced = spoiled memory first created }

abbrev third : Threads memory
third = record {
  fs = sending;
  flights = flight ∷ [];
  raced = restored memory second flight sending;
}

abbrev fourth : Threads memory
fourth = record {
  fs = written;
  flights = watched memory written flight ∷ [];
  raced = spoiled memory third written;
}

abbrev fifth : Threads memory
fifth = record { fs = ended; flights = []; raced = fourth.raced }

dirty : is_dirty memory (codes "n") created ≡ true
unfolding program
dirty = refl

to_sending : Interleaved memory first third
unfolding program
to_sending =
    proceed (proceed begin (alone first (create_step 10 file_path 0 start)))
      (begun file_path second dirty begins)

to_end : Interleaved memory first fifth
unfolding program
to_end =
    proceed (proceed to_sending (alone third (write_step 11 file_path (codes "xyz") 0 sending)))
      (finished 12 written [] (watched memory written flight) [] fourth.raced ends)

Interleaved-IsSafe_example : IsSafe fifth
Interleaved-IsSafe_example = Interleaved-IsSafe memory_laws (codes "b") config one_object to_end

-- The upload ends with no race.
abbrev undisturbed : Gcsfs memory
undisturbed = record sending { dirty_files = insert (codes "n") false sending.dirty_files }

ends_undisturbed : finish_upload memory 12 flight sending ≡ some (pos 0, undisturbed)
unfolding program
ends_undisturbed = refl

unspoiled : third.raced (codes "n") ≡ false
unfolding program
unspoiled = refl

finish_upload-durable_example :
    (lookup (codes "n") undisturbed.cloud ≡ some [])
    × (is_dirty memory (codes "n") undisturbed ≡ false)
unfolding program
finish_upload-durable_example =
    finish_upload-durable memory_laws (codes "b") config one_object 12 sending [] flight []
      third.raced [] to_sending ends_undisturbed unspoiled refl

-- The race is noticed.
noticed : fifth.raced (codes "n") ≡ true
unfolding program
noticed = refl

-- The end of an upload of what is buffered.
abbrev uploaded : Gcsfs memory
uploaded = construct memory (codes "b") config ((codes "n", codes "xyz") ∷ [])

abbrev rewritten : Gcsfs memory
rewritten = (write memory 11 file_path (codes "xyz") 0 uploaded).1

rewritten-IsConsistent : IsConsistent memory rewritten
unfolding construct
rewritten-IsConsistent =
    write-IsConsistent memory 11 file_path (codes "xyz") 0 uploaded
      (construct-IsConsistent memory_laws (codes "b") config uploaded.cloud)

abbrev settled : Gcsfs memory
settled = record rewritten { dirty_files = insert (codes "n") false rewritten.dirty_files }

settled_end : finish_upload memory 12 flight rewritten ≡ some (pos 0, settled)
unfolding program
settled_end = refl

finish_upload-IsConsistent_example : IsConsistent memory settled ↔ (
    (content : Bytes)
    → lookup (codes "n") rewritten.write_buffers ≡ some content
    → lookup (codes "n") uploaded.cloud ≡ some content)
unfolding program
finish_upload-IsConsistent_example =
    finish_upload-IsConsistent memory 12 flight rewritten rewritten-IsConsistent refl settled_end

write-IsLost_example : IsLost memory_laws 11 12 13 file_path (codes "xyz") 0 [] (flight, sending)
unfolding program
write-IsLost_example =
    write-IsLost memory_laws 11 12 13 file_path (codes "xyz") 0 created [] flight sending refl
      begins refl

-- The stat cache is on, and a stored file is written and uploaded.
abbrev with_stats : Gcsfs memory
with_stats =
    (write memory 11 (codes "/a") (codes "xyz") 0
      (construct memory (codes "b") (record config { enable_stat_cache = true }) one_object)).1

abbrev sending_stats : Gcsfs memory
sending_stats = record with_stats { cloud = insert (codes "a") (codes "xyz") one_object }

finish_upload-unlink_example :
    (let erased = (unlink memory 12 (codes "/a") sending_stats).1 in
      finish_upload memory 13
        (watched memory erased (record { path = codes "/a"; success = true; live = true }))
        erased
      ≡ none)
unfolding program
finish_upload-unlink_example =
    finish_upload-unlink memory_laws 12 13 (codes "/a") with_stats
      (record { path = codes "/a"; success = true; live = true }) sending_stats refl refl refl refl
