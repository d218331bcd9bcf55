-- ===== src/Tests/Mount.antt =====
-- Witnesses for the file system, and runs of it.
use gcscfuse.Base.{
  ◌<◌, ◌↔◌, if◌then◌else◌, take, drop, ◌≡◌, refl, false, none, some, arith, [], ◌∷◌,
}
use gcscfuse.Fs.Spec.Refines.{Reach-Ran, events, AllInLimits}
use gcscfuse.Fs.Spec.{Ran}
use gcscfuse.Reader.{chunk, copied}
use gcscfuse.Reader.Loading.Rounds.{loaded}
use gcscfuse.Fs.Writes.{truncate, create, write, overwritten, resize, unlink, after_delete}
use gcscfuse.Reader.Slice.{slice, delivers}
use gcscfuse.Fs.Contents.Endless.{truncate-endless}
use gcscfuse.Fs.Contents.Truncated.{truncate-contents}
use gcscfuse.Fs.Contents.Written.{read-write}
use gcscfuse.Fs.Writes.Splice.{overwritten-slice}
use gcscfuse.Base.Bytes.{Bytes, codes, same}
use gcscfuse.Base.Dict.{lookup, insert, erase}
use gcscfuse.Base.Int.{pos, to_int}
use gcscfuse.Config.{GcsfsConfig, initial}
use gcscfuse.Fs.Contents.{contents, contents-create-write, read-contents}
use gcscfuse.Fs.Contents.Durable.{contents-flush, flush-durable, contents-unlink}
use gcscfuse.Fs.Invariant.{IsConsistent}
use gcscfuse.Fs.Reads.{read, read_buffer}
use gcscfuse.Fs.State.{
  Gcsfs, construct, is_dirty, mark_dirty, is_valid_path, is_directory, dir_prefix, ends_with_slash,
}
use gcscfuse.Fs.Spec.Changes.{files}
use gcscfuse.Fs.Steps.{
  read_step, Reach, here, next, create_step, write_step, flush_step, Reach-IsConsistent,
}
use gcscfuse.Fs.Upload.{flush, release, upload_to_gcs, after_upload}
use gcscfuse.Gcs.Client
use gcscfuse.Gcs.Sdk
use gcscfuse.StatCache.Path.{strip_leading}
use gcscfuse.Tests.Memory.{memory, memory_laws}
use gcscfuse.Tests.Readers.{one_object}

program : Unit {0}
unfolding strip_leading same lookup insert erase construct is_dirty mark_dirty is_valid_path
    is_directory dir_prefix ends_with_slash flush release upload_to_gcs after_upload create write
    overwritten resize unlink after_delete read read_buffer Client.get_object_metadata
    Client.object_exists Client.directory_exists Client.write_object Client.delete_object
    Sdk.get_object_metadata Sdk.list_objects Sdk.write_object Sdk.delete_object
program = tt

-- The stat cache is off, so that the states stay small.
abbrev config : GcsfsConfig
config = record initial { enable_stat_cache = false; bucket_name = codes "b" }

abbrev mounted : Gcsfs memory
mounted = construct memory (codes "b") config one_object

abbrev file_path : Bytes
file_path = codes "/n"

abbrev created : Gcsfs memory
created = (create memory 10 file_path 0 mounted).2

abbrev written : Gcsfs memory
written = (write memory 11 file_path (codes "xyz") 0 created).1

abbrev stored : Gcsfs memory
stored = (flush memory 12 file_path written).1

to_written : Reach memory mounted written
to_written =
    next (next here (create_step 10 file_path 0 mounted))
      (write_step 11 file_path (codes "xyz") 0 created)

Reach-IsConsistent_example : IsConsistent memory stored
Reach-IsConsistent_example =
    Reach-IsConsistent memory_laws (codes "b") config one_object
      (next to_written (flush_step 12 file_path written))

flushed_read : read memory 1 13 file_path 2 1 stored ≡ some (delivers (codes "yz"), stored)
unfolding program copied to_int
flushed_read = refl

-- A file is created, written, uploaded and read.
to_read : Reach memory mounted stored
to_read =
    next (next to_written (flush_step 12 file_path written))
      (read_step 1 13 file_path 2 1 stored (delivers (codes "yz")) stored flushed_read)

to_read-AllInLimits : AllInLimits memory to_read
unfolding program to_read to_written
to_read-AllInLimits = ((omega arith, omega arith, (omega arith, omega arith)), (tt, (tt, (tt, tt))))

Reach-Ran_example :
    Ran
      (events memory to_read)
      (record { stored = λ k. lookup k one_object; buffer = λ k. none })
      (files memory stored)
Reach-Ran_example =
    Reach-Ran memory_laws (codes "b") config one_object refl refl to_read to_read-AllInLimits

mounted-IsConsistent : IsConsistent memory mounted
mounted-IsConsistent = Reach-IsConsistent memory_laws (codes "b") config one_object here

written-IsConsistent : IsConsistent memory written
written-IsConsistent = Reach-IsConsistent memory_laws (codes "b") config one_object to_written

read-contents_example :
    (fs' : Gcsfs memory) × (read memory 1 5 (codes "/a") 3 1 mounted
      ≡ some (delivers (codes "ell"), fs'))
    × ((k : Bytes) → contents memory fs' k ≡ contents memory mounted k)
unfolding program
read-contents_example =
    read-contents memory 0 5 (codes "/a") 3 1 mounted [] mounted-IsConsistent refl (omega arith)
      refl (omega arith) (omega arith)

contents-create-write_example :
    (contents memory (create memory 11 (codes "/a") 0 mounted).2 (codes "a") ≡ some [])
    × (contents memory (write memory 11 (codes "/a") (codes "xyz") 1 mounted).1 (codes "a")
        ≡ some (0 ∷ codes "xyz"))
unfolding program
contents-create-write_example =
    contents-create-write memory 11 (codes "/a") (codes "xyz") 0 1 mounted (codes "a")

contents-flush_example : contents memory stored (codes "n") ≡ some (codes "xyz")
unfolding program
contents-flush_example = contents-flush memory_laws 12 file_path written (codes "n")

flush-durable_example :
    (lookup (codes "n") stored.cloud ≡ some (codes "xyz"))
    × (is_dirty memory (codes "n") stored ≡ false)
unfolding program
flush-durable_example =
    flush-durable memory_laws 12 file_path written (codes "xyz") written-IsConsistent refl refl

contents-unlink_example :
    contents memory (unlink memory 5 (codes "/a") mounted).1 (codes "a") ≡ none
unfolding program
contents-unlink_example = contents-unlink memory_laws 5 (codes "/a") mounted (codes "a")

read-write_example :
    read memory 0 6 (codes "/a") 3 2 (write memory 5 (codes "/a") (codes "xyz") 2 mounted).1
    ≡ some (delivers (codes "xyz"), (write memory 5 (codes "/a") (codes "xyz") 2 mounted).1)
unfolding program
read-write_example =
    read-write memory 0 5 6 (codes "/a") (codes "xyz") 2 mounted refl (omega arith) (omega arith)

overwritten-slice_example :
    (take 2 (overwritten (codes "xyz") 2 (codes "hellos")) ≡ codes "he")
    × (slice (overwritten (codes "xyz") 2 (codes "hellos")) 3 2 ≡ codes "xyz")
    × (drop 5 (overwritten (codes "xyz") 2 (codes "hellos")) ≡ codes "s")
unfolding program
overwritten-slice_example = overwritten-slice (codes "xyz") 2 (codes "hellos") (omega arith)

truncate-contents_example :
    (fs' : Gcsfs memory) × (truncate memory 2 1 5 (codes "/a") 3 mounted ≡ some (pos 0, fs'))
    × ((k : Bytes)
        → contents memory fs' k
          ≡ (if same (codes "a") k then some (codes "hel") else contents memory mounted k))
    × ((loaded (codes "hello") ≡ codes "hello") ↔ (5 < chunk))
unfolding program
truncate-contents_example =
    truncate-contents memory 2 1 5 (codes "/a") 3 mounted [] mounted-IsConsistent refl (omega arith)
      (omega arith) (omega arith) refl refl

-- The file system without the content cache.
abbrev uncached : Gcsfs memory
uncached =
    construct memory (codes "b") (record config { enable_file_content_cache = false }) one_object

truncate-endless_example : truncate memory 9 1 5 (codes "/a") 3 uncached ≡ none
unfolding program
truncate-endless_example =
    truncate-endless memory (codes "b") 9 1 5 (codes "/a") 3 uncached refl refl refl (omega arith)
      (omega arith)
