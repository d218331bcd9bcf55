-- ===== src/Tests/Frame.antt =====
-- Witnesses for what other callbacks leave alone: between a write and the upload of its file another
-- file is created and uploaded.
use gcscfuse.Base.{false, refl, some, ◌≡◌, arith}
use gcscfuse.Base.Bytes.{codes, same}
use gcscfuse.Base.Dict.{lookup, insert, erase}
use gcscfuse.Config.{GcsfsConfig, initial}
use gcscfuse.Fs.Contents.{contents}
use gcscfuse.Fs.Frame.Runs.{Spares, contents-Reach}
use gcscfuse.Fs.Frame.Survives.{write-survives}
use gcscfuse.Fs.Reads.{read}
use gcscfuse.Fs.State.{Gcsfs, construct, mark_dirty, is_dirty}
use gcscfuse.Fs.Steps.{Reach, here, next, create_step, flush_step, construct-IsConsistent}
use gcscfuse.Fs.Upload.{flush, upload_to_gcs, after_upload}
use gcscfuse.Fs.Writes.{create, write, overwritten, resize}
use gcscfuse.Gcs.Client
use gcscfuse.Gcs.Sdk
use gcscfuse.Reader.Slice.{delivers}
use gcscfuse.StatCache.Path.{strip_leading}
use gcscfuse.Tests.Memory.{memory, memory_laws}
use gcscfuse.Tests.Readers.{one_object}

program : Unit {0}
unfolding strip_leading same lookup insert erase construct is_dirty mark_dirty flush upload_to_gcs
    after_upload create write overwritten resize Client.write_object Sdk.write_object
program = tt

abbrev config : GcsfsConfig
config = record initial { enable_stat_cache = false; bucket_name = codes "b" }

abbrev mounted : Gcsfs memory
mounted = construct memory (codes "b") config one_object

abbrev written : Gcsfs memory
written = (write memory 10 (codes "/n") (codes "xyz") 0 mounted).1

abbrev created : Gcsfs memory
created = (create memory 11 (codes "/m") 0 written).2

abbrev uploaded : Gcsfs memory
uploaded = (flush memory 12 (codes "/m") created).1

to_uploaded : Reach memory written uploaded
to_uploaded =
    next (next here (create_step 11 (codes "/m") 0 written)) (flush_step 12 (codes "/m") created)

to_uploaded-Spares : Spares (codes "n") to_uploaded
unfolding program to_uploaded
to_uploaded-Spares = ((tt, refl), tt)

contents-Reach_example :
    (contents memory uploaded (codes "n") ≡ some (codes "xyz"))
    × (lookup (codes "n") uploaded.write_buffers ≡ some (codes "xyz"))
unfolding program
contents-Reach_example = contents-Reach memory_laws (codes "n") to_uploaded to_uploaded-Spares

write-survives_example :
    (fs' : Gcsfs memory) × (read memory 1 14
        (codes "/n")
        3
        0
        (construct memory (codes "b") initial (flush memory 13 (codes "/n") uploaded).1.cloud)
      ≡ some (delivers (codes "xyz"), fs'))
unfolding program
write-survives_example =
    write-survives memory_laws 0 10 13 14 (codes "/n") (codes "xyz") 0 initial mounted to_uploaded
      (construct-IsConsistent memory_laws (codes "b") config one_object) to_uploaded-Spares refl
      refl refl (omega arith) (omega arith) refl
