-- ===== src/Lib.antt =====
-- gcscfuse mounts a bucket of Google Cloud Storage as a FUSE file system. This library models
-- the program and proves it against an abstract file system, a map from object names to contents.
--
-- The parts and the files:
--
-- - Base: texts as lists of bytes (`std::string`), maps with string keys (`std::map`), integers,
--   and the tests and lists that all parts share.
-- - StatCache: src/stat_cache.hpp and .cpp. Path is `splitPath`; Trie is the nodes and the walks of
--   `findNode` and `remove`; Cache is the operations, with one definition for each method, History
--   their sequences against a table, and Abstract the quotient that forgets the nodes.
-- - Gcs: src/gcs/. Sdk is `GCSSDKClientImpl`, which forwards to the storage library; Client is
--   `GCSClient`; Laws is what the program relies on of the library.
-- - Reader: src/reader.hpp, the direct, the cached and the dummy reader.
-- - Config: src/config.hpp and .cpp. Layers is the YAML file and the environment, Args is
--   `parseFromArgs`, Usage is `printUsage`, Load is `validate` and `load`.
-- - Fs: src/gcs_fs.hpp and .cpp. State is the members and the tests on paths; Lookups is `getattr`,
--   `open` and `readdir`; Reads is `read`; Upload is `uploadToGCS`, `flush` and `release`; Writes is
--   `create`, `write`, `truncate` and `unlink`. Steps has the callbacks as steps of a run; Contents
--   is the abstract file system, Spec a specification without the caches, and Remount goes from one
--   mount to the next. Truthful is the stat cache against the buffers and the bucket, and what
--   `getattr` reports by it; Frame is what callbacks leave alone that are called for other files.
--   Interleaved is `uploadToGCS` again, as two parts with the callbacks of other threads between
--   them.
-- - Main: src/main.cpp. `main` with the main loop of FUSE as a parameter.
-- - Tests: a storage library in memory, and the theorems at concrete inputs.
--
-- How they interact: a callback of `GCSFS` looks at its write buffers, then at the stat cache, then
-- at the bucket through `GCSClient`; `read` goes through the reader, whose cache `flush` and `unlink`
-- invalidate. The state of all of them is the record `Gcsfs`, which a callback takes and returns.
--
-- How the code is read:
--
-- - The storage library, the YAML library, `getopt_long` and `getenv` are parameters. The state of
--   the buckets is an abstract type of the parameter `StorageClient`; `StorageLaws` says that a
--   write that succeeded is read back, that a delete that succeeded leaves nothing, that a delete
--   that failed changes nothing, and that neither touches another object. The bucket changes only
--   through the program, except where a theorem says otherwise. `Describes` says that the metadata
--   of an object agrees with its content, and `MetadataLaws` that this is so of all metadata that
--   the library gives, asked for or listed, and that a listing has the names with its prefix.
-- - A path that FUSE passes is the root, or nonempty components with a slash before each and none
--   behind the last; this is `IsNormal`. Where a theorem does not say so a path is any text.
-- - Each callback runs alone, except in Interleaved, and `time(nullptr)` is one number `now` during
--   a call. FUSE runs callbacks on several threads, and the source has no locks. Interleaved splits
--   an upload at the call of `writeObject`, which blocks: any number of uploads can be under way while
--   other callbacks run. A write takes effect remotely when the call begins, a data race in memory
--   counts as an order of the callbacks, and the callbacks that read or delete are not split. Where
--   an upload succeeded, the stat cache is on and `unlink` erased its buffer in the meantime, the
--   program takes the size of a buffer that is gone, which is undefined: `finish_upload` is `none`
--   there, and in Interleaved the program goes on from there with any size in the stat cache.
-- - `size_t` and `off_t` are natural numbers below 2 ^ 64; where the source adds an offset and a
--   size the sum wraps. A cast to `int` is `to_int`, which wraps at 2 ^ 32. The sizes of buffers in
--   the loop of `CachedReader::read` are compared through that cast; a running total of 2 ^ 31 bytes
--   or more, where `int` overflows, is not modelled.
-- - A buffer of the caller that a read fills is the list of the bytes it wrote. The bytes of a
--   buffer behind the last read are cut off by the `resize` at the end of each loop. A buffer can
--   always be made larger: memory that runs out, and a `resize` that throws, are not modelled, so
--   that a loop which doubles its buffer in every round goes on without end.
-- - `atoi` is modelled on texts whose number fits an `int`, as an integer without bounds; for a
--   larger one it is undefined in the program.
-- - The loops of `CachedReader::read` and `truncate` run on fuel, one unit for each round; a result
--   `none` means that the fuel did not suffice. One unit is enough for the reader where the object
--   is smaller than 1 MiB, and eleven where it is smaller than 512 MiB, since the buffer doubles in
--   each round. With the content cache on and the dummy reader off, two are
--   enough for the loop of `truncate` where the object is smaller than 1 MiB, and thirteen where it is
--   smaller than 512 MiB. What the rounds of the
--   reader load is `loaded` of the object: the object below 1 MiB, and from there on beginnings of it
--   that double in length, and then the object.
-- - Exceptions are values: `thrown` for one of the storage library, `raise` for one of the
--   configuration, `exit` for the end of the program after the usage text.
--
-- Not modelled: log output and the FUSE wrapper, a copy of the Fusepp library, which hold no state
-- of the file system; the contents of error messages; interleavings that are finer
-- than those of Interleaved.
pub mod Base
pub mod StatCache
pub mod Gcs
pub mod Reader
pub mod Config
pub mod Fs
pub mod Main
pub mod Tests
