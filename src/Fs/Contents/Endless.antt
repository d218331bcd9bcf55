-- ===== src/Fs/Contents/Endless.antt =====
-- `truncate` without the content cache.
use gcscfuse.Base.{
  ℕ, zero, suc, ◌-◌, ◌*◌, ◌<◌, ◌≤◌, ◌≡◌, refl, true, false, some, none, arith, length,
  if◌then◌else◌, leb, [], ◌++◌, take, length-take, length-append, ap,
}
use gcscfuse.Base.Bytes.{Bytes}
use gcscfuse.Base.Dict.{lookup}
use gcscfuse.Base.Int.{pos, leb_ℤ}
use gcscfuse.Fs.State.{Gcsfs, object_of, is_valid_path}
use gcscfuse.Fs.Writes.{load_stored, truncate}
use gcscfuse.Gcs.Sdk.{StorageClient}
use gcscfuse.Reader.{base, direct, chunk, read, base_read}
use gcscfuse.Reader.Loading.{content_at}
use gcscfuse.Reader.Slice.{delivers, direct_read-any}

module _ (client : StorageClient) (bucket : Bytes) where
  open client use {Cloud}

  read_base :
      (name : Bytes) (size offset inner : ℕ) (cloud : Cloud)
      → 0 < length (content_at client bucket name cloud)
      → length (content_at client bucket name cloud) < 2147483648
      → read client inner (base (direct bucket)) name size offset cloud
        ≡ some (delivers (take size (content_at client bucket name cloud)), base (direct bucket))
  unfolding read base_read
  read_base name size offset inner cloud p h =
      ap (λ t. some (t, base (direct bucket)))
        (direct_read-any client bucket name size offset cloud p h)

  another_round :
      (fuel inner : ℕ) (name acc : Bytes) (room room' : ℕ) (cloud : Cloud)
      → 0 < length (content_at client bucket name cloud)
      → length (content_at client bucket name cloud) < 2147483648
      → (if leb room (length acc) then room * 2 else room) ≡ room'
      → length acc < room'
      → ((more : Bytes)
          → length more ≤ room'
          → load_stored client fuel inner (base (direct bucket)) name more room' cloud ≡ none)
      → load_stored client (suc fuel) inner (base (direct bucket)) name acc room cloud ≡ none
  unfolding load_stored
  another_round fuel inner name acc room room' cloud h k e lt rest =
      let n : ℕ = room' - length acc in
      let s : Bytes = take n (content_at client bucket name cloud) in
      let more : 0 < length s =
        omega (arith, length-take n (content_at client bucket name cloud)) in
      let bound : length (acc ++ s) ≤ room' =
        omega (arith, length-append acc s, length-take n (content_at client bucket name cloud)) in
      let g : leb_ℤ (delivers s).count (pos 0) ≡ false = ground arith in
      rw (load_stored, e, read_base name n (length acc) inner cloud h k)
        (rw (g, load_stored) (rw (load_stored, e) (rest (acc ++ s) bound)))

  load_endless :
      (fuel inner : ℕ) (name acc : Bytes) (room : ℕ) (cloud : Cloud)
      → 0 < length (content_at client bucket name cloud)
      → length (content_at client bucket name cloud) < 2147483648
      → 0 < room
      → length acc ≤ room
      → load_stored client fuel inner (base (direct bucket)) name acc room cloud ≡ none
  unfolding load_stored
  load_endless zero inner name acc room cloud h k p b = refl
  load_endless (suc fuel) inner name acc room cloud h k p b =
      let room' : ℕ = if leb room (length acc) then room * 2 else room in
      another_round fuel inner name acc room room' cloud h k refl (ground arith)
        (λ more bound. load_endless fuel inner name more room' cloud h k (ground arith) bound)

  -- Without the content cache and with the dummy reader off, `truncate` of a valid path whose file is
  -- stored and not buffered does not end, if the object is neither empty nor of 2 GiB or more: no
  -- number of rounds of its loop is enough, where its buffer can always be doubled.
  pub truncate-endless :
      (fuel inner now : ℕ) (path : Bytes) (size : ℕ) (fs : Gcsfs client)
      → fs.reader ≡ base (direct bucket)
      → is_valid_path client now path fs ≡ true
      → lookup (object_of path) fs.write_buffers ≡ none
      → 0 < length (content_at client bucket (object_of path) fs.cloud)
      → length (content_at client bucket (object_of path) fs.cloud) < 2147483648
      → truncate client fuel inner now path size fs ≡ none
  unfolding truncate
  truncate-endless fuel inner now path size fs uses valid b p h =
      rw
        (
          valid,
          b,
          uses,
          load_endless fuel inner (object_of path) [] chunk fs.cloud p h (omega arith)
              (omega arith),
        )
        refl
