-- ===== src/Fs/Frame/Leaves.antt =====
-- What a `read` and a `truncate` of src/gcs_fs.cpp that return make of the state.
use gcscfuse.Base.{ℕ, ◌≡◌, ◌&&◌, [], some, is_empty, inl, inr, arith, Bool-cases, Option-cases}
use gcscfuse.Base.Bytes.{Bytes}
use gcscfuse.Base.Dict.{lookup}
use gcscfuse.Base.Int.{ℤ}
use gcscfuse.Fs.Reads.{read}
use gcscfuse.Fs.State.{Gcsfs, object_of, is_valid_path}
use gcscfuse.Fs.Writes.{truncate, truncated, load_stored, buffer_or_new}
use gcscfuse.Gcs.Sdk.{StorageClient}
use gcscfuse.Reader
use gcscfuse.Reader.{ReadResult, chunk}

module _ (client : StorageClient) where
  -- A `read` that returns changes the reader alone.
  pub read-leaves :
      (fuel now : ℕ) (path : Bytes) (size offset : ℕ) (fs : Gcsfs client) {r : ReadResult}
      {fs' : Gcsfs client}
      → read client fuel now path size offset fs ≡ some (r, fs')
      → (reader : Reader.Reader) × (record fs { reader = reader } ≡ fs')
  unfolding read
  read-leaves fuel now path size offset fs {r} {fs'} e =
      elim (Bool-cases (is_valid_path client now path fs)) [
        | inr invalid ↦ (fs.reader, ground arith)
        | inl valid ↦ elim (Option-cases (lookup (object_of path) fs.write_buffers)) [
          | inr (c, b) ↦ (fs.reader, ground arith)
          | inl b ↦
              elim (Option-cases
                (Reader.read client fuel fs.reader (object_of path) size offset fs.cloud)) [
                  | inl never ↦ absurd (ground arith)
                  | inr ((x, reader), done) ↦ (reader, ground arith)
                ]
        ]
      ]

  -- A `truncate` that returns resizes some content, and may change the reader.
  pub truncate-leaves :
      (fuel inner now : ℕ) (path : Bytes) (size : ℕ) (fs : Gcsfs client) {result : ℤ}
      {fs' : Gcsfs client}
      → truncate client fuel inner now path size fs ≡ some (result, fs')
      → (content : Bytes) × (reader : Reader.Reader) × ((truncated client now path size content
            (record fs { reader = reader })).1
          ≡ fs')
  unfolding truncate
  truncate-leaves fuel inner now path size fs {result} {fs'} e =
      let content : Bytes = buffer_or_new (lookup (object_of path) fs.write_buffers) in
      elim (Bool-cases (is_empty content && is_valid_path client now path fs)) [
        | inr direct ↦ (content, fs.reader, ground arith)
        | inl loads ↦
            elim (Option-cases
              (load_stored client fuel inner fs.reader (object_of path) [] chunk fs.cloud)) [
                | inl never ↦ absurd (ground arith)
                | inr ((stored, reader), done) ↦ (stored, reader, ground arith)
              ]
      ]
