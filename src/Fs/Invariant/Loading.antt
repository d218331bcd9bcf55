-- ===== src/Fs/Invariant/Loading.antt =====
-- `read` and `truncate` of src/gcs_fs.cpp against the invariant.
use gcscfuse.Base.{
  [], ℕ, zero, suc, ◌≡◌, Bool, some, arith, Bool-cases, inl, inr, Option-cases, length, is_empty,
  ◌&&◌, ◌-◌, ◌*◌, leb, ◌++◌, if◌then◌else◌,
}
use mathlib.Core.Path.{subst}
use gcscfuse.Base.Bytes.{Bytes}
use gcscfuse.Base.Dict.{lookup}
use gcscfuse.Base.Int.{ℤ, pos, leb_ℤ}
use gcscfuse.Fs.Invariant.{IsConsistentBut, buffered, reader-IsConsistent}
use gcscfuse.Fs.Invariant.Keeps.{truncated-IsConsistent}
use gcscfuse.Fs.State.{Gcsfs, object_of, is_valid_path}
use gcscfuse.Fs.Reads.{read}
use gcscfuse.Fs.Writes.{load_stored, truncate, truncated, buffer_or_new}
use gcscfuse.Gcs.Sdk.{StorageClient}
use gcscfuse.Reader
use gcscfuse.Reader.{Reader, ReadResult, chunk}
use gcscfuse.Reader.Coherence.{IsCoherent}
use gcscfuse.Reader.Coherence.Keeps.{read-keeps}

module _ (client : StorageClient) where
  open client use {Cloud}

  load_stored-IsCoherent :
      (fuel inner : ℕ) (shadowed : Bytes → Bool) (reader : Reader) (object_name acc : Bytes)
      (cap : ℕ) (cloud : Cloud) {stored : Bytes} {reader' : Reader}
      → IsCoherent client shadowed reader cloud
      → load_stored client fuel inner reader object_name acc cap cloud ≡ some (stored, reader')
      → IsCoherent client shadowed reader' cloud
  unfolding load_stored
  load_stored-IsCoherent zero inner shadowed reader object_name acc cap cloud h e =
      absurd (ground arith)
  load_stored-IsCoherent (suc fuel) inner shadowed reader object_name acc cap cloud {stored}
        {reader'} h e =
      let total_read : ℕ = length acc in
      let cap' : ℕ = if leb cap total_read then cap * 2 else cap in
      elim (Option-cases
        (Reader.read client inner reader object_name (cap' - total_read) total_read cloud)) [
          | inl never ↦ absurd (ground arith)
          | inr ((x, next), done) ↦
              let c =
                read-keeps client inner shadowed reader object_name (cap' - total_read) total_read
                  cloud h done in
              elim (Bool-cases (leb_ℤ x.count (pos 0))) [
                | inl last ↦
                    let k : next ≡ reader' = ground arith in
                    subst (λ t. IsCoherent client shadowed t cloud) k c
                | inr more ↦
                    load_stored-IsCoherent fuel inner shadowed next object_name (acc ++ x.bytes)
                      cap' cloud {stored = stored} {reader' = reader'} c (ground arith)
              ]
        ]

module _ (client : StorageClient) {raced : Bytes → Bool} where
  -- A `read` that returns keeps the invariant.
  pub read-IsConsistent :
      (fuel now : ℕ) (path : Bytes) (size offset : ℕ) (fs : Gcsfs client) {r : ReadResult}
      {fs' : Gcsfs client}
      → IsConsistentBut client raced fs
      → read client fuel now path size offset fs ≡ some (r, fs')
      → IsConsistentBut client raced fs'
  unfolding read
  read-IsConsistent fuel now path size offset fs {r} {fs'} h e =
      elim (Bool-cases (is_valid_path client now path fs)) [
        | inr invalid ↦ let k : fs ≡ fs' = ground arith in subst (IsConsistentBut client raced) k h
        | inl valid ↦ elim (Option-cases (lookup (object_of path) fs.write_buffers)) [
          | inr (c, b) ↦ let k : fs ≡ fs' = ground arith in subst (IsConsistentBut client raced) k h
          | inl b ↦
              elim (Option-cases
                (Reader.read client fuel fs.reader (object_of path) size offset fs.cloud)) [
                  | inl never ↦ absurd (ground arith)
                  | inr ((x, reader), done) ↦
                      let k : record fs { reader = reader } ≡ fs' = ground arith in
                      subst (IsConsistentBut client raced) k (
                        reader-IsConsistent client fs reader
                          (read-keeps client fuel (buffered client fs) fs.reader (object_of path)
                            size offset fs.cloud h.coherent done)
                          h)
                ]
        ]
      ]

  -- A `truncate` that returns keeps the invariant.
  pub truncate-IsConsistent :
      (fuel inner now : ℕ) (path : Bytes) (size : ℕ) (fs : Gcsfs client) {result : ℤ}
      {fs' : Gcsfs client}
      → IsConsistentBut client raced fs
      → truncate client fuel inner now path size fs ≡ some (result, fs')
      → IsConsistentBut client raced fs'
  unfolding truncate
  truncate-IsConsistent fuel inner now path size fs {result} {fs'} h e =
      let content : Bytes = buffer_or_new (lookup (object_of path) fs.write_buffers) in
      elim (Bool-cases (is_empty content && is_valid_path client now path fs)) [
        | inr direct ↦
            let k : (truncated client now path size content fs).1 ≡ fs' = ground arith in
            subst (IsConsistentBut client raced) k
              (truncated-IsConsistent client now path size content fs h)
        | inl loads ↦
            elim (Option-cases
              (load_stored client fuel inner fs.reader (object_of path) [] chunk fs.cloud)) [
                | inl never ↦ absurd (ground arith)
                | inr ((stored, reader), done) ↦
                    let loaded : Gcsfs client = record fs { reader = reader } in
                    let k : (truncated client now path size stored loaded).1 ≡ fs' = ground arith in
                    subst (IsConsistentBut client raced) k (
                      truncated-IsConsistent client now path size stored loaded (
                        reader-IsConsistent client fs reader
                          (load_stored-IsCoherent client fuel inner (buffered client fs) fs.reader
                            (object_of path) [] chunk fs.cloud h.coherent done)
                          h))
              ]
      ]
