-- ===== src/Fs/Truthful/Entries.antt =====
-- `readdir` of src/gcs_fs.cpp against the truth of the stat cache.
use gcscfuse.Base.{
  ℕ, ◌≡◌, ◌++◌, ◌||◌, ◌&&◌, not, List, [], ◌∷◌, Option, All, length, drop, drop-append, is_empty,
  ltb, Bool, false, true, refl, inl, inr, arith, ap, ◌∙◌, sym, Bool-cases,
}
use gcscfuse.Base.Bytes.{Bytes, slash, contains}
use gcscfuse.Base.Dict.{Dict}
use gcscfuse.Fs.Lookups.{up_to_slash, full_path, add_entry, read_entry, read_entries, readdir}
use gcscfuse.Fs.Lookups.Entries.{up_to_slash-NoSlash}
use gcscfuse.Fs.Spec.Quiet.{core, core-read_entry}
use gcscfuse.Fs.State.{Gcsfs, object_of, ends_with_slash, dir_prefix}
use gcscfuse.Fs.Truthful.{IsTruthful, IsNormal, HasLength, MetadataLaws, AreListed}
use gcscfuse.Fs.Truthful.Lookups.{file_recorded, dir_recorded}
use gcscfuse.Fs.Truthful.Paths.{full_path-IsNormal, up_to_slash-whole}
use gcscfuse.Gcs.Client
use gcscfuse.Gcs.Client.{ObjectMetadata, collect}
use gcscfuse.Gcs.Sdk
use gcscfuse.Gcs.Sdk.{
  StorageClient, Listing, Outcome, SdkMetadata, end, object, bad_status, throws, ok, failed, thrown,
}
use gcscfuse.Reader.{Reader}
use gcscfuse.StatCache.Path.RoundTrip.{NoSlash}
use mathlib.Core.Path.{subst}

-- What the listing says of an object of the directory.
abbrev IsListed : (Bytes → Option Bytes) → Bytes → ObjectMetadata → Type 0
IsListed stored prefix m =
    ((relative : Bytes) × (m.name ≡ prefix ++ relative)) × HasLength (stored m.name) m.size

collect-IsListed :
    (stored : Bytes → Option Bytes) (prefix : Bytes) (listing : Listing)
    → AreListed stored prefix listing
    → All (IsListed stored prefix) (collect listing)
unfolding collect
collect-IsListed stored prefix end h = tt
collect-IsListed stored prefix (object m rest) h =
    ((h.0, h.1), collect-IsListed stored prefix rest h.2)
collect-IsListed stored prefix (bad_status rest) h = tt
collect-IsListed stored prefix throws h = tt

module _ {client : StorageClient} (metadata : MetadataLaws client) where
  add_entry-IsTruthful :
      (now : ℕ) (path : Bytes) (m : ObjectMetadata) (e : Bytes × Bool) (entries : List Bytes)
      (fs : Gcsfs client)
      → IsNormal path
      → NoSlash e.0
      → (e.1 ≡ false → m.name ≡ dir_prefix (object_of path) ++ e.0)
      → HasLength (client.read_object fs.cloud fs.bucket_name m.name) m.size
      → IsTruthful client fs
      → IsTruthful client (add_entry client now path m e entries fs).1
  unfolding add_entry
  add_entry-IsTruthful now path m (name, true) entries fs n c q l h =
      elim (Bool-cases (not (is_empty name) && not (contains name entries))) [
        | inl new ↦ rw new (dir_recorded now (full_path path name) fs h)
        | inr old ↦ rw old h
      ]
  add_entry-IsTruthful now path m (name, false) entries fs n c q l h =
      elim (Bool-cases (not (is_empty name) && not (contains name entries))) [
        | inl new ↦
            let made = full_path-IsNormal path name n (ground arith, c) in
            rw new (
              file_recorded now (full_path path name) m.size m.updated fs h made.0 (λ b.
                subst (λ k. HasLength (client.read_object fs.cloud fs.bucket_name k) m.size)
                  (q refl ∙ sym made.1) l))
        | inr old ↦ rw old h
      ]

  read_entry-IsTruthful :
      (now : ℕ) (path : Bytes) (m : ObjectMetadata) (relative : Bytes) (entries : List Bytes)
      (fs : Gcsfs client)
      → IsNormal path
      → m.name ≡ dir_prefix (object_of path) ++ relative
      → HasLength (client.read_object fs.cloud fs.bucket_name m.name) m.size
      → IsTruthful client fs
      → IsTruthful client (read_entry client now path m relative entries fs).1
  unfolding read_entry
  read_entry-IsTruthful now path m relative entries fs n q l h =
      elim (Bool-cases (is_empty relative || ends_with_slash relative)) [
        | inl e ↦ rw e h
        | inr e ↦ rw e (
            add_entry-IsTruthful now path m (up_to_slash relative) entries fs n
              (up_to_slash-NoSlash relative)
              (λ f.
                q ∙ ap (λ r. dir_prefix (object_of path) ++ r) (sym (up_to_slash-whole relative f)))
              l h)
      ]

  -- What the listing says, by the parts of the state that the loop leaves alone.
  abbrev IsListedIn : Bytes → Bytes × client.Cloud × Reader × Dict Bytes → ObjectMetadata → Type 0
  IsListedIn prefix (bucket, cloud, reader, buffers) m =
      IsListed (λ k. client.read_object cloud bucket k) prefix m

  read_entries-IsTruthful :
      (now : ℕ) (path : Bytes) (objects : List ObjectMetadata) (entries : List Bytes)
      (fs : Gcsfs client)
      → IsNormal path
      → All (IsListedIn (dir_prefix (object_of path)) (core client fs)) objects
      → IsTruthful client fs
      → IsTruthful client
          (read_entries client now path (dir_prefix (object_of path)) objects entries fs).2
  unfolding read_entries
  read_entries-IsTruthful now path [] entries fs n l h = h
  read_entries-IsTruthful now path (m ∷ rest) entries fs n l h =
      let prefix : Bytes = dir_prefix (object_of path) in
      let relative : Bytes = drop (length prefix) m.name in
      let q : m.name ≡ prefix ++ relative =
        l.0.0.1
        ∙ ap (λ r. prefix ++ r)
            (sym (
              ap (drop (length prefix)) l.0.0.1
              ∙ drop-append (length prefix) prefix l.0.0.0 refl)) in
      let next = read_entry client now path m relative entries fs in
      elim (Bool-cases (ltb (length m.name) (length prefix))) [
        | inl short ↦ rw short h
        | inr long ↦ rw long (
            read_entries-IsTruthful now path rest next.0 next.1 n
              (subst (λ s. All (IsListedIn prefix s) rest)
                (sym (core-read_entry client now path m relative entries fs)) l.1)
              (read_entry-IsTruthful now path m relative entries fs n q l.0.1 h))
      ]

  pub readdir-IsTruthful :
      (now : ℕ) (path : Bytes) (fs : Gcsfs client)
      → IsNormal path
      → IsTruthful client fs
      → IsTruthful client (readdir client now path fs).2
  unfolding readdir Client.list_objects Sdk.list_objects
  readdir-IsTruthful now path fs n h =
      read_entries-IsTruthful now path
        (Client.list_objects client fs.bucket_name (dir_prefix (object_of path)) (slash ∷ []) 0
          fs.cloud)
        [] fs n
        (collect-IsListed _ _ _
          (metadata.listed fs.cloud fs.bucket_name (dir_prefix (object_of path)) (slash ∷ []) 0))
        h
