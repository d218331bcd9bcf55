-- ===== src/Tests/Memory.antt =====
-- A storage library that keeps the objects of its only bucket in memory.
use gcscfuse.Base.{
  take-append-drop, drop, ◌++◌, ◌∙◌, sym, ap, refl, ◌≡◌, Bool-cases, inl, inr, none, some, arith,
  [], ◌∷◌, if◌then◌else◌, length, Option, take,
}
use gcscfuse.Base.Bytes.{Bytes, same, same_iff, same_refl, codes}
use gcscfuse.Base.Dict.{Dict, lookup, insert, erase, lookup-insert, lookup-erase}
use gcscfuse.Fs.Truthful.{MetadataLaws, AreListed, HasLength}
use gcscfuse.Gcs.Laws.{StorageLaws}
use gcscfuse.Gcs.Sdk.{StorageClient, Outcome, ok, failed, SdkMetadata, Listing, end, object}

abbrev metadata_of : Bytes → Bytes → SdkMetadata
metadata_of name content = record { name = name; size = length content; updated = 7 }

abbrev listing_of : Bytes → Option Bytes → Listing → Listing
listing_of name none more = more
listing_of name (some content) more = object (metadata_of name content) more

-- The objects with these names and the prefix.
abbrev listing : Bytes → Dict Bytes → Dict Bytes → Listing
listing prefix [] cloud = end
listing prefix ((name, any) ∷ rest) cloud =
    let more = listing prefix rest cloud in
    if same (take (length prefix) name) prefix
    then listing_of name (lookup name cloud) more
    else more

abbrev outcome_of : Bytes → Option Bytes → Outcome SdkMetadata
outcome_of name none = failed
outcome_of name (some content) = ok (metadata_of name content)

abbrev deleted : Bytes → Dict Bytes → Option Bytes → Outcome (Unit {0}) × Dict Bytes
deleted name cloud none = (failed, cloud)
deleted name cloud (some content) = (ok tt, erase name cloud)

-- Names below "locked/" cannot be written.
abbrev pub memory : StorageClient
memory = record {
  Cloud = Dict Bytes;
  read_object = λ cloud bucket name. lookup name cloud;
  get_object_metadata = λ cloud bucket name. outcome_of name (lookup name cloud);
  write_object = λ bucket name content cloud.
      if same (take 7 name) (codes "locked/")
      then (failed, cloud)
      else (ok tt, insert name content cloud);
  delete_object = λ bucket name cloud. deleted name cloud (lookup name cloud);
  list_objects = λ cloud bucket prefix delimiter max_results. listing prefix cloud cloud;
}

pub memory_laws : StorageLaws memory
memory_laws = record {
  write_reads = λ bucket name content cloud h.
      ground (arith, lookup-insert name name content cloud, same_refl name);
  write_elsewhere = λ bucket name content cloud other k h.
      ground (arith, lookup-insert name k content cloud, same_iff name k);
  delete_reads =
      λ bucket name cloud h. ground (arith, lookup-erase name name cloud, same_refl name);
  delete_elsewhere =
      λ bucket name cloud other k h. ground (arith, lookup-erase name k cloud, same_iff name k);
  delete_failed = λ bucket name cloud h other k. ground arith;
}

listing_of-AreListed :
    (prefix name : Bytes) (cloud : Dict Bytes) (o : Option Bytes) (more : Listing)
    → lookup name cloud ≡ o
    → take (length prefix) name ≡ prefix
    → AreListed (λ k. lookup k cloud) prefix more
    → AreListed (λ k. lookup k cloud) prefix (listing_of name o more)
listing_of-AreListed prefix name cloud none more l q h = h
listing_of-AreListed prefix name cloud (some content) more l q h = (
  (
    drop (length prefix) name,
    sym (take-append-drop (length prefix) name) ∙ ap (λ t. t ++ drop (length prefix) name) q,
  ),
  (content, l, refl),
  h,
)

listing-AreListed :
    (prefix : Bytes) (names cloud : Dict Bytes)
    → AreListed (λ k. lookup k cloud) prefix (listing prefix names cloud)
listing-AreListed prefix [] cloud = tt
listing-AreListed prefix ((name, any) ∷ rest) cloud =
    elim (Bool-cases (same (take (length prefix) name) prefix)) [
      | inl e ↦ rw e (
          listing_of-AreListed prefix name cloud (lookup name cloud) _ refl
            ((same_iff (take (length prefix) name) prefix).0 e)
            (listing-AreListed prefix rest cloud))
      | inr e ↦ rw e (listing-AreListed prefix rest cloud)
    ]

described_by :
    (name : Bytes) (o : Option Bytes) (m : SdkMetadata)
    → outcome_of name o ≡ ok m
    → HasLength o m.size
described_by name none m e = absurd (ground arith)
described_by name (some content) m e = (content, refl, ground arith)

pub memory_metadata : MetadataLaws memory
memory_metadata = record {
  described = λ cloud bucket name m e. described_by name (lookup name cloud) m e;
  listed = λ cloud bucket prefix delimiter max_results. listing-AreListed prefix cloud cloud;
}
