-- ===== src/Gcs/Client.antt =====
-- src/gcs/gcs_client.cpp: `GCSClient`.
use gcscfuse.Base.{ℕ, List, [], ◌∷◌, Option, none, some, Bool, true, false}
use gcscfuse.Base.Bytes.{Bytes}
use gcscfuse.Gcs.Sdk
use gcscfuse.Gcs.Sdk.{
  Outcome, ok, failed, thrown, SdkMetadata, Listing, end, object, bad_status, throws, StorageClient,
  ReadObjectRequest,
}

pub record ObjectMetadata : Type 0 where
  pub name : Bytes
  pub size : ℕ
  pub updated : ℕ
  pub is_directory : Bool

abbrev pub to_object_metadata : SdkMetadata → ObjectMetadata
to_object_metadata metadata = record {
  name = metadata.name;
  size = metadata.size;
  updated = metadata.updated;
  is_directory = false;
}

-- The loop of `listObjects`: it stops at the first failed status, and an exception ends it too.
unfoldable pub collect : Listing → List ObjectMetadata
collect end = []
collect (object metadata rest) = to_object_metadata metadata ∷ collect rest
collect (bad_status rest) = []
collect throws = []

module _ (client : StorageClient) where
  open client use {Cloud}

  -- A failed status and an exception both give no metadata.
  unfoldable pub get_object_metadata : Bytes → Bytes → Cloud → Option ObjectMetadata
  unfolding Sdk.get_object_metadata
  get_object_metadata bucket_name object_name cloud =
      elim (Sdk.get_object_metadata client
        (record { bucket_name = bucket_name; object_name = object_name }) cloud) [
          | ok metadata ↦ some (to_object_metadata metadata)
          | failed ↦ none
          | thrown ↦ none
        ]

  -- A failed read gives the empty text.
  unfoldable pub read_object : ReadObjectRequest → Cloud → Bytes
  unfolding Sdk.read_object
  read_object request cloud = elim (Sdk.read_object client request cloud) [
    | none ↦ []
    | some content ↦ content
  ]

  unfoldable pub write_object : Bytes → Bytes → Bytes → Cloud → Bool × Cloud
  unfolding Sdk.write_object
  write_object bucket_name object_name content cloud =
      let (written, cloud') =
        Sdk.write_object client (record { bucket_name = bucket_name; object_name = object_name })
          content cloud in
      elim written [ ok _ ↦ (true, cloud') | failed ↦ (false, cloud') | thrown ↦ (false, cloud') ]

  -- An exception of the library is not caught here.
  unfoldable pub delete_object : Bytes → Bytes → Cloud → Outcome Bool × Cloud
  unfolding Sdk.delete_object
  delete_object bucket_name object_name cloud =
      let (status, cloud') =
        Sdk.delete_object client (record { bucket_name = bucket_name; object_name = object_name })
          cloud in
      elim status [
        | ok _ ↦ (ok true, cloud')
        | failed ↦ (ok false, cloud')
        | thrown ↦ (thrown, cloud')
      ]

  unfoldable pub list_objects : Bytes → Bytes → Bytes → ℕ → Cloud → List ObjectMetadata
  unfolding Sdk.list_objects collect
  list_objects bucket_name prefix delimiter max_results cloud = collect (
      Sdk.list_objects client
        (record {
          bucket_name = bucket_name;
          prefix = prefix;
          delimiter = delimiter;
          max_results = max_results;
        })
        cloud)

  unfoldable pub object_exists : Bytes → Bytes → Cloud → Bool
  unfolding get_object_metadata
  object_exists bucket_name object_name cloud =
      elim (get_object_metadata bucket_name object_name cloud) [ none ↦ false | some m ↦ true ]

  -- `objects.begin() != objects.end()`: an element that is a failed status counts.
  unfoldable pub directory_exists : Bytes → Bytes → Cloud → Bool
  unfolding Sdk.list_objects
  directory_exists bucket_name dir_prefix cloud =
      elim (Sdk.list_objects client
        (record { bucket_name = bucket_name; prefix = dir_prefix; delimiter = []; max_results = 1 })
        cloud) [
          | end ↦ false
          | object metadata rest ↦ true
          | bad_status rest ↦ true
          | throws ↦ false
        ]
