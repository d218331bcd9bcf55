-- ===== src/Gcs/Sdk.antt =====
-- src/gcs/gcs_sdk_interface.hpp and .cpp: the requests, and the forwarding of each request to
-- `google::cloud::storage::Client`, which is the parameter `StorageClient`.
use gcscfuse.Base.{ℕ, Option}
use gcscfuse.Base.Bytes.{Bytes}

-- A call of the library yields a value, fails with a status, or throws.
pub data Outcome {ℓ} (A : Type ℓ) : Type ℓ where
  ok : A → Outcome A
  failed : Outcome A
  thrown : Outcome A

-- What the program reads of the library's `ObjectMetadata`; `updated` in seconds, as
-- `system_clock::to_time_t` gives it.
pub record SdkMetadata : Type 0 where
  pub name : Bytes
  pub size : ℕ
  pub updated : ℕ

-- What iterating over a `ListObjectsReader` meets: each element is metadata or a failed status,
-- and an advance can throw.
pub data Listing : Type 0 where
  end : Listing
  object : SdkMetadata → Listing → Listing
  bad_status : Listing → Listing
  throws : Listing

-- The library, over the state of the remote buckets: names are bucket first, then object. The
-- calls that only read leave the remote state alone.
pub record StorageClient : Type 1 where
  pub Cloud : Type 0
  pub read_object : Cloud → Bytes → Bytes → Option Bytes
  pub get_object_metadata : Cloud → Bytes → Bytes → Outcome SdkMetadata
  pub write_object : Bytes → Bytes → Bytes → Cloud → Outcome (Unit {0}) × Cloud
  pub delete_object : Bytes → Bytes → Cloud → Outcome (Unit {0}) × Cloud
  pub list_objects : Cloud → Bytes → Bytes → Bytes → ℕ → Listing

pub record ReadObjectRequest : Type 0 where
  pub bucket_name : Bytes
  pub object_name : Bytes
  pub range : Option (ℕ × ℕ)

pub record GetObjectMetadataRequest : Type 0 where
  pub bucket_name : Bytes
  pub object_name : Bytes

pub record WriteObjectRequest : Type 0 where
  pub bucket_name : Bytes
  pub object_name : Bytes

pub record DeleteObjectRequest : Type 0 where
  pub bucket_name : Bytes
  pub object_name : Bytes

pub record ListObjectsRequest : Type 0 where
  pub bucket_name : Bytes
  pub prefix : Bytes
  pub delimiter : Bytes
  pub max_results : ℕ

-- `GCSSDKClientImpl`. The range of a `ReadObjectRequest` is not passed on.
module _ (client : StorageClient) where
  open client use {Cloud}

  unfoldable pub read_object : ReadObjectRequest → Cloud → Option Bytes
  read_object request cloud = client.read_object cloud request.bucket_name request.object_name

  unfoldable pub get_object_metadata : GetObjectMetadataRequest → Cloud → Outcome SdkMetadata
  get_object_metadata request cloud =
      client.get_object_metadata cloud request.bucket_name request.object_name

  -- The stream that `WriteObject` opens, what is written to it, and its close.
  unfoldable pub write_object : WriteObjectRequest → Bytes → Cloud → Outcome (Unit {0}) × Cloud
  write_object request content cloud =
      client.write_object request.bucket_name request.object_name content cloud

  unfoldable pub delete_object : DeleteObjectRequest → Cloud → Outcome (Unit {0}) × Cloud
  delete_object request cloud = client.delete_object request.bucket_name request.object_name cloud

  unfoldable pub list_objects : ListObjectsRequest → Cloud → Listing
  list_objects request cloud =
      client.list_objects cloud request.bucket_name request.prefix request.delimiter
        request.max_results
