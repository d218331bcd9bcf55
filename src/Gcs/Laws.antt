-- ===== src/Gcs/Laws.antt =====
-- What the program relies on of the storage library: a write that succeeded can be read back, a
-- delete that succeeded leaves nothing to read, one that failed leaves everything as it was, and
-- neither touches another object.
use gcscfuse.Base.{refl, inr, ◌⊎◌, inl, ◌≡◌, ◌≢◌, none, some, true, arith}
use gcscfuse.Gcs.Sdk.{failed, thrown, Outcome, StorageClient, ok}
use gcscfuse.Base.Bytes.{Bytes}
use gcscfuse.Gcs.Client

pub record StorageLaws (client : StorageClient) : Type 0 where
  pub write_reads :
      (bucket name content : Bytes) (cloud : client.Cloud)
      → (client.write_object bucket name content cloud).0 ≡ ok tt
      → client.read_object (client.write_object bucket name content cloud).1 bucket name
        ≡ some content
  pub write_elsewhere :
      (bucket name content : Bytes) (cloud : client.Cloud) (other k : Bytes)
      → k ≢ name
      → client.read_object (client.write_object bucket name content cloud).1 other k
        ≡ client.read_object cloud other k
  pub delete_reads :
      (bucket name : Bytes) (cloud : client.Cloud)
      → (client.delete_object bucket name cloud).0 ≡ ok tt
      → client.read_object (client.delete_object bucket name cloud).1 bucket name ≡ none
  pub delete_elsewhere :
      (bucket name : Bytes) (cloud : client.Cloud) (other k : Bytes)
      → k ≢ name
      → client.read_object (client.delete_object bucket name cloud).1 other k
        ≡ client.read_object cloud other k
  pub delete_failed :
      (bucket name : Bytes) (cloud : client.Cloud)
      → (client.delete_object bucket name cloud).0 ≢ ok tt
      → (other k : Bytes)
      → client.read_object (client.delete_object bucket name cloud).1 other k
        ≡ client.read_object cloud other k

Outcome-cases : (o : Outcome (Unit {0})) → (o ≡ ok tt) ⊎ (o ≢ ok tt)
Outcome-cases (ok u) = inl refl
Outcome-cases failed = inr (λ e. cc)
Outcome-cases thrown = inr (λ e. cc)

-- The same of `GCSClient`.
module _ {client : StorageClient} (laws : StorageLaws client) where
  open client use {Cloud}

  pub write_object-reads :
      (bucket name content : Bytes) (cloud : Cloud)
      → (Client.write_object client bucket name content cloud).0 ≡ true
      → client.read_object (Client.write_object client bucket name content cloud).1 bucket name
        ≡ some content
  unfolding Client.write_object
  write_object-reads bucket name content cloud h =
      ground (arith, laws.write_reads bucket name content cloud)

  pub write_object-elsewhere :
      (bucket name content : Bytes) (cloud : Cloud) (other k : Bytes)
      → k ≢ name
      → client.read_object (Client.write_object client bucket name content cloud).1 other k
        ≡ client.read_object cloud other k
  unfolding Client.write_object
  write_object-elsewhere bucket name content cloud other k h =
      ground (arith, laws.write_elsewhere bucket name content cloud other k)

  pub delete_object-reads :
      (bucket name : Bytes) (cloud : Cloud)
      → (Client.delete_object client bucket name cloud).0 ≡ ok true
      → client.read_object (Client.delete_object client bucket name cloud).1 bucket name ≡ none
  unfolding Client.delete_object
  delete_object-reads bucket name cloud h = ground (arith, laws.delete_reads bucket name cloud)

  pub delete_object-elsewhere :
      (bucket name : Bytes) (cloud : Cloud) (other k : Bytes)
      → k ≢ name
      → client.read_object (Client.delete_object client bucket name cloud).1 other k
        ≡ client.read_object cloud other k
  unfolding Client.delete_object
  delete_object-elsewhere bucket name cloud other k h =
      ground (arith, laws.delete_elsewhere bucket name cloud other k)

  pub delete_object-failed :
      (bucket name : Bytes) (cloud : Cloud)
      → (Client.delete_object client bucket name cloud).0 ≢ ok true
      → (other k : Bytes)
      → client.read_object (Client.delete_object client bucket name cloud).1 other k
        ≡ client.read_object cloud other k
  unfolding Client.delete_object
  delete_object-failed bucket name cloud h other k =
      elim (Outcome-cases (client.delete_object bucket name cloud).0) [
        | inl good ↦ absurd (ground arith)
        | inr bad ↦ ground (arith, laws.delete_failed bucket name cloud bad other k)
      ]
