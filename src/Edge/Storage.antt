-- ===== src/Edge/Storage.antt =====
-- What package edge calls of the object storage (pkg/minio over the MinIO client) and of
-- encoding/json on its metadata. A bucket is a collection's, and an object one of its files.
use coltt.Prelude.{◌≡◌, ◌≢◌, Bool, List}
use coltt.Prelude.Bytes.{Bytes}
use coltt.Prelude.Outcome.{Outcome, ok}
use coltt.Edge.Space.{SpaceMetadata}

pub record Storage (S : Type 0) : Type 0 where
  pub load_bucket_list : S → Outcome (List Bytes)
  pub create_bucket : Bytes → S → Outcome (Unit {0}) × S
  pub versioning : Bytes → S → Outcome (Unit {0}) × S
  pub remove_bucket : Bytes → S → Outcome (Unit {0}) × S
  pub is_version_bucket : Bytes → S → Outcome Bool
  pub version_clean_up : Bytes → S → Outcome (Unit {0}) × S
  pub put_object : Bytes → Bytes → Bytes → S → Outcome (Unit {0}) × S
  pub get_object : Bytes → Bytes → S → Outcome Bytes

-- What a storage keeps while it is available: a write succeeds and leaves it available, an object is
-- read back as it was last written, and a write changes no other object and no other bucket.
pub record Durable {S : Type 0} (storage : Storage S) : Type 1 where
  pub Available : S → Type 0
  pub put-ok :
      (bucket object bytes : Bytes) (s : S)
      → Available s
      → (storage.put_object bucket object bytes s).0 ≡ ok tt
  pub put-Available :
      (bucket object bytes : Bytes) (s : S)
      → Available s
      → Available (storage.put_object bucket object bytes s).1
  pub get-put :
      (bucket object bytes : Bytes) (s : S)
      → Available s
      → storage.get_object bucket object (storage.put_object bucket object bytes s).1 ≡ ok bytes
  pub get-put_other :
      (bucket object other bytes : Bytes) (s : S)
      → Available s
      → object ≢ other
      → storage.get_object bucket other (storage.put_object bucket object bytes s).1
        ≡ storage.get_object bucket other s
  pub get-put_away :
      (bucket object bytes away other : Bytes) (s : S)
      → Available s
      → bucket ≢ away
      → storage.get_object away other (storage.put_object bucket object bytes s).1
        ≡ storage.get_object away other s

-- json.Marshal and json.Unmarshal of a Metadata. Marshal does not fail on this struct; a text that
-- is not UTF-8 is changed, so `Encodes` says which metadata come back as they were.
pub record Json : Type 1 where
  pub marshal : SpaceMetadata → Bytes
  pub unmarshal : Bytes → Outcome SpaceMetadata
  pub Encodes : SpaceMetadata → Type 0
  pub unmarshal-marshal : (m : SpaceMetadata) → Encodes m → unmarshal (marshal m) ≡ ok m
