-- ===== src/BlobStore.antt =====
-- The provider-agnostic store types (pkg/blobstore/blobstore.go). Sizes and part numbers are
-- natural numbers; times are nanoseconds, with 0 for the zero `time.Time`.
use kdrive.Common.{ℕ, String, Bool, Reader}

pub data StoreError : Type 0 where
  not_found precondition_failed throttled retention_conflict : StoreError
  version_mismatch checksum_mismatch ambiguous_timeout other : StoreError

abbrev pub retention_none : String
retention_none = "NONE"

abbrev pub retention_governance : String
retention_governance = "GOVERNANCE"

abbrev pub retention_compliance : String
retention_compliance = "COMPLIANCE"

-- `RetentionSpec` and `RetentionState` have the same fields.
pub record Retention : Type 0 where
  pub mode : String
  pub retain_until : ℕ
  pub legal_hold : Bool

abbrev pub versioning_enabled : String
versioning_enabled = "ENABLED"

pub record PutRequest : Type 0 where
  pub key : String
  pub body : Reader
  pub expected_length : ℕ
  pub checksum_sha256 : String
  pub content_type : String
  pub retention : Retention
  pub if_none_match : Bool

pub record PutResult : Type 0 where
  pub key : String
  pub version_id : String
  pub versioning_state : String
  pub retention : Retention
  pub write_time : ℕ
  pub size : ℕ
  pub checksum_sha256 : String
  pub write_result_hash : String

pub record ObjectMeta : Type 0 where
  pub key : String
  pub version_id : String
  pub versioning_state : String
  pub size : ℕ
  pub checksum_sha256 : String
  pub retention : Retention
  pub write_time : ℕ

pub record VersionedObjectRef : Type 0 where
  pub key : String
  pub version_id : String

pub record MultipartUpload : Type 0 where
  pub key : String
  pub upload_id : String

pub record UploadedPart : Type 0 where
  pub part_number : ℕ
  pub checksum_sha256 : String
  pub size : ℕ

pub record CompletedPart : Type 0 where
  pub part_number : ℕ
  pub checksum_sha256 : String
  pub size : ℕ
