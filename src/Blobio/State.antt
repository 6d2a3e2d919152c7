-- ===== src/Blobio/State.antt =====
-- The pipeline's data, the interfaces of its cache and store, and the status store.
use kdrive.Common.{ℕ, String, Bool, List, none, some, Result, Reader, ℤ}
use kdrive.Common.Dict.{lookup, insert}
use kdrive.BlobStore.{
  StoreError, Retention, PutRequest, PutResult, ObjectMeta, MultipartUpload, UploadedPart,
  CompletedPart,
}
use kdrive.HotCache.{CacheError, PutOptions, Metadata}

pub data CommitState : Type 0 where
  cached durable : CommitState

pub record BlobStatus : Type 0 where
  pub blob_id : String
  pub commit_state : CommitState
  pub size : ℕ
  pub checksum_sha256 : String
  pub version_id : String
  pub cached_at : ℕ
  pub durable_at : ℕ
  pub file_id : String
  pub tenant_id : String
  pub retention : Retention

pub record WriteResult : Type 0 where
  pub blob_id : String
  pub commit_state : CommitState
  pub size : ℕ
  pub checksum_sha256 : String

pub record ReadResult : Type 0 where
  pub body : Reader
  pub size : ℕ
  pub checksum_sha256 : String
  pub version_id : String
  pub from_cache : Bool

pub record WriteOptions : Type 0 where
  pub promote_sync : Bool
  pub pin_hot : Bool
  pub retention : Retention
  pub file_id : String
  pub tenant_id : String

pub data PipelineError : Type 0 where
  blob_id_required not_in_status_store not_yet_durable missing_part multipart_read : PipelineError
  promote_checksum multipart_checksum l2_read l2_too_large l2_checksum : PipelineError
  cache_put cache_get cache_evict promote_cache_get : CacheError → PipelineError
  promote_put l2_get create_multipart upload_part complete_multipart : StoreError → PipelineError
  sync_promote : PipelineError → PipelineError

-- `hotcache.Cache`, as far as the pipeline calls it; the time is what its clock reads.
pub record CacheOps (C : Type 0) : Type 0 where
  pub get : C → String → ℕ → C × Result CacheError (Reader × Metadata)
  pub put : C → String → Reader → PutOptions → ℕ → C × Result CacheError (Unit {0})
  pub evict : C → String → C × Result CacheError (Unit {0})

-- `Store`: `put` also says which bytes it took from the body.
pub record StoreOps (S : Type 0) : Type 0 where
  pub put : S → PutRequest → S × List ℕ × Result StoreError PutResult
  pub get : S → String → Result StoreError (Reader × ObjectMeta)
  pub head : S → String → Result StoreError ObjectMeta
  pub create : S → String → Retention → S × Result StoreError MultipartUpload
  pub upload : S → MultipartUpload → ℕ → List ℕ → S × Result StoreError UploadedPart
  pub complete : S → MultipartUpload → List CompletedPart → S × Result StoreError PutResult
  pub abort : S → MultipartUpload → S × Result StoreError (Unit {0})

-- `MemoryStatusStore`: a map from blob ids.
abbrev pub StatusStore : Type 0
StatusStore = List (String × BlobStatus)

unfoldable pub status_put : StatusStore → BlobStatus → StatusStore
status_put m status = insert status.blob_id status m

-- What `MarkDurable` makes of the entry.
abbrev pub made_durable : BlobStatus → String → ℕ → String → ℕ → BlobStatus
made_durable st version_id size checksum at = record st {
  commit_state = durable;
  version_id = version_id;
  size = size;
  checksum_sha256 = checksum;
  durable_at = at;
}

-- The entry keeps its key: every entry is stored under its own blob id.
unfoldable pub mark_durable : StatusStore → String → String → ℕ → String → ℕ → StatusStore
mark_durable m blob_id version_id size checksum at = elim (lookup blob_id m) [
  | none ↦ m
  | some st ↦ insert blob_id (made_durable st version_id size checksum at) m
]

pub record Pipeline (C S : Type 0) : Type 0 where
  pub cache : C
  pub store : S
  pub status : StatusStore
  pub max_restore_bytes : ℤ
  pub promote_attempts : ℕ
  pub promote_successes : ℕ
  pub promote_failures : ℕ
  pub promote_skipped : ℕ

-- `sha256_hex` is the hexadecimal SHA-256 of bytes; `schedule` is the order in which the upload
-- workers finish their parts.
pub record Extern : Type 0 where
  pub sha256_hex : List ℕ → String
  pub schedule : List (ℕ × List ℕ) → List (ℕ × List ℕ)
