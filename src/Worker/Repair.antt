-- ===== src/Worker/Repair.antt =====
-- `verifyChecksum` and `RepairJob.runOnce` (internal/worker/jobs.go).
use kdrive.Common.{
  ℕ, ◌+◌, String, not, str_eq, List, [], ◌∷◌, Option, none, some, Result, ok, err, reject, ◌>>◌,
  Reader,
}
use kdrive.BlobStore.{StoreError, ObjectMeta, VersionedObjectRef}
use kdrive.Blobio.State.{Extern}

-- `BlobStore.Get` without a range.
pub record VersionedReads (S : Type 0) : Type 0 where
  pub get : S → VersionedObjectRef → Result StoreError (Reader × ObjectMeta)

pub data RepairError : Type 0 where
  repair_get : StoreError → RepairError
  repair_read repair_mismatch : RepairError

-- `metadata.DurablePlacement`, as far as the job reads it.
pub record DurablePlacement : Type 0 where
  pub blob_key : String
  pub blob_version_id : String
  pub checksum_sha256 : String

pub record RepairJob : Type 0 where
  pub sample_count : ℕ
  pub checked_total : ℕ
  pub mismatch_total : ℕ
  pub scan_count : ℕ

module _ {S : Type 0} ⦃reads : VersionedReads S⦄ ⦃ext : Extern⦄ where
  unfoldable pub verify_checksum : S → String → String → String → Result RepairError (Unit {0})
  verify_checksum s key version_id expected =
      elim (reads.get s (record { key = key; version_id = version_id })) [
        | err e ↦ err (repair_get e)
        | ok got ↦
            reject got.0.fails repair_read
            >> reject (not (str_eq (ext.sha256_hex got.0.bytes) expected)) repair_mismatch
      ]

  unfoldable pub verify_sample : S → RepairJob → DurablePlacement → RepairJob
  unfolding verify_checksum
  verify_sample s j d = elim (verify_checksum s d.blob_key d.blob_version_id d.checksum_sha256) [
    | err e ↦ record j {
      checked_total = j.checked_total + 1;
      mismatch_total = j.mismatch_total + 1;
    }
    | ok _ ↦ record j { checked_total = j.checked_total + 1 }
  ]

  unfoldable pub verify_all : S → RepairJob → List DurablePlacement → RepairJob
  unfolding verify_sample
  verify_all s j [] = j
  verify_all s j (d ∷ ds) = verify_all s (verify_sample s j d) ds

  -- `samples` is the status store's answer: none without a status store, or its error inside.
  unfoldable pub run_repair : S → RepairJob → Option (Option (List DurablePlacement)) → RepairJob
  unfolding verify_all
  run_repair s j none = j
  run_repair s j (some none) = record j { scan_count = j.scan_count + 1 }
  run_repair s j (some (some samples)) =
      verify_all s (record j { scan_count = j.scan_count + 1 }) samples
