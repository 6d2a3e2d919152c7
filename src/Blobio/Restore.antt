-- ===== src/Blobio/Restore.antt =====
-- What `restoreFromL2` lets through.
use kdrive.Common.{ℕ, ◌≤◌, ◌≡◌, true, false, List, Reader, ℤ, pos, ltℤ, pos_part, length, ◌≢◌}
use kdrive.BlobStore.{ObjectMeta}
use kdrive.Blobio.State.{Extern}

module _ ⦃ext : Extern⦄ where
  -- What a restore of a body and its metadata as the provider reports it has checked.
  abbrev Checked : ℤ → Reader → ObjectMeta → List ℕ × ObjectMeta → Type 0
  Checked m r meta got =
      (r.fails ≡ false)
      × (got ≡ (r.bytes, record meta { checksum_sha256 = ext.sha256_hex r.bytes }))
      × (meta.checksum_sha256 ≢ "" → ext.sha256_hex r.bytes ≡ meta.checksum_sha256)
      × (ltℤ (pos 0) m ≡ true → length r.bytes ≤ pos_part m)
