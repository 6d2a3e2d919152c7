-- ===== src/Dedup.antt =====
-- The content deduplication API (internal/server/drive_dedup_api.go).
pub mod State
pub mod Memory
pub mod Handlers
pub mod Commit
pub mod Laws
pub mod Reuse
