-- ===== src/Dedup/Laws.antt =====
-- Registration and lookup in the dev mode (internal/server/drive_dedup_api.go).
use kdrive.Common.{String, some}
use kdrive.Dedup.State.{Request}

abbrev pub post : {A : Type 0} → String → A → Request A
post tenant_id body = record { method = "POST"; tenant_id = tenant_id; body = some body }
