-- ===== src/Config.antt =====
-- The configurations of the gateway and of the worker (internal/config/config.go): what a file's JSON
-- holds, its migration from the deprecated fields, and its validation.
pub mod Types
pub mod Validate
pub mod Load
pub mod Bounds
pub mod Migration
pub mod Styles
pub mod Production
