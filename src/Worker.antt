-- ===== src/Worker.antt =====
-- The background jobs of the drive-worker (internal/worker): the promotion of cached blobs, the
-- repair scan, the queue depth alert, and how they are built from the configuration.
pub mod Build
pub mod Promotion
pub mod Repair
pub mod Knobs
pub mod Durable
pub mod Scan
