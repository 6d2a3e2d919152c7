-- ===== src/Local.antt =====
-- The filesystem provider of development and of the contract tests
-- (pkg/blobstore/local_fs_dev/local.go). A key's directory is the list of its versions in the order
-- of their files, a version being its sidecar and its body file; the file system itself does not
-- fail. Methods hold the provider's lock from beginning to end.
pub mod State
pub mod Keys
pub mod Objects
pub mod Multipart
pub mod Retain
pub mod Inventory
pub mod Versions
pub mod Validity
pub mod Preserved
pub mod Runs
pub mod Fresh
pub mod RoundTrip
pub mod Dirs
pub mod Extends
pub mod Keeps
pub mod Locks
pub mod LockRuns
pub mod Ranges
pub mod Staged
pub mod Assembly
pub mod Removal
pub mod Ended
