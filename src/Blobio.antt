-- ===== src/Blobio.antt =====
-- The L1 and L2 pipeline of the gateway (internal/blobio/pipeline.go), as `New` builds it: over a
-- `MemoryStatusStore`, whose methods never fail, and over any cache and any store. A method runs
-- to its end before the next one starts, and reads the clock once.
pub mod State
pub mod Parts
pub mod Promotion
pub mod Methods
pub mod Outcome
pub mod Keeping
pub mod Safe
pub mod Runs
pub mod RoundTrip
pub mod Restore
pub mod MemoryL1
pub mod L1Runs
pub mod LocalL2
pub mod Copies
pub mod Assembled
pub mod LargeCopies
pub mod Promoted
