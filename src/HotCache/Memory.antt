-- ===== src/HotCache/Memory.antt =====
-- The in-memory LRU cache (pkg/hotcache/memory_cache.go). A `*list.Element` is an address: the two
-- `container/list` lists hold addresses front to back, `value` is what an address points to, and
-- `index` maps a blob id to an address. Each method runs under the cache's mutex to its end.
pub mod State
pub mod Methods
pub mod Elements
pub mod Invariant
pub mod Trims
pub mod Eviction
pub mod Insertion
pub mod Access
pub mod Contents
pub mod Promises
pub mod Whole
pub mod Runs
