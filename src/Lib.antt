-- ===== src/Lib.antt =====
-- kdrive: the storage gateway of the KChat drive, its data plane.
--
-- The program and its parts. A client's blob is written to a hot cache (L1) and later promoted to
-- a durable S3-compatible store (L2). The pipeline (internal/blobio) drives both and records for
-- every blob whether it is CACHED or COMMITTED_DURABLE; while it is CACHED the cache entry is the
-- only copy, and is flagged NonEvictable. The cache (pkg/hotcache) keeps entries under a byte
-- limit by an LRU with a pinned hot region. The store (pkg/blobstore) is an interface; its S3
-- adapter guards calls with a circuit breaker, its filesystem adapter (local_fs_dev) serves
-- development and tests. The worker (internal/worker) promotes what is cached, and re-reads
-- samples of what is durable; its configuration and the gateway's are validated by
-- internal/config. The server (internal/server) offers content deduplication within a tenant on
-- top of the store. The guardrails (pkg/storageguardrails) describe what the provider bills.
--
-- Files and code.
--   Common, Common/*: shared names, conditionals, lists, association lists for Go's maps with string
--     keys (Dict), `(value, error)` results and `io.Reader` (Results).
--   Breaker, Breaker/Laws: pkg/blobstore/s3/circuit_breaker.go. Allow, RecordSuccess, RecordFailure
--     are allow, record_success, record_failure on the record CircuitBreaker.
--   HotCache: pkg/hotcache/hotcache.go, the shared types and EvictionPolicy.Validate.
--   HotCache/Memory/*: pkg/hotcache/memory_cache.go. State has the record MemoryCache: the two
--     container/list lists are lists of addresses, front first, into a store of entries, so an entry
--     that is mutated is mutated for the index and for the list at once. Methods has Get, Put,
--     Evict and NewMemoryCache (get, put, evict, new_memory_cache). The other files are proofs:
--     Elements (addresses in lists), Invariant (IsValid), Insertion, Access, Trims and Eviction
--     (the operations keep it, and what they keep), Contents (the cache as a map), Promises, Whole, Runs.
--   BlobStore: pkg/blobstore/blobstore.go, the types.
--   Blobio/State, Parts, Promotion, Methods: internal/blobio/pipeline.go. promoteLocked is promote
--     and the definitions under it (promote_known, promote_cached, promote_body, finish_promote),
--     one for each stretch between two calls that can fail; promoteSingle, promoteMultipart and
--     checkAlreadyDurable have their own names; Write, Read, Evict are write, read, evict. The cache
--     and the store are the records of operations CacheOps and StoreOps. Outcome, Keeping, Safe,
--     Runs, RoundTrip and Restore are proofs; CacheLaws in Keeping is what they ask of a cache.
--     MemoryL1 makes the memory cache such a cache, and L1Runs runs the pipeline over it.
--   Guardrails, Guardrails/Laws: pkg/storageguardrails/guardrails.go.
--   Dedup/State, Memory, Handlers, Commit: internal/server/drive_dedup_api.go, one function for each
--     handler, behind header parsing and the JSON decoder, with and without the metadata database.
--     Laws and Reuse are proofs.
--   Local/*: pkg/blobstore/local_fs_dev/local.go. State has the record Provider: the versions under a
--     key, a version being its sidecar and its body file, the staging directories, and the version
--     counter. Objects, Multipart, Retain and Inventory have the methods, under the names of the Go
--     methods; Keys is validateKey. The other files are proofs: Versions and Fresh (lists of versions
--     and new ids), Validity, Preserved and Runs (what every version satisfies), Dirs (which keys lie
--     in the staging directories), RoundTrip, Extends and Keeps (reads of old and new versions), Locks and LockRuns (retention), Ranges, Staged and
--     Assembly (multipart uploads), Removal, Ended (uploads that are aborted or completed).
--   Blobio/LocalL2, Copies, Assembled, LargeCopies, Promoted: the pipeline over the filesystem
--     provider; what is relied on of the parameters is the record Relied in Promoted.
--   Config/*: internal/config/config.go. Types, Validate and Load model it behind the JSON decoder;
--     Bounds, Migration, Styles and Production are proofs.
--   Worker/*: internal/worker. Build is New, buildDeps and buildJobs of worker.go, Promotion and Repair are the
--     runOnce methods of jobs.go, with GuardrailRollupJob's queue depth beside the promotion; Knobs,
--     Durable and Scan are proofs.
--   Tests/*: concrete runs, not used by any other file.
--
-- State and errors. A method is a function from the state to the state and its result; where Go
-- changes state before it returns an error, the state is returned beside the error. A method runs to
-- its end before the next one starts (the code holds a lock, or the pipeline's per-blob flight), and
-- reads the clock once: the time is an argument. Errors are constructors, one for each error that
-- the code makes, with the wrapped error as its argument.
--
-- Numbers. Sizes and counts are natural numbers; an int64 or a time.Duration that the code tests for
-- a sign is the integer ℤ of Common/Tests. Times are nanoseconds with 0 for the zero time.Time. The
-- cache's uint64 counters wrap, and so do the limits MaxBytes+1 and maxRestoreBytes+1 of what is read
-- (limit_above) and the jobs' intervals (Worker/Build); other int64 sums do not, since the bytes of a
-- process fit. float64 is a parameter (the record Float64).
--
-- Fuel. The eviction loops of the memory cache run on the number of elements of their list, since
-- every round removes one; cutting a body into parts runs on its number of bytes, since every part
-- has at least one. The loops that remain are over lists.
--
-- Parameters. The SHA-256 in hexadecimal, the order in which the upload workers finish their parts,
-- the iteration order of Go's maps, hex.DecodeString, generateID, the metadata database. Of the
-- filesystem provider (the record LocalEnv): the id that a value of the version counter makes, the
-- time that is read then, the write result hash; what is said of them is LocalLaws in Local/Fresh.
-- Of the configuration: net.SplitHostPort. Of the worker: what the status store lists, the order
-- in which the pool finishes a batch, and the constructors that buildDeps calls (the record Openers),
-- each with its error.
--
-- Not modelled: the pipeline over another status store than New's map in memory, which has no errors;
-- cancelled contexts and panics, logging, callers that wait for another caller's
-- flight, a Read's background write that runs after the next call, the pipeline's Close. Of the
-- filesystem provider: errors of the file system (keys such as a/x.bin
-- that name a version's file among them), nil bodies, version and upload ids that are not
-- one path segment (they reach a path unchecked), uploads that are looked for under a key that begins
-- with _multipart/ (only removals see that such keys lie in staging directories), ListMultipartUploads, SignUploadPart and Capabilities. Of the worker: tickers, Start,
-- Stop and Close, and the purge and backup jobs, which only log. The disk cache, the S3 provider,
-- the SQL of the metadata store, and the drive and chat APIs.
pub mod Common
pub mod Breaker
pub mod HotCache
pub mod BlobStore
pub mod Blobio
pub mod Guardrails
pub mod Dedup
pub mod Local
pub mod Config
pub mod Worker
mod Tests
