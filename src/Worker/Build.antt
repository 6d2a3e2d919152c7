-- ===== src/Worker/Build.antt =====
-- `New`, `buildDeps` and `buildJobs` (internal/worker/worker.go): what is opened, its errors, and the
-- tuning knobs.
use kdrive.Common.{
  ℕ, ◌-◌, ◌*◌, ◌%◌, ltb, String, not, ◌&&◌, if◌then◌else◌, str_eq, Option, none, some, Result, ok,
  ◌>>=◌, ℤ, pos, negsuc, ltℤ, pos_part,
}
use kdrive.Config.Types.{StorageConfig, WorkerConfig}

-- A default where the configured number is not above 0.
unfoldable pub knob : ℕ → ℤ → ℕ
knob default configured = if ltℤ (pos 0) configured then pos_part configured else default

-- An `int64` that holds the number's lowest 64 bits.
unfoldable pub int64 : ℕ → ℤ
int64 n =
    if ltb (n % 18446744073709551616) 9223372036854775808
    then pos (n % 18446744073709551616)
    else negsuc (18446744073709551615 - n % 18446744073709551616)

-- `time.Duration(ms) * time.Millisecond`, in nanoseconds, or the default.
unfoldable pub interval : ℕ → ℤ → ℤ
unfolding int64
interval default configured =
    if ltℤ (pos 0) configured then int64 (pos_part configured * 1000000) else pos default

-- What `buildJobs` hands to the jobs; intervals in nanoseconds.
pub record Knobs : Type 0 where
  pub promote_interval : ℤ
  pub promote_batch : ℕ
  pub promote_parallelism : ℕ
  pub repair_interval : ℤ
  pub repair_sample : ℕ
  pub queue_depth_alert : ℕ

unfoldable pub build_jobs : WorkerConfig → Knobs
unfolding knob interval
build_jobs c = record {
  promote_interval = interval 30000000000 c.promote_interval_ms;
  promote_batch = knob 100 c.promote_batch_size;
  promote_parallelism = knob 4 c.promote_parallelism;
  repair_interval = interval 300000000000 c.repair_interval_ms;
  repair_sample = knob 10 c.repair_sample_count;
  queue_depth_alert = knob 1000 c.queue_depth_alert;
}

-- The constructors that `buildDeps` calls: of the filesystem provider, of the S3 provider with the
-- threshold of a circuit breaker or without one, of the two caches, and `metadata.Open`.
pub record Openers (E S C D : Type 0) : Type 0 where
  pub local_fs_dev : String → Result E S
  pub s3 : StorageConfig → Option ℕ → Result E S
  pub disk_cache : String → ℤ → Result E C
  pub memory_cache : ℤ → Result E C
  pub metadata : String → Result E D

-- The worker that has jobs, with what they run on.
pub record Worker (S C D : Type 0) : Type 0 where
  pub store : S
  pub cache : C
  pub db : D
  pub jobs : Knobs

module _ {E S C D : Type 0} (open_ : Openers E S C D) where
  unfoldable pub build_worker_store : WorkerConfig → Result E S
  unfolding knob
  build_worker_store c =
      if str_eq c.storage.endpoint ""
      then open_.local_fs_dev "/tmp/kchat-drive-dev"
      else if c.storage_breaker.enabled
      then open_.s3 c.storage (some (knob 10 c.storage_breaker.threshold))
      else open_.s3 c.storage none

  unfoldable pub build_worker_cache : WorkerConfig → Result E C
  build_worker_cache c =
      if str_eq c.cache.kind "disk" && not (str_eq c.cache.disk_root_path "")
      then open_.disk_cache c.cache.disk_root_path c.cache.max_bytes
      else open_.memory_cache c.cache.max_bytes

  -- `New` with `buildDeps`: no jobs in development without a database, and nothing is opened then; the
  -- first error ends it.
  unfoldable pub new_worker : WorkerConfig → Result E (Option (Worker S C D))
  unfolding build_worker_store build_worker_cache build_jobs
  new_worker c = if not (str_eq c.env "production") && str_eq c.postgres_dsn "" then ok none else do
    store ← build_worker_store c
    cache ← build_worker_cache c
    db ← open_.metadata c.postgres_dsn
    ok (some (record { store = store; cache = cache; db = db; jobs = build_jobs c }))
