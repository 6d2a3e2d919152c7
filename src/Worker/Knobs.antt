-- ===== src/Worker/Knobs.antt =====
-- What a worker runs with.
use kdrive.Common.{
  ℕ, suc, ◌≤◌, ◌≡◌, refl, String, if_intro, some, Result, ok, ℤ, pos, negsuc, ltb, arith, ◌<◌, ◌*◌,
  ◌%◌, Bool, true, false, Option, none, ltℤ, lt→ltb, ltb→lt, >>=-eq-ok, ok-injective, sym, ◌≢◌,
  if◌then◌else◌, str_eq,
}
use kdrive.Common.Dict.{str_ne}
use kdrive.Config.Types.{WorkerConfig, ConfigError}
use kdrive.Config.Load.{load_worker}
use kdrive.Config.Bounds.{load_worker-InBounds}
use kdrive.Config.Production.{load_worker-Ready}
use kdrive.Worker.Build.{
  knob, int64, interval, build_jobs, Openers, Worker, build_worker_store, build_worker_cache,
  new_worker,
}
use kdrive.Worker.Promotion.{workers}

knob-positive : (default : ℕ) (z : ℤ) → 1 ≤ default → 1 ≤ knob default z
unfolding knob
knob-positive default (pos n) le = ground arith
knob-positive default (negsuc n) le = le

knob-le :
    (default bound : ℕ) (z : ℤ) (n : ℕ)
    → default ≤ bound
    → z ≡ pos n
    → n ≤ bound
    → knob default z ≤ bound
unfolding knob
knob-le default bound z n le same small =
    rw same (if_intro (λ x. x ≤ bound) (ltb 0 n) n default (λ _. small) (λ _. le))

workers-bounds :
    (par n bound : ℕ)
    → 1 ≤ par
    → par ≤ bound
    → (1 ≤ workers par (suc n)) × (workers par (suc n) ≤ bound) × (workers par (suc n) ≤ suc n)
unfolding workers
workers-bounds par n bound low high = (ground arith, ground arith, ground arith)

int64-small : (n : ℕ) → n < 9223372036854775808 → int64 n ≡ pos n
unfolding int64
int64-small n small =
    let low : n % 18446744073709551616 ≡ n = omega arith in
    rw (low, lt→ltb n 9223372036854775808 small) refl

-- Milliseconds that fit into an `int64` of nanoseconds.
interval-positive :
    (default : ℕ) (z : ℤ)
    → 1 ≤ default
    → ltℤ z (pos 9223372036855) ≡ true
    → ltℤ (pos 0) (interval default z) ≡ true
unfolding interval
interval-positive default (negsuc n) le fits = lt→ltb 0 default le
interval-positive default (pos n) le fits =
    if_intro (λ (x : ℤ). ltℤ (pos 0) x ≡ true) (ltb 0 n) _ _
      (λ positive.
        let up = ltb→lt 0 n positive in
        let down = ltb→lt n 9223372036855 fits in
        let same = int64-small (n * 1000000) (omega (arith, down)) in
        rw same (lt→ltb 0 (n * 1000000) (omega (arith, up))))
      (λ _. lt→ltb 0 default le)

-- With a configuration that `LoadWorker` returns, whose intervals are at most 9223372036854
-- milliseconds, what an int64 of nanoseconds holds: the intervals that the jobs get, the
-- batch size, the sample size and the queue depth alert are positive, and a batch that is not empty
-- is promoted by 1 to 100 workers, no more than it has blobs.
pub build_jobs-bounds :
    (path : String) (file : Result ConfigError WorkerConfig) (c : WorkerConfig) (n : ℕ)
    → load_worker path file ≡ ok c
    → ltℤ c.promote_interval_ms (pos 9223372036855) ≡ true
    → ltℤ c.repair_interval_ms (pos 9223372036855) ≡ true
    → (ltℤ (pos 0) (build_jobs c).promote_interval ≡ true)
      × (1 ≤ (build_jobs c).promote_batch)
      × (ltℤ (pos 0) (build_jobs c).repair_interval ≡ true)
      × (1 ≤ (build_jobs c).repair_sample)
      × (1 ≤ (build_jobs c).queue_depth_alert)
      × (1 ≤ workers (build_jobs c).promote_parallelism (suc n))
      × (workers (build_jobs c).promote_parallelism (suc n) ≤ 100)
      × (workers (build_jobs c).promote_parallelism (suc n) ≤ suc n)
unfolding build_jobs
build_jobs-bounds path file c n h promote repair =
    let par = (load_worker-InBounds path file c h).parallelism in
    let pool =
      workers-bounds (knob 4 c.promote_parallelism) n 100
        (knob-positive 4 c.promote_parallelism (omega arith))
        (knob-le 4 100 c.promote_parallelism par.0 (omega arith) par.1 par.3) in
    (
      interval-positive 30000000000 c.promote_interval_ms (omega arith) promote,
      knob-positive 100 c.promote_batch_size (omega arith),
      interval-positive 300000000000 c.repair_interval_ms (omega arith) repair,
      knob-positive 10 c.repair_sample_count (omega arith),
      knob-positive 1000 c.queue_depth_alert (omega arith),
      pool.0,
      pool.1,
      pool.2,
    )

-- The threshold that a breaker of the configuration is given: a positive one when it is enabled.
abbrev pub IsThreshold : Bool → Option ℕ → Type 0
IsThreshold false t = t ≡ none
IsThreshold true t = (n : ℕ) × (t ≡ some n) × (1 ≤ n)

module _ {E S C D : Type 0} (open_ : Openers E S C D) where
  store-s3 :
      (c : WorkerConfig) (store : S)
      → str_eq c.storage.endpoint "" ≡ false
      → build_worker_store open_ c ≡ ok store
      → (t : Option ℕ) × IsThreshold c.storage_breaker.enabled t × (open_.s3 c.storage t ≡ ok store)
  unfolding build_worker_store
  store-s3 c store far h = go c.storage_breaker.enabled (rw far at h)
    where
      go :
          (on : Bool)
          → (if on
              then open_.s3 c.storage (some (knob 10 c.storage_breaker.threshold))
              else open_.s3 c.storage none)
            ≡ ok store
          → (t : Option ℕ) × IsThreshold on t × (open_.s3 c.storage t ≡ ok store)
      go true made = (
        some (knob 10 c.storage_breaker.threshold),
        (
          knob 10 c.storage_breaker.threshold,
          refl,
          knob-positive 10 c.storage_breaker.threshold (omega arith),
        ),
        made,
      )
      go false made = (none, refl, made)

  -- With a configuration for production that LoadWorker returns: when `New` succeeds it has built the
  -- jobs, and they run on what the S3 constructor returned for the configured storage, never on the
  -- filesystem provider of development, with a circuit breaker of a positive threshold exactly when it
  -- is enabled; and on the cache and on the database of the configured name, both opened without an
  -- error.
  pub new_worker-production :
      (path : String) (file : Result ConfigError WorkerConfig) (c : WorkerConfig)
      (built : Option (Worker S C D))
      → load_worker path file ≡ ok c
      → c.env ≡ "production"
      → new_worker open_ c ≡ ok built
      → (w : Worker S C D) × (t : Option ℕ) × (built ≡ some w)
        × (open_.s3 c.storage t ≡ ok w.store)
        × IsThreshold c.storage_breaker.enabled t
        × (build_worker_cache open_ c ≡ ok w.cache)
        × (open_.metadata c.postgres_dsn ≡ ok w.db)
        × (c.postgres_dsn ≢ "")
        × (w.jobs ≡ build_jobs c)
  unfolding new_worker
  new_worker-production path file c built h live made =
      let ready = load_worker-Ready path file c h live in
      let far = str_ne c.storage.endpoint "" ready.1.endpoint in
      let (store, stored, h1) = >>=-eq-ok (build_worker_store open_ c) _ built (rw live at made) in
      let (cache, cached, h2) = >>=-eq-ok (build_worker_cache open_ c) _ built h1 in
      let (db, opened, h3) = >>=-eq-ok (open_.metadata c.postgres_dsn) _ built h2 in
      let s3 = store-s3 c store far stored in
      (
        record { store = store; cache = cache; db = db; jobs = build_jobs c },
        s3.0,
        sym (ok-injective _ built h3),
        s3.2,
        s3.1,
        cached,
        opened,
        ready.0,
        refl,
      )
