-- ===== src/Config/Bounds.antt =====
-- What a worker's configuration that is loaded satisfies.
use kdrive.Common.{
  ℕ, ◌≤◌, ◌≡◌, ◌≢◌, ◌⊎◌, refl, subst, inl, inr, String, Bool, true, false, ◌||◌, if_intro, str_eq,
  eq_iff, Result, ok, err, reject, ok-injective, err-ne-ok, >>=-eq-ok, reject-eq-ok, ℤ, pos, negsuc,
  ltℤ, arith,
}
use kdrive.Common.Dict.{ne_of_str_eq}
use kdrive.Config.Types.{
  CacheConfig, WorkerConfig, CacheFault, ConfigError, max_bytes_not_positive,
  disk_root_path_required, unknown_cache_type, bad_cache,
}
use kdrive.Config.Validate.{
  wrapped, is_negative, not_positive, validate_cache, validate_production, validate_worker,
}
use kdrive.Config.Load.{dev_worker_config, migrate_worker, with_defaults, load_worker}

-- The integer is a natural number between the two.
abbrev pub Between : ℕ → ℕ → ℤ → Type 0
Between low high z = (n : ℕ) × (z ≡ pos n) × (low ≤ n) × (n ≤ high)

abbrev pub AtLeast : ℕ → ℤ → Type 0
AtLeast low z = (n : ℕ) × (z ≡ pos n) × (low ≤ n)

not_negative : (z : ℤ) → is_negative z ≡ false → AtLeast 0 z
not_negative (pos n) h = (n, refl, omega arith)
not_negative (negsuc n) h = cc

positive : (z : ℤ) → not_positive z ≡ false → AtLeast 1 z
positive (pos n) h = (n, refl, ground arith)
positive (negsuc n) h = cc

pub wrapped-ok :
    {E : Type 0} (wrap : E → ConfigError) (r : Result E (Unit {0}))
    → wrapped wrap r ≡ ok tt
    → r ≡ ok tt
wrapped-ok wrap (ok u) h = refl
wrapped-ok wrap (err e) h = absurd (err-ne-ok (wrap e) tt h)

-- A cache of a known kind and of a positive size, with a directory if it is one on disk.
pub record SoundCache (c : CacheConfig) : Type 0 where
  pub size : AtLeast 1 c.max_bytes
  pub place : ((c.kind ≡ "") ⊎ (c.kind ≡ "memory")) ⊎ ((c.kind ≡ "disk") × (c.disk_root_path ≢ ""))

pub reject-ok : {E : Type 0} (b : Bool) (e : E) → reject b e ≡ ok tt → b ≡ false
reject-ok false e h = refl
reject-ok true e h = absurd (err-ne-ok e tt h)

pub or-true : (a b : Bool) → (a || b) ≡ true → (a ≡ true) ⊎ (b ≡ true)
or-true true b h = inl refl
or-true false b h = inr h

pub validate_cache_sound : (c : CacheConfig) → validate_cache c ≡ ok tt → SoundCache c
unfolding validate_cache
validate_cache_sound c =
    let P : Result CacheFault (Unit {0}) → Type 0 = λ x. x ≡ ok tt → SoundCache c in
    if_intro P (str_eq c.kind "" || str_eq c.kind "memory") _ _
      (λ near h. record {
        size = positive c.max_bytes (reject-ok (not_positive c.max_bytes) max_bytes_not_positive h);
        place = inl (elim (or-true (str_eq c.kind "") (str_eq c.kind "memory") near) [
          | inl e ↦ inl ((eq_iff c.kind "").0 e)
          | inr e ↦ inr ((eq_iff c.kind "memory").0 e)
        ]);
      })
      (λ _.
        if_intro P (str_eq c.kind "disk") _ _
          (λ disk h.
            let rooted = reject-eq-ok (str_eq c.disk_root_path "") disk_root_path_required _ tt h in
            record {
              size =
                  positive c.max_bytes
                    (reject-ok (not_positive c.max_bytes) max_bytes_not_positive rooted.1);
              place =
                  inr ((eq_iff c.kind "disk").0 disk, ne_of_str_eq c.disk_root_path "" rooted.0);
            })
          (λ _ h. absurd (err-ne-ok unknown_cache_type tt h)))

pub record InBounds (c : WorkerConfig) : Type 0 where
  pub cache : SoundCache c.cache
  pub days : Between 1 365 c.backup_retention_days
  pub promote_interval : AtLeast 0 c.promote_interval_ms
  pub promote_batch : AtLeast 0 c.promote_batch_size
  pub parallelism : Between 0 100 c.promote_parallelism
  pub repair_interval : AtLeast 0 c.repair_interval_ms
  pub repair_sample : AtLeast 0 c.repair_sample_count
  pub queue_depth : AtLeast 0 c.queue_depth_alert
  pub threshold : AtLeast 0 c.storage_breaker.threshold

days-Between : (z : ℤ) → (ltℤ z (pos 1) || ltℤ (pos 365) z) ≡ false → Between 1 365 z
days-Between (pos n) h = (n, refl, ground arith, ground arith)
days-Between (negsuc n) h = cc

up_to_100 : (z : ℤ) → is_negative z ≡ false → ltℤ (pos 100) z ≡ false → Between 0 100 z
up_to_100 (pos n) h k = (n, refl, omega arith, ground arith)
up_to_100 (negsuc n) h k = cc

-- Every check has passed, and that for production is left.
pub validate_worker_sound :
    (c : WorkerConfig)
    → validate_worker c ≡ ok tt
    → InBounds c × (validate_production c.env c.postgres_dsn c.storage ≡ ok tt)
unfolding validate_worker
validate_worker_sound c h =
    let cache = >>=-eq-ok (wrapped bad_cache (validate_cache c.cache)) _ tt h in
    let days = reject-eq-ok _ _ _ tt cache.2 in
    let interval = reject-eq-ok _ _ _ tt days.1 in
    let batch = reject-eq-ok _ _ _ tt interval.1 in
    let low = reject-eq-ok _ _ _ tt batch.1 in
    let high = reject-eq-ok _ _ _ tt low.1 in
    let repair = reject-eq-ok _ _ _ tt high.1 in
    let sample = reject-eq-ok _ _ _ tt repair.1 in
    let depth = reject-eq-ok _ _ _ tt sample.1 in
    let breaker = reject-eq-ok _ _ _ tt depth.1 in
    (
      record {
        cache =
            validate_cache_sound c.cache (wrapped-ok bad_cache (validate_cache c.cache) cache.1);
        days = days-Between c.backup_retention_days days.0;
        promote_interval = not_negative c.promote_interval_ms interval.0;
        promote_batch = not_negative c.promote_batch_size batch.0;
        parallelism = up_to_100 c.promote_parallelism low.0 high.0;
        repair_interval = not_negative c.repair_interval_ms repair.0;
        repair_sample = not_negative c.repair_sample_count sample.0;
        queue_depth = not_negative c.queue_depth_alert depth.0;
        threshold = not_negative c.storage_breaker.threshold breaker.0;
      },
      breaker.1,
    )

dev_worker-valid : validate_worker dev_worker_config ≡ ok tt
unfolding validate_worker
dev_worker-valid = refl

-- A worker configuration that `LoadWorker` returns, the one for development included, passes
-- `validate`.
pub load_worker-valid :
    (path : String) (file : Result ConfigError WorkerConfig) (c : WorkerConfig)
    → load_worker path file ≡ ok c
    → validate_worker c ≡ ok tt
unfolding load_worker
load_worker-valid path file c =
    if_intro (λ (x : Result ConfigError WorkerConfig). x ≡ ok c → validate_worker c ≡ ok tt)
      (str_eq path "") _ _
      (λ _ h.
        subst (λ x. validate_worker x ≡ ok tt) (ok-injective dev_worker_config c h)
          dev_worker-valid)
      (λ _ h.
        let parsed = >>=-eq-ok file _ c h in
        let cfg = with_defaults (migrate_worker parsed.0) in
        let checked = >>=-eq-ok (validate_worker cfg) _ c parsed.2 in
        subst (λ x. validate_worker x ≡ ok tt) (ok-injective cfg c checked.2) checked.1)

-- In a worker configuration that `LoadWorker` returns the backup retention is 1 to 365 days, the
-- promotion parallelism 0 to 100, no interval, size, count or threshold is negative, and the cache is
-- of a known kind, has a positive size, and a directory if it is on disk.
pub load_worker-InBounds :
    (path : String) (file : Result ConfigError WorkerConfig) (c : WorkerConfig)
    → load_worker path file ≡ ok c
    → InBounds c
load_worker-InBounds path file c h = (validate_worker_sound c (load_worker-valid path file c h)).0
