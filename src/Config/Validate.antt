-- ===== src/Config/Validate.antt =====
-- The `validate` methods.
use kdrive.Common.{
  String, Bool, not, ◌||◌, if◌then◌else◌, str_eq, none, some, Result, ok, err, reject, ◌>>◌, ℤ, pos,
  ltℤ,
}
use kdrive.Common.Text.{has_prefix}
use kdrive.Config.Types.{
  StorageConfig, CacheConfig, GatewayConfig, WorkerConfig, CacheFault, StorageFault, ConfigError,
  Addresses, max_bytes_not_positive, disk_root_path_required, unknown_cache_type, endpoint_required,
  region_required, bucket_required, access_key_required, secret_key_required, unknown_provider,
  bad_address, missing_port, postgres_dsn_required, retention_days_range, promote_interval_negative,
  promote_batch_negative, promote_parallelism_negative, promote_parallelism_large,
  repair_interval_negative, repair_sample_negative, queue_depth_negative,
  breaker_threshold_negative, bad_cache, bad_storage,
}

-- `fmt.Errorf("config: ...: %w", err)`
abbrev pub wrapped :
    {E : Type 0} → (E → ConfigError) → Result E (Unit {0}) → Result ConfigError (Unit {0})
wrapped wrap (ok u) = ok tt
wrapped wrap (err e) = err (wrap e)

abbrev pub is_negative : ℤ → Bool
is_negative n = ltℤ n (pos 0)

abbrev pub not_positive : ℤ → Bool
not_positive n = not (ltℤ (pos 0) n)

unfoldable pub validate_cache : CacheConfig → Result CacheFault (Unit {0})
validate_cache c =
    if str_eq c.kind "" || str_eq c.kind "memory"
    then reject (not_positive c.max_bytes) max_bytes_not_positive
    else if str_eq c.kind "disk"
    then reject (str_eq c.disk_root_path "") disk_root_path_required
      >> reject (not_positive c.max_bytes) max_bytes_not_positive
    else err unknown_cache_type

abbrev pub known_provider : String → Bool
known_provider p = str_eq p "" || (str_eq p "wasabi" || (str_eq p "s3" || str_eq p "b2"))

unfoldable pub validate_storage : StorageConfig → Result StorageFault (Unit {0})
validate_storage s =
    reject (str_eq s.endpoint "") endpoint_required
    >> (reject (str_eq s.region "") region_required
        >> (reject (str_eq s.bucket "") bucket_required
            >> (reject (str_eq s.access_key "") access_key_required
                >> (reject (str_eq s.secret_key "") secret_key_required
                    >> reject (not (known_provider s.provider)) unknown_provider))))

-- What production needs.
unfoldable pub validate_production : String → String → StorageConfig → Result ConfigError (Unit {0})
unfolding validate_storage
validate_production env dsn storage =
    if str_eq env "production"
    then reject (str_eq dsn "") postgres_dsn_required
      >> wrapped bad_storage (validate_storage storage)
    else ok tt

unfoldable pub validate_worker : WorkerConfig → Result ConfigError (Unit {0})
unfolding validate_cache validate_production
validate_worker c =
    wrapped bad_cache (validate_cache c.cache)
    >> (reject (ltℤ c.backup_retention_days (pos 1) || ltℤ (pos 365) c.backup_retention_days)
          retention_days_range
        >> (reject (is_negative c.promote_interval_ms) promote_interval_negative
            >> (reject (is_negative c.promote_batch_size) promote_batch_negative
                >> (reject (is_negative c.promote_parallelism) promote_parallelism_negative
                    >> (reject (ltℤ (pos 100) c.promote_parallelism) promote_parallelism_large
                        >> (reject (is_negative c.repair_interval_ms) repair_interval_negative
                            >> (reject (is_negative c.repair_sample_count) repair_sample_negative
                                >> (reject (is_negative c.queue_depth_alert) queue_depth_negative
                                    >> (reject (is_negative c.storage_breaker.threshold)
                                          breaker_threshold_negative
                                        >> validate_production c.env c.postgres_dsn
                                            c.storage)))))))))

module _ ⦃net : Addresses⦄ where
  unfoldable pub validate_addr : String → Result ConfigError (Unit {0})
  unfolding has_prefix
  validate_addr addr = if has_prefix addr "unix:" then ok tt else elim (net.split_port addr) [
    | none ↦ err bad_address
    | some port ↦ reject (str_eq port "") missing_port
  ]

  unfoldable pub validate_gateway : GatewayConfig → Result ConfigError (Unit {0})
  unfolding validate_addr validate_cache validate_production
  validate_gateway c =
      (if not (str_eq c.http_addr "") then validate_addr c.http_addr else ok tt)
      >> (wrapped bad_cache (validate_cache c.cache)
          >> (reject (is_negative c.storage_breaker.threshold) breaker_threshold_negative
              >> validate_production c.env c.postgres_dsn c.storage))
