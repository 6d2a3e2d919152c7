-- ===== src/Config/Types.antt =====
-- The configuration structs. A Go `int` or `int64` is an integer.
use kdrive.Common.{String, Bool, Option, ℤ}

pub record StorageConfig : Type 0 where
  pub provider : String
  pub endpoint : String
  pub region : String
  pub bucket : String
  pub access_key : String
  pub secret_key : String
  pub use_path_style : Bool

pub record WasabiConfig : Type 0 where
  pub endpoint : String
  pub region : String
  pub bucket : String
  pub access_key : String
  pub secret_key : String
  pub use_path_style : Bool

pub record CacheConfig : Type 0 where
  pub kind : String
  pub disk_root_path : String
  pub max_bytes : ℤ

-- `StorageCircuitBreakerEnabled` and `Threshold`, or the deprecated pair.
pub record BreakerConfig : Type 0 where
  pub enabled : Bool
  pub threshold : ℤ

pub record GatewayConfig : Type 0 where
  pub env : String
  pub http_addr : String
  pub postgres_dsn : String
  pub storage : StorageConfig
  pub wasabi : WasabiConfig
  pub cache : CacheConfig
  pub storage_breaker : BreakerConfig
  pub wasabi_breaker : BreakerConfig

pub record WorkerConfig : Type 0 where
  pub env : String
  pub postgres_dsn : String
  pub storage : StorageConfig
  pub wasabi : WasabiConfig
  pub cache : CacheConfig
  pub backup_cron : String
  pub backup_retention_days : ℤ
  pub promote_interval_ms : ℤ
  pub promote_batch_size : ℤ
  pub promote_parallelism : ℤ
  pub repair_interval_ms : ℤ
  pub repair_sample_count : ℤ
  pub queue_depth_alert : ℤ
  pub storage_breaker : BreakerConfig
  pub wasabi_breaker : BreakerConfig

-- One constructor for each message, the wrapped error as the argument.
pub data CacheFault : Type 0 where
  max_bytes_not_positive disk_root_path_required unknown_cache_type : CacheFault

pub data StorageFault : Type 0 where
  endpoint_required region_required bucket_required access_key_required : StorageFault
  secret_key_required unknown_provider : StorageFault

pub data ConfigError : Type 0 where
  read_failed parse_failed bad_address missing_port postgres_dsn_required : ConfigError
  retention_days_range promote_interval_negative promote_batch_negative : ConfigError
  promote_parallelism_negative promote_parallelism_large repair_interval_negative : ConfigError
  repair_sample_negative queue_depth_negative breaker_threshold_negative : ConfigError
  bad_cache : CacheFault → ConfigError
  bad_storage : StorageFault → ConfigError

-- The port that `net.SplitHostPort` finds, none on its error.
pub record Addresses : Type 0 where
  pub split_port : String → Option String
