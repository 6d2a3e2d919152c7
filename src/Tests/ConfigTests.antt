-- ===== src/Tests/ConfigTests.antt =====
-- Configurations in the deprecated style, for production.
use kdrive.Common.{◌≡◌, refl, true, some, Result, ok, pos}
use kdrive.Config.Types.{
  WasabiConfig, BreakerConfig, CacheConfig, GatewayConfig, WorkerConfig, ConfigError, Addresses,
}
use kdrive.Config.Validate.{validate_worker}
use kdrive.Config.Load.{
  no_storage, no_breaker, migrate_gateway, migrate_worker, with_defaults, load_worker, load_gateway,
}
use kdrive.Config.Bounds.{InBounds, load_worker-valid, load_worker-InBounds}
use kdrive.Config.Production.{Ready, load_worker-Ready, load_gateway-Ready}

-- Every address has the port 80.
instance abbrev one_port : Addresses
one_port = record { split_port = λ addr. some "80" }

abbrev bucket : WasabiConfig
bucket = record {
  endpoint = "https://s3.wasabisys.com";
  region = "eu-1";
  bucket = "b";
  access_key = "k";
  secret_key = "s";
  use_path_style = true;
}

abbrev on_disk : CacheConfig
on_disk = record { kind = "disk"; disk_root_path = "/cache"; max_bytes = pos 4096 }

abbrev trips_at_5 : BreakerConfig
trips_at_5 = record { enabled = true; threshold = pos 5 }

abbrev pub old_worker : WorkerConfig
old_worker = record {
  env = "production";
  postgres_dsn = "postgres://db";
  storage = no_storage;
  wasabi = bucket;
  cache = on_disk;
  backup_cron = "";
  backup_retention_days = pos 0;
  promote_interval_ms = pos 0;
  promote_batch_size = pos 0;
  promote_parallelism = pos 8;
  repair_interval_ms = pos 0;
  repair_sample_count = pos 0;
  queue_depth_alert = pos 0;
  storage_breaker = no_breaker;
  wasabi_breaker = trips_at_5;
}

abbrev old_gateway : GatewayConfig
old_gateway = record {
  env = "production";
  http_addr = ":80";
  postgres_dsn = "postgres://db";
  storage = no_storage;
  wasabi = bucket;
  cache = on_disk;
  storage_breaker = no_breaker;
  wasabi_breaker = trips_at_5;
}

abbrev pub worker_file : Result ConfigError WorkerConfig
worker_file = ok old_worker

abbrev gateway_file : Result ConfigError GatewayConfig
gateway_file = ok old_gateway

pub worker_loads :
    load_worker "worker.json" worker_file ≡ ok (with_defaults (migrate_worker old_worker))
unfolding load_worker
worker_loads = refl

gateway_loads : load_gateway "gateway.json" gateway_file ≡ ok (migrate_gateway old_gateway)
unfolding load_gateway
gateway_loads = refl

load_worker-valid_example : validate_worker (with_defaults (migrate_worker old_worker)) ≡ ok tt
load_worker-valid_example =
    load_worker-valid "worker.json" worker_file (with_defaults (migrate_worker old_worker))
      worker_loads

load_worker-InBounds_example : InBounds (with_defaults (migrate_worker old_worker))
load_worker-InBounds_example =
    load_worker-InBounds "worker.json" worker_file (with_defaults (migrate_worker old_worker))
      worker_loads

load_worker-Ready_example :
    Ready
      (with_defaults (migrate_worker old_worker)).postgres_dsn
      (with_defaults (migrate_worker old_worker)).storage
load_worker-Ready_example =
    load_worker-Ready "worker.json" worker_file (with_defaults (migrate_worker old_worker))
      worker_loads (unfold with_defaults migrate_worker in refl)

load_gateway-Ready_example :
    Ready (migrate_gateway old_gateway).postgres_dsn (migrate_gateway old_gateway).storage
load_gateway-Ready_example =
    load_gateway-Ready "gateway.json" gateway_file (migrate_gateway old_gateway) gateway_loads
      (unfold migrate_gateway in refl)
