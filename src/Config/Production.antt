-- ===== src/Config/Production.antt =====
-- What production has behind `LoadGateway` and `LoadWorker`.
use kdrive.Common.{
  ◌≡◌, ◌≢◌, ◌⊎◌, refl, subst, inl, inr, String, not, if_intro, if◌then◌else◌, str_eq, Result, ok,
  ok-injective, >>=-eq-ok, reject-eq-ok,
}
use kdrive.Common.Dict.{ne_of_str_eq}
use kdrive.Config.Types.{
  StorageConfig, GatewayConfig, WorkerConfig, ConfigError, Addresses, bad_cache,
  breaker_threshold_negative,
}
use kdrive.Config.Validate.{
  wrapped, is_negative, validate_addr, validate_cache, validate_production, validate_gateway,
  validate_worker,
}
use kdrive.Config.Load.{
  migrate_gateway, migrate_worker, with_defaults, load_worker, load_gateway, dev_worker_config,
  dev_gateway_config,
}
use kdrive.Config.Bounds.{validate_worker_sound}
use kdrive.Config.Migration.{Complete, validate_production_sound, migrate_storage-provider}

-- A complete storage that names one of the three providers.
abbrev pub Ready : String → StorageConfig → Type 0
Ready dsn s =
    (dsn ≢ "")
    × Complete s
    × ((s.provider ≡ "wasabi") ⊎ ((s.provider ≡ "s3") ⊎ (s.provider ≡ "b2")))

abbrev pub ReadyIn : String → String → StorageConfig → Type 0
ReadyIn env dsn s = env ≡ "production" → Ready dsn s

production-Ready :
    (env dsn : String) (s : StorageConfig)
    → (s.endpoint ≢ "" → s.provider ≢ "")
    → validate_production env dsn s ≡ ok tt
    → ReadyIn env dsn s
production-Ready env dsn s named h live =
    let sound = validate_production_sound env dsn s live h in
    (
      sound.0,
      sound.1,
      elim sound.1.provider [
        | inl none_ ↦ absurd (named sound.1.endpoint none_)
        | inr known ↦ known
      ],
    )

-- A worker configuration that `LoadWorker` returns for production names a database, and has a storage
-- with endpoint, region, bucket and both keys, of one of the three providers.
pub load_worker-Ready :
    (path : String) (file : Result ConfigError WorkerConfig) (c : WorkerConfig)
    → load_worker path file ≡ ok c
    → c.env ≡ "production"
    → Ready c.postgres_dsn c.storage
unfolding load_worker with_defaults migrate_worker
load_worker-Ready path file c =
    if_intro
      (λ (x : Result ConfigError WorkerConfig). x ≡ ok c → ReadyIn c.env c.postgres_dsn c.storage)
      (str_eq path "") _ _
      (λ _ h.
        subst (λ (x : WorkerConfig). ReadyIn x.env x.postgres_dsn x.storage)
          (ok-injective dev_worker_config c h)
          (λ live. absurd (ne_of_str_eq "dev" "production" refl live)))
      (λ _ h.
        let parsed = >>=-eq-ok file _ c h in
        let cfg = with_defaults (migrate_worker parsed.0) in
        let checked = >>=-eq-ok (validate_worker cfg) _ c parsed.2 in
        subst (λ (x : WorkerConfig). ReadyIn x.env x.postgres_dsn x.storage)
          (ok-injective cfg c checked.2)
          (production-Ready cfg.env cfg.postgres_dsn cfg.storage
            (migrate_storage-provider parsed.0.storage parsed.0.wasabi)
            (validate_worker_sound cfg checked.1).1))

validate_gateway-production :
    ⦃net : Addresses⦄ (c : GatewayConfig)
    → validate_gateway c ≡ ok tt
    → validate_production c.env c.postgres_dsn c.storage ≡ ok tt
unfolding validate_gateway
validate_gateway-production ⦃net⦄ c h =
    let addr =
      >>=-eq-ok (if not (str_eq c.http_addr "") then validate_addr c.http_addr else ok tt) _ tt h in
    let cache = >>=-eq-ok (wrapped bad_cache (validate_cache c.cache)) _ tt addr.2 in
    (reject-eq-ok (is_negative c.storage_breaker.threshold) breaker_threshold_negative _ tt
      cache.2).1

-- A gateway configuration that `LoadGateway` returns for production names a database, and has a
-- storage with endpoint, region, bucket and both keys, of one of the three providers.
pub load_gateway-Ready :
    ⦃net : Addresses⦄ (path : String) (file : Result ConfigError GatewayConfig) (c : GatewayConfig)
    → load_gateway path file ≡ ok c
    → c.env ≡ "production"
    → Ready c.postgres_dsn c.storage
unfolding load_gateway migrate_gateway
load_gateway-Ready ⦃net⦄ path file c =
    if_intro
      (λ (x : Result ConfigError GatewayConfig). x ≡ ok c → ReadyIn c.env c.postgres_dsn c.storage)
      (str_eq path "") _ _
      (λ _ h.
        subst (λ (x : GatewayConfig). ReadyIn x.env x.postgres_dsn x.storage)
          (ok-injective dev_gateway_config c h)
          (λ live. absurd (ne_of_str_eq "dev" "production" refl live)))
      (λ _ h.
        let parsed = >>=-eq-ok file _ c h in
        let cfg = migrate_gateway parsed.0 in
        let checked = >>=-eq-ok (validate_gateway cfg) _ c parsed.2 in
        subst (λ (x : GatewayConfig). ReadyIn x.env x.postgres_dsn x.storage)
          (ok-injective cfg c checked.2)
          (production-Ready cfg.env cfg.postgres_dsn cfg.storage
            (migrate_storage-provider parsed.0.storage parsed.0.wasabi)
            (validate_gateway-production cfg checked.1)))
