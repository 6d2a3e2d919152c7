-- ===== src/Tests/WorkerTests.antt =====
-- The worker's jobs at concrete inputs.
use kdrive.Common.{
  ℕ, suc, ◌+◌, ◌≤◌, ◌≡◌, refl, ap, String, List, [], ◌∷◌, length, some, ok, All, ltℤ, pos, negsuc,
  Option, ◌≢◌, true,
}
use kdrive.Common.Dict.{lookup, ne_of_str_eq}
use kdrive.Tests.LocalTests.{counted, empty_IsValid, first}
use kdrive.Tests.CopiesTests.{one_body, same_order, waiting, before, relied, promoted}
use kdrive.Tests.ConfigTests.{old_worker, worker_file, worker_loads}
use kdrive.Config.Types.{WorkerConfig}
use kdrive.Config.Load.{migrate_worker, with_defaults}
use kdrive.Blobio.Promotion.{promote}
use kdrive.Blobio.LocalL2.{local_l2}
use kdrive.Blobio.Outcome.{IsDurable}
use kdrive.Worker.Build.{
  int64, interval, build_jobs, Openers, Worker, build_worker_cache, new_worker,
}
use kdrive.Worker.Promotion.{PromotionJob, workers, listed, promote_all, run_promotion}
use kdrive.Worker.Repair.{DurablePlacement, RepairJob, verify_checksum, run_repair}
use kdrive.Worker.Durable.{Verified, promote_all-Durable, run_promotion-counts}
use kdrive.Worker.Knobs.{IsThreshold, build_jobs-bounds, new_worker-production}
use kdrive.Worker.Scan.{local_reads, run_repair-exact, promote-verifies}

abbrev batch : List (String × ℕ)
batch = ("b", 8) ∷ ("a", 9) ∷ []

promote_all-Durable_example :
    All
      (λ r. r.1 ≡ ok tt → IsDurable (promote_all before batch).0.status r.0)
      (promote_all before batch).1
promote_all-Durable_example = promote_all-Durable before batch

abbrev in_turn : List String → List (String × ℕ)
in_turn [] = []
in_turn (k ∷ ks) = (k, 9) ∷ in_turn ks

length-in_turn : (ks : List String) → length (in_turn ks) ≡ length ks
length-in_turn [] = refl
length-in_turn (k ∷ ks) = ap suc (length-in_turn ks)

abbrev job : PromotionJob
job = record {
  batch_size = 100;
  parallelism = 4;
  promoted_total = 2;
  failed_total = 1;
  batch_count = 1;
}

abbrev keys : List String
keys = "b" ∷ "a" ∷ []

run_promotion-counts_example :
    (run_promotion in_turn job before (listed keys)).0.promoted_total
      + (run_promotion in_turn job before (listed keys)).0.failed_total
    ≡ 5
run_promotion-counts_example = run_promotion-counts in_turn job before keys length-in_turn

abbrev configured : WorkerConfig
configured = with_defaults (migrate_worker old_worker)

build_jobs-bounds_example :
    (ltℤ (pos 0) (build_jobs configured).promote_interval ≡ true)
    × (1 ≤ (build_jobs configured).promote_batch)
    × (ltℤ (pos 0) (build_jobs configured).repair_interval ≡ true)
    × (1 ≤ (build_jobs configured).repair_sample)
    × (1 ≤ (build_jobs configured).queue_depth_alert)
    × (1 ≤ workers (build_jobs configured).promote_parallelism 3)
    × (workers (build_jobs configured).promote_parallelism 3 ≤ 100)
    × (workers (build_jobs configured).promote_parallelism 3 ≤ 3)
build_jobs-bounds_example =
    build_jobs-bounds "worker.json" worker_file configured 2 worker_loads
      (unfold with_defaults migrate_worker in refl) (unfold with_defaults migrate_worker in refl)

-- One millisecond more than fits is a negative interval.
interval_wraps : interval 30000000000 (pos 9223372036855) ≡ negsuc 9223372036854551615
unfolding interval int64
interval_wraps = refl

-- The opened store is 1 for S3 and 0 for the filesystem.
abbrev openers : Openers String ℕ ℕ ℕ
openers = record {
  local_fs_dev = λ _. ok 0;
  s3 = λ _ _. ok 1;
  disk_cache = λ _ _. ok 2;
  memory_cache = λ _. ok 3;
  metadata = λ _. ok 4;
}

abbrev running : Worker ℕ ℕ ℕ
running = record { store = 1; cache = 2; db = 4; jobs = build_jobs configured }

opened_in_production : new_worker openers configured ≡ ok (some running)
unfolding new_worker with_defaults migrate_worker
opened_in_production = refl

new_worker-production_example :
    (w : Worker ℕ ℕ ℕ) × (t : Option ℕ) × (some running ≡ some w)
    × (openers.s3 configured.storage t ≡ ok w.store)
    × IsThreshold configured.storage_breaker.enabled t
    × (build_worker_cache openers configured ≡ ok w.cache)
    × (openers.metadata configured.postgres_dsn ≡ ok w.db)
    × (configured.postgres_dsn ≢ "")
    × (w.jobs ≡ build_jobs configured)
new_worker-production_example =
    new_worker-production openers "worker.json" worker_file configured (some running) worker_loads
      (unfold with_defaults migrate_worker in refl) opened_in_production

abbrev scan : RepairJob
scan = record { sample_count = 10; checked_total = 0; mismatch_total = 0; scan_count = 0 }

abbrev samples : List DurablePlacement
samples =
    record { blob_key = "a"; blob_version_id = ""; checksum_sha256 = "sss" }
    ∷ record { blob_key = "b"; blob_version_id = ""; checksum_sha256 = "s" }
    ∷ []

run_repair-exact_example :
    ((run_repair first scan (some (some samples))).checked_total ≡ 2)
    × (All (Verified first) samples
        → (run_repair first scan (some (some samples))).mismatch_total ≡ 0)
    × ((run_repair first scan (some (some samples))).mismatch_total ≡ 0
        → All (Verified first) samples)
run_repair-exact_example = run_repair-exact first scan samples

promote-verifies_example : verify_checksum (promote before "a" 9).0.store "a" "" "sss" ≡ ok tt
promote-verifies_example =
    promote-verifies before (promote before "a" 9).0 "a" waiting 9 relied empty_IsValid
      (unfold lookup in refl) refl (ne_of_str_eq "sss" "" refl) promoted
