-- ===== src/Worker/Promotion.antt =====
-- `PromotionJob.runOnce` and the queue depth of `GuardrailRollupJob.runOnce`
-- (internal/worker/jobs.go).
use kdrive.Common.{
  ℕ, suc, ◌+◌, String, ◌&&◌, if◌then◌else◌, List, [], ◌∷◌, Option, none, some, Result, ok, err, ltb,
  ℤ, pos, ltℤ,
}
use kdrive.Blobio.State.{PipelineError, CacheOps, StoreOps, Extern, Pipeline}
use kdrive.Blobio.Promotion.{promote}

pub record PromotionJob : Type 0 where
  pub batch_size : ℕ
  pub parallelism : ℕ
  pub promoted_total : ℕ
  pub failed_total : ℕ
  pub batch_count : ℕ

-- The keys of the CACHED blobs that the metadata store lists, or its error.
pub data Listing : Type 0 where
  not_configured list_failed : Listing
  listed : List String → Listing

-- The size of the pool.
unfoldable pub workers : ℕ → ℕ → ℕ
workers parallelism placements =
    let par = if ltb parallelism 1 then 1 else parallelism in
    if ltb placements par then placements else par

unfoldable pub count_failed : List (String × Result PipelineError (Unit {0})) → ℕ
count_failed [] = 0
count_failed (r ∷ rs) = let rest = count_failed rs in elim r.1 [ err e ↦ suc rest | ok _ ↦ rest ]

unfoldable pub count_promoted : List (String × Result PipelineError (Unit {0})) → ℕ
count_promoted [] = 0
count_promoted (r ∷ rs) =
    let rest = count_promoted rs in elim r.1 [ err e ↦ rest | ok _ ↦ suc rest ]

module _ {C S : Type 0} ⦃cache : CacheOps C⦄ ⦃store : StoreOps S⦄ ⦃ext : Extern⦄ where
  -- The promotions in the order in which the pool's workers finish them, each with the time that it
  -- reads.
  unfoldable pub promote_all :
      Pipeline C S
      → List (String × ℕ)
      → Pipeline C S × List (String × Result PipelineError (Unit {0}))
  promote_all p [] = (p, [])
  promote_all p (k ∷ ks) =
      let one = promote p k.0 k.1 in
      let rest = promote_all one.0 ks in (rest.0, (k.0, one.1) ∷ rest.1)

  unfoldable pub promote_listed :
      (List String → List (String × ℕ))
      → PromotionJob
      → Pipeline C S
      → List String
      → PromotionJob × Pipeline C S
  unfolding promote_all count_failed count_promoted
  promote_listed pool j p [] = (j, p)
  promote_listed pool j p (k ∷ ks) =
      let done = promote_all p (pool (k ∷ ks)) in
      (
        record j {
          promoted_total = j.promoted_total + count_promoted done.1;
          failed_total = j.failed_total + count_failed done.1;
          batch_count = j.batch_count + 1;
        },
        done.0,
      )

  unfoldable pub run_promotion :
      (List String → List (String × ℕ))
      → PromotionJob
      → Pipeline C S
      → Listing
      → PromotionJob × Pipeline C S
  unfolding promote_listed
  run_promotion pool j p not_configured = (j, p)
  run_promotion pool j p list_failed = (j, p)
  run_promotion pool j p (listed keys) = promote_listed pool j p keys

pub record RollupJob : Type 0 where
  pub queue_depth_alert : ℤ
  pub queue_depth_samples : ℕ
  pub queue_depth_alerts : ℕ

-- `count` is the status store's count: none without a status store, or its error inside.
unfoldable pub run_rollup : RollupJob → Option (Option ℤ) → RollupJob
run_rollup j none = j
run_rollup j (some none) = record j { queue_depth_samples = j.queue_depth_samples + 1 }
run_rollup j (some (some depth)) = record j {
  queue_depth_samples = j.queue_depth_samples + 1;
  queue_depth_alerts =
      if ltℤ (pos 0) j.queue_depth_alert && ltℤ j.queue_depth_alert depth
      then j.queue_depth_alerts + 1
      else j.queue_depth_alerts;
}
