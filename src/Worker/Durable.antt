-- ===== src/Worker/Durable.antt =====
-- What a batch of promotions leaves, and what a repair scan tells.
use kdrive.Common.{
  ℕ, suc, ◌+◌, ◌≡◌, refl, sym, ap, subst, ◌∙◌, inl, inr, String, false, not, str_eq, Bool-cases,
  eq_iff, List, [], ◌∷◌, Result, ok, err, err-ne-ok, Result_ok, reject, reject-eq-ok, ◌>>◌, length,
  All, Reader, arith,
}
use kdrive.Common.Dict.{ne_of_str_eq, str_eq_refl}
use kdrive.BlobStore.{StoreError, ObjectMeta}
use kdrive.Blobio.State.{PipelineError, CacheOps, StoreOps, Extern, Pipeline}
use kdrive.Blobio.Promotion.{promote}
use kdrive.Blobio.Outcome.{IsDurable, promote-Outcome}
use kdrive.Worker.Promotion.{
  PromotionJob, listed, count_failed, count_promoted, promote_all, promote_listed, run_promotion,
}
use kdrive.Worker.Repair.{
  VersionedReads, DurablePlacement, RepairError, repair_get, repair_read, repair_mismatch,
  verify_checksum,
}

counts-add :
    (rs : List (String × Result PipelineError (Unit {0})))
    → count_promoted rs + count_failed rs ≡ length rs
unfolding count_promoted count_failed
counts-add [] = refl
counts-add ((k, ok u) ∷ rs) = omega (arith, counts-add rs)
counts-add ((k, err e) ∷ rs) = omega (arith, counts-add rs)

module _ {C S : Type 0} ⦃cache : CacheOps C⦄ ⦃store : StoreOps S⦄ ⦃ext : Extern⦄ where
  -- A durable blob stays durable in a promotion of any blob.
  promote-keeps :
      (p : Pipeline C S) (k id : String) (now : ℕ)
      → IsDurable p.status id
      → IsDurable (promote p k now).0.status id
  promote-keeps p k id now d =
      let end = promote-Outcome p k now in
      elim (Bool-cases (str_eq k id)) [
        | inl same ↦ by_result (promote p k now).1 refl ((eq_iff k id).0 same)
        | inr other ↦ let kept = end.others id (ne_of_str_eq k id other) in (d.0, kept ∙ d.1, d.2)
      ]
    where
      by_result :
          (r : Result PipelineError (Unit {0}))
          → (promote p k now).1 ≡ r
          → k ≡ id
          → IsDurable (promote p k now).0.status id
      by_result (ok u) at same =
          subst (λ x. IsDurable (promote p k now).0.status x) same
            ((promote-Outcome p k now).succeeds at)
      by_result (err e) at same =
          subst (λ m. IsDurable m id) (sym ((promote-Outcome p k now).fails e at)) d

  promote_all-keeps :
      (p : Pipeline C S) (ks : List (String × ℕ)) (id : String)
      → IsDurable p.status id
      → IsDurable (promote_all p ks).0.status id
  unfolding promote_all
  promote_all-keeps p [] id d = d
  promote_all-keeps p (k ∷ ks) id d =
      promote_all-keeps (promote p k.0 k.1).0 ks id (promote-keeps p k.0 id k.1 d)

  -- The blobs of a batch whose promotion succeeded are all durable when the batch is done, in
  -- whatever order the pool took them and however the others ended.
  pub promote_all-Durable :
      (p : Pipeline C S) (ks : List (String × ℕ))
      → All (λ r. r.1 ≡ ok tt → IsDurable (promote_all p ks).0.status r.0) (promote_all p ks).1
  unfolding promote_all
  promote_all-Durable p [] = tt
  promote_all-Durable p (k ∷ ks) =
      let one = promote p k.0 k.1 in
      (
        λ good. promote_all-keeps one.0 ks k.0 ((promote-Outcome p k.0 k.1).succeeds good),
        promote_all-Durable one.0 ks,
      )

  promote_all-length :
      (p : Pipeline C S) (ks : List (String × ℕ)) → length (promote_all p ks).1 ≡ length ks
  unfolding promote_all
  promote_all-length p [] = refl
  promote_all-length p (k ∷ ks) = ap suc (promote_all-length (promote p k.0 k.1).0 ks)

  -- A run over the blobs that are listed counts every one of them once, as promoted or as failed, if
  -- the pool takes each once.
  pub run_promotion-counts :
      (pool : List String → List (String × ℕ)) (j : PromotionJob) (p : Pipeline C S)
      (keys : List String)
      → ((ks : List String) → length (pool ks) ≡ length ks)
      → (run_promotion pool j p (listed keys)).0.promoted_total
          + (run_promotion pool j p (listed keys)).0.failed_total
        ≡ j.promoted_total + j.failed_total + length keys
  unfolding run_promotion promote_listed
  run_promotion-counts pool j p [] each = omega arith
  run_promotion-counts pool j p (k ∷ ks) each =
      let done = promote_all p (pool (k ∷ ks)) in
      let sum = counts-add done.1 in
      let all_ = promote_all-length p (pool (k ∷ ks)) in
      let taken = each (k ∷ ks) in omega (arith, sum, all_, taken)

module _ {S : Type 0} ⦃reads : VersionedReads S⦄ ⦃ext : Extern⦄ where
  -- The store delivers the whole version, with the SHA-256.
  abbrev pub Verified : S → DurablePlacement → Type 0
  Verified s d =
      (r : Reader) × (meta : ObjectMeta) × (reads.get s
          (record { key = d.blob_key; version_id = d.blob_version_id })
        ≡ ok (r, meta))
      × (r.fails ≡ false)
      × (ext.sha256_hex r.bytes ≡ d.checksum_sha256)

  pub verify_checksum_sound :
      (s : S) (d : DurablePlacement)
      → verify_checksum s d.blob_key d.blob_version_id d.checksum_sha256 ≡ ok tt
      → Verified s d
  unfolding verify_checksum
  verify_checksum_sound s d =
      go (reads.get s (record { key = d.blob_key; version_id = d.blob_version_id })) refl
    where
      go :
          (x : Result StoreError (Reader × ObjectMeta))
          → reads.get s (record { key = d.blob_key; version_id = d.blob_version_id }) ≡ x
          → (elim x as (λ _. Result RepairError (Unit {0})) [
            | err e ↦ err (repair_get e)
            | ok got ↦
                reject got.0.fails repair_read
                >> reject
                    (not (str_eq (ext.sha256_hex got.0.bytes) d.checksum_sha256))
                    repair_mismatch
          ])
            ≡ ok tt
          → Verified s d
      go (err e) at h = absurd (err-ne-ok (repair_get e) tt h)
      go (ok got) at h =
          let whole = reject-eq-ok got.0.fails repair_read _ tt h in
          elim (Bool-cases (str_eq (ext.sha256_hex got.0.bytes) d.checksum_sha256)) [
            | inl same ↦ (
              got.0,
              got.1,
              at,
              whole.0,
              (eq_iff (ext.sha256_hex got.0.bytes) d.checksum_sha256).0 same,
            )
            | inr other ↦ absurd (err-ne-ok repair_mismatch tt (rw other at whole.1))
          ]

  pub verify_checksum_complete :
      (s : S) (d : DurablePlacement)
      → Verified s d
      → verify_checksum s d.blob_key d.blob_version_id d.checksum_sha256 ≡ ok tt
  unfolding verify_checksum
  verify_checksum_complete s d v =
      Result_ok (reads.get s (record { key = d.blob_key; version_id = d.blob_version_id })) _ _
        (v.0, v.1) v.2
      ∙ rw (v.3, v.4, str_eq_refl d.checksum_sha256) refl
