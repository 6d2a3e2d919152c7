-- ===== src/Blobio/Promoted.antt =====
-- What `Promote` leaves in the filesystem provider, on every path.
use kdrive.Common.{
  ℕ, ◌+◌, ◌≡◌, ◌≢◌, refl, sym, ◌∙◌, ap, subst, ltb, if_intro, List, some, String, within, Result,
  ok, err, err-ne-ok, Result_intro, Reader,
}
use kdrive.Common.Dict.{lookup}
use kdrive.BlobStore.{PutResult}
use kdrive.Local.State.{Provider, LocalEnv}
use kdrive.Local.Validity.{IsValid}
use kdrive.Local.Fresh.{LocalLaws}
use kdrive.Blobio.State.{
  cached, CommitState, BlobStatus, PipelineError, promote_cache_get, CacheOps, Extern, Pipeline,
}
use kdrive.Blobio.Parts.{promote_multipart_threshold}
use kdrive.Blobio.Promotion.{
  check_already_durable, upload_blob, fail_promote, finish_promote, promote_body, promote_cached,
  promote_known, promote,
}
use kdrive.Blobio.LocalL2.{local_l2}
use kdrive.Common.Reorders.{Reorders}
use kdrive.Blobio.Copies.{HasCopy, single-HasCopy, check-HasCopy}
use kdrive.Blobio.LargeCopies.{multipart-HasCopy}

-- What is relied on: time does not go back, version ids differ, SHA-256 is one function on both sides
-- and never empty, and the workers finish every part once, in any order.
pub record Relied (env : LocalEnv) (ext : Extern) : Type 0 where
  pub laws : LocalLaws env
  pub named : (b : List ℕ) → env.sha256_hex b ≢ ""
  pub same : (b : List ℕ) → ext.sha256_hex b ≡ env.sha256_hex b
  pub orders : (jobs : List (ℕ × List ℕ)) → Reorders jobs (ext.schedule jobs)

module _ ⦃env : LocalEnv⦄ where
  upload_blob-HasCopy :
      ⦃ext : Extern⦄ (s s' : Provider) (id : String) (r : Reader) (st : BlobStatus)
      (res : PutResult)
      → Relied env ext
      → IsValid s
      → st.checksum_sha256 ≢ ""
      → upload_blob s id r st ≡ (s', ok res)
      → HasCopy s' id st.checksum_sha256
  unfolding upload_blob
  upload_blob-HasCopy ⦃ext⦄ s s' id r st res rely valid given =
      if_intro
        (λ (x : Provider × Result PipelineError PutResult).
          x ≡ (s', ok res) → HasCopy s' id st.checksum_sha256)
        (ltb promote_multipart_threshold st.size) _ _
        (λ _. multipart-HasCopy s s' id r st res rely.laws rely.same rely.orders valid)
        (λ _. single-HasCopy s s' id r st res rely.laws valid given)

  module _ {C : Type 0} ⦃cache : CacheOps C⦄ ⦃ext : Extern⦄ where
    body-HasCopy :
        (p q : Pipeline C Provider) (id : String) (st : BlobStatus) (r : Reader) (now : ℕ)
        → Relied env ext
        → IsValid p.store
        → st.checksum_sha256 ≢ ""
        → promote_body p id st r now ≡ (q, ok tt)
        → HasCopy q.store id st.checksum_sha256
    unfolding promote_body finish_promote
    body-HasCopy p q id st r now rely valid given h = go (upload_blob p.store id r st) refl h
      where
        go :
            (x : Provider × Result PipelineError PutResult)
            → upload_blob p.store id r st ≡ x
            → (elim x.1 as (λ _. Pipeline C Provider × Result PipelineError (Unit {0})) [
              | err e ↦ fail_promote (record p { store = x.0 }) e
              | ok res ↦ finish_promote (record p { store = x.0 }) id st res now
            ])
              ≡ (q, ok tt)
            → HasCopy q.store id st.checksum_sha256
        go (s', err e) at h = absurd (err-ne-ok e tt (ap (λ x. x.1) h))
        go (s', ok res) at h =
            subst (λ (x : Provider). HasCopy x id st.checksum_sha256) (ap (λ x. x.0.store) h)
              (upload_blob-HasCopy p.store s' id r st res rely valid given at)

    cached-HasCopy :
        (p q : Pipeline C Provider) (id : String) (st : BlobStatus) (now : ℕ)
        → Relied env ext
        → IsValid p.store
        → st.checksum_sha256 ≢ ""
        → promote_cached p id st now ≡ (q, ok tt)
        → HasCopy q.store id st.checksum_sha256
    unfolding promote_cached
    cached-HasCopy p q id st now rely valid given =
        let Out = Pipeline C Provider × Result PipelineError (Unit {0}) in
        let P : Out → Type 0 = λ x. x ≡ (q, ok tt) → HasCopy q.store id st.checksum_sha256 in
        if_intro P (check_already_durable p.store id st) _ _
          (λ there h.
            subst (λ (x : Provider). HasCopy x id st.checksum_sha256) (ap (λ x. x.0.store) h)
              (check-HasCopy p.store id st rely.named valid given there))
          (λ _.
            Result_intro P (cache.get p.cache id now).1 _ _
              (λ e h. absurd (err-ne-ok (promote_cache_get e) tt (ap (λ x. x.1) h)))
              (λ hit h.
                body-HasCopy (record p { cache = (cache.get p.cache id now).0 }) q id st hit.0 now
                  rely valid given h))

    known-HasCopy :
        (c : CommitState) (p q : Pipeline C Provider) (id : String) (st : BlobStatus) (now : ℕ)
        → c ≡ cached
        → promote_known c p id st now ≡ (q, ok tt)
        → promote_cached p id st now ≡ (q, ok tt)
    unfolding promote_known
    known-HasCopy c p q id st now at h = rw at at h

    -- Over the filesystem provider, with any cache: when `Promote` of a cached blob succeeds, by one
    -- `Put`, as a multipart upload whose parts finish in any order, or because the object is there, the
    -- provider's latest version of the blob is a body whose SHA-256 is the one that the blob's status
    -- recorded. The status has a checksum, SHA-256 is never empty, time does not go back and version
    -- ids differ.
    pub promote-HasCopy :
        (p q : Pipeline C Provider) (id : String) (st : BlobStatus) (now : ℕ)
        → Relied env ext
        → IsValid p.store
        → lookup id p.status ≡ some st
        → st.commit_state ≡ cached
        → st.checksum_sha256 ≢ ""
        → promote p id now ≡ (q, ok tt)
        → HasCopy q.store id st.checksum_sha256
    unfolding promote
    promote-HasCopy p q id st now rely valid found waits given h =
        let p' : Pipeline C Provider = record p { promote_attempts = p.promote_attempts + 1 } in
        let known = sym (within (lookup id p.status) _ _ st found) ∙ h in
        cached-HasCopy p' q id st now rely valid given
          (known-HasCopy st.commit_state p' q id st now waits known)
