-- ===== src/Blobio/Outcome.antt =====
-- What `Promote` leaves of the statuses and the counters, on every path.
use kdrive.Common.{
  ℕ, suc, ◌+◌, String, ◌≡◌, ◌≢◌, refl, sym, ◌∙◌, ap, subst, inl, inr, if_intro, some, Option-cases,
  within, without, Result, ok, err, err-ne-ok, Result_intro, Reader, arith,
}
use kdrive.Common.Dict.{lookup, insert, lookup-insert_self, lookup-insert_ne}
use kdrive.Blobio.State.{
  cached, durable, CommitState, BlobStatus, PipelineError, not_in_status_store, promote_cache_get,
  CacheOps, StoreOps, Extern, StatusStore, made_durable, mark_durable, Pipeline,
}
use kdrive.Blobio.Promotion.{
  check_already_durable, upload_blob, fail_promote, skip_promote, finish_promote, promote_body,
  promote_cached, promote_known, promote,
}

abbrev pub IsDurable : StatusStore → String → Type 0
IsDurable m blob_id = (st : BlobStatus) × (lookup blob_id m ≡ some st) × (st.commit_state ≡ durable)

mark_durable-insert :
    (m : StatusStore) (blob_id version_id : String) (size : ℕ) (checksum : String) (at : ℕ)
    (st : BlobStatus)
    → lookup blob_id m ≡ some st
    → mark_durable m blob_id version_id size checksum at
      ≡ insert blob_id (made_durable st version_id size checksum at) m
unfolding mark_durable
mark_durable-insert m blob_id version_id size checksum at st found =
    within (lookup blob_id m)
      (λ st'. insert blob_id (made_durable st' version_id size checksum at) m) m st found

-- How one promotion from `p` ends.
pub record Outcome {C S : Type 0} (p : Pipeline C S) (blob_id : String)
    (end : Pipeline C S × Result PipelineError (Unit {0})) : Type 0 where
  pub succeeds : end.1 ≡ ok tt → IsDurable end.0.status blob_id
  pub fails : (e : PipelineError) → end.1 ≡ err e → end.0.status ≡ p.status
  pub others : (id : String) → blob_id ≢ id → lookup id end.0.status ≡ lookup id p.status
  pub attempts : end.0.promote_attempts ≡ suc p.promote_attempts
  pub counted :
      end.0.promote_successes + end.0.promote_failures + end.0.promote_skipped
      ≡ suc (p.promote_successes + p.promote_failures + p.promote_skipped)

-- A promotion under way: the attempt is counted, nothing is decided.
record Started {C S : Type 0} (p p' : Pipeline C S) : Type 0 where
  status : p'.status ≡ p.status
  attempts : p'.promote_attempts ≡ suc p.promote_attempts
  successes : p'.promote_successes ≡ p.promote_successes
  failures : p'.promote_failures ≡ p.promote_failures
  skipped : p'.promote_skipped ≡ p.promote_skipped

module _ {C S : Type 0} {p p' : Pipeline C S} (s : Started p p') (blob_id : String) where
  fail_promote-Outcome : (e : PipelineError) → Outcome p blob_id (fail_promote p' e)
  fail_promote-Outcome e = record {
    succeeds = λ h. absurd (err-ne-ok e tt h);
    fails = λ _ _. s.status;
    others = λ id _. ap (lookup id) s.status;
    attempts = s.attempts;
    counted = omega (arith, s.successes, s.failures, s.skipped);
  }

  skip_promote-Outcome : IsDurable p.status blob_id → Outcome p blob_id (skip_promote p')
  skip_promote-Outcome d = record {
    succeeds = λ _. subst (λ m. IsDurable m blob_id) (sym s.status) d;
    fails = λ _ _. s.status;
    others = λ id _. ap (lookup id) s.status;
    attempts = s.attempts;
    counted = omega (arith, s.successes, s.failures, s.skipped);
  }

  -- The entry is there, so marking it replaces it.
  marked-Outcome :
      (st : BlobStatus) (q : Pipeline C S) (version_id : String) (size : ℕ) (checksum : String)
      (at : ℕ)
      → lookup blob_id p.status ≡ some st
      → q.status ≡ mark_durable p'.status blob_id version_id size checksum at
      → q.promote_attempts ≡ suc p.promote_attempts
      → q.promote_successes + q.promote_failures + q.promote_skipped
        ≡ suc (p.promote_successes + p.promote_failures + p.promote_skipped)
      → Outcome p blob_id (q, ok tt)
  marked-Outcome st q version_id size checksum at found marked attempts counted =
      let st' = made_durable st version_id size checksum at in
      let stored =
        marked
        ∙ ap (λ m. mark_durable m blob_id version_id size checksum at) s.status
        ∙ mark_durable-insert p.status blob_id version_id size checksum at st found in
      record {
        succeeds =
            λ _. (st', ap (lookup blob_id) stored ∙ lookup-insert_self blob_id st' p.status, refl);
        fails = λ e h. absurd (err-ne-ok e tt (sym h));
        others = λ id other. ap (lookup id) stored ∙ lookup-insert_ne blob_id id st' p.status other;
        attempts = attempts;
        counted = counted;
      }

module _ {C S : Type 0} ⦃cache : CacheOps C⦄ ⦃store : StoreOps S⦄ ⦃ext : Extern⦄ where
  promote_body-Outcome :
      (p p' : Pipeline C S) (s : Started p p') (blob_id : String) (st : BlobStatus) (r : Reader)
      (now : ℕ)
      → lookup blob_id p.status ≡ some st
      → Outcome p blob_id (promote_body p' blob_id st r now)
  unfolding promote_body finish_promote
  promote_body-Outcome p p' s blob_id st r now found =
      let sent = upload_blob p'.store blob_id r st in
      let p'' = record p' { store = sent.0 } in
      let s' : Started p p'' = record {
        status = s.status;
        attempts = s.attempts;
        successes = s.successes;
        failures = s.failures;
        skipped = s.skipped;
      } in
      Result_intro (Outcome p blob_id) sent.1 (λ e. fail_promote p'' e)
        (λ res. finish_promote p'' blob_id st res now) (λ e. fail_promote-Outcome s' blob_id e)
        (λ res.
          marked-Outcome s' blob_id st _ res.version_id res.size res.checksum_sha256 res.write_time
            found refl s.attempts (omega (arith, s.successes, s.failures, s.skipped)))

  promote_cached-Outcome :
      (p p' : Pipeline C S) (s : Started p p') (blob_id : String) (st : BlobStatus) (now : ℕ)
      → lookup blob_id p.status ≡ some st
      → Outcome p blob_id (promote_cached p' blob_id st now)
  unfolding promote_cached
  promote_cached-Outcome p p' s blob_id st now found =
      let got = cache.get p'.cache blob_id now in
      let p'' = record p' { cache = got.0 } in
      let s' : Started p p'' = record {
        status = s.status;
        attempts = s.attempts;
        successes = s.successes;
        failures = s.failures;
        skipped = s.skipped;
      } in
      if_intro (Outcome p blob_id) (check_already_durable p'.store blob_id st) _ _
        (λ _.
          marked-Outcome s blob_id st _ st.version_id st.size st.checksum_sha256 now found refl
            s.attempts (omega (arith, s.successes, s.failures, s.skipped)))
        (λ _.
          Result_intro (Outcome p blob_id) got.1 (λ e. fail_promote p'' (promote_cache_get e))
            (λ hit. promote_body p'' blob_id st hit.0 now)
            (λ e. fail_promote-Outcome s' blob_id (promote_cache_get e))
            (λ hit. promote_body-Outcome p p'' s' blob_id st hit.0 now found))

  promote_known-Outcome :
      (state : CommitState) (p p' : Pipeline C S) (s : Started p p') (blob_id : String)
      (st : BlobStatus) (now : ℕ)
      → lookup blob_id p.status ≡ some st
      → st.commit_state ≡ state
      → Outcome p blob_id (promote_known state p' blob_id st now)
  unfolding promote_known
  promote_known-Outcome cached p p' s blob_id st now found same =
      promote_cached-Outcome p p' s blob_id st now found
  promote_known-Outcome durable p p' s blob_id st now found same =
      skip_promote-Outcome s blob_id (st, found, same)

  -- With any cache, store and schedule of the parts: a promotion that succeeds leaves the blob
  -- COMMITTED_DURABLE; one that fails leaves every status as it was, so a blob is never durable by
  -- a failed upload; the status of every other blob is untouched in both cases; and one attempt and
  -- one of success, failure and skip is counted.
  pub promote-Outcome :
      (p : Pipeline C S) (blob_id : String) (now : ℕ) → Outcome p blob_id (promote p blob_id now)
  unfolding promote
  promote-Outcome p blob_id now =
      let p' = record p { promote_attempts = p.promote_attempts + 1 } in
      let s : Started p p' = record {
        status = refl;
        attempts = omega arith;
        successes = refl;
        failures = refl;
        skipped = refl;
      } in
      elim (Option-cases (lookup blob_id p.status)) [
        | inl none_there ↦
            subst (Outcome p blob_id)
              (sym (
                without (lookup blob_id p.status)
                  (λ status. promote_known status.commit_state p' blob_id status now)
                  (fail_promote p' not_in_status_store) none_there))
              (fail_promote-Outcome s blob_id not_in_status_store)
        | inr there ↦
            subst (Outcome p blob_id)
              (sym (
                within (lookup blob_id p.status)
                  (λ status. promote_known status.commit_state p' blob_id status now)
                  (fail_promote p' not_in_status_store) there.0 there.1))
              (promote_known-Outcome there.0.commit_state p p' s blob_id there.0 now there.1 refl)
      ]
