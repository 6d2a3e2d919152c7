-- ===== src/Blobio/Keeping.antt =====
-- What the pipeline relies on in a cache, and what a promotion keeps of one.
use kdrive.Common.{
  ℕ, ◌+◌, String, ◌≡◌, ◌≢◌, sym, subst, inl, inr, true, false, if_intro, List, Option-cases, within,
  without, Result, ok, err, err-ne-ok, Result_intro, Reader, pos,
}
use kdrive.Common.Dict.{lookup}
use kdrive.BlobStore.{PutResult}
use kdrive.HotCache.{CacheError, PutOptions, Metadata}
use kdrive.Blobio.State.{
  CommitState, cached, durable, BlobStatus, PipelineError, not_in_status_store, promote_cache_get,
  CacheOps, StoreOps, Extern, made_durable, Pipeline,
}
use kdrive.Blobio.Promotion.{
  check_already_durable, upload_blob, release, fail_promote, finish_promote, promote_body,
  promote_cached, promote_known, promote,
}

-- The behaviour of a `hotcache.Cache` that the pipeline's runs rely on. hotcache.go documents it but
-- for `put_failed`, which is how the memory cache behaves. `Kept c id bytes`: the bytes are in the cache and
-- protected from eviction (`NonEvictable`). `Fine` is the cache's own invariant.
pub record CacheLaws (C : Type 0) ⦃cache : CacheOps C⦄ : Type 1 where
  pub Fine : C → Type 0
  pub Kept : C → String → List ℕ → Type 0
  pub get_fine : (c : C) (id : String) (now : ℕ) → Fine c → Fine (cache.get c id now).0
  pub put_fine :
      (c : C) (id : String) (r : Reader) (o : PutOptions) (now : ℕ)
      → Fine c
      → Fine (cache.put c id r o now).0
  pub evict_fine : (c : C) (id : String) → Fine c → Fine (cache.evict c id).0
  pub put_kept :
      (c : C) (id : String) (r : Reader) (o : PutOptions) (now : ℕ)
      → Fine c
      → r.fails ≡ false
      → o.non_evictable ≡ true
      → o.ttl ≡ pos 0
      → (cache.put c id r o now).1 ≡ ok tt
      → Kept (cache.put c id r o now).0 id r.bytes
  pub put_others :
      (c : C) (id : String) (r : Reader) (o : PutOptions) (now : ℕ) (other : String) (b : List ℕ)
      → Fine c
      → id ≢ other
      → Kept c other b
      → Kept (cache.put c id r o now).0 other b
  pub put_failed :
      (c : C) (id : String) (r : Reader) (o : PutOptions) (now : ℕ) (e : CacheError)
      (other : String) (b : List ℕ)
      → Fine c
      → (cache.put c id r o now).1 ≡ err e
      → Kept c other b
      → Kept (cache.put c id r o now).0 other b
  pub get_keeps :
      (c : C) (id : String) (now : ℕ) (other : String) (b : List ℕ)
      → Fine c
      → Kept c other b
      → Kept (cache.get c id now).0 other b
  pub get_kept :
      (c : C) (id : String) (now : ℕ) (b : List ℕ)
      → Fine c
      → Kept c id b
      → (m : Metadata) × ((cache.get c id now).1 ≡ ok (record { bytes = b; fails = false }, m))
  pub evict_others :
      (c : C) (id other : String) (b : List ℕ)
      → Fine c
      → id ≢ other
      → Kept c other b
      → Kept (cache.evict c id).0 other b

module _ {C : Type 0} ⦃cache : CacheOps C⦄ ⦃laws : CacheLaws C⦄ where
  -- From `c` to `c'` the cache loses nothing.
  pub record Keeps (c c' : C) : Type 0 where
    pub fine : laws.Fine c'
    pub kept : (id : String) (b : List ℕ) → laws.Kept c id b → laws.Kept c' id b

  -- What one promotion does to the cache.
  pub record Ending {S : Type 0} (c : C) (blob_id : String)
      (end : Pipeline C S × Result PipelineError (Unit {0})) : Type 0 where
    pub fine : laws.Fine end.0.cache
    pub others :
        (id : String) (b : List ℕ) → blob_id ≢ id → laws.Kept c id b → laws.Kept end.0.cache id b
    pub failed :
        (e : PipelineError)
        → end.1 ≡ err e
        → (id : String) (b : List ℕ) → laws.Kept c id b
        → laws.Kept end.0.cache id b

  pub Keeps-get : (c c' : C) (id : String) (now : ℕ) → Keeps c c' → Keeps c (cache.get c' id now).0
  Keeps-get c c' id now k = record {
    fine = laws.get_fine c' id now k.fine;
    kept = λ other b h. laws.get_keeps c' id now other b k.fine (k.kept other b h);
  }

  Keeps-Ending :
      {S : Type 0} (c : C) (p : Pipeline C S) (blob_id : String)
      (r : Result PipelineError (Unit {0}))
      → Keeps c p.cache
      → Ending c blob_id (p, r)
  Keeps-Ending c p blob_id r k = record {
    fine = k.fine;
    others = λ id b _ h. k.kept id b h;
    failed = λ _ _ id b h. k.kept id b h;
  }

  -- `release` may only touch the entry that it puts again.
  release-kept :
      (c : C) (blob_id : String) (st : BlobStatus) (now : ℕ)
      → laws.Fine c
      → laws.Fine (release c blob_id st now)
        × ((id : String) (b : List ℕ)
            → blob_id ≢ id
            → laws.Kept c id b
            → laws.Kept (release c blob_id st now) id b)
  unfolding release
  release-kept c blob_id st now fine =
      let found = cache.get c blob_id now in
      let fine' = laws.get_fine c blob_id now fine in
      let o : PutOptions = record {
        size_bytes = pos st.size;
        hash = st.checksum_sha256;
        pin_hot = false;
        non_evictable = false;
        ttl = pos 0;
      } in
      Result_intro
        (λ c'.
          laws.Fine c'
          × ((id : String) (b : List ℕ) → blob_id ≢ id → laws.Kept c id b → laws.Kept c' id b))
        found.1 (λ e. found.0) (λ hit. (cache.put found.0 blob_id hit.0 o now).0)
        (λ e. (fine', λ id b _ h. laws.get_keeps c blob_id now id b fine h))
        (λ hit. (
          laws.put_fine found.0 blob_id hit.0 o now fine',
          λ id b other h.
              laws.put_others found.0 blob_id hit.0 o now id b fine' other
                (laws.get_keeps c blob_id now id b fine h),
        ))

module _ {C S : Type 0} ⦃cache : CacheOps C⦄ ⦃laws : CacheLaws C⦄ ⦃store : StoreOps S⦄
    ⦃ext : Extern⦄ where
  finish_promote-Ending :
      (c : C) (p : Pipeline C S) (blob_id : String) (st : BlobStatus) (res : PutResult) (now : ℕ)
      → Keeps c p.cache
      → Ending c blob_id (finish_promote p blob_id st res now)
  unfolding finish_promote
  finish_promote-Ending c p blob_id st res now k =
      let st' = made_durable st res.version_id res.size res.checksum_sha256 res.write_time in
      let released = release-kept p.cache blob_id st' now k.fine in
      record {
        fine = released.0;
        others = λ id b other h. released.1 id b other (k.kept id b h);
        failed = λ e h. absurd (err-ne-ok e tt (sym h));
      }

  promote_body-Ending :
      (c : C) (p : Pipeline C S) (blob_id : String) (st : BlobStatus) (r : Reader) (now : ℕ)
      → Keeps c p.cache
      → Ending c blob_id (promote_body p blob_id st r now)
  unfolding promote_body
  promote_body-Ending c p blob_id st r now k =
      let sent = upload_blob p.store blob_id r st in
      let p' = record p { store = sent.0 } in
      Result_intro (Ending c blob_id) sent.1 (λ e. fail_promote p' e)
        (λ res. finish_promote p' blob_id st res now)
        (λ e. Keeps-Ending c (fail_promote p' e).0 blob_id (err e) k)
        (λ res. finish_promote-Ending c p' blob_id st res now k)

  promote_known-Ending :
      (state : CommitState) (p : Pipeline C S) (blob_id : String) (st : BlobStatus) (now : ℕ)
      → laws.Fine p.cache
      → Ending p.cache blob_id (promote_known state p blob_id st now)
  unfolding promote_known promote_cached
  promote_known-Ending durable p blob_id st now fine =
      Keeps-Ending p.cache _ blob_id (ok tt) (record { fine = fine; kept = λ id b h. h })
  promote_known-Ending cached p blob_id st now fine =
      let k : Keeps p.cache p.cache = record { fine = fine; kept = λ id b h. h } in
      let got = cache.get p.cache blob_id now in
      let p' = record p { cache = got.0 } in
      if_intro (Ending p.cache blob_id) (check_already_durable p.store blob_id st) _ _
        (λ _. Keeps-Ending p.cache _ blob_id (ok tt) k)
        (λ _.
          Result_intro (Ending p.cache blob_id) got.1 (λ e. fail_promote p' (promote_cache_get e))
            (λ hit. promote_body p' blob_id st hit.0 now)
            (λ e. Keeps-Ending p.cache _ blob_id _ (Keeps-get p.cache p.cache blob_id now k))
            (λ hit.
              promote_body-Ending p.cache p' blob_id st hit.0 now
                (Keeps-get p.cache p.cache blob_id now k)))

  pub promote-Ending :
      (p : Pipeline C S) (blob_id : String) (now : ℕ)
      → laws.Fine p.cache
      → Ending p.cache blob_id (promote p blob_id now)
  unfolding promote
  promote-Ending p blob_id now fine =
      let p' = record p { promote_attempts = p.promote_attempts + 1 } in
      elim (Option-cases (lookup blob_id p.status)) [
        | inl none_there ↦
            subst (Ending p.cache blob_id)
              (sym (
                without (lookup blob_id p.status)
                  (λ status. promote_known status.commit_state p' blob_id status now)
                  (fail_promote p' not_in_status_store) none_there))
              (Keeps-Ending p.cache _ blob_id (err not_in_status_store)
                (record { fine = fine; kept = λ id b h. h }))
        | inr there ↦
            subst (Ending p.cache blob_id)
              (sym (
                within (lookup blob_id p.status)
                  (λ status. promote_known status.commit_state p' blob_id status now)
                  (fail_promote p' not_in_status_store) there.0 there.1))
              (promote_known-Ending there.0.commit_state p' blob_id there.0 now fine)
      ]
