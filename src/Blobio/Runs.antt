-- ===== src/Blobio/Runs.antt =====
-- Any calls of the pipeline, from `New` on.
use mathlib.Core.Option.{some-injective}
use kdrive.Common.{
  ℕ, String, ◌≡◌, ◌≢◌, refl, sym, ◌∙◌, ap, true, false, if_intro, if◌then◌else◌, List, [], ◌∷◌,
  some, str_eq, Result, ok, err, Result_intro, Reader, pos, length,
}
use kdrive.Common.Dict.{str_ne, lookup, lookup-insert_self, lookup-insert_ne}
use kdrive.HotCache.{PutOptions}
use kdrive.Blobio.State.{
  cached, BlobStatus, ReadResult, WriteOptions, PipelineError, cache_get, CacheOps, StoreOps,
  Extern, status_put, Pipeline,
}
use kdrive.Blobio.Promotion.{promote}
use kdrive.Blobio.Methods.{
  new_pipeline, is_miss, write, restore_from_l2, restored_status, keep_restored, hit_result,
  read_l2, read, evict,
}
use kdrive.Blobio.Keeping.{CacheLaws}
use kdrive.Blobio.Safe.{
  Safe, Safe-same, Safe-except, not_cached, promote-Safe, write-Safe, evict-Safe, none-ne-some,
}

pub data Call : Type 0 where
  write_ : String → List ℕ → WriteOptions → ℕ → Call
  promote_ read_ : String → ℕ → Call
  evict_ : String → Call

module _ {C S : Type 0} ⦃cache : CacheOps C⦄ ⦃store : StoreOps S⦄ ⦃ext : Extern⦄ where
  -- The pipeline that a call leaves, with whatever result.
  abbrev pub call : Pipeline C S → Call → Pipeline C S
  call p (write_ id body opts now) = (write p id body opts now).0
  call p (promote_ id now) = (promote p id now).0
  call p (read_ id now) = (read p id now).0
  call p (evict_ id) = (evict p id).0

  unfoldable pub run_calls : Pipeline C S → List Call → Pipeline C S
  run_calls p [] = p
  run_calls p (c ∷ cs) = run_calls (call p c) cs

module _ {C S : Type 0} ⦃cache : CacheOps C⦄ ⦃laws : CacheLaws C⦄ ⦃store : StoreOps S⦄
    ⦃ext : Extern⦄ where
  read_l2-Safe : (p : Pipeline C S) (id : String) (now : ℕ) → Safe p → Safe (read_l2 p id now).0
  unfolding read_l2 keep_restored restored_status status_put
  read_l2-Safe p id now s =
      Result_intro (λ (x : Pipeline C S × Result PipelineError ReadResult). Safe x.0)
        (restore_from_l2 p id) _ _ (λ _. s)
        (λ got.
          let r : Reader = record { bytes = got.0; fails = false } in
          let o : PutOptions = record {
            size_bytes = pos got.1.size;
            hash = got.1.checksum_sha256;
            pin_hot = false;
            non_evictable = false;
            ttl = pos 0;
          } in
          let st = restored_status id got.1 in
          Safe-except p _ id s (laws.put_fine p.cache id r o now s.fine)
            (λ j b ne h. laws.put_others p.cache id r o now j b s.fine ne h)
            (λ j ne. lookup-insert_ne id j st p.status ne)
            (λ st' found c. absurd (
              not_cached st refl (
                ap (λ x. x.commit_state)
                  (some-injective _ _ (sym (lookup-insert_self id st p.status) ∙ found))
                ∙ c))))

  read-Safe : (p : Pipeline C S) (id : String) (now : ℕ) → Safe p → Safe (read p id now).0
  unfolding read
  read-Safe p id now s =
      let found = cache.get p.cache id now in
      let p' : Pipeline C S = record p { cache = found.0 } in
      let s' : Safe p' =
        Safe-same p p' s (laws.get_fine p.cache id now s.fine)
          (λ j b h. laws.get_keeps p.cache id now j b s.fine h) refl in
      let P = λ (x : Pipeline C S × Result PipelineError ReadResult). Safe x.0 in
      if_intro P (str_eq id "") _ _ (λ _. s)
        (λ _.
          Result_intro P found.1
            (λ e. if is_miss e then read_l2 p' id now else (p', err (cache_get e)))
            (λ hit. (p', ok (hit_result (lookup id p'.status) hit.0)))
            (λ e. if_intro P (is_miss e) _ _ (λ _. read_l2-Safe p' id now s') (λ _. s'))
            (λ hit. s'))

  call-Safe : (p : Pipeline C S) (c : Call) → Safe p → Safe (call p c)
  call-Safe p (write_ id body opts now) s = write-Safe p id body opts now s
  call-Safe p (promote_ id now) s = promote-Safe p id now s
  call-Safe p (read_ id now) s = read-Safe p id now s
  call-Safe p (evict_ id) s = evict-Safe p id s

  run_from-Safe : (p : Pipeline C S) (cs : List Call) → Safe p → Safe (run_calls p cs)
  unfolding run_calls
  run_from-Safe p [] s = s
  run_from-Safe p (c ∷ cs) s = run_from-Safe (call p c) cs (call-Safe p c s)

  new-Safe : (c : C) (s : S) → laws.Fine c → Safe (new_pipeline c s)
  unfolding new_pipeline lookup
  new-Safe c s fine = record { fine = fine; backed = λ id st found _. absurd (none-ne-some found) }

  -- What `Read` answers for a blob that the cache keeps.
  pub read-kept :
      (p : Pipeline C S) (id : String) (now : ℕ) (b : List ℕ) (st : BlobStatus)
      → laws.Fine p.cache
      → laws.Kept p.cache id b
      → lookup id p.status ≡ some st
      → id ≢ ""
      → (read p id now).1
        ≡ ok (record {
          body = record { bytes = b; fails = false };
          size = st.size;
          checksum_sha256 = st.checksum_sha256;
          version_id = st.version_id;
          from_cache = true;
        })
  unfolding read hit_result
  read-kept p id now b st fine kept found ne =
      let hit = laws.get_kept p.cache id now b fine kept in
      rw (str_ne id "" ne) (rw hit.1 (rw found refl))

  -- With any store, any schedule and a cache that keeps the CacheLaws, of a failed Put as well, and
  -- starts within its own invariant: after any calls of Write, Promote, Read and Evict from New on, those that fail too,
  -- every blob that is CACHED, under an id that is not empty, is still in the cache, protected,
  -- with the size and the checksum of its status; and a Read of it at any time answers these bytes
  -- from the cache, with that checksum.
  pub run_calls-Safe :
      (c : C) (s : S) (cs : List Call) (id : String) (st : BlobStatus) (now : ℕ)
      → laws.Fine c
      → lookup id (run_calls (new_pipeline c s) cs).status ≡ some st
      → st.commit_state ≡ cached
      → id ≢ ""
      → (b : List ℕ) × laws.Kept (run_calls (new_pipeline c s) cs).cache id b
        × (ext.sha256_hex b ≡ st.checksum_sha256)
        × (length b ≡ st.size)
        × ((read (run_calls (new_pipeline c s) cs) id now).1
            ≡ ok (record {
              body = record { bytes = b; fails = false };
              size = st.size;
              checksum_sha256 = st.checksum_sha256;
              version_id = st.version_id;
              from_cache = true;
            }))
  run_calls-Safe c s cs id st now fine found state ne =
      let p = run_calls (new_pipeline c s) cs in
      let safe = run_from-Safe (new_pipeline c s) cs (new-Safe c s fine) in
      let b = safe.backed id st found state in
      (b.0, b.1, b.2, b.3, read-kept p id now b.0 st safe.fine b.1 found ne)
