-- ===== src/Blobio/L1Runs.antt =====
-- The pipeline over the memory cache, from their constructors on.
use kdrive.Common.{
  ℕ, ◌≡◌, ◌≢◌, subst, true, false, List, some, String, str_eq, ok, ok-injective, >>=-eq-ok,
  if_intro, length, ltℤ, pos, max_int64,
}
use kdrive.Common.Dict.{lookup}
use kdrive.HotCache.{Float64, EvictionPolicy, validate}
use kdrive.HotCache.Memory.State.{MemEntry, MemoryCache}
use kdrive.HotCache.Memory.Methods.{with_kind, new_memory_cache}
use kdrive.HotCache.Memory.Runs.{new-IsValid}
use kdrive.Blobio.State.{StoreOps, Extern, cached, BlobStatus}
use kdrive.Blobio.Methods.{new_pipeline, read}
use kdrive.Blobio.Runs.{Call, run_calls, run_calls-Safe}
use kdrive.Blobio.MemoryL1.{memory_cache, memory_cache_laws, Lasting, Lasting-Fine}

module _ {F : Type 0} ⦃fl : Float64 F⦄ where
  new_cache-Lasting :
      (unallocated : MemEntry) (policy : EvictionPolicy F) (c : MemoryCache F)
      → new_memory_cache unallocated policy ≡ ok c
      → ltℤ (pos 0) policy.ttl ≡ false
      → ltℤ policy.max_bytes (pos max_int64) ≡ true
      → Lasting c
  unfolding new_memory_cache with_kind
  new_cache-Lasting unallocated policy c made no_ttl room =
      let (_, _, built) = >>=-eq-ok (validate (with_kind policy)) _ c made in
      (
        new-IsValid unallocated policy c made,
        subst (λ d. ltℤ (pos 0) d.policy.ttl ≡ false) (ok-injective _ c built)
            (if_intro (λ (p : EvictionPolicy F). ltℤ (pos 0) p.ttl ≡ false) (str_eq policy.kind "")
              _ _ (λ _. no_ttl) (λ _. no_ttl)),
        subst (λ d. ltℤ d.policy.max_bytes (pos max_int64) ≡ true) (ok-injective _ c built)
            (if_intro (λ (p : EvictionPolicy F). ltℤ p.max_bytes (pos max_int64) ≡ true)
              (str_eq policy.kind "") _ _ (λ _. room) (λ _. room)),
      )

module _ {F S : Type 0} ⦃fl : Float64 F⦄ ⦃store : StoreOps S⦄ ⦃ext : Extern⦄ where
  -- The pipeline over the memory cache of NewMemoryCache, with a policy that sets no TTL and a
  -- MaxBytes below the largest int64, and over any store: after any calls of Write, Promote, Read and Evict, those that fail too, and however
  -- much the cache has evicted, a blob that is CACHED, under an id that is not empty, is read from
  -- the cache, as bytes with the size and the checksum of its status.
  pub memory_run-Safe :
      (unallocated : MemEntry) (policy : EvictionPolicy F) (c : MemoryCache F) (s : S)
      (cs : List Call) (id : String) (st : BlobStatus) (now : ℕ)
      → new_memory_cache unallocated policy ≡ ok c
      → ltℤ (pos 0) policy.ttl ≡ false
      → ltℤ policy.max_bytes (pos max_int64) ≡ true
      → lookup id (run_calls (new_pipeline c s) cs).status ≡ some st
      → st.commit_state ≡ cached
      → id ≢ ""
      → (b : List ℕ) × (ext.sha256_hex b ≡ st.checksum_sha256)
        × (length b ≡ st.size)
        × ((read (run_calls (new_pipeline c s) cs) id now).1
            ≡ ok (record {
              body = record { bytes = b; fails = false };
              size = st.size;
              checksum_sha256 = st.checksum_sha256;
              version_id = st.version_id;
              from_cache = true;
            }))
  memory_run-Safe unallocated policy c s cs id st now made no_ttl room found state named =
      let (b, _, sum, size, answer) =
        run_calls-Safe c s cs id st now
          (Lasting-Fine c (new_cache-Lasting unallocated policy c made no_ttl room)) found state
          named in
      (b, sum, size, answer)
