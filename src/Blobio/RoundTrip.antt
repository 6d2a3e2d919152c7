-- ===== src/Blobio/RoundTrip.antt =====
-- What `Write` acknowledges is what `Read` gives.
use kdrive.Common.{
  ℕ, String, ◌≡◌, refl, sym, ◌∙◌, ap, inl, inr, true, false, List, str_eq, Bool-cases, Result,
  Result-cases, Result_ok, Result_err, ok, err, err-ne-ok, ok-injective, Reader, pos, length,
}
use kdrive.Common.Dict.{lookup-insert_self, ne_of_str_eq}
use kdrive.HotCache.{CacheError, PutOptions}
use kdrive.Blobio.State.{
  cached, WriteResult, WriteOptions, PipelineError, cache_put, blob_id_required, CacheOps, StoreOps,
  Extern, status_put, Pipeline,
}
use kdrive.Blobio.Methods.{written_status, written, commit, write, read}
use kdrive.Blobio.Keeping.{CacheLaws}
use kdrive.Blobio.Runs.{read-kept}

module _ {C S : Type 0} ⦃cache : CacheOps C⦄ ⦃laws : CacheLaws C⦄ ⦃store : StoreOps S⦄
    ⦃ext : Extern⦄ where
  -- With a cache that does what it documents and is within its own invariant: an asynchronous Write
  -- that succeeds reports the blob as CACHED with the length and the checksum of the body, and a
  -- Read that follows at any time gives exactly the body, from the cache, with that length and
  -- checksum.
  pub write-read :
      (p : Pipeline C S) (id : String) (body : List ℕ) (opts : WriteOptions) (now later : ℕ)
      (res : WriteResult)
      → laws.Fine p.cache
      → opts.promote_sync ≡ false
      → (write p id body opts now).1 ≡ ok res
      → (res ≡ written cached id body)
        × ((read (write p id body opts now).0 id later).1
            ≡ ok (record {
              body = record { bytes = body; fails = false };
              size = length body;
              checksum_sha256 = ext.sha256_hex body;
              version_id = "";
              from_cache = true;
            }))
  unfolding write commit status_put written_status
  write-read p id body opts now later res fine async done =
      let r : Reader = record { bytes = body; fails = false } in
      let o : PutOptions = record {
        size_bytes = pos (length body);
        hash = ext.sha256_hex body;
        pin_hot = opts.pin_hot;
        non_evictable = true;
        ttl = pos 0;
      } in
      let put = cache.put p.cache id r o now in
      let st = written_status id body opts now in
      let q : Pipeline C S = record p { cache = put.0; status = status_put p.status st } in
      let failing : CacheError → Pipeline C S × Result PipelineError WriteResult =
        λ e. (record p { cache = put.0 }, err (cache_put e)) in
      let going : Unit {0} → Pipeline C S × Result PipelineError WriteResult =
        λ _. commit q id body opts.promote_sync now in
      elim (Bool-cases (str_eq id "")) [
        | inl e ↦ absurd (err-ne-ok blob_id_required res (rw e at done))
        | inr e ↦ elim (Result-cases put.1) [
          | inl failed ↦ absurd (
              err-ne-ok (cache_put failed.0) res (
                sym (ap (λ x. x.1) (Result_err put.1 failing going failed.0 failed.1))
                ∙ (rw e at done)))
          | inr stored ↦
              let w : write p id body opts now ≡ (q, ok (written cached id body)) =
                rw e (Result_ok put.1 failing going tt stored.1 ∙ rw async refl) in
              (
                ok-injective _ _ (sym done ∙ ap (λ x. x.1) w),
                ap (λ x. (read x.0 id later).1) w
                    ∙ read-kept q id later body st (laws.put_fine p.cache id r o now fine)
                        (laws.put_kept p.cache id r o now fine refl refl refl stored.1)
                        (lookup-insert_self id st p.status) (ne_of_str_eq id "" e),
              )
        ]
      ]
