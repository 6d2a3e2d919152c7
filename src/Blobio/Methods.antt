-- ===== src/Blobio/Methods.antt =====
-- `Write`, `Read`, `Status`, `Evict` and `Stats` of the pipeline (internal/blobio/pipeline.go), each
-- run to its end; the goroutine that `Read` starts runs before the next call.
use kdrive.Common.{
  ℕ, ◌*◌, ltb, String, Bool, true, false, not, ◌&&◌, if◌then◌else◌, List, [], Option, none, some,
  str_eq, Result, ok, err, ◌>>=◌, ◌>>◌, reject, Reader, ℤ, pos, ltℤ, pos_part, length, take,
  limit_above,
}
use kdrive.Common.Dict.{lookup}
use kdrive.BlobStore.{ObjectMeta}
use kdrive.HotCache.{CacheError, miss}
use kdrive.Blobio.State.{
  CommitState, cached, durable, BlobStatus, WriteResult, ReadResult, WriteOptions, PipelineError,
  blob_id_required, not_in_status_store, not_yet_durable, l2_read, l2_too_large, l2_checksum,
  cache_put, cache_get, cache_evict, l2_get, sync_promote, CacheOps, StoreOps, status_put, Pipeline,
  Extern,
}
use kdrive.Blobio.Promotion.{promote}

abbrev pub default_max_restore_bytes : ℤ
default_max_restore_bytes = pos (256 * 1024 * 1024)

unfoldable pub new_pipeline : {C S : Type 0} → C → S → Pipeline C S
new_pipeline cache store = record {
  cache = cache;
  store = store;
  status = [];
  max_restore_bytes = default_max_restore_bytes;
  promote_attempts = 0;
  promote_successes = 0;
  promote_failures = 0;
  promote_skipped = 0;
}

unfoldable pub set_max_restore_bytes : {C S : Type 0} → Pipeline C S → ℤ → Pipeline C S
set_max_restore_bytes p n = record p { max_restore_bytes = n }

unfoldable pub status_of : {C S : Type 0} → Pipeline C S → String → Result PipelineError BlobStatus
status_of p blob_id = elim (lookup blob_id p.status) [
  | none ↦ err not_in_status_store
  | some st ↦ ok st
]

abbrev pub is_durable : CommitState → Bool
is_durable durable = true
is_durable cached = false

-- The counters that `Stats` reads, without the average duration.
unfoldable pub stats : {C S : Type 0} → Pipeline C S → ℕ × ℕ × ℕ × ℕ
stats p = (p.promote_attempts, p.promote_successes, p.promote_failures, p.promote_skipped)

abbrev pub is_miss : CacheError → Bool
is_miss miss = true
is_miss _ = false

-- `io.LimitReader(r, max+1)`: a reader that fails behind the limit is not read that far.
unfoldable pub limit : ℤ → Reader → Reader
unfolding limit_above
limit m r =
    if ltℤ (pos 0) m
    then (if ltb (length r.bytes) (limit_above (pos_part m))
        then r
        else record { bytes = take (limit_above (pos_part m)) r.bytes; fails = false })
    else r

unfoldable pub restored_status : String → ObjectMeta → BlobStatus
restored_status blob_id meta = record {
  blob_id = blob_id;
  commit_state = durable;
  size = meta.size;
  checksum_sha256 = meta.checksum_sha256;
  version_id = meta.version_id;
  cached_at = 0;
  durable_at = meta.write_time;
  file_id = "";
  tenant_id = "";
  retention = meta.retention;
}

unfoldable pub hit_result : Option BlobStatus → Reader → ReadResult
hit_result none r = record {
  body = r;
  size = 0;
  checksum_sha256 = "";
  version_id = "";
  from_cache = true;
}
hit_result (some st) r = record {
  body = r;
  size = st.size;
  checksum_sha256 = st.checksum_sha256;
  version_id = st.version_id;
  from_cache = true;
}

module _ ⦃ext : Extern⦄ where
  unfoldable pub written_status : String → List ℕ → WriteOptions → ℕ → BlobStatus
  written_status blob_id body opts now = record {
    blob_id = blob_id;
    commit_state = cached;
    size = length body;
    checksum_sha256 = ext.sha256_hex body;
    version_id = "";
    cached_at = now;
    durable_at = 0;
    file_id = opts.file_id;
    tenant_id = opts.tenant_id;
    retention = opts.retention;
  }

  abbrev pub written : CommitState → String → List ℕ → WriteResult
  written commit_state blob_id body = record {
    blob_id = blob_id;
    commit_state = commit_state;
    size = length body;
    checksum_sha256 = ext.sha256_hex body;
  }

  -- The checksum that the provider reports is compared; without one the body's own is used.
  unfoldable pub checked_meta : ObjectMeta → List ℕ → Result PipelineError ObjectMeta
  checked_meta meta body =
      if str_eq meta.checksum_sha256 ""
      then ok (record meta { checksum_sha256 = ext.sha256_hex body })
      else if not (str_eq (ext.sha256_hex body) meta.checksum_sha256)
      then err l2_checksum
      else ok meta

  unfoldable pub restore_body : ℤ → Reader → ObjectMeta → Result PipelineError (List ℕ × ObjectMeta)
  unfolding limit checked_meta
  restore_body m r meta =
      let limited = limit m r in
      reject limited.fails l2_read
      >> (reject (ltℤ (pos 0) m && ltℤ m (pos (length limited.bytes))) l2_too_large
          >> (do meta' ← checked_meta meta limited.bytes; ok (limited.bytes, meta')))

  -- The caller that leads a flight; those that wait for it have its result.
  unfoldable pub restore_from_l2 :
      {C S : Type 0} ⦃store : StoreOps S⦄
      → Pipeline C S
      → String
      → Result PipelineError (List ℕ × ObjectMeta)
  unfolding restore_body
  restore_from_l2 ⦃store = store⦄ p blob_id = elim (store.get p.store blob_id) [
    | err e ↦ err (l2_get e)
    | ok got ↦ restore_body p.max_restore_bytes got.0 got.1
  ]

module _ {C S : Type 0} ⦃cache : CacheOps C⦄ ⦃store : StoreOps S⦄ ⦃ext : Extern⦄ where
  -- After the cache and the status have the blob.
  unfoldable pub commit :
      Pipeline C S → String → List ℕ → Bool → ℕ → Pipeline C S × Result PipelineError WriteResult
  commit p blob_id body promote_sync now =
      if promote_sync
      then (let done = promote p blob_id now in
          elim done.1 [
            | err e ↦ (done.0, err (sync_promote e))
            | ok _ ↦ (done.0, ok (written durable blob_id body))
          ])
      else (p, ok (written cached blob_id body))

  unfoldable pub write :
      Pipeline C S
      → String
      → List ℕ
      → WriteOptions
      → ℕ
      → Pipeline C S × Result PipelineError WriteResult
  unfolding commit written_status
  write p blob_id body opts now =
      if str_eq blob_id ""
      then (p, err blob_id_required)
      else (let stored =
            cache.put p.cache blob_id (record { bytes = body; fails = false })
              (record {
                size_bytes = pos (length body);
                hash = ext.sha256_hex body;
                pin_hot = opts.pin_hot;
                non_evictable = true;
                ttl = pos 0;
              })
              now in
          elim stored.1 [
            | err e ↦ (record p { cache = stored.0 }, err (cache_put e))
            | ok _ ↦
                commit
                  (record p {
                    cache = stored.0;
                    status = status_put p.status (written_status blob_id body opts now);
                  })
                  blob_id body opts.promote_sync now
          ])

  -- What the goroutine does with a restored body; it logs the errors.
  unfoldable pub keep_restored : Pipeline C S → String → List ℕ → ObjectMeta → ℕ → Pipeline C S
  unfolding restored_status
  keep_restored p blob_id body meta now = record p {
    cache =
        (cache.put p.cache blob_id (record { bytes = body; fails = false })
          (record {
            size_bytes = pos meta.size;
            hash = meta.checksum_sha256;
            pin_hot = false;
            non_evictable = false;
            ttl = pos 0;
          })
          now).0;
    status = status_put p.status (restored_status blob_id meta);
  }

  unfoldable pub read_l2 :
      Pipeline C S → String → ℕ → Pipeline C S × Result PipelineError ReadResult
  unfolding restore_from_l2 keep_restored
  read_l2 p blob_id now = elim (restore_from_l2 p blob_id) [
    | err e ↦ (p, err e)
    | ok got ↦ (
      keep_restored p blob_id got.0 got.1 now,
      ok (record {
        body = record { bytes = got.0; fails = false };
        size = got.1.size;
        checksum_sha256 = got.1.checksum_sha256;
        version_id = got.1.version_id;
        from_cache = false;
      }),
    )
  ]

  unfoldable pub read : Pipeline C S → String → ℕ → Pipeline C S × Result PipelineError ReadResult
  unfolding read_l2 hit_result
  read p blob_id now =
      if str_eq blob_id ""
      then (p, err blob_id_required)
      else (let found = cache.get p.cache blob_id now in
          let p' = record p { cache = found.0 } in
          elim found.1 [
            | ok hit ↦ (p', ok (hit_result (lookup blob_id p.status) hit.0))
            | err e ↦ if is_miss e then read_l2 p' blob_id now else (p', err (cache_get e))
          ])

  unfoldable pub evict_cached :
      Pipeline C S → String → Pipeline C S × Result PipelineError (Unit {0})
  evict_cached p blob_id =
      let gone = cache.evict p.cache blob_id in
      elim gone.1 [
        | ok _ ↦ (record p { cache = gone.0 }, ok tt)
        | err e ↦ (record p { cache = gone.0 }, err (cache_evict e))
      ]

  unfoldable pub evict_in :
      Option BlobStatus → Pipeline C S → String → Pipeline C S × Result PipelineError (Unit {0})
  unfolding evict_cached
  evict_in none p blob_id = evict_cached p blob_id
  evict_in (some st) p blob_id =
      if is_durable st.commit_state then evict_cached p blob_id else (p, err not_yet_durable)

  unfoldable pub evict : Pipeline C S → String → Pipeline C S × Result PipelineError (Unit {0})
  unfolding evict_in
  evict p blob_id = evict_in (lookup blob_id p.status) p blob_id
