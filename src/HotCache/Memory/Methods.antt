-- ===== src/HotCache/Memory/Methods.antt =====
-- The methods of `MemoryCache`: `NewMemoryCache`, `Get`, `Put`, `Evict`.
use kdrive.Common.{
  ℕ, suc, ◌+◌, String, Bool, ◌&&◌, not, List, [], ◌∷◌, Option, none, some, ltb, ◌==◌, if◌then◌else◌,
  str_eq, ℤ, pos, ltℤ, pos_part, length, Result, ok, err, ◌>>=◌, ◌>>◌, reject, Reader, limit_above,
}
use kdrive.Common.Dict.{lookup, insert}
use kdrive.HotCache.{
  CacheError, miss, blob_id_required, reader_required, exceeds_capacity, u64, Float64, PutOptions,
  Metadata, EvictionPolicy, eviction_lru, eviction_lru_hot_pin, validate,
}
use kdrive.HotCache.Memory.State.{
  MemEntry, MemoryCache, move_to_front, update, read_limited, read_all, over, remove_locked,
  evict_main_locked, evict_hot_locked,
}

unfoldable pub metadata_of : MemEntry → Metadata
metadata_of e = record {
  blob_id = e.blob_id;
  size_bytes = length e.body;
  hash = e.hash;
  stored_at = e.stored_at;
  last_access = e.last_access;
  hit_count = e.hits;
  pinned = e.pinned;
  non_evictable = e.non_evictable;
}

-- `!entry.expiresAt.IsZero() && now.After(entry.expiresAt)`
abbrev pub expired : MemEntry → ℕ → Bool
expired e now = not (e.expires_at == 0) && ltb e.expires_at now

module _ {F : Type 0} where
  -- `MoveToFront` on the list that the element's flag names, after the counters are stepped.
  unfoldable pub touch : MemoryCache F → ℕ → ℕ → MemoryCache F
  unfolding update move_to_front
  touch c el now =
      let entry = c.value el in
      record c {
        value = update c.value el (record entry { hits = u64 (entry.hits + 1); last_access = now });
        stats = record (c.stats) { hits = u64 (c.stats.hits + 1) };
        hot = if entry.pinned then move_to_front el c.hot else c.hot;
        main = if entry.pinned then c.main else move_to_front el c.main;
      }

  abbrev pub count_miss : MemoryCache F → MemoryCache F
  count_miss c = record c { stats = record (c.stats) { misses = u64 (c.stats.misses + 1) } }

  unfoldable pub get_found :
      MemoryCache F → ℕ → ℕ → MemoryCache F × Result CacheError (List ℕ × Metadata)
  unfolding remove_locked touch metadata_of
  get_found c el now =
      if expired (c.value el) now
      then (count_miss (remove_locked c el), err miss)
      else (touch c el now, ok ((c.value el).body, metadata_of ((touch c el now).value el)))

  unfoldable pub get_indexed :
      MemoryCache F → Option ℕ → ℕ → MemoryCache F × Result CacheError (List ℕ × Metadata)
  unfolding get_found
  get_indexed c none now = (count_miss c, err miss)
  get_indexed c (some el) now = get_found c el now

  -- `Get`: the cache after it, and the body with its metadata or an error.
  unfoldable pub get :
      MemoryCache F → String → ℕ → MemoryCache F × Result CacheError (List ℕ × Metadata)
  unfolding get_indexed
  get c blob_id now =
      if str_eq blob_id ""
      then (c, err blob_id_required)
      else get_indexed c (lookup blob_id c.index) now

  unfoldable pub remove_existing : MemoryCache F → Option ℕ → MemoryCache F
  remove_existing c none = c
  remove_existing c (some el) = remove_locked c el

  unfoldable pub expiry : EvictionPolicy F → PutOptions → ℕ → ℕ
  expiry policy opts now =
      if ltℤ (pos 0) opts.ttl
      then now + pos_part opts.ttl
      else if ltℤ (pos 0) policy.ttl
      then now + pos_part policy.ttl
      else 0

  unfoldable pub new_entry : EvictionPolicy F → String → List ℕ → PutOptions → ℕ → MemEntry
  unfolding expiry
  new_entry policy blob_id data_ opts now = record {
    blob_id = blob_id;
    body = data_;
    hash = opts.hash;
    stored_at = now;
    last_access = now;
    hits = 0;
    pinned = opts.pin_hot && str_eq policy.kind eviction_lru_hot_pin;
    non_evictable = opts.non_evictable;
    expires_at = expiry policy opts now;
  }

  -- `PushFront` of the new entry, and its accounting.
  unfoldable pub push_entry : MemoryCache F → MemEntry → MemoryCache F
  unfolding update
  push_entry c entry =
      let size = length entry.body in
      let index = insert entry.blob_id c.next c.index in
      record c {
        value = update c.value c.next entry;
        next = suc c.next;
        hot = if entry.pinned then c.next ∷ c.hot else c.hot;
        main = if entry.pinned then c.main else c.next ∷ c.main;
        index = index;
        hot_bytes = if entry.pinned then c.hot_bytes + size else c.hot_bytes;
        bytes_used = c.bytes_used + size;
        stats = record (c.stats) { entries = length index; bytes_used = c.bytes_used + size };
      }

  -- The two evictions that make room for an entry.
  unfoldable pub make_room : MemoryCache F → Bool → ℕ → MemoryCache F
  make_room c pin size = evict_main_locked (if pin then evict_hot_locked c size else c) size

  unfoldable pub put_locked : MemoryCache F → String → List ℕ → PutOptions → ℕ → MemoryCache F
  unfolding new_entry
  put_locked c blob_id data_ opts now =
      let entry = new_entry c.policy blob_id data_ opts now in
      let c' = remove_existing c (lookup blob_id c.index) in
      push_entry (make_room c' entry.pinned (length data_)) entry

  unfoldable pub read_body : EvictionPolicy F → Reader → Result CacheError (List ℕ)
  unfolding read_limited read_all limit_above
  read_body policy r =
      if ltℤ (pos 0) policy.max_bytes
      then read_limited (limit_above (pos_part policy.max_bytes)) r
      else read_all r

  unfoldable pub put_from :
      MemoryCache F → String → Option Reader → PutOptions → ℕ → Result CacheError (MemoryCache F)
  put_from c blob_id none opts now = err reader_required
  put_from c blob_id (some r) opts now = do
    reject
        (ltℤ (pos 0) opts.size_bytes
          && ltℤ (pos 0) c.policy.max_bytes
          && ltℤ c.policy.max_bytes opts.size_bytes)
        exceeds_capacity
    data_ ← read_body c.policy r
    reject (ltℤ (pos 0) c.policy.max_bytes && over c.policy.max_bytes (length data_))
        exceeds_capacity
    ok (put_locked c blob_id data_ opts now)

  -- `Put`; on an error the cache is as before.
  unfoldable pub put :
      MemoryCache F → String → Option Reader → PutOptions → ℕ → Result CacheError (MemoryCache F)
  unfolding put_from
  put c blob_id r opts now = do
    reject (str_eq blob_id "") blob_id_required
    put_from c blob_id r opts now

  unfoldable pub evict : MemoryCache F → String → MemoryCache F
  unfolding remove_existing
  evict c blob_id = remove_existing c (lookup blob_id c.index)

  module _ ⦃fl : Float64 F⦄ where
    unfoldable pub with_kind : EvictionPolicy F → EvictionPolicy F
    with_kind policy =
        if str_eq policy.kind "" then record policy { kind = eviction_lru } else policy

    unfoldable pub hot_limit_of : EvictionPolicy F → ℤ
    hot_limit_of policy =
        if str_eq policy.kind eviction_lru_hot_pin
          && fl.lt (fl.literal 0 0) policy.hot_region_fraction
          && ltℤ (pos 0) policy.max_bytes
        then fl.to_int64 (fl.mul (fl.of_int64 policy.max_bytes) policy.hot_region_fraction)
        else pos 0

    -- `unallocated` is what an address holds before it is allocated; nothing reads it.
    unfoldable pub new_memory_cache :
        MemEntry → EvictionPolicy F → Result CacheError (MemoryCache F)
    unfolding with_kind hot_limit_of
    new_memory_cache unallocated policy = do
      let policy = with_kind policy
      validate policy
      ok (record {
        policy = policy;
        hot = [];
        main = [];
        value = λ _. unallocated;
        next = 0;
        index = [];
        bytes_used = 0;
        hot_limit = hot_limit_of policy;
        hot_bytes = 0;
        stats = record {
          entries = 0;
          bytes_used = 0;
          bytes_limit = policy.max_bytes;
          hits = 0;
          misses = 0;
          evictions = 0;
        };
      })
