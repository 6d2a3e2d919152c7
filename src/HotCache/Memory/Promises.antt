-- ===== src/HotCache/Memory/Promises.antt =====
-- What `NewMemoryCache`, `Get`, `Put` and `Evict` promise a client.
use kdrive.Common.{
  ℕ, ◌+◌, ◌≡◌, refl, sym, ◌∙◌, subst, ◌≢◌, inl, inr, true, false, List, Option, none, some, String,
  length, Bool-cases, arith, if◌then◌else◌, str_eq, eq_iff, Result, ok, err, ltℤ, pos, ◌&&◌,
  reject-eq-ok, >>=-eq-ok, ok-injective, ℤ, negsuc, take_of_length-le, pos_part, All-map, Reader,
  max_int64, limit_above, limit_above-small,
}
use kdrive.Common.Dict.{lookup, str_eq_refl, lookup-delete}
use kdrive.HotCache.{
  CacheError, miss, blob_id_required, u64, PutOptions, Metadata, exceeds_capacity,
}
use kdrive.HotCache.Memory.State.{MemEntry, MemoryCache, over, remove_locked, read_limited}
use kdrive.HotCache.Memory.Methods.{
  metadata_of, touch, expired, count_miss, get_found, get_indexed, get, new_entry, read_body,
  put_locked, put_from, put, evict,
}
use kdrive.HotCache.Memory.Invariant.{IsValid, IsKnown, remove-IsValid, Listed}
use kdrive.HotCache.Memory.Insertion.{update_self, update_ne}
use kdrive.HotCache.Memory.Access.{touch-IsValid}
use kdrive.HotCache.Memory.Contents.{entry_at, view, Stored, put_locked-Stored, remove_existing_lem}

-- A reader that delivers no more than the limit is read whole.
read_limited_fits :
    (limit : ℤ) (r : Reader)
    → r.fails ≡ false
    → ltℤ (pos 0) limit ≡ true
    → ltℤ limit (pos max_int64) ≡ true
    → over limit (length r.bytes) ≡ false
    → read_limited (limit_above (pos_part limit)) r ≡ ok r.bytes
unfolding read_limited
read_limited_fits (pos n) r fine h small within =
    rw (limit_above-small n small, fine, take_of_length-le r.bytes (n + 1) (ground arith))
read_limited_fits (negsuc n) r fine h small within = absurd (cc)

-- The entry after a hit.
abbrev pub hit : MemEntry → ℕ → MemEntry
hit e now = record e { hits = u64 (e.hits + 1); last_access = now }

-- `Get` on what is stored under its key: what is stored after it, and its result.
abbrev pub look : Option MemEntry → ℕ → Option MemEntry × Result CacheError (List ℕ × Metadata)
look none now = (none, err miss)
look (some e) now =
    if expired e now
    then (none, err miss)
    else (some (hit e now), ok (e.body, metadata_of (hit e now)))

module _ {F : Type 0} where
  put_from_lem :
      (c c' : MemoryCache F) (k : String) (r : Reader) (opts : PutOptions) (now : ℕ)
      → IsValid c
      → put_from c k (some r) opts now ≡ ok c'
      → (body : List ℕ) × (read_body c.policy r ≡ ok body)
        × Stored c c' k (new_entry c.policy k body opts now)
  unfolding put_from
  put_from_lem c c' k r opts now v h =
      let (_, h1) = reject-eq-ok _ exceeds_capacity _ c' h in
      let (body, read, h2) = >>=-eq-ok (read_body c.policy r) _ c' h1 in
      let (_, h3) = reject-eq-ok _ exceeds_capacity (ok (put_locked c k body opts now)) c' h2 in
      (
        body,
        read,
        subst (λ d. Stored c d k (new_entry c.policy k body opts now)) (ok-injective _ c' h3)
            (put_locked-Stored c k body opts now v),
      )

  -- After a `Put` that succeeds on a valid cache, the cache is valid; the blob id holds the bytes
  -- read, with the options of the call; every other entry that was protected from eviction is
  -- there unchanged and no other entry is new; and if the policy limits the bytes, they are within
  -- the limit, or every other entry of the main list is protected.
  pub put-Stored :
      (c c' : MemoryCache F) (k : String) (r : Reader) (opts : PutOptions) (now : ℕ)
      → IsValid c
      → put c k (some r) opts now ≡ ok c'
      → (body : List ℕ) × (read_body c.policy r ≡ ok body)
        × Stored c c' k (new_entry c.policy k body opts now)
  unfolding put
  put-Stored c c' k r opts now v h = elim (Bool-cases (str_eq k "")) [
    | inl e ↦ let p : err blob_id_required ≡ ok c' = rw e at h in absurd (cc)
    | inr e ↦ put_from_lem c c' k r opts now v (rw e at h)
  ]

  -- A blob that fits is stored: with a blob id, a reader that does not fail, a policy's limit below
  -- the largest int64, and both the declared size and the bytes within the limit (or no limit), Put
  -- succeeds with the reader's bytes.
  pub put_fits :
      (c : MemoryCache F) (k : String) (r : Reader) (opts : PutOptions) (now : ℕ)
      → str_eq k "" ≡ false
      → r.fails ≡ false
      → ltℤ c.policy.max_bytes (pos max_int64) ≡ true
      → (ltℤ (pos 0) c.policy.max_bytes ≡ true
          → (ltℤ c.policy.max_bytes opts.size_bytes ≡ false)
            × (over c.policy.max_bytes (length r.bytes) ≡ false))
      → put c k (some r) opts now ≡ ok (put_locked c k r.bytes opts now)
  unfolding put put_from read_body
  put_fits c k r opts now id fine room fit = elim (Bool-cases (ltℤ (pos 0) c.policy.max_bytes)) [
    | inl e ↦
        let (small, within) = fit e in
        let q : (ltℤ (pos 0) opts.size_bytes && true && false) ≡ false = ground arith in
        rw (id, e, small, q, read_limited_fits c.policy.max_bytes r fine e room within, within)
    | inr e ↦
        let q : (ltℤ (pos 0) opts.size_bytes && false && ltℤ c.policy.max_bytes opts.size_bytes)
            ≡ false =
          ground arith in
        rw (id, e, fine, q)
  ]

  count_miss-IsValid : (c : MemoryCache F) → IsValid c → IsValid (count_miss c)
  count_miss-IsValid c v = record {
    hot_listed =
        All-map _ (Listed (count_miss c) true) c.hot
          (λ a l. record { flag = l.flag; known = l.known; allocated = l.allocated }) v.hot_listed;
    main_listed =
        All-map _ (Listed (count_miss c) false) c.main
          (λ a l. record { flag = l.flag; known = l.known; allocated = l.allocated }) v.main_listed;
    hot_distinct = v.hot_distinct;
    main_distinct = v.main_distinct;
    keys_unique = v.keys_unique;
    indexed = v.indexed;
    counted = v.counted;
    hot_sum = v.hot_sum;
    used_sum = v.used_sum;
    stat_entries = v.stat_entries;
    stat_bytes = v.stat_bytes;
  }

  touch-view_ne :
      (c : MemoryCache F) (el now : ℕ) (j : String)
      → IsValid c
      → (c.value el).blob_id ≢ j
      → view (touch c el now) j ≡ view c j
  unfolding touch
  touch-view_ne c el now j v ne = go (lookup j c.index) refl
    where
      go :
          (o : Option ℕ)
          → lookup j c.index ≡ o
          → entry_at (touch c el now).value o ≡ entry_at c.value o
      go none h = refl
      go (some a) h = rw (
          update_ne c.value el a (hit (c.value el) now)
            (λ p. ne (subst (λ x. (c.value x).blob_id ≡ j) p (v.indexed j a h).0)))

  GetSpec :
      MemoryCache F → MemoryCache F × Result CacheError (List ℕ × Metadata) → String → ℕ → Type 0
  GetSpec c r k now =
      IsValid r.0
      × (r.0.policy ≡ c.policy)
      × (view r.0 k ≡ (look (view c k) now).0)
      × (r.1 ≡ (look (view c k) now).1)
      × ((j : String) → k ≢ j → view r.0 j ≡ view c j)

  get_found_lem :
      (c : MemoryCache F) (k : String) (el now : ℕ)
      → IsValid c
      → lookup k c.index ≡ some el
      → GetSpec c (get_found c el now) k now
  unfolding GetSpec get_found
  get_found_lem c k el now v h =
      let id = (v.indexed k el h).0 in
      let known : IsKnown c el = rw id h in
      elim (Bool-cases (expired (c.value el) now)) [
        | inl e ↦
            let gone = λ (j : String). lookup-delete (c.value el).blob_id j c.index in
            rw (h, e)
              (unfold remove_locked in
                (
                  count_miss-IsValid (remove_locked c el) (remove-IsValid c el v known),
                  refl,
                  rw (gone k, id) (rw (str_eq_refl k)),
                  refl,
                  λ j ne. rw (gone j, id) (ground (arith, eq_iff k j)),
                ))
        | inr e ↦
            rw (h, e, update_self c.value el (hit (c.value el) now))
              (
                touch-IsValid c el now v known,
                (unfold touch in refl),
                (unfold touch in rw (h, update_self c.value el (hit (c.value el) now))),
                refl,
                λ j ne. touch-view_ne c el now j v (λ p. ne (sym id ∙ p)),
              )
      ]

  pub get-look :
      (c : MemoryCache F) (k : String) (now : ℕ)
      → IsValid c
      → str_eq k "" ≡ false
      → IsValid (get c k now).0
        × ((get c k now).0.policy ≡ c.policy)
        × (view (get c k now).0 k ≡ (look (view c k) now).0)
        × ((get c k now).1 ≡ (look (view c k) now).1)
        × ((j : String) → k ≢ j → view (get c k now).0 j ≡ view c j)
  unfolding get GetSpec
  get-look c k now v named = rw (named) (go (lookup k c.index) refl)
    where
      go : (o : Option ℕ) → lookup k c.index ≡ o → GetSpec c (get_indexed c o now) k now
      go none h =
          unfold get_indexed in rw (h) (count_miss-IsValid c v, refl, refl, refl, λ j ne. refl)
      go (some el) h = unfold get_indexed in get_found_lem c k el now v h

  -- Evict keeps a valid cache valid, removes exactly the entry under the blob id, a protected one
  -- too, and changes nothing under another id.
  pub evict-removes :
      (c : MemoryCache F) (k : String)
      → IsValid c
      → IsValid (evict c k)
        × ((j : String) → view (evict c k) j ≡ (if str_eq k j then none else view c j))
  unfolding evict
  evict-removes c k v =
      let (v', values, policies, nexts, look_at) = remove_existing_lem c k v in
      (v', λ j. rw (look_at j, values) (ground arith))
