-- ===== src/Blobio/MemoryL1.antt =====
-- The memory cache as the pipeline's L1: `hotcache.MemoryCache` keeps what the pipeline relies on.
use kdrive.Common.{
  ℕ, ◌≡◌, refl, sym, ◌∙◌, ap, inl, inr, true, false, List, some, String, str_eq, Bool-cases, Result,
  ok, err, ok-injective, Reader, ltℤ, pos, max_int64,
}
use kdrive.HotCache.{CacheError, PutOptions, Metadata}
use kdrive.HotCache.Memory.State.{MemoryCache}
use kdrive.HotCache.Memory.Methods.{get, put, evict, new_entry, expiry, metadata_of}
use kdrive.HotCache.Memory.Invariant.{IsValid}
use kdrive.HotCache.Memory.Contents.{remove_existing_lem}
use kdrive.HotCache.Memory.Promises.{put-Stored, get-look, look, hit}
use kdrive.HotCache.Memory.Whole.{put-whole}
use kdrive.HotCache.Memory.Runs.{
  get_call, put_call, evict_call, kept_on_error, get_unnamed, step, step-IsValid, Holds, step-Holds,
}
use kdrive.Blobio.State.{CacheOps}
use kdrive.Blobio.Methods.{read}
use kdrive.Blobio.Keeping.{CacheLaws}

-- A `bytes.Reader` of what is stored.
abbrev pub opened : Result CacheError (List ℕ × Metadata) → Result CacheError (Reader × Metadata)
opened (ok got) = ok (record { bytes = got.0; fails = false }, got.1)
opened (err e) = err e

abbrev pub outcome : {A : Type 0} → Result CacheError A → Result CacheError (Unit {0})
outcome (ok _) = ok tt
outcome (err e) = err e

instance abbrev pub memory_cache : {F : Type 0} → CacheOps (MemoryCache F)
memory_cache = record {
  get = λ c id now. ((get c id now).0, opened (get c id now).1);
  put = λ c id r o now.
      (kept_on_error c (put c id (some r) o now), outcome (put c id (some r) o now));
  evict = λ c id. (evict c id, ok tt);
}

module _ {F : Type 0} where
  -- A valid cache whose policy sets no expiry and a limit below the largest `int64`.
  abbrev pub Lasting : MemoryCache F → Type 0
  Lasting c =
      IsValid c
      × (ltℤ (pos 0) c.policy.ttl ≡ false)
      × (ltℤ c.policy.max_bytes (pos max_int64) ≡ true)

  abbrev pub Protects : MemoryCache F → String → List ℕ → Type 0
  Protects c id b = (str_eq id "" ≡ false) × Holds c id b

  get-policy :
      (c : MemoryCache F) (id : String) (now : ℕ) → IsValid c → (get c id now).0.policy ≡ c.policy
  get-policy c id now v = elim (Bool-cases (str_eq id "")) [
    | inl e ↦ ap (λ d. d.policy) (get_unnamed c id now e)
    | inr e ↦ (get-look c id now v e).1
  ]

  put-policy :
      (c : MemoryCache F) (id : String) (r : Reader) (o : PutOptions) (now : ℕ)
      → IsValid c
      → (kept_on_error c (put c id (some r) o now)).policy ≡ c.policy
  put-policy c id r o now v = go (put c id (some r) o now) refl
    where
      go :
          (m : Result CacheError (MemoryCache F))
          → put c id (some r) o now ≡ m
          → (kept_on_error c m).policy ≡ c.policy
      go (ok c') h = (put-Stored c c' id r o now v h).2.policy_same
      go (err e) h = refl

  evict-policy : (c : MemoryCache F) (id : String) → IsValid c → (evict c id).policy ≡ c.policy
  unfolding evict
  evict-policy c id v = (remove_existing_lem c id v).2

  Lasting-policy : (c d : MemoryCache F) → IsValid d → d.policy ≡ c.policy → Lasting c → Lasting d
  Lasting-policy c d v same fine = (
    v,
    ap (λ p. ltℤ (pos 0) p.ttl) same ∙ fine.1,
    ap (λ p. ltℤ p.max_bytes (pos max_int64)) same ∙ fine.2,
  )

  put-Protects :
      (c : MemoryCache F) (id : String) (r : Reader) (o : PutOptions) (now : ℕ)
      → Lasting c
      → r.fails ≡ false
      → o.non_evictable ≡ true
      → o.ttl ≡ pos 0
      → outcome (put c id (some r) o now) ≡ ok tt
      → Protects (kept_on_error c (put c id (some r) o now)) id r.bytes
  put-Protects c id r o now fine whole protected no_ttl = go (put c id (some r) o now) refl
    where
      go :
          (m : Result CacheError (MemoryCache F))
          → put c id (some r) o now ≡ m
          → outcome m ≡ ok tt
          → Protects (kept_on_error c m) id r.bytes
      go (err e) h done = cc
      go (ok c') h done =
          let (named, read) = put-whole c c' id r o now whole fine.2 h in
          let (body, read', s) = put-Stored c c' id r o now fine.0 h in
          let same = ok-injective body r.bytes (sym read' ∙ read) in
          (
            named,
            (unfold Holds in
                (
                  new_entry c.policy id body o now,
                  s.stored,
                  record {
                    same_body = unfold new_entry in same;
                    protected = unfold new_entry in protected;
                    lasting = unfold new_entry expiry in rw (no_ttl, fine.1) refl;
                  },
                )),
          )

  put-failed :
      (c : MemoryCache F) (m : Result CacheError (MemoryCache F)) (e : CacheError) (j : String)
      (b : List ℕ)
      → outcome m ≡ err e
      → Protects c j b
      → Protects (kept_on_error c m) j b
  put-failed c (ok c') e j b failed h = cc
  put-failed c (err _) e j b failed h = h

  get-Protects :
      (c : MemoryCache F) (id : String) (now : ℕ) (b : List ℕ)
      → Lasting c
      → Protects c id b
      → (m : Metadata) × (opened (get c id now).1 ≡ ok (record { bytes = b; fails = false }, m))
  unfolding Holds
  get-Protects c id now b fine (named, (e, stored, safe)) =
      let (_, _, _, result, _) = get-look c id now fine.0 named in
      (
        metadata_of (hit e now),
        ap opened (result ∙ ap (λ o. (look o now).1) stored)
            ∙ rw safe.lasting (rw safe.same_body refl),
      )

  instance pub memory_cache_laws : CacheLaws (MemoryCache F)
  unfolding step
  memory_cache_laws = record {
    Fine = Lasting;
    Kept = Protects;
    get_fine = λ c id now fine.
        Lasting-policy c _ (step-IsValid c (get_call id now) fine.0) (get-policy c id now fine.0)
          fine;
    put_fine = λ c id r o now fine.
        Lasting-policy c _ (step-IsValid c (put_call id (some r) o now) fine.0)
          (put-policy c id r o now fine.0) fine;
    evict_fine = λ c id fine.
        Lasting-policy c _ (step-IsValid c (evict_call id) fine.0) (evict-policy c id fine.0) fine;
    put_kept = put-Protects;
    put_others = λ c id r o now j b fine ne h.
        (h.0, step-Holds c j b (put_call id (some r) o now) fine.0 ne h.1);
    put_failed =
        λ c id r o now e j b _ failed h. put-failed c (put c id (some r) o now) e j b failed h;
    get_keeps = λ c id now j b fine h. (h.0, step-Holds c j b (get_call id now) fine.0 tt h.1);
    get_kept = get-Protects;
    evict_others = λ c id j b fine ne h. (h.0, step-Holds c j b (evict_call id) fine.0 ne h.1);
  }

  pub Lasting-Fine : (c : MemoryCache F) → Lasting c → memory_cache_laws.Fine c
  unfolding memory_cache_laws
  Lasting-Fine c fine = fine
