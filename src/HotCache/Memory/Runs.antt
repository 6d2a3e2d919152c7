-- ===== src/HotCache/Memory/Runs.antt =====
-- Any sequence of calls on a `MemoryCache`, from its construction on.
use kdrive.Common.{
  ℕ, ◌≡◌, refl, ◌∙◌, subst, ◌≢◌, inl, inr, true, List, [], ◌∷◌, Option, none, some, String, All,
  Bool-cases, arith, str_eq, eq_iff, Result, ok, err, >>=-eq-ok, ok-injective, Reader,
}
use kdrive.Common.Dict.{lookup}
use kdrive.HotCache.{CacheError, PutOptions, Float64, EvictionPolicy, validate}
use kdrive.HotCache.Memory.State.{MemEntry, MemoryCache}
use kdrive.HotCache.Memory.Methods.{get, put, evict, new_memory_cache, with_kind, put_from}
use kdrive.HotCache.Memory.Invariant.{IsValid}
use kdrive.HotCache.Memory.Contents.{view}
use kdrive.HotCache.Memory.Promises.{put-Stored, get-look, look, evict-removes, hit}
use kdrive.HotCache.Memory.Elements.{total}

-- A call with its arguments and the time that the clock reads.
pub data Call : Type 0 where
  get_call : String → ℕ → Call
  put_call : String → Option Reader → PutOptions → ℕ → Call
  evict_call : String → Call

-- The entry is protected from eviction and does not expire.
pub record IsSafe (body : List ℕ) (e : MemEntry) : Type 0 where
  pub same_body : e.body ≡ body
  pub protected : e.non_evictable ≡ true
  pub lasting : e.expires_at ≡ 0

-- The call neither writes nor evicts the blob id.
abbrev pub SparesKey : String → Call → Type 0
SparesKey k (get_call j now) = Unit
SparesKey k (put_call j r opts now) = j ≢ k
SparesKey k (evict_call j) = j ≢ k

pub look_lasting :
    (e : MemEntry) (now : ℕ) → e.expires_at ≡ 0 → (look (some e) now).0 ≡ some (hit e now)
look_lasting e now h = rw h

module _ {F : Type 0} where
  -- A `Put` that fails changes nothing.
  abbrev pub kept_on_error : MemoryCache F → Result CacheError (MemoryCache F) → MemoryCache F
  kept_on_error c (ok c') = c'
  kept_on_error c (err e) = c

  unfoldable pub step : MemoryCache F → Call → MemoryCache F
  step c (get_call k now) = (get c k now).0
  step c (put_call k r opts now) = kept_on_error c (put c k r opts now)
  step c (evict_call k) = evict c k

  unfoldable pub run_calls : MemoryCache F → List Call → MemoryCache F
  unfolding step
  run_calls c [] = c
  run_calls c (call ∷ calls) = run_calls (step c call) calls

  put_nil :
      (c : MemoryCache F) (k : String) (opts : PutOptions) (now : ℕ)
      → kept_on_error c (put c k none opts now) ≡ c
  unfolding put put_from
  put_nil c k opts now = elim (Bool-cases (str_eq k "")) [ inl e ↦ rw e | inr e ↦ rw e ]

  pub get_unnamed :
      (c : MemoryCache F) (k : String) (now : ℕ) → str_eq k "" ≡ true → (get c k now).0 ≡ c
  unfolding get
  get_unnamed c k now e = rw e

  put-IsValid :
      (c : MemoryCache F) (k : String) (r : Option Reader) (opts : PutOptions) (now : ℕ)
      → IsValid c
      → IsValid (kept_on_error c (put c k r opts now))
  put-IsValid c k none opts now v = rw (put_nil c k opts now) v
  put-IsValid c k (some r) opts now v = go (put c k (some r) opts now) refl
    where
      go :
          (m : Result CacheError (MemoryCache F))
          → put c k (some r) opts now ≡ m
          → IsValid (kept_on_error c m)
      go (ok c') h = let (body, read, s) = put-Stored c c' k r opts now v h in s.valid
      go (err e) h = v

  pub step-IsValid : (c : MemoryCache F) (call : Call) → IsValid c → IsValid (step c call)
  unfolding step
  step-IsValid c (get_call k now) v = elim (Bool-cases (str_eq k "")) [
    | inl e ↦ rw (get_unnamed c k now e) v
    | inr e ↦ (get-look c k now v e).0
  ]
  step-IsValid c (put_call k r opts now) v = put-IsValid c k r opts now v
  step-IsValid c (evict_call k) v = (evict-removes c k v).0

  run_calls_from-IsValid :
      (c : MemoryCache F) (calls : List Call) → IsValid c → IsValid (run_calls c calls)
  unfolding run_calls
  run_calls_from-IsValid c [] v = v
  run_calls_from-IsValid c (call ∷ calls) v =
      run_calls_from-IsValid (step c call) calls (step-IsValid c call v)

  module _ ⦃fl : Float64 F⦄ where
    pub new-IsValid :
        (unallocated : MemEntry) (policy : EvictionPolicy F) (c : MemoryCache F)
        → new_memory_cache unallocated policy ≡ ok c
        → IsValid c
    unfolding new_memory_cache
    new-IsValid unallocated policy c h =
        let (_, _, made) = >>=-eq-ok (validate (with_kind policy)) _ c h in
        subst IsValid (ok-injective _ c made) (record {
          hot_listed = tt;
          main_listed = tt;
          hot_distinct = tt;
          main_distinct = tt;
          keys_unique = tt;
          indexed = λ k a l. absurd (let p : none ≡ some a = (unfold lookup in l) in cc);
          counted = omega arith;
          hot_sum = unfold total in refl;
          used_sum = unfold total in omega arith;
          stat_entries = refl;
          stat_bytes = refl;
        })

    -- From `NewMemoryCache` on, any calls of `Get`, `Put` and `Evict`, those that fail too, leave a
    -- cache whose index and lists agree and whose counters of entries and bytes are exact.
    pub run_calls-IsValid :
        (unallocated : MemEntry) (policy : EvictionPolicy F) (c : MemoryCache F) (calls : List Call)
        → new_memory_cache unallocated policy ≡ ok c
        → IsValid (run_calls c calls)
    run_calls-IsValid unallocated policy c calls h =
        run_calls_from-IsValid c calls (new-IsValid unallocated policy c h)

  unfoldable pub Holds : MemoryCache F → String → List ℕ → Type 0
  Holds c k body = (e : MemEntry) × (view c k ≡ some e) × IsSafe body e

  pub step-Holds :
      (c : MemoryCache F) (k : String) (body : List ℕ) (call : Call)
      → IsValid c
      → SparesKey k call
      → Holds c k body
      → Holds (step c call) k body
  unfolding step Holds
  step-Holds c k body (get_call j now) v s (e, at_k, safe) = elim (Bool-cases (str_eq j "")) [
    | inl n ↦ (e, rw (get_unnamed c j now n) at_k, safe)
    | inr n ↦
        let (_, _, self, _, other) = get-look c j now v n in
        elim (Bool-cases (str_eq j k)) [
          | inl same ↦
              let at_self =
                subst (λ x. view (get c j now).0 x ≡ (look (view c x) now).0) ((eq_iff j k).0 same)
                  self in
              (
                hit e now,
                at_self ∙ rw at_k (look_lasting e now safe.lasting),
                record {
                  same_body = safe.same_body;
                  protected = safe.protected;
                  lasting = safe.lasting;
                },
              )
          | inr ne ↦ (e, other k (λ p. ground (arith, eq_iff j k)) ∙ at_k, safe)
        ]
  ]
  step-Holds c k body (put_call j none opts now) v s (e, at_k, safe) =
      (e, rw (put_nil c j opts now) at_k, safe)
  step-Holds c k body (put_call j (some r) opts now) v s (e, at_k, safe) =
      go (put c j (some r) opts now) refl
    where
      go :
          (m : Result CacheError (MemoryCache F))
          → put c j (some r) opts now ≡ m
          → (e : MemEntry) × (view (kept_on_error c m) k ≡ some e) × IsSafe body e
      go (ok c') h =
          let (bytes, read, st) = put-Stored c c' j r opts now v h in
          (e, st.protected k e s at_k safe.protected, safe)
      go (err x) h = (e, at_k, safe)
  step-Holds c k body (evict_call j) v s (e, at_k, safe) =
      (e, (evict-removes c j v).1 k ∙ ground (arith, eq_iff j k), safe)

  run_calls-Holds :
      (c : MemoryCache F) (k : String) (body : List ℕ) (calls : List Call)
      → IsValid c
      → All (SparesKey k) calls
      → Holds c k body
      → Holds (run_calls c calls) k body
  unfolding run_calls
  run_calls-Holds c k body [] v s h = h
  run_calls-Holds c k body (call ∷ calls) v s h =
      run_calls-Holds (step c call) k body calls (step-IsValid c call v) s.1
        (step-Holds c k body call v s.0 h)

  -- On a valid cache, a protected blob that does not expire survives any calls that neither write
  -- nor evict its own id, however much they store: the entry is still there with the same bytes,
  -- still protected and without an expiry.
  pub run_calls-protected :
      (c : MemoryCache F) (k : String) (e : MemEntry) (calls : List Call)
      → IsValid c
      → All (SparesKey k) calls
      → view c k ≡ some e
      → e.non_evictable ≡ true
      → e.expires_at ≡ 0
      → (e' : MemEntry) × (view (run_calls c calls) k ≡ some e') × IsSafe e.body e'
  unfolding Holds
  run_calls-protected c k e calls v s at_k p l =
      run_calls-Holds c k e.body calls v s
        (e, at_k, record { same_body = refl; protected = p; lasting = l })
