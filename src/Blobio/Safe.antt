-- ===== src/Blobio/Safe.antt =====
-- `Write`, `Promote` and `Evict` keep every blob that is not durable yet in the cache.
use mathlib.Core.Option.{some-injective}
use kdrive.Common.{
  Result-cases, ℕ, String, ◌≡◌, ◌≢◌, refl, sym, ◌∙◌, ap, subst, inl, inr, Bool, true, false,
  if_intro, List, Option, none, some, str_eq, Bool-cases, eq_iff, Result, ok, err, Result_intro,
  Reader, pos, length,
}
use kdrive.Common.Dict.{ne_of_str_eq, lookup, lookup-insert_self, lookup-insert_ne}
use kdrive.HotCache.{CacheError, PutOptions}
use kdrive.Blobio.State.{
  CommitState, cached, durable, BlobStatus, WriteResult, WriteOptions, PipelineError, cache_put,
  cache_evict, sync_promote, CacheOps, StoreOps, Extern, status_put, Pipeline,
}
use kdrive.Blobio.Promotion.{promote}
use kdrive.Blobio.Methods.{
  is_durable, written_status, written, commit, write, evict_cached, evict_in, evict,
}
use kdrive.Blobio.Outcome.{promote-Outcome}
use kdrive.Blobio.Keeping.{CacheLaws, promote-Ending}

cached-ne-durable : ◌≡◌ {A = CommitState} cached durable → ⊥
cached-ne-durable h = cc

absurd_bool : true ≡ false → ⊥
absurd_bool h = cc

is_durable-ne-cached : (s : CommitState) → is_durable s ≡ true → s ≢ cached
is_durable-ne-cached durable d h = cached-ne-durable (sym h)
is_durable-ne-cached cached d h = absurd_bool (sym d)

pub none-ne-some : {A : Type 0} {a : A} → none ≡ some a → ⊥
none-ne-some h = cc

pub not_cached : (st : BlobStatus) → st.commit_state ≡ durable → st.commit_state ≢ cached
not_cached st d c = cached-ne-durable (sym c ∙ d)

module _ {C : Type 0} ⦃cache : CacheOps C⦄ ⦃laws : CacheLaws C⦄ ⦃ext : Extern⦄ where
  -- The cache keeps bytes with the size and the checksum of the status.
  abbrev pub Backed : C → String → BlobStatus → Type 0
  Backed c id st =
      (b : List ℕ) × laws.Kept c id b
      × (ext.sha256_hex b ≡ st.checksum_sha256)
      × (length b ≡ st.size)

module _ {C S : Type 0} ⦃cache : CacheOps C⦄ ⦃laws : CacheLaws C⦄ ⦃store : StoreOps S⦄
    ⦃ext : Extern⦄ where
  -- Every blob that is CACHED, and not durable, is backed by the cache.
  pub record Safe (p : Pipeline C S) : Type 0 where
    pub fine : laws.Fine p.cache
    pub backed :
        (id : String) (st : BlobStatus)
        → lookup id p.status ≡ some st
        → st.commit_state ≡ cached
        → Backed p.cache id st

  -- A step that may lose only the entry of `id`, whose status it leaves durable or without value.
  pub Safe-except :
      (p q : Pipeline C S) (id : String)
      → Safe p
      → laws.Fine q.cache
      → ((j : String) (b : List ℕ) → id ≢ j → laws.Kept p.cache j b → laws.Kept q.cache j b)
      → ((j : String) → id ≢ j → lookup j q.status ≡ lookup j p.status)
      → ((st : BlobStatus)
          → lookup id q.status ≡ some st
          → st.commit_state ≡ cached
          → Backed q.cache id st)
      → Safe q
  Safe-except p q id s fine kept same own = record {
    fine = fine;
    backed = λ j st found c. elim (Bool-cases (str_eq id j)) [
      | inl e ↦
          let at = (eq_iff id j).0 e in
          subst (λ i. Backed q.cache i st) at
            (own st (subst (λ i. lookup i q.status ≡ some st) (sym at) found) c)
      | inr e ↦
          let ne = ne_of_str_eq id j e in
          let b = s.backed j st (sym (same j ne) ∙ found) c in (b.0, kept j b.0 ne b.1, b.2, b.3)
    ];
  }

  pub Safe-same :
      (p q : Pipeline C S)
      → Safe p
      → laws.Fine q.cache
      → ((j : String) (b : List ℕ) → laws.Kept p.cache j b → laws.Kept q.cache j b)
      → q.status ≡ p.status
      → Safe q
  Safe-same p q s fine kept same = record {
    fine = fine;
    backed = λ j st found c.
        let b = s.backed j st (sym (ap (lookup j) same) ∙ found) c in
        (b.0, kept j b.0 b.1, b.2, b.3);
  }

  pub promote-Safe : (p : Pipeline C S) (id : String) (now : ℕ) → Safe p → Safe (promote p id now).0
  promote-Safe p id now s =
      let out = promote-Outcome p id now in
      let end = promote-Ending p id now s.fine in
      elim (Result-cases (promote p id now).1) [
        | inl failed ↦
            Safe-same p _ s end.fine (end.failed failed.0 failed.1) (out.fails failed.0 failed.1)
        | inr done ↦
            let d = out.succeeds (done.1) in
            Safe-except p _ id s end.fine end.others out.others (λ st found c. absurd (
              not_cached d.0 d.2
                (ap (λ st'. st'.commit_state) (some-injective _ _ (sym d.1 ∙ found)) ∙ c)))
      ]

  commit-Safe :
      (p : Pipeline C S) (id : String) (body : List ℕ) (sync : Bool) (now : ℕ)
      → Safe p
      → Safe (commit p id body sync now).0
  unfolding commit
  commit-Safe p id body false now s = s
  commit-Safe p id body true now s =
      let done = promote p id now in
      Result_intro (λ (r : Pipeline C S × Result PipelineError WriteResult). Safe r.0) done.1
        (λ e. (done.0, err (sync_promote e))) (λ _. (done.0, ok (written durable id body)))
        (λ e. promote-Safe p id now s) (λ _. promote-Safe p id now s)

  after_put :
      (p : Pipeline C S) (id : String) (body : List ℕ) (opts : WriteOptions) (now : ℕ)
      → Safe p
      → (c : C) (r : Result CacheError (Unit {0})) → laws.Fine c
      → ((j : String) (b : List ℕ) → id ≢ j → laws.Kept p.cache j b → laws.Kept c j b)
      → ((e : CacheError)
          → r ≡ err e
          → (j : String) (b : List ℕ) → laws.Kept p.cache j b
          → laws.Kept c j b)
      → (r ≡ ok tt → laws.Kept c id body)
      → Safe
          (elim r as (λ _. Pipeline C S × Result PipelineError WriteResult) [
            | err e ↦ (record p { cache = c }, err (cache_put e))
            | ok _ ↦
                commit
                  (record p {
                    cache = c;
                    status = status_put p.status (written_status id body opts now);
                  })
                  id
                  body
                  opts.promote_sync
                  now
          ]).0
  unfolding status_put written_status
  after_put p id body opts now s c (err e) fine others failed kept =
      Safe-same p _ s fine (failed e refl) refl
  after_put p id body opts now s c (ok _) fine others failed kept =
      let st = written_status id body opts now in
      commit-Safe _ id body opts.promote_sync now (
        Safe-except p _ id s fine others (λ j ne. lookup-insert_ne id j st p.status ne)
          (λ st' found _.
            subst (Backed c id)
              (some-injective _ _ (sym (lookup-insert_self id st p.status) ∙ found))
              (body, kept refl, refl, refl)))

  pub write-Safe :
      (p : Pipeline C S) (id : String) (body : List ℕ) (opts : WriteOptions) (now : ℕ)
      → Safe p
      → Safe (write p id body opts now).0
  unfolding write written_status status_put
  write-Safe p id body opts now s =
      let r : Reader = record { bytes = body; fails = false } in
      let o : PutOptions = record {
        size_bytes = pos (length body);
        hash = ext.sha256_hex body;
        pin_hot = opts.pin_hot;
        non_evictable = true;
        ttl = pos 0;
      } in
      let put = cache.put p.cache id r o now in
      let st = written_status id body opts now in
      let fine = laws.put_fine p.cache id r o now s.fine in
      if_intro (λ (x : Pipeline C S × Result PipelineError WriteResult). Safe x.0) (str_eq id "") _
        _ (λ _. s)
        (λ _.
          after_put p id body opts now s put.0 put.1 fine
            (λ j b ne h. laws.put_others p.cache id r o now j b s.fine ne h)
            (λ e h j b k. laws.put_failed p.cache id r o now e j b s.fine h k)
            (λ h. laws.put_kept p.cache id r o now s.fine refl refl refl h))

  evict_cached-Safe :
      (p : Pipeline C S) (id : String)
      → Safe p
      → ((st : BlobStatus) → lookup id p.status ≡ some st → st.commit_state ≢ cached)
      → Safe (evict_cached p id).0
  unfolding evict_cached
  evict_cached-Safe p id s free =
      let gone = cache.evict p.cache id in
      let q : Pipeline C S = record p { cache = gone.0 } in
      let safe : Safe q =
        Safe-except p q id s (laws.evict_fine p.cache id s.fine)
          (λ j b ne h. laws.evict_others p.cache id j b s.fine ne h) (λ _ _. refl)
          (λ st found c. absurd (free st found c)) in
      Result_intro (λ (x : Pipeline C S × Result PipelineError (Unit {0})). Safe x.0) gone.1
        (λ e. (q, err (cache_evict e))) (λ _. (q, ok tt)) (λ _. safe) (λ _. safe)

  evict_in-Safe :
      (o : Option BlobStatus) (p : Pipeline C S) (id : String)
      → lookup id p.status ≡ o
      → Safe p
      → Safe (evict_in o p id).0
  unfolding evict_in
  evict_in-Safe none p id e s =
      evict_cached-Safe p id s (λ st found _. none-ne-some (sym e ∙ found))
  evict_in-Safe (some st) p id e s =
      if_intro (λ (x : Pipeline C S × Result PipelineError (Unit {0})). Safe x.0)
        (is_durable st.commit_state) _ _
        (λ d. evict_cached-Safe p id s (λ st' found c.
          is_durable-ne-cached st.commit_state d
            (ap (λ x. x.commit_state) (some-injective _ _ (sym e ∙ found)) ∙ c)))
        (λ _. s)

  pub evict-Safe : (p : Pipeline C S) (id : String) → Safe p → Safe (evict p id).0
  unfolding evict
  evict-Safe p id s = evict_in-Safe (lookup id p.status) p id refl s
