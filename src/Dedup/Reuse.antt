-- ===== src/Dedup/Reuse.antt =====
-- Where reused and new blob keys come from (internal/server/drive_dedup_api.go).
use mathlib.Core.Option.{some-injective}
use kdrive.Common.{
  String, Bool, true, false, not, ◌≡◌, refl, sym, ◌∙◌, inl, inr, List, [], ◌∷◌, Option, none, some,
  str_eq, Result, ok, err, err-ne-ok, reject-eq-ok, >>=-eq-ok, ok-injective, length, without, All,
  In, Bool-cases, eq_iff, ◌⊎◌,
}
use kdrive.Common.Dict.{lookup, insert, lookup-insert}
use kdrive.BlobStore.{StoreError, ObjectMeta}
use kdrive.Dedup.State.{
  Response, committed, ContentChunk, MemContentEntry, ContentDb, Objects, Gateway,
}
use kdrive.Dedup.Memory.{get_mem_content, chunks_under, add_hashes, known_hashes}
use kdrive.Dedup.Commit.{
  CommitBody, known, check_reused, check_reused_mem, check_uploaded, check_new, check_reused_db,
  commit_body,
}

-- A chunk with this hash and key.
abbrev pub Offers : List ContentChunk → String → String → Type 0
Offers [] h k = ⊥
Offers (c ∷ cs) h k = ((c.chunk_content_hash ≡ h) × (c.blob_key ≡ k)) ⊎ Offers cs h k

-- A chunk with this hash and key, of a content entry of this tenant.
abbrev pub TenantOffers :
    String
    → List (String × List ContentChunk)
    → List (String × MemContentEntry)
    → String
    → String
    → Type 0
TenantOffers tenant_id chunks [] h k = ⊥
TenantOffers tenant_id chunks (e ∷ es) h k =
    ((e.1.tenant_id ≡ tenant_id) × Offers (chunks_under (lookup e.0 chunks)) h k)
    ⊎ TenantOffers tenant_id chunks es h k

insert-split :
    (i j k v : String) (m : List (String × String))
    → lookup j (insert i v m) ≡ some k
    → ((i ≡ j) × (v ≡ k)) ⊎ (lookup j m ≡ some k)
insert-split i j k v m e = elim (Bool-cases (str_eq i j)) [
  | inl same ↦
      inl ((eq_iff i j).0 same, some-injective v k (sym (lookup-insert i j v m ∙ rw same refl) ∙ e))
  | inr other ↦ inr (sym (lookup-insert i j v m ∙ rw other refl) ∙ e)
]

add_hashes-Offers :
    (cs : List ContentChunk) (known : List (String × String)) (h k : String)
    → lookup h (add_hashes cs known) ≡ some k
    → Offers cs h k ⊎ (lookup h known ≡ some k)
unfolding add_hashes
add_hashes-Offers [] known h k e = inr e
add_hashes-Offers (c ∷ cs) known h k e = elim (add_hashes-Offers cs _ h k e) [
  | inl later ↦ inl (inr later)
  | inr before ↦ elim (insert-split c.chunk_content_hash h k c.blob_key known before) [
    | inl here ↦ inl (inl here)
    | inr old ↦ inr old
  ]
]

known_hashes-from :
    (tenant_id : String) (chunks : List (String × List ContentChunk))
    (es : List (String × MemContentEntry)) (known : List (String × String)) (h k : String)
    → lookup h (known_hashes tenant_id chunks es known) ≡ some k
    → TenantOffers tenant_id chunks es h k ⊎ (lookup h known ≡ some k)
unfolding known_hashes
known_hashes-from tenant_id chunks [] known h k e = inr e
known_hashes-from tenant_id chunks (entry ∷ es) known h k e =
    elim (Bool-cases (str_eq entry.1.tenant_id tenant_id)) [
      | inr other ↦ elim (known_hashes-from tenant_id chunks es known h k (rw other at e)) [
        | inl later ↦ inl (inr later)
        | inr old ↦ inr old
      ]
      | inl own ↦
          elim (known_hashes-from tenant_id chunks es
            (add_hashes (chunks_under (lookup entry.0 chunks)) known) h k (rw own at e)) [
              | inl later ↦ inl (inr later)
              | inr added ↦ elim (add_hashes-Offers _ known h k added) [
                | inl here ↦ inl (inl ((eq_iff entry.1.tenant_id tenant_id).0 own, here))
                | inr old ↦ inr old
              ]
            ]
    ]

-- Chunk-level dedup stays within the tenant: in whatever order the map is iterated, a hash of the
-- request is answered with a blob key only if a chunk with that hash and that key belongs to a
-- content entry of the asking tenant.
pub known_hashes-tenant :
    (tenant_id : String) (chunks : List (String × List ContentChunk))
    (es : List (String × MemContentEntry)) (h k : String)
    → lookup h (known_hashes tenant_id chunks es []) ≡ some k
    → TenantOffers tenant_id chunks es h k
unfolding lookup
known_hashes-tenant tenant_id chunks es h k e =
    elim (known_hashes-from tenant_id chunks es [] h k e) [ inl offers ↦ offers | inr old ↦ cc ]

known-In : (k : String) (keys : List String) → known k keys ≡ true → In k keys
unfolding known
known-In k [] e = cc
known-In k (x ∷ xs) e = elim (Bool-cases (str_eq k x)) [
  | inl same ↦ inl (sym ((eq_iff k x).0 same))
  | inr other ↦ inr (known-In k xs (rw other at e))
]

check_reused-In :
    (keys reused : List String) → check_reused keys reused ≡ ok tt → All (λ k. In k keys) reused
unfolding check_reused
check_reused-In keys [] e = tt
check_reused-In keys (k ∷ ks) e = elim (Bool-cases (known k keys)) [
  | inl there ↦ (known-In k keys there, check_reused-In keys ks (rw there at e))
  | inr missing ↦ absurd (err-ne-ok _ tt (rw missing at e))
]

-- The tenant's entry, with every reused key among its blob keys.
abbrev pub Reuses : Option MemContentEntry → String → List String → Type 0
Reuses entry tenant_id reused =
    (own : MemContentEntry) × (entry ≡ some own)
    × (own.tenant_id ≡ tenant_id)
    × All (λ k. In k own.blob_keys) reused

check_reused_mem-Reuses :
    (entry : Option MemContentEntry) (tenant_id : String) (reused : List String)
    → check_reused_mem entry tenant_id reused ≡ ok tt
    → Reuses entry tenant_id reused
unfolding check_reused_mem
check_reused_mem-Reuses none tenant_id reused e = absurd (err-ne-ok _ tt e)
check_reused_mem-Reuses (some own) tenant_id reused e =
    elim (Bool-cases (str_eq own.tenant_id tenant_id)) [
      | inl same ↦ (
        own,
        refl,
        (eq_iff own.tenant_id tenant_id).0 same,
        check_reused-In own.blob_keys reused (rw same at e),
      )
      | inr other ↦ absurd (err-ne-ok _ tt (rw other at e))
    ]

not-false : (b : Bool) → not b ≡ false → b ≡ true
not-false true h = refl
not-false false h = sym h

module _ {S : Type 0} ⦃objects : Objects S⦄ where
  abbrev pub Uploaded : S → String → Type 0
  Uploaded s k = (meta : ObjectMeta) × (objects.head s k ≡ ok meta)

  head_then :
      (s : S) (k : String) (head : Result StoreError ObjectMeta) (rest : Result Response (Unit {0}))
      (failure : StoreError → Response)
      → (elim head [ err e ↦ err (failure e) | ok _ ↦ rest ]) ≡ ok tt
      → ((meta : ObjectMeta) × (head ≡ ok meta)) × (rest ≡ ok tt)
  head_then s k (err e) rest failure h = absurd (err-ne-ok _ tt h)
  head_then s k (ok meta) rest failure h = ((meta, refl), h)

  check_uploaded-Uploaded :
      (s : S) (keys : List String) → check_uploaded s keys ≡ ok tt → All (Uploaded s) keys
  unfolding check_uploaded
  check_uploaded-Uploaded s [] e = tt
  check_uploaded-Uploaded s (k ∷ ks) e =
      let found = head_then s k (objects.head s k) _ _ e in
      (found.0, check_uploaded-Uploaded s ks found.1)

  check_new-Uploaded :
      (s : S) (keys : List String) → check_new (some s) keys ≡ ok tt → All (Uploaded s) keys
  unfolding check_new
  check_new-Uploaded s keys e = check_uploaded-Uploaded s keys e

  -- A commit that succeeds without a database has the KDRV1 protocol, and a content entry of the
  -- committing tenant; every reused key is one of that entry's blob keys; where a blob store is set,
  -- it answers a Head for every new key; and the response counts both kinds.
  pub commit_body-checked :
      {D : Type 0} ⦃db : ContentDb D⦄ (g : Gateway D S) (tenant_id : String) (body : CommitBody)
      (version_id : String) (r : Response)
      → g.meta_db ≡ none
      → commit_body g tenant_id body version_id ≡ ok r
      → (body.protocol ≡ "KDRV1")
        × Reuses (get_mem_content g body.content_id) tenant_id body.reused_blob_keys
        × ((s : S) → g.store ≡ some s → All (Uploaded s) body.new_blob_keys)
        × (r ≡ committed version_id (length body.reused_blob_keys) (length body.new_blob_keys))
  unfolding commit_body
  commit_body-checked ⦃db = db⦄ g tenant_id body version_id r no_db e =
      let protocol = reject-eq-ok _ _ _ r e in
      let reused = >>=-eq-ok _ _ r protocol.1 in
      let uploaded =
        >>=-eq-ok (check_new g.store body.new_blob_keys)
          (λ _.
            ok (committed version_id (length body.reused_blob_keys) (length body.new_blob_keys)))
          r reused.2 in
      (
        (eq_iff body.protocol "KDRV1").0 (not-false _ protocol.0),
        check_reused_mem-Reuses _ tenant_id body.reused_blob_keys (
            sym (
              without g.meta_db
                (λ d. check_reused_db d body.content_id tenant_id body.reused_blob_keys)
                (check_reused_mem (get_mem_content g body.content_id) tenant_id
                  body.reused_blob_keys)
                no_db)
            ∙ reused.1),
        (λ s has. check_new-Uploaded s body.new_blob_keys (rw has at uploaded.1)),
        ok-injective _ _ (sym uploaded.2),
      )
