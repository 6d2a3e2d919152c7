-- ===== src/Dedup/Commit.antt =====
-- The handlers of `uploads:commitDedup` and `blobs:upload`.
use kdrive.Common.{
  ℕ, String, Bool, true, false, not, ◌||◌, if◌then◌else◌, List, [], ◌∷◌, Option, none, some, str_eq,
  Result, ok, err, ◌>>◌, reject, length,
}
use kdrive.BlobStore.{StoreError, not_found, PutRequest}
use kdrive.Dedup.State.{
  Request, MemContentEntry, Response, failure, not_uploaded, committed, stored, ContentDb, Objects,
  Gateway, receive, internal_error,
}
use kdrive.Dedup.Memory.{get_mem_content}
use kdrive.Dedup.Handlers.{blob_keys_of, db_failure}

-- The fields of the commit's body that the handler reads.
pub record CommitBody : Type 0 where
  pub protocol : String
  pub content_id : String
  pub reused_blob_keys : List String
  pub new_blob_keys : List String

pub record BlobBody : Type 0 where
  pub blob_key : String
  pub ciphertext_hex : String
  pub ciphertext_sha256 : String

unfoldable pub known : String → List String → Bool
known k [] = false
known k (x ∷ xs) = if str_eq k x then true else known k xs

-- `for _, k := range body.ReusedBlobKeys`
unfoldable pub check_reused : List String → List String → Result Response (Unit {0})
unfolding known
check_reused keys [] = ok tt
check_reused keys (k ∷ ks) =
    if not (known k keys)
    then err (failure 400 "reused blob key not found")
    else check_reused keys ks

unfoldable pub check_reused_mem :
    Option MemContentEntry → String → List String → Result Response (Unit {0})
unfolding check_reused
check_reused_mem none tenant_id reused = err (failure 400 "content_id not registered")
check_reused_mem (some entry) tenant_id reused =
    if not (str_eq entry.tenant_id tenant_id)
    then err (failure 400 "content_id not registered")
    else check_reused entry.blob_keys reused

unfoldable pub head_failure : StoreError → String → Response
head_failure not_found key = not_uploaded key
head_failure _ key = internal_error

module _ {D : Type 0} ⦃db : ContentDb D⦄ where
  unfoldable pub check_reused_db : D → String → String → List String → Result Response (Unit {0})
  unfolding db_failure check_reused
  check_reused_db d content_id tenant_id reused =
      elim (db.get_content_entry d content_id tenant_id) [
        | err e ↦ err (db_failure e (failure 400 "content_id not registered"))
        | ok entry ↦ elim (db.get_content_chunks d content_id tenant_id) [
          | err e ↦ err internal_error
          | ok chunks ↦ check_reused (blob_keys_of chunks) reused
        ]
      ]

abbrev pub blob_put : BlobBody → List ℕ → PutRequest
blob_put body bytes = record {
  key = body.blob_key;
  body = record { bytes = bytes; fails = false };
  expected_length = length bytes;
  checksum_sha256 = body.ciphertext_sha256;
  content_type = "application/octet-stream";
  retention = record { mode = ""; retain_until = 0; legal_hold = false };
  if_none_match = false;
}

module _ {S : Type 0} ⦃objects : Objects S⦄ where
  unfoldable pub check_uploaded : S → List String → Result Response (Unit {0})
  unfolding head_failure
  check_uploaded s [] = ok tt
  check_uploaded s (k ∷ ks) =
      let rest = check_uploaded s ks in
      elim (objects.head s k) [ err e ↦ err (head_failure e k) | ok _ ↦ rest ]

  unfoldable pub check_new : Option S → List String → Result Response (Unit {0})
  unfolding check_uploaded
  check_new none keys = ok tt
  check_new (some s) keys = check_uploaded s keys

  unfoldable pub store_blob : Option S → BlobBody → List ℕ → Option S × Response
  store_blob none body bytes = (none, stored body.blob_key (length bytes))
  store_blob (some s) body bytes =
      let done = objects.put s (blob_put body bytes) in
      elim done.1 [
        | err e ↦ (some done.0, failure 500 "failed to store blob")
        | ok _ ↦ (some done.0, stored body.blob_key (length bytes))
      ]

abbrev pub answer : Result Response Response → Response
answer (ok r) = r
answer (err r) = r

module _ {D S : Type 0} ⦃db : ContentDb D⦄ ⦃objects : Objects S⦄ where
  abbrev pub check_known : Gateway D S → String → CommitBody → Result Response (Unit {0})
  check_known g tenant_id body = elim g.meta_db [
    | some d ↦ check_reused_db d body.content_id tenant_id body.reused_blob_keys
    | none ↦ check_reused_mem (get_mem_content g body.content_id) tenant_id body.reused_blob_keys
  ]

  -- `version_id` is what `generateID` gives.
  unfoldable pub commit_body : Gateway D S → String → CommitBody → String → Result Response Response
  unfolding check_reused_db check_reused_mem check_new get_mem_content
  commit_body g tenant_id body version_id =
      reject (not (str_eq body.protocol "KDRV1")) (failure 400 "expected protocol KDRV1")
      >> (check_known g tenant_id body
          >> (check_new g.store body.new_blob_keys
              >> ok (
                  committed version_id (length body.reused_blob_keys) (length body.new_blob_keys))))

  unfoldable pub handle_upload_commit_dedup :
      Gateway D S → Request CommitBody → String → Gateway D S × Response
  unfolding receive commit_body
  handle_upload_commit_dedup g req version_id =
      receive req g (λ tenant_id body. (g, answer (commit_body g tenant_id body version_id)))

  unfoldable pub upload_decoded : Gateway D S → BlobBody → Option (List ℕ) → Gateway D S × Response
  unfolding store_blob
  upload_decoded g body none = (g, failure 400 "invalid ciphertext_hex")
  upload_decoded g body (some bytes) =
      let done = store_blob g.store body bytes in (record g { store = done.0 }, done.1)

  -- `hex_decode` is `hex.DecodeString`.
  unfoldable pub handle_blob_upload :
      (String → Option (List ℕ)) → Gateway D S → Request BlobBody → Gateway D S × Response
  unfolding receive upload_decoded
  handle_blob_upload hex_decode g req = receive req g (λ tenant_id body.
      if str_eq body.blob_key "" || str_eq body.ciphertext_hex ""
      then (g, failure 400 "missing blob_key or ciphertext_hex")
      else upload_decoded g body (hex_decode body.ciphertext_hex))
