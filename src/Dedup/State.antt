-- ===== src/Dedup/State.antt =====
-- Requests, responses and the gateway's state, as far as the dedup handlers use them.
use kdrive.Common.{ℕ, String, Bool, List, Option, none, some, if◌then◌else◌, str_eq, not, ℤ, Result}
use kdrive.BlobStore.{PutRequest, PutResult, ObjectMeta, StoreError}

-- A request behind `getUserTenant` and the JSON decoder: no body is one that does not decode.
pub record Request (A : Type 0) : Type 0 where
  pub method : String
  pub tenant_id : String
  pub body : Option A

-- `contentChunkEntry`, and with the same fields `memContentChunk` and `metadata.ContentChunk`.
pub record ContentChunk : Type 0 where
  pub chunk_index : ℤ
  pub chunk_content_hash : String
  pub blob_key : String
  pub plaintext_len : ℤ
  pub ciphertext_len : ℤ

pub record MemContentEntry : Type 0 where
  pub content_id : String
  pub tenant_id : String
  pub plaintext_size : ℤ
  pub chunk_count : ℤ
  pub chunk_size : ℤ
  pub chunk_plan_root : String
  pub blob_keys : List String
  pub ciphertext_hashes : List String
  pub created_at : ℕ

-- `metadata.ContentEntry`, without the columns that the handlers do not use.
pub record ContentEntry : Type 0 where
  pub content_id : String
  pub tenant_id : String
  pub plaintext_size : ℤ
  pub chunk_count : ℤ
  pub chunk_size : ℤ
  pub chunk_plan_root : String
  pub pepper_generation : ℕ

-- One result of `checkChunks`; a hash that does not exist has no blob key.
pub record HashResult : Type 0 where
  pub hash : String
  pub blob_key : Option String

pub data Response : Type 0 where
  options_ok : Response
  failure : ℕ → String → Response
  not_there : Response
  -- 400, "new blob key not uploaded: " and the key
  not_uploaded : String → Response
  there : List String → List String → ℤ → ℤ → Response
  hash_results : List HashResult → Response
  registered : String → Bool → Response
  committed : String → ℕ → ℕ → Response
  stored : String → ℕ → Response

pub data DbError : Type 0 where
  not_found failed : DbError

-- The methods of `metadata.DB` that the handlers call.
pub record ContentDb (D : Type 0) : Type 0 where
  pub get_content_entry : D → String → String → Result DbError ContentEntry
  pub get_content_chunks : D → String → String → Result DbError (List ContentChunk)
  pub get_content_entry_by_content_id : D → String → Result DbError ContentEntry
  pub check_chunk_hashes : D → String → String → List String → Result DbError (List HashResult)
  pub create_content_entry : D → ContentEntry → D × Result DbError (Unit {0})
  pub create_content_chunks : D → String → List ContentChunk → D × Result DbError (Unit {0})

-- The methods of the blob store that the handlers call.
pub record Objects (S : Type 0) : Type 0 where
  pub put : S → PutRequest → S × Result StoreError PutResult
  pub head : S → String → Result StoreError ObjectMeta

-- Go's iteration order over a map: the entry that `range` gives first, and the whole order.
pub record MapOrder : Type 0 where
  pub first_entry : List (String × MemContentEntry) → Option String
  pub first_chunks : List (String × List ContentChunk) → Option String
  pub entries : List (String × MemContentEntry) → List (String × MemContentEntry)

-- Without a database the two maps are used; without a store blobs are not kept.
pub record Gateway (D S : Type 0) : Type 0 where
  pub meta_db : Option D
  pub store : Option S
  pub mem_content_store : List (String × MemContentEntry)
  pub mem_content_chunks : List (String × List ContentChunk)
  pub mem_content_store_max : ℤ

-- What every handler does first.
unfoldable pub receive :
    {A St : Type 0} → Request A → St → (String → A → St × Response) → St × Response
receive req st handle =
    if str_eq req.method "OPTIONS"
    then (st, options_ok)
    else if not (str_eq req.method "POST")
    then (st, failure 405 "method not allowed")
    else if str_eq req.tenant_id ""
    then (st, failure 400 "missing X-Demo-Tenant header")
    else elim req.body [
      | none ↦ (st, failure 400 "invalid body")
      | some body ↦ handle req.tenant_id body
    ]

abbrev pub internal_error : Response
internal_error = failure 500 "internal error"
