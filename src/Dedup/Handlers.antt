-- ===== src/Dedup/Handlers.antt =====
-- The handlers of `content:check`, `content:checkChunks` and `content:register`.
use kdrive.Common.{
  ℕ, String, Bool, true, false, not, if◌then◌else◌, List, [], map, Option, none, some, str_eq, ℤ,
  Result, ok, err,
}
use kdrive.Dedup.State.{
  Request, ContentChunk, MemContentEntry, ContentEntry, HashResult, Response, failure, not_there,
  there, hash_results, registered, DbError, not_found, failed, ContentDb, MapOrder, Gateway,
  receive, internal_error,
}
use kdrive.Dedup.Memory.{put_mem_content, get_mem_content, known_hashes, answer_hashes}

pub record RegisterBody : Type 0 where
  pub content_id : String
  pub plaintext_size : ℤ
  pub chunk_count : ℤ
  pub chunk_size : ℤ
  pub chunk_plan_root : String
  pub chunks : List ContentChunk

pub record CheckChunksBody : Type 0 where
  pub content_id : String
  pub chunk_hashes : List String

abbrev pub blob_keys_of : List ContentChunk → List String
blob_keys_of = map (λ c. c.blob_key)

abbrev pub hashes_of : List ContentChunk → List String
hashes_of = map (λ c. c.chunk_content_hash)

-- `errors.Is(err, metadata.ErrNotFound)` is an answer, any other error is logged.
unfoldable pub db_failure : DbError → Response → Response
db_failure not_found answer = answer
db_failure failed answer = internal_error

unfoldable pub check_mem : Option MemContentEntry → String → Response
check_mem none tenant_id = not_there
check_mem (some entry) tenant_id =
    if not (str_eq entry.tenant_id tenant_id)
    then not_there
    else there entry.blob_keys entry.ciphertext_hashes entry.chunk_count entry.plaintext_size

unfoldable pub register_found : MemContentEntry → String → String → Response
register_found existing content_id tenant_id =
    if not (str_eq existing.tenant_id tenant_id)
    then failure 403 "content_id owned by another tenant"
    else registered content_id true

abbrev pub mem_entry_of : RegisterBody → String → ℕ → MemContentEntry
mem_entry_of body tenant_id now = record {
  content_id = body.content_id;
  tenant_id = tenant_id;
  plaintext_size = body.plaintext_size;
  chunk_count = body.chunk_count;
  chunk_size = body.chunk_size;
  chunk_plan_root = body.chunk_plan_root;
  blob_keys = blob_keys_of body.chunks;
  ciphertext_hashes = hashes_of body.chunks;
  created_at = now;
}

abbrev pub entry_of : RegisterBody → String → ContentEntry
entry_of body tenant_id = record {
  content_id = body.content_id;
  tenant_id = tenant_id;
  plaintext_size = body.plaintext_size;
  chunk_count = body.chunk_count;
  chunk_size = body.chunk_size;
  chunk_plan_root = body.chunk_plan_root;
  pepper_generation = 1;
}

-- `err == nil && anyTenant.TenantID != tenantID`
unfoldable pub owned_by_other : Result DbError ContentEntry → String → Bool
owned_by_other (ok entry) tenant_id = not (str_eq entry.tenant_id tenant_id)
owned_by_other (err e) tenant_id = false

abbrev pub checked_hashes : Result DbError (List HashResult) → Response
checked_hashes (ok results) = hash_results results
checked_hashes (err e) = internal_error

module _ {D : Type 0} ⦃db : ContentDb D⦄ where
  unfoldable pub check_db : D → String → String → Response
  unfolding db_failure
  check_db d content_id tenant_id = elim (db.get_content_entry d content_id tenant_id) [
    | err e ↦ db_failure e not_there
    | ok entry ↦ elim (db.get_content_chunks d content_id tenant_id) [
      | err e ↦ internal_error
      | ok chunks ↦
          there (blob_keys_of chunks) (hashes_of chunks) entry.chunk_count entry.plaintext_size
    ]
  ]

  unfoldable pub create_in_db : D → RegisterBody → String → D × Response
  create_in_db d body tenant_id =
      let made = db.create_content_entry d (entry_of body tenant_id) in
      elim made.1 [
        | err e ↦ (made.0, internal_error)
        | ok _ ↦
            (let filled = db.create_content_chunks made.0 body.content_id body.chunks in
              elim filled.1 [
                | err e ↦ (filled.0, internal_error)
                | ok _ ↦ (filled.0, registered body.content_id false)
              ])
      ]

  unfoldable pub create_unless_owned : D → RegisterBody → String → D × Response
  unfolding create_in_db owned_by_other
  create_unless_owned d body tenant_id =
      if owned_by_other (db.get_content_entry_by_content_id d body.content_id) tenant_id
      then (d, failure 403 "content_id owned by another tenant")
      else create_in_db d body tenant_id

  unfoldable pub register_unknown : DbError → D → RegisterBody → String → D × Response
  unfolding create_unless_owned
  register_unknown not_found d body tenant_id = create_unless_owned d body tenant_id
  register_unknown failed d body tenant_id = (d, internal_error)

  unfoldable pub register_db : D → RegisterBody → String → D × Response
  unfolding register_unknown
  register_db d body tenant_id = elim (db.get_content_entry d body.content_id tenant_id) [
    | ok existing ↦ (d, registered body.content_id true)
    | err e ↦ register_unknown e d body tenant_id
  ]

module _ {D S : Type 0} ⦃db : ContentDb D⦄ ⦃order : MapOrder⦄ where
  unfoldable pub handle_content_check : Gateway D S → Request String → Gateway D S × Response
  unfolding receive check_db check_mem get_mem_content
  handle_content_check g req = receive req g (λ tenant_id content_id. elim g.meta_db [
    | some d ↦ (g, check_db d content_id tenant_id)
    | none ↦ (g, check_mem (get_mem_content g content_id) tenant_id)
  ])

  unfoldable pub handle_content_check_chunks :
      Gateway D S → Request CheckChunksBody → Gateway D S × Response
  unfolding receive known_hashes answer_hashes
  handle_content_check_chunks g req = receive req g (λ tenant_id body. elim g.meta_db [
    | some d ↦
        (g, checked_hashes (db.check_chunk_hashes d body.content_id tenant_id body.chunk_hashes))
    | none ↦ (
      g,
      hash_results (
          answer_hashes
            (known_hashes tenant_id g.mem_content_chunks (order.entries g.mem_content_store) [])
            body.chunk_hashes),
    )
  ])

  unfoldable pub register_mem : Gateway D S → RegisterBody → String → ℕ → Gateway D S × Response
  unfolding register_found put_mem_content get_mem_content
  register_mem g body tenant_id now = elim (get_mem_content g body.content_id) [
    | some existing ↦ (g, register_found existing body.content_id tenant_id)
    | none ↦ (
      put_mem_content g body.content_id (mem_entry_of body tenant_id now) body.chunks,
      registered body.content_id false,
    )
  ]

  unfoldable pub handle_content_register :
      Gateway D S → Request RegisterBody → ℕ → Gateway D S × Response
  unfolding receive register_db register_mem
  handle_content_register g req now = receive req g (λ tenant_id body. elim g.meta_db [
    | some d ↦
        (let done = register_db d body tenant_id in (record g { meta_db = some done.0 }, done.1))
    | none ↦ register_mem g body tenant_id now
  ])
