-- ===== src/Blobio/Promotion.antt =====
-- `Promote` (internal/blobio/pipeline.go): the upload of a cached blob, and the status that follows.
use kdrive.Common.{
  ℕ, ◌+◌, ltb, ◌==◌, String, Bool, true, false, not, ◌&&◌, if◌then◌else◌, List, [], ◌∷◌, none, some,
  str_eq, Result, ok, err, Reader, pos,
}
use kdrive.Common.Dict.{lookup}
use kdrive.BlobStore.{
  StoreError, PutResult, ObjectMeta, MultipartUpload, UploadedPart, CompletedPart,
}
use kdrive.Blobio.State.{
  CommitState, cached, durable, BlobStatus, PipelineError, not_in_status_store, multipart_read,
  promote_checksum, multipart_checksum, promote_cache_get, promote_put, create_multipart,
  upload_part, complete_multipart, CacheOps, StoreOps, made_durable, mark_durable, Pipeline, Extern,
}
use kdrive.Blobio.Parts.{
  promote_multipart_threshold, promote_part_size, numbered, parts_of, assemble,
}

unfoldable pub same_object : ObjectMeta → BlobStatus → Bool
same_object meta status =
    if not (meta.size == status.size)
    then false
    else if not (str_eq meta.checksum_sha256 "")
        && (not (str_eq status.checksum_sha256 "")
            && not (str_eq meta.checksum_sha256 status.checksum_sha256))
    then false
    else true

module _ {S : Type 0} ⦃store : StoreOps S⦄ ⦃ext : Extern⦄ where
  -- The first part that fails ends the collection; parts that are then in flight may still arrive
  -- at the store, before the abort discards them.
  unfoldable pub upload_all :
      S → MultipartUpload → List (ℕ × List ℕ) → S × Result StoreError (List (ℕ × UploadedPart))
  upload_all s upload [] = (s, ok [])
  upload_all s upload (job ∷ jobs) =
      let sent = store.upload s upload job.0 job.1 in
      let rest = upload_all sent.0 upload jobs in
      elim sent.1 [
        | err e ↦ (sent.0, err e)
        | ok part ↦ elim rest.1 [
          | err e ↦ (rest.0, err e)
          | ok parts ↦ (rest.0, ok ((job.0, part) ∷ parts))
        ]
      ]

  -- The deferred `AbortMultipart`, whose own error is logged.
  unfoldable pub abort_with :
      {A : Type 0} → S → MultipartUpload → PipelineError → S × Result PipelineError A
  abort_with s upload e = ((store.abort s upload).0, err e)

  unfoldable pub complete_parts :
      S → MultipartUpload → List CompletedPart → S × Result PipelineError PutResult
  unfolding abort_with
  complete_parts s upload parts =
      let done = store.complete s upload parts in
      elim done.1 [
        | err e ↦ abort_with done.0 upload (complete_multipart e)
        | ok res ↦ (done.0, ok res)
      ]

  unfoldable pub check_parts :
      S
      → MultipartUpload
      → Reader
      → String
      → List (ℕ × UploadedPart)
      → S × Result PipelineError PutResult
  unfolding abort_with complete_parts
  check_parts s upload r checksum results =
      if r.fails then abort_with s upload multipart_read else elim (assemble results) [
        | err e ↦ abort_with s upload e
        | ok parts ↦
            if str_eq (ext.sha256_hex r.bytes) checksum
            then complete_parts s upload parts
            else abort_with s upload multipart_checksum
      ]

  unfoldable pub send_parts :
      S → MultipartUpload → Reader → String → S × Result PipelineError PutResult
  unfolding upload_all abort_with check_parts
  send_parts s upload r checksum =
      let sent = upload_all s upload (ext.schedule (numbered 1 (parts_of promote_part_size r))) in
      elim sent.1 [
        | err e ↦ abort_with sent.0 upload (upload_part e)
        | ok results ↦ check_parts sent.0 upload r checksum results
      ]

  unfoldable pub promote_multipart :
      S → String → Reader → BlobStatus → S × Result PipelineError PutResult
  unfolding send_parts
  promote_multipart s blob_id r status =
      let created = store.create s blob_id status.retention in
      elim created.1 [
        | err e ↦ (created.0, err (create_multipart e))
        | ok upload ↦ send_parts created.0 upload r status.checksum_sha256
      ]

  unfoldable pub promote_single :
      S → String → Reader → BlobStatus → S × Result PipelineError PutResult
  promote_single s blob_id r status =
      let sent = store.put s (record {
        key = blob_id;
        body = r;
        expected_length = status.size;
        checksum_sha256 = status.checksum_sha256;
        content_type = "application/octet-stream";
        retention = status.retention;
        if_none_match = false;
      }) in
      elim sent.2 [
        | err e ↦ (sent.0, err (promote_put e))
        | ok res ↦
            if not (str_eq status.checksum_sha256 "")
              && not (str_eq (ext.sha256_hex sent.1) status.checksum_sha256)
            then (sent.0, err promote_checksum)
            else (sent.0, ok res)
      ]

  unfoldable pub check_already_durable : S → String → BlobStatus → Bool
  unfolding same_object
  check_already_durable s blob_id status = elim (store.head s blob_id) [
    | err e ↦ false
    | ok meta ↦ same_object meta status
  ]

  unfoldable pub upload_blob : S → String → Reader → BlobStatus → S × Result PipelineError PutResult
  unfolding promote_multipart promote_single
  upload_blob s blob_id r status =
      if ltb promote_multipart_threshold status.size
      then promote_multipart s blob_id r status
      else promote_single s blob_id r status

abbrev pub fail_promote :
    {C S : Type 0} → Pipeline C S → PipelineError → Pipeline C S × Result PipelineError (Unit {0})
fail_promote p e = (record p { promote_failures = p.promote_failures + 1 }, err e)

abbrev pub skip_promote :
    {C S : Type 0} → Pipeline C S → Pipeline C S × Result PipelineError (Unit {0})
skip_promote p = (record p { promote_skipped = p.promote_skipped + 1 }, ok tt)

module _ {C : Type 0} ⦃cache : CacheOps C⦄ where
  -- The entry is put again as evictable; an error of that is logged.
  unfoldable pub release : C → String → BlobStatus → ℕ → C
  release c blob_id status now =
      let found = cache.get c blob_id now in
      elim found.1 [
        | err e ↦ found.0
        | ok hit ↦
            (cache.put found.0 blob_id hit.0
              (record {
                size_bytes = pos status.size;
                hash = status.checksum_sha256;
                pin_hot = false;
                non_evictable = false;
                ttl = pos 0;
              })
              now).0
      ]

module _ {C S : Type 0} ⦃cache : CacheOps C⦄ ⦃store : StoreOps S⦄ ⦃ext : Extern⦄ where
  -- `MarkDurable` of the in-memory status store does not fail, and writes the entry that `status`
  -- points to: the cache entry is put again with the size and the checksum of the result.
  unfoldable pub finish_promote :
      Pipeline C S
      → String
      → BlobStatus
      → PutResult
      → ℕ
      → Pipeline C S × Result PipelineError (Unit {0})
  unfolding release
  finish_promote p blob_id status res now = (
    record p {
      status =
          mark_durable p.status blob_id res.version_id res.size res.checksum_sha256 res.write_time;
      cache =
          release p.cache blob_id
            (made_durable status res.version_id res.size res.checksum_sha256 res.write_time) now;
      promote_successes = p.promote_successes + 1;
    },
    ok tt,
  )

  unfoldable pub promote_body :
      Pipeline C S
      → String
      → BlobStatus
      → Reader
      → ℕ
      → Pipeline C S × Result PipelineError (Unit {0})
  unfolding upload_blob finish_promote
  promote_body p blob_id status r now =
      let sent = upload_blob p.store blob_id r status in
      let p' = record p { store = sent.0 } in
      elim sent.1 [ err e ↦ fail_promote p' e | ok res ↦ finish_promote p' blob_id status res now ]

  unfoldable pub promote_cached :
      Pipeline C S → String → BlobStatus → ℕ → Pipeline C S × Result PipelineError (Unit {0})
  unfolding check_already_durable promote_body
  promote_cached p blob_id status now =
      if check_already_durable p.store blob_id status
      then skip_promote (record p {
        status =
            mark_durable p.status blob_id status.version_id status.size status.checksum_sha256 now;
      })
      else (let found = cache.get p.cache blob_id now in
          let p' = record p { cache = found.0 } in
          elim found.1 [
            | err e ↦ fail_promote p' (promote_cache_get e)
            | ok hit ↦ promote_body p' blob_id status hit.0 now
          ])

  unfoldable pub promote_known :
      CommitState
      → Pipeline C S
      → String
      → BlobStatus
      → ℕ
      → Pipeline C S × Result PipelineError (Unit {0})
  unfolding promote_cached
  promote_known durable p blob_id status now = skip_promote p
  promote_known cached p blob_id status now = promote_cached p blob_id status now

  unfoldable pub promote :
      Pipeline C S → String → ℕ → Pipeline C S × Result PipelineError (Unit {0})
  unfolding promote_known
  promote p blob_id now =
      let p' = record p { promote_attempts = p.promote_attempts + 1 } in
      elim (lookup blob_id p.status) [
        | none ↦ fail_promote p' not_in_status_store
        | some status ↦ promote_known status.commit_state p' blob_id status now
      ]
