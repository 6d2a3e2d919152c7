-- ===== src/Blobio/LargeCopies.antt =====
-- What a multipart promotion leaves in the filesystem provider.
use kdrive.Common.{
  ℕ, ◌+◌, ◌≤◌, ◌≡◌, refl, sym, ap, ◌∙◌, subst, String, true, false, ltb, str_eq, Bool-cases, eq_iff,
  inl, inr, List, [], ◌∷◌, map, some, ok, err, err-ne-ok, Result-cases, Result_ok, Result_err,
  Reader, All, arith,
}
use kdrive.Common.Dict.{str_eq_refl}
use kdrive.Common.Reorders.{Reorders, All-Reorders, Reorders-sym}
use kdrive.BlobStore.{
  StoreError, Retention, PutResult, MultipartUpload, UploadedPart, CompletedPart,
}
use kdrive.Local.State.{Staging, Provider, LocalEnv, publish, next_id}
use kdrive.Local.Keys.{validate_key}
use kdrive.Local.Multipart.{
  is_upload, find_upload, staged_part, new_staging, create_multipart, store_part, upload_part,
  find_part,
}
use kdrive.Local.Validity.{IsValid, IsValid-same}
use kdrive.Local.Fresh.{LocalLaws}
use kdrive.Local.RoundTrip.{described, publish-read}
use kdrive.Local.Staged.{set_all, AreParts, set_all-All, joined}
use kdrive.Local.Assembly.{
  completed, send_all, staged_mine, upload_part-find, send_all-find, send_all-IsValid,
  complete-publish, get-same,
}
use kdrive.Blobio.State.{BlobStatus, Extern}
use kdrive.Blobio.Parts.{promote_part_size, numbered, parts_of, parts_of-flatten, assemble}
use kdrive.Blobio.Promotion.{
  upload_all, abort_with, complete_parts, check_parts, send_parts, promote_multipart,
}
use kdrive.Blobio.LocalL2.{local_l2}
use kdrive.Blobio.Copies.{HasCopy}
use kdrive.Blobio.Assembled.{
  numbered-AreParts, joined-numbered, Reorders-AreParts, stored, assemble-Reorders,
}
use mathlib.Core.List.{flatten}
use kdrive.Local.Objects.{remove_dir, multipart_dir}
use kdrive.Local.Dirs.{remove_dir-Apart, multipart_dir-own}

module _ ⦃env : LocalEnv⦄ where
  upload_part-ok :
      (p : Provider) (u : MultipartUpload) (s : Staging) (n : ℕ) (body : List ℕ)
      → validate_key u.key ≡ ok tt
      → 1 ≤ n
      → find_upload u p.uploads ≡ some s
      → (upload_part p u n (record { bytes = body; fails = false })).1 ≡ ok (stored (n, body)).1
  unfolding upload_part store_part
  upload_part-ok p u s n body valid le h =
      let counted : ltb n 1 ≡ false = ground arith in rw (valid, counted) (rw h refl)

  module _ ⦃ext : Extern⦄ where
    -- All parts arrive at an upload that is there.
    upload_all-sent :
        (p : Provider) (u : MultipartUpload) (s : Staging) (jobs : List (ℕ × List ℕ))
        → validate_key u.key ≡ ok tt
        → AreParts jobs
        → is_upload u s ≡ true
        → find_upload u p.uploads ≡ some s
        → upload_all p u jobs ≡ (send_all p u jobs, ok (map stored jobs))
    unfolding upload_all send_all
    upload_all-sent p u s [] valid parts mine h = refl
    upload_all-sent p u s (j ∷ js) valid parts mine h =
        let r : Reader = record { bytes = j.1; fails = false } in
        let rest =
          upload_all-sent (upload_part p u j.0 r).0 u (staged_part s j.0 j.1) js valid parts.2
            (staged_mine u s j.0 j.1 mine) (upload_part-find p u s j.0 j.1 valid parts.0 mine h) in
        Result_ok (upload_part p u j.0 r).1 _ _ (stored j).1
          (upload_part-ok p u s j.0 j.1 valid parts.0 h)
        ∙ Result_ok (upload_all (upload_part p u j.0 r).0 u js).1 _ _ (map stored js)
            (ap (λ x. x.1) rest)
        ∙ ap (λ x. (x.0, ok (stored j ∷ map stored js))) rest

    check_parts-ok :
        (s s' : Provider) (u : MultipartUpload) (r : Reader) (sum : String)
        (results : List (ℕ × UploadedPart)) (parts : List CompletedPart) (res : PutResult)
        → assemble results ≡ ok parts
        → check_parts s u r sum results ≡ (s', ok res)
        → (r.fails ≡ false)
          × (ext.sha256_hex r.bytes ≡ sum)
          × (complete_parts s u parts ≡ (s', ok res))
    unfolding check_parts abort_with
    check_parts-ok s s' u r sum results parts res whole h = elim (Bool-cases r.fails) [
      | inl broken ↦ absurd (err-ne-ok _ res (ap (λ x. x.1) (rw broken at h)))
      | inr fine ↦
          let step = sym (Result_ok (assemble results) _ _ parts whole) ∙ (rw fine at h) in
          elim (Bool-cases (str_eq (ext.sha256_hex r.bytes) sum)) [
            | inl same ↦ (fine, (eq_iff (ext.sha256_hex r.bytes) sum).0 same, rw same at step)
            | inr other ↦ absurd (err-ne-ok _ res (ap (λ x. x.1) (rw other at step)))
          ]
    ]

    complete_parts-ok :
        (s q : Provider) (u : MultipartUpload) (parts : List CompletedPart) (made : PutResult)
        → local_l2.complete s u parts ≡ (q, ok made)
        → complete_parts s u parts ≡ (q, ok made)
    unfolding complete_parts
    complete_parts-ok s q u parts made h =
        Result_ok (local_l2.complete s u parts).1 _ _ made (ap (λ x. x.1) h)
        ∙ ap (λ x. (x.0, ok made)) h

    abbrev created : Provider → String → BlobStatus → Provider
    created s id st = record s {
      uploads =
          new_staging s (record {
            key = id;
            content_type = "application/octet-stream";
            checksum_sha256 = "";
            retention = st.retention;
          })
          ∷ s.uploads;
      seq = s.seq + 1;
    }

    abbrev upload_of : Provider → String → MultipartUpload
    upload_of s id = record { key = id; upload_id = next_id s }

    create-named :
        (s : Provider) (id : String) (st : BlobStatus)
        → validate_key id ≡ ok tt
        → local_l2.create s id st.retention ≡ (created s id st, ok (upload_of s id))
    unfolding create_multipart
    create-named s id st named = rw named refl

    create-refused :
        (s : Provider) (id : String) (st : BlobStatus) (e : StoreError)
        → validate_key id ≡ err e
        → (local_l2.create s id st.retention).1 ≡ err e
    unfolding create_multipart
    create-refused s id st e bad = rw bad refl

    promote_multipart-named :
        (s s' : Provider) (id : String) (r : Reader) (st : BlobStatus) (res : PutResult)
        → promote_multipart s id r st ≡ (s', ok res)
        → (validate_key id ≡ ok tt)
          × (send_parts (created s id st) (upload_of s id) r st.checksum_sha256 ≡ (s', ok res))
    unfolding promote_multipart
    promote_multipart-named s s' id r st res h = elim (Result-cases (validate_key id)) [
      | inl bad ↦
          let refused = create-refused s id st bad.0 bad.1 in
          absurd (
            err-ne-ok _ res (
              ap (λ x. x.1)
                (sym (Result_err (local_l2.create s id st.retention).1 _ _ bad.0 refused) ∙ h)))
      | inr good ↦
          let made = create-named s id st good.1 in
          (
            good.1,
            subst
                (λ (x : Provider).
                  send_parts x (upload_of s id) r st.checksum_sha256 ≡ (s', ok res))
                (ap (λ x. x.0) made)
                (sym (
                    Result_ok (local_l2.create s id st.retention).1 _ _ (upload_of s id)
                      (ap (λ x. x.1) made))
                  ∙ h),
          )
    ]

    send_parts-sent :
        (s s' t : Provider) (u : MultipartUpload) (r : Reader) (sum : String) (res : PutResult)
        (results : List (ℕ × UploadedPart))
        → upload_all s u (ext.schedule (numbered 1 (parts_of promote_part_size r)))
          ≡ (t, ok results)
        → send_parts s u r sum ≡ (s', ok res)
        → check_parts t u r sum results ≡ (s', ok res)
    unfolding send_parts
    send_parts-sent s s' t u r sum res results sent h =
        let jobs = ext.schedule (numbered 1 (parts_of promote_part_size r)) in
        subst (λ (x : Provider). check_parts x u r sum results ≡ (s', ok res)) (ap (λ x. x.0) sent)
          (sym (Result_ok (upload_all s u jobs).1 _ _ results (ap (λ x. x.1) sent)) ∙ h)

    -- The store that a complete request leaves has a copy of what was cut into the parts.
    complete-HasCopy :
        (q s' : Provider) (id : String) (u : MultipartUpload) (s : Staging) (bytes : List ℕ)
        (ps : List (List ℕ)) (res : PutResult)
        → LocalLaws env
        → IsValid q
        → u.key ≡ id
        → validate_key u.key ≡ ok tt
        → find_upload u q.uploads ≡ some s
        → s.checksum_sha256 ≡ ""
        → All (λ x. find_part x.0 s.parts ≡ some x.1) (numbered 1 ps)
        → flatten ps ≡ bytes
        → complete_parts q u (map completed (numbered 1 ps)) ≡ (s', ok res)
        → HasCopy s' id (env.sha256_hex bytes)
    complete-HasCopy q s' id u s bytes ps res laws valid key named found open_ staged whole h =
        let none_ : Retention = record { mode = ""; retain_until = 0; legal_hold = false } in
        let xs = numbered 1 ps in
        let done = publish q u.key (joined xs) s.content_type none_ in
        let left = remove_dir done.0 (multipart_dir u.key u.upload_id) in
        let made =
          complete_parts-ok q left u (map completed xs) done.1
            (complete-publish q u s xs none_ named found staged (inl open_)) in
        let body = joined-numbered 1 ps ∙ whole in
        let read =
          get-same done.0 left (record { key = u.key; version_id = "" })
            (remove_dir-Apart done.0 (multipart_dir u.key u.upload_id) u.key
              (multipart_dir-own u.key u.upload_id))
          ∙ (publish-read q u.key (joined xs) s.content_type none_ laws valid named).0 in
        let copy : HasCopy left u.key (env.sha256_hex bytes) = (
          joined xs,
          described done.1,
          read,
          ap env.sha256_hex body,
          unfold publish in ap env.sha256_hex body,
        ) in
        subst (λ (x : Provider). HasCopy x id (env.sha256_hex bytes)) (ap (λ x. x.0) (sym made ∙ h))
          (subst (λ k. HasCopy left k (env.sha256_hex bytes)) key copy)

    -- A multipart promotion that succeeds leaves a copy with the checksum of the status.
    pub multipart-HasCopy :
        (s s' : Provider) (id : String) (r : Reader) (st : BlobStatus) (res : PutResult)
        → LocalLaws env
        → ((b : List ℕ) → ext.sha256_hex b ≡ env.sha256_hex b)
        → ((jobs : List (ℕ × List ℕ)) → Reorders jobs (ext.schedule jobs))
        → IsValid s
        → promote_multipart s id r st ≡ (s', ok res)
        → HasCopy s' id st.checksum_sha256
    unfolding find_upload is_upload
    multipart-HasCopy s s' id r st res laws same orders valid h =
        let start = promote_multipart-named s s' id r st res h in
        let p = created s id st in
        let u = upload_of s id in
        let first : Staging = new_staging s (record {
          key = id;
          content_type = "application/octet-stream";
          checksum_sha256 = "";
          retention = st.retention;
        }) in
        let mine : is_upload u first ≡ true = rw (str_eq_refl id, str_eq_refl (next_id s)) refl in
        let ps = parts_of promote_part_size r in
        let jobs = ext.schedule (numbered 1 ps) in
        let order = orders (numbered 1 ps) in
        let parts =
          Reorders-AreParts (numbered 1 ps) jobs order (numbered-AreParts 1 ps (omega arith)) in
        let there : find_upload u p.uploads ≡ some first = rw mine refl in
        let sent = upload_all-sent p u first jobs start.0 parts mine there in
        let checked =
          send_parts-sent p s' (send_all p u jobs) u r st.checksum_sha256 res (map stored jobs) sent
            start.1 in
        let ended =
          check_parts-ok (send_all p u jobs) s' u r st.checksum_sha256 (map stored jobs)
            (map completed (numbered 1 ps)) res (assemble-Reorders ps jobs order) checked in
        let valid' = send_all-IsValid p u jobs (IsValid-same s p refl (omega arith) valid) in
        let held =
          All-Reorders _ jobs (numbered 1 ps) (Reorders-sym (numbered 1 ps) jobs order)
            (set_all-All jobs [] parts) in
        let whole : flatten ps ≡ r.bytes =
          parts_of-flatten promote_part_size r (omega arith) ended.0 in
        subst (λ x. HasCopy s' id x) (sym (same r.bytes) ∙ ended.1)
          (complete-HasCopy (send_all p u jobs) s' id u (record first { parts = set_all jobs [] })
            r.bytes ps res laws valid' refl start.0
            (send_all-find p u first jobs start.0 parts mine there) refl held whole ended.2)
