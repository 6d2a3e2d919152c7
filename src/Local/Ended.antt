-- ===== src/Local/Ended.antt =====
-- An upload that was aborted or completed is gone.
use kdrive.Common.{
  ℕ, ◌≤◌, ◌≡◌, refl, sym, ap, ◌∙◌, String, true, false, not, ◌&&◌, if_intro, ltb, str_eq,
  Bool-cases, eq_iff, inl, inr, List, [], ◌∷◌, Option, none, some, Result, ok, err, err-ne-ok,
  Reader, arith, Bool,
}
use kdrive.Common.Dict.{str_eq_refl}
use kdrive.Common.Text.{lies_under}
use kdrive.BlobStore.{
  StoreError, not_found, Retention, PutResult, MultipartUpload, CompletedPart, checksum_mismatch,
}
use kdrive.Local.State.{Staging, Provider, LocalEnv, versions_of, publish, fail_put}
use kdrive.Local.Keys.{IsSegment, validate_key}
use kdrive.Local.Objects.{remove_stagings, remove_dir, multipart_dir}
use kdrive.Local.Multipart.{
  is_upload, find_upload, join_parts, store_part, upload_part, finish_upload, complete_upload,
  complete_multipart, abort_multipart,
}
use kdrive.Local.Dirs.{Outside, multipart_dir-Outside, remove_dir-Apart}
use kdrive.Local.RoundTrip.{checked-ok}

is_upload-dir :
    (u : MultipartUpload) (s : Staging)
    → is_upload u s ≡ true
    → multipart_dir s.key s.upload_id ≡ multipart_dir u.key u.upload_id
unfolding is_upload
is_upload-dir u s mine = elim (Bool-cases (str_eq s.key u.key)) [
  | inr other ↦ let no : false ≡ true = rw other at mine in absurd (cc)
  | inl key ↦
      let id : str_eq s.upload_id u.upload_id ≡ true = rw key at mine in
      rw ((eq_iff s.key u.key).0 key, (eq_iff s.upload_id u.upload_id).0 id) refl
]

find-remove_stagings :
    (u : MultipartUpload) (ss : List Staging)
    → find_upload u (remove_stagings (multipart_dir u.key u.upload_id) ss) ≡ none
unfolding find_upload remove_stagings
find-remove_stagings u [] = refl
find-remove_stagings u (s ∷ ss) =
    let P : List Staging → Type 0 = λ x. find_upload u x ≡ none in
    let rest = find-remove_stagings u ss in
    let dir = multipart_dir u.key u.upload_id in
    let path = multipart_dir s.key s.upload_id in
    if_intro P (str_eq path dir) _ _ (λ _. rest)
      (λ differ.
        if_intro P (lies_under dir path) _ _ (λ _. rest)
          (λ _. elim (Bool-cases (is_upload u s)) [
            | inr other ↦ rw other rest
            | inl mine ↦
                let no : true ≡ false =
                  sym (ap (λ x. str_eq x dir) (is_upload-dir u s mine) ∙ str_eq_refl dir)
                  ∙ differ in
                absurd (cc)
          ]))

module _ ⦃env : LocalEnv⦄ where
  -- What is not staged takes no part and is not completed.
  Gone : Provider → MultipartUpload → Type 0
  Gone q u =
      ((n : ℕ) (r : Reader) → 1 ≤ n → upload_part q u n r ≡ (q, err not_found))
      × ((parts : List CompletedPart) (spec : Retention)
          → complete_multipart q u parts spec ≡ (q, err not_found))

  missing-Gone :
      (q : Provider) (u : MultipartUpload)
      → validate_key u.key ≡ ok tt
      → find_upload u q.uploads ≡ none
      → Gone q u
  unfolding Gone upload_part store_part complete_multipart complete_upload
  missing-Gone q u valid none_ = (
    λ n r le. let counted : ltb n 1 ≡ false = ground arith in rw (valid, counted) (rw none_ refl),
    λ parts spec. rw valid (rw none_ refl),
  )

  finished-none :
      (p : Provider) (u : MultipartUpload) (spec : Retention) (s : Staging) (body : List ℕ)
      (q : Provider) (res : PutResult)
      → finish_upload p u spec s body ≡ (q, ok res)
      → find_upload u q.uploads ≡ none
  unfolding finish_upload remove_dir
  finished-none p u spec s body q res h =
      let differs : Bool =
        not (str_eq s.checksum_sha256 "") && not (str_eq s.checksum_sha256 (env.sha256_hex body)) in
      let dir = multipart_dir u.key u.upload_id in
      let done = publish p u.key body s.content_type spec in
      if_intro
        (λ (x : Provider × Result StoreError PutResult).
          x ≡ (q, ok res) → find_upload u q.uploads ≡ none)
        differs (fail_put p checksum_mismatch) (remove_dir done.0 dir, ok done.1)
        (λ _ g. absurd (err-ne-ok checksum_mismatch res (ap (λ x. x.1) g)))
        (λ _ g. ap (λ x. find_upload u x.0.uploads) (sym g) ∙ find-remove_stagings u done.0.uploads)
        h

  completed-none :
      (p : Provider) (u : MultipartUpload) (parts : List CompletedPart) (spec : Retention)
      (o : Option Staging) (q : Provider) (res : PutResult)
      → complete_upload p u parts spec o ≡ (q, ok res)
      → find_upload u q.uploads ≡ none
  unfolding complete_upload
  completed-none p u parts spec none q res h = absurd (err-ne-ok not_found res (ap (λ x. x.1) h))
  completed-none p u parts spec (some s) q res h = go (join_parts parts s.parts) h
    where
      go :
          (m : Result StoreError (List ℕ))
          → (elim m as (λ _. Provider × Result StoreError PutResult) [
            | err e ↦ fail_put p e
            | ok body ↦ finish_upload p u spec s body
          ])
            ≡ (q, ok res)
          → find_upload u q.uploads ≡ none
      go (err e) g = absurd (err-ne-ok e res (ap (λ x. x.1) g))
      go (ok body) g = finished-none p u spec s body q res g

  -- `CompleteMultipart` is no more than once: directly after one that succeeded the upload is gone,
  -- `UploadPart` of a part from 1 on and `CompleteMultipart` with any parts answer "not found" and
  -- change nothing. The upload id is a single path segment.
  pub complete-Gone :
      (p q : Provider) (u : MultipartUpload) (parts : List CompletedPart) (spec : Retention)
      (res : PutResult)
      → IsSegment u.upload_id
      → complete_multipart p u parts spec ≡ (q, ok res)
      → ((n : ℕ) (r : Reader) → 1 ≤ n → upload_part q u n r ≡ (q, err not_found))
        × ((again : List CompletedPart) (spec' : Retention)
            → complete_multipart q u again spec' ≡ (q, err not_found))
  unfolding complete_multipart
  complete-Gone p q u parts spec res segment done =
      let inner = checked-ok p q (validate_key u.key) _ res done in
      let gone =
        missing-Gone q u inner.0
          (completed-none p u parts spec (find_upload u p.uploads) q res inner.1) in
      (unfold Gone in (gone.0, gone.1))

  -- Directly after an `AbortMultipart` of a valid key and an upload id that is a single path segment
  -- the upload is gone: `UploadPart` of a part from 1 on and `CompleteMultipart` with any parts answer
  -- "not found" and change nothing. The versions of every key that does not begin with _multipart/
  -- are as they were.
  pub abort-Gone :
      (p : Provider) (u : MultipartUpload)
      → validate_key u.key ≡ ok tt
      → IsSegment u.upload_id
      → (q : Provider) × (abort_multipart p u ≡ (q, ok tt))
        × ((n : ℕ) (r : Reader) → 1 ≤ n → upload_part q u n r ≡ (q, err not_found))
        × ((again : List CompletedPart) (spec : Retention)
            → complete_multipart q u again spec ≡ (q, err not_found))
        × ((j : String) → Outside j → versions_of q j ≡ versions_of p j)
  unfolding abort_multipart
  abort-Gone p u valid segment =
      let dir = multipart_dir u.key u.upload_id in
      let q = remove_dir p dir in
      let gone : Gone q u =
        missing-Gone q u valid (unfold remove_dir in find-remove_stagings u p.uploads) in
      (
        q,
        rw valid refl,
        (unfold Gone in gone.0),
        (unfold Gone in gone.1),
        λ j out. remove_dir-Apart p dir j (multipart_dir-Outside u.key u.upload_id j out),
      )
