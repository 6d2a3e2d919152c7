-- ===== src/Local/Multipart.antt =====
-- The multipart methods: parts are staged, and assembled on `CompleteMultipart`.
use kdrive.Common.{
  ℕ, ◌+◌, ◌==◌, ltb, String, Bool, not, ◌&&◌, if◌then◌else◌, str_eq, List, [], ◌∷◌, ◌++◌, Option,
  none, some, Result, ok, err, ◌>>=◌, Reader, length,
}
use kdrive.BlobStore.{
  StoreError, not_found, checksum_mismatch, other, PutResult, MultipartUpload, UploadedPart,
  CompletedPart, Retention,
}
use kdrive.Local.State.{Staging, Provider, LocalEnv, publish, fail_put, next_id}
use kdrive.Local.Keys.{validate_key}
use kdrive.Local.Objects.{checked, remove_dir, multipart_dir}

-- `MultipartRequest`
pub record MultipartRequest : Type 0 where
  pub key : String
  pub content_type : String
  pub checksum_sha256 : String
  pub retention : Retention

unfoldable pub is_upload : MultipartUpload → Staging → Bool
is_upload u s = str_eq s.key u.key && str_eq s.upload_id u.upload_id

unfoldable pub find_upload : MultipartUpload → List Staging → Option Staging
unfolding is_upload
find_upload u [] = none
find_upload u (s ∷ ss) = if is_upload u s then some s else find_upload u ss

unfoldable pub set_upload : MultipartUpload → Staging → List Staging → List Staging
unfolding is_upload
set_upload u new [] = []
set_upload u new (s ∷ ss) = if is_upload u s then new ∷ ss else s ∷ set_upload u new ss

-- `os.Create` truncates what an earlier upload of the part left.
unfoldable pub set_part : ℕ → List ℕ → List (ℕ × List ℕ) → List (ℕ × List ℕ)
set_part n body [] = (n, body) ∷ []
set_part n body (p ∷ ps) = if p.0 == n then (n, body) ∷ ps else p ∷ set_part n body ps

unfoldable pub find_part : ℕ → List (ℕ × List ℕ) → Option (List ℕ)
find_part n [] = none
find_part n (p ∷ ps) = if p.0 == n then some p.1 else find_part n ps

-- The loop over the parts' files.
unfoldable pub join_parts : List CompletedPart → List (ℕ × List ℕ) → Result StoreError (List ℕ)
unfolding find_part
join_parts [] staged = ok []
join_parts (c ∷ cs) staged = elim (find_part c.part_number staged) [
  | none ↦ err other
  | some body ↦ do rest ← join_parts cs staged; ok (body ++ rest)
]

unfoldable pub staged_part : Staging → ℕ → List ℕ → Staging
unfolding set_part
staged_part s n body = record s { parts = set_part n body s.parts }

module _ ⦃env : LocalEnv⦄ where
  abbrev pub new_staging : Provider → MultipartRequest → Staging
  new_staging p req = record {
    key = req.key;
    upload_id = next_id p;
    content_type = req.content_type;
    checksum_sha256 = req.checksum_sha256;
    retention = req.retention;
    started_at = env.clock (p.seq + 1);
    parts = [];
  }

  unfoldable pub create_multipart :
      Provider → MultipartRequest → Provider × Result StoreError MultipartUpload
  unfolding validate_key
  create_multipart p req = checked p (validate_key req.key) (
    record p { uploads = new_staging p req ∷ p.uploads; seq = p.seq + 1 },
    ok (record { key = req.key; upload_id = next_id p }),
  )

  -- A body that fails leaves what was written of the part.
  unfoldable pub store_part :
      Provider
      → MultipartUpload
      → ℕ
      → Reader
      → Option Staging
      → Provider × Result StoreError UploadedPart
  unfolding staged_part set_upload
  store_part p u n r none = (p, err not_found)
  store_part p u n r (some s) =
      let p' = record p { uploads = set_upload u (staged_part s n r.bytes) p.uploads } in
      if r.fails then (p', err other) else (
        p',
        ok (record {
          part_number = n;
          checksum_sha256 = env.sha256_hex r.bytes;
          size = length r.bytes;
        }),
      )

  unfoldable pub upload_part :
      Provider → MultipartUpload → ℕ → Reader → Provider × Result StoreError UploadedPart
  unfolding validate_key store_part find_upload
  upload_part p u n r =
      checked p (validate_key u.key)
        (if ltb n 1 then (p, err other) else store_part p u n r (find_upload u p.uploads))

  -- The version has the retention of the complete request; the staging directory is removed, with the
  -- keys that lie there.
  unfoldable pub finish_upload :
      Provider
      → MultipartUpload
      → Retention
      → Staging
      → List ℕ
      → Provider × Result StoreError PutResult
  unfolding publish remove_dir multipart_dir
  finish_upload p u spec s body =
      if not (str_eq s.checksum_sha256 "") && not (str_eq s.checksum_sha256 (env.sha256_hex body))
      then fail_put p checksum_mismatch
      else (let done = publish p u.key body s.content_type spec in
          (remove_dir done.0 (multipart_dir u.key u.upload_id), ok done.1))

  unfoldable pub complete_upload :
      Provider
      → MultipartUpload
      → List CompletedPart
      → Retention
      → Option Staging
      → Provider × Result StoreError PutResult
  unfolding join_parts finish_upload
  complete_upload p u parts spec none = (p, err not_found)
  complete_upload p u parts spec (some s) = elim (join_parts parts s.parts) [
    | err e ↦ fail_put p e
    | ok body ↦ finish_upload p u spec s body
  ]

  unfoldable pub complete_multipart :
      Provider
      → MultipartUpload
      → List CompletedPart
      → Retention
      → Provider × Result StoreError PutResult
  unfolding validate_key complete_upload find_upload
  complete_multipart p u parts spec =
      checked p (validate_key u.key) (complete_upload p u parts spec (find_upload u p.uploads))

unfoldable pub abort_multipart :
    Provider → MultipartUpload → Provider × Result StoreError (Unit {0})
unfolding validate_key remove_dir multipart_dir
abort_multipart p u =
    checked p (validate_key u.key) (remove_dir p (multipart_dir u.key u.upload_id), ok tt)
