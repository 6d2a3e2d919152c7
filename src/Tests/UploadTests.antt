-- ===== src/Tests/UploadTests.antt =====
-- Multipart uploads of the filesystem provider at concrete inputs.
use kdrive.Common.{
  ℕ, ◌≤◌, ◌≡◌, refl, inl, false, List, [], ◌∷◌, map, none, String, ok, err, Reader, arith,
}
use kdrive.Common.Text.{has_code}
use kdrive.BlobStore.{not_found, PutResult, MultipartUpload, Retention, CompletedPart}
use kdrive.Local.State.{Provider, empty_provider, versions_of, new_version, put_result}
use kdrive.Local.Keys.{bad_segment, IsSegment, validate_key}
use kdrive.Local.Objects.{get}
use kdrive.Local.Multipart.{
  MultipartRequest, create_multipart, complete_multipart, upload_part, abort_multipart,
}
use kdrive.Local.RoundTrip.{described}
use kdrive.Local.Staged.{AreParts}
use kdrive.Local.Assembly.{completed, send_all, complete-joins}
use kdrive.Local.Ended.{complete-Gone, abort-Gone}
use kdrive.Local.Dirs.{Outside}
use kdrive.Tests.LocalTests.{counted, counted_laws, empty_IsValid, first, open_object, bytes_of}

abbrev two_parts : List (ℕ × List ℕ)
two_parts = (2, 1 ∷ []) ∷ (1, 3 ∷ 4 ∷ []) ∷ []

abbrev opened : MultipartRequest
opened = record {
  key = "a";
  content_type = "";
  checksum_sha256 = "";
  retention = record { mode = ""; retain_until = 0; legal_hold = false };
}

abbrev the_upload : MultipartUpload
the_upload = record { key = "a"; upload_id = "vv" }

two_parts-AreParts : AreParts two_parts
two_parts-AreParts = (omega arith, ((λ e. omega (arith, e)), tt), (omega arith, tt, tt))

complete-joins_example :
    (q : Provider) × (res : PutResult) × (complete_multipart
        (send_all (create_multipart empty_provider opened).0 the_upload two_parts)
        the_upload
        (map completed two_parts)
        opened.retention
      ≡ (q, ok res))
    × (get q (record { key = "a"; version_id = "" }) none
        ≡ ok (bytes_of (1 ∷ 3 ∷ 4 ∷ []), described res))
    × (res.checksum_sha256 ≡ "ssss")
complete-joins_example =
    complete-joins empty_provider (create_multipart empty_provider opened).0 opened the_upload
      two_parts opened.retention counted_laws empty_IsValid two_parts-AreParts
      (unfold create_multipart empty_provider in refl) (inl refl)

abbrev staged : Provider
staged = send_all (create_multipart empty_provider opened).0 the_upload two_parts

abbrev joined_res : PutResult
joined_res =
    put_result
      (new_version (create_multipart empty_provider opened).0 "a" (1 ∷ 3 ∷ 4 ∷ []) ""
        opened.retention).sidecar

abbrev joined_provider : Provider
joined_provider =
    (complete_multipart staged the_upload (map completed two_parts) opened.retention).0

joined_ok :
    complete_multipart staged the_upload (map completed two_parts) opened.retention
    ≡ (joined_provider, ok joined_res)
unfolding complete_multipart create_multipart send_all upload_part empty_provider
joined_ok = refl

the_upload-IsSegment : IsSegment the_upload.upload_id
unfolding empty_provider has_code bad_segment
the_upload-IsSegment = (refl, refl)

complete-Gone_example :
    ((n : ℕ) (r : Reader)
      → 1 ≤ n
      → upload_part joined_provider the_upload n r ≡ (joined_provider, err not_found))
    × ((again : List CompletedPart) (spec : Retention)
        → complete_multipart joined_provider the_upload again spec
          ≡ (joined_provider, err not_found))
complete-Gone_example =
    complete-Gone staged joined_provider the_upload (map completed two_parts) opened.retention
      joined_res the_upload-IsSegment joined_ok

abort-Gone_example :
    (q : Provider) × (abort_multipart staged the_upload ≡ (q, ok tt))
    × ((n : ℕ) (r : Reader) → 1 ≤ n → upload_part q the_upload n r ≡ (q, err not_found))
    × ((again : List CompletedPart) (spec : Retention)
        → complete_multipart q the_upload again spec ≡ (q, err not_found))
    × ((j : String) → Outside j → versions_of q j ≡ versions_of staged j)
abort-Gone_example = abort-Gone staged the_upload (unfold validate_key in refl) the_upload-IsSegment

-- A COMPLIANCE version of a key in a staging directory goes with the upload.
abbrev nested : Provider
nested = record first {
  objects =
      (
        "_multipart/a/u",
        new_version empty_provider "_multipart/a/u" [] "" (open_object []).retention ∷ [],
      )
      ∷ [];
}

nested_key : validate_key "_multipart/a/u" ≡ ok tt
unfolding validate_key
nested_key = refl

abort_removes_key : (abort_multipart nested (record { key = "a"; upload_id = "u" })).0.objects ≡ []
unfolding abort_multipart
abort_removes_key = refl
