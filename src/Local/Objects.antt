-- ===== src/Local/Objects.antt =====
-- `Put`, `Head`, `Get`, `Delete`, `PurgeAllVersions` and `CopyWithinProvider`.
use kdrive.Common.{
  ℕ, ◌+◌, ◌-◌, String, Bool, true, false, not, ◌&&◌, if◌then◌else◌, ltb, ◌==◌, str_eq, List, [],
  ◌∷◌, Option, none, some, Result, ok, err, ◌>>=◌, Reader, ℤ, pos, negsuc, length, take, drop,
}
use kdrive.Common.Text.{lies_under, append}
use kdrive.BlobStore.{
  StoreError, not_found, precondition_failed, checksum_mismatch, other, PutRequest, PutResult,
  ObjectMeta, VersionedObjectRef, Retention, versioning_enabled,
}
use kdrive.Local.State.{
  Sidecar, Version, Provider, LocalEnv, versions_of, list_versions, latest_version, latest_body,
  find_version, has_any, add_version, sidecar_to_meta, publish, fail_put, next_id, Staging,
}
use kdrive.Local.Keys.{validate_key}

-- `bytes=start-end`, both ends included; an `end` below 0 is the last byte.
pub record ByteRange : Type 0 where
  pub start : ℤ
  pub end : ℤ

pub record CopyRequest : Type 0 where
  pub src : VersionedObjectRef
  pub dst_key : String
  pub retention : Retention

-- An error leaves the state.
abbrev pub checked :
    {A : Type 0}
    → Provider
    → Result StoreError (Unit {0})
    → Provider × Result StoreError A
    → Provider × Result StoreError A
checked p (err e) next = (p, err e)
checked p (ok _) next = next

-- The last byte that is read of a body of `suc size` bytes.
unfoldable pub range_end : ℤ → ℕ → ℕ
range_end (negsuc n) last = last
range_end (pos n) last = if ltb last n then last else n

unfoldable pub slice_from : ℤ → ℕ → List ℕ → Result StoreError (List ℕ)
slice_from (negsuc n) end body = err other
slice_from (pos start) end body =
    if ltb end start then err other else ok (take (end - start + 1) (drop start body))

-- The bytes that a range reads; an empty body has no range.
unfoldable pub slice : ByteRange → List ℕ → Result StoreError (List ℕ)
unfolding slice_from range_end
slice range [] = err other
slice range (b ∷ bs) = slice_from range.start (range_end range.end (length bs)) (b ∷ bs)

unfoldable pub read_range : Option ByteRange → List ℕ → Result StoreError (List ℕ)
unfolding slice
read_range none body = ok body
read_range (some range) body = slice range body

-- The version that `Get` and `Head` read without a version id.
unfoldable pub current : List Version → Result StoreError Version
unfolding latest_version
current vs = elim (latest_version vs) [
  | none ↦ err not_found
  | some v ↦ if v.sidecar.is_delete_marker then err not_found else ok v
]

unfoldable pub read_sidecar : Provider → VersionedObjectRef → Result StoreError Version
unfolding find_version versions_of
read_sidecar p ref = elim (find_version ref.version_id (versions_of p ref.key)) [
  | none ↦ err not_found
  | some v ↦ ok v
]

unfoldable pub head : Provider → String → Result StoreError ObjectMeta
unfolding validate_key list_versions current sidecar_to_meta
head p key = do
  _ ← validate_key key
  v ← current (list_versions p key)
  ok (sidecar_to_meta v.sidecar)

unfoldable pub selected : Provider → VersionedObjectRef → Result StoreError Version
unfolding read_sidecar current list_versions
selected p ref =
    if not (str_eq ref.version_id "") then read_sidecar p ref else current (list_versions p ref.key)

-- A delete marker has no body file.
unfoldable pub open_body : Version → Result StoreError (List ℕ)
open_body v = elim v.body [ none ↦ err not_found | some body ↦ ok body ]

unfoldable pub get :
    Provider → VersionedObjectRef → Option ByteRange → Result StoreError (Reader × ObjectMeta)
unfolding validate_key selected open_body read_range sidecar_to_meta
get p ref range = do
  _ ← validate_key ref.key
  v ← selected p ref
  body ← open_body v
  bytes ← read_range range body
  ok (record { bytes = bytes; fails = false }, sidecar_to_meta v.sidecar)

module _ ⦃env : LocalEnv⦄ where
  abbrev pub wrong_length : PutRequest → Bool
  wrong_length req = ltb 0 req.expected_length && not (length req.body.bytes == req.expected_length)

  abbrev pub wrong_checksum : PutRequest → Bool
  wrong_checksum req =
      not (str_eq req.checksum_sha256 "")
      && not (str_eq req.checksum_sha256 (env.sha256_hex req.body.bytes))

  -- The temporary file is removed on every error, and the counter has moved.
  unfoldable pub put_body : Provider → PutRequest → Provider × Result StoreError PutResult
  unfolding publish
  put_body p req =
      if req.body.fails
      then fail_put p other
      else if wrong_length req
      then fail_put p checksum_mismatch
      else if wrong_checksum req
      then fail_put p checksum_mismatch
      else (let done = publish p req.key req.body.bytes req.content_type req.retention in
          (done.0, ok done.1))

  unfoldable pub put : Provider → PutRequest → Provider × Result StoreError PutResult
  unfolding validate_key put_body has_any versions_of
  put p req = checked p (validate_key req.key) (
      if req.if_none_match && has_any (versions_of p req.key)
      then (p, err precondition_failed)
      else put_body p req)

  abbrev pub marker : Provider → String → Version
  marker p key = record {
    sidecar = record {
      key = key;
      version_id = next_id p;
      size_bytes = 0;
      checksum_sha256 = "";
      content_type = "";
      versioning_state = versioning_enabled;
      retention = record { mode = ""; retain_until = 0; legal_hold = false };
      write_time = env.clock (p.seq + 1);
      is_delete_marker = true;
    };
    body = none;
  }

  unfoldable pub delete : Provider → String → Provider × Result StoreError (Unit {0})
  unfolding validate_key has_any versions_of add_version
  delete p key = checked p (validate_key key) (
      if not (has_any (versions_of p key))
      then (p, err not_found)
      else (add_version (record p { seq = p.seq + 1 }) key (marker p key), ok tt))

  unfoldable pub copy_source : Provider → VersionedObjectRef → Result StoreError Version
  unfolding read_sidecar latest_body list_versions
  copy_source p ref =
      if not (str_eq ref.version_id "")
      then read_sidecar p ref
      else elim (latest_body (list_versions p ref.key)) [ none ↦ err not_found | some v ↦ ok v ]

  -- `os.Open` of a missing body is a plain error here.
  unfoldable pub copy_body :
      Provider → CopyRequest → Sidecar → Option (List ℕ) → Provider × Result StoreError PutResult
  unfolding publish
  copy_body p req src none = (p, err other)
  copy_body p req src (some body) =
      if not (str_eq (env.sha256_hex body) src.checksum_sha256)
      then fail_put p checksum_mismatch
      else (let done = publish p req.dst_key body src.content_type req.retention in
          (done.0, ok done.1))

  unfoldable pub copy_within_provider :
      Provider → CopyRequest → Provider × Result StoreError PutResult
  unfolding validate_key copy_source copy_body
  copy_within_provider p req = checked p (validate_key req.src.key) (
      checked p (validate_key req.dst_key) (elim (copy_source p req.src) [
        | err e ↦ (p, err e)
        | ok v ↦ copy_body p req v.sidecar v.body
      ]))

-- `os.RemoveAll` of the key's directory, in which the keys lie that it is a path prefix of.
unfoldable pub remove_all : String → List (String × List Version) → List (String × List Version)
unfolding lies_under
remove_all key [] = []
remove_all key (o ∷ os) =
    let rest = remove_all key os in
    if str_eq o.0 key then rest else if lies_under key o.0 then rest else o ∷ rest

-- `multipartDir`, as a path from the root. The id is one path segment where nothing is cleaned.
unfoldable pub multipart_dir : String → String → String
unfolding append
multipart_dir key upload_id = append "_multipart/" (append key (append "/" upload_id))

-- The staging directories that lie in a directory.
unfoldable pub remove_stagings : String → List Staging → List Staging
unfolding lies_under multipart_dir
remove_stagings dir [] = []
remove_stagings dir (s ∷ ss) =
    let rest = remove_stagings dir ss in
    let path = multipart_dir s.key s.upload_id in
    if str_eq path dir then rest else if lies_under dir path then rest else s ∷ rest

-- `os.RemoveAll` of a directory below the root.
unfoldable pub remove_dir : Provider → String → Provider
unfolding remove_all remove_stagings
remove_dir p dir = record p {
  objects = remove_all dir p.objects;
  uploads = remove_stagings dir p.uploads;
}

unfoldable pub purge_all_versions : Provider → String → Provider × Result StoreError (Unit {0})
unfolding validate_key remove_dir
purge_all_versions p key = checked p (validate_key key) (remove_dir p key, ok tt)
