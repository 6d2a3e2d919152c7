-- ===== src/Local/Extends.antt =====
-- One state of the provider has all versions of another.
use kdrive.Common.{
  ℕ, ◌+◌, ◌≡◌, refl, sym, subst, String, not, ◌&&◌, if_intro, str_eq, List, Option, none, some,
  Result, ok, err, Result_intro, Reader, ltb, ◌⊎◌,
}
use kdrive.BlobStore.{
  StoreError, Retention, PutRequest, PutResult, MultipartUpload, CompletedPart, UploadedPart,
}
use kdrive.Local.State.{
  Sidecar, Version, Staging, Provider, LocalEnv, versions_of, has_any, find_version, or_none,
  publish, new_version, add_version,
}
use kdrive.Local.Keys.{validate_key, IsSegment}
use kdrive.Local.Objects.{
  checked, CopyRequest, put, put_body, wrong_length, wrong_checksum, marker, delete, copy_source,
  copy_body, copy_within_provider, remove_dir, multipart_dir,
}
use kdrive.Local.Multipart.{
  MultipartRequest, create_multipart, store_part, upload_part, abort_multipart, find_upload,
  join_parts, finish_upload, complete_upload, complete_multipart,
}
use kdrive.Local.Runs.{
  Step, put_, delete_, purge_, copy_, create_, part_, complete_, abort_, retain_, hold_, remove_,
  batch_,
}
use kdrive.Local.Fresh.{find-add_old}
use kdrive.Common.Dict.{lookup}
use kdrive.Local.Dirs.{remove_dir-Apart, multipart_dir-Outside, Apart, Outside}

-- Every version of the key in the first state is there in the second one, unchanged.
abbrev pub ExtendsAt : String → Provider → Provider → Type 0
ExtendsAt j p q =
    (id : String) (u : Version)
    → find_version id (versions_of p j) ≡ some u
    → find_version id (versions_of q j) ≡ some u

-- That for every key.
abbrev pub Extends : Provider → Provider → Type 0
Extends p q = (j : String) → ExtendsAt j p q

remove_dir-ExtendsAt :
    (p : Provider) (dir j : String) → Apart dir j → ExtendsAt j p (remove_dir p dir)
remove_dir-ExtendsAt p dir j far id u h = rw (remove_dir-Apart p dir j far) h

pub Extends-same : (p q : Provider) → q.objects ≡ p.objects → Extends p q
unfolding versions_of
Extends-same p q same j id u h =
    subst (λ os. find_version id (or_none (lookup j os)) ≡ some u) (sym same) h

checked-Extends :
    {A : Type 0} (p : Provider) (r : Result StoreError (Unit {0}))
    (next : Provider × Result StoreError A)
    → Extends p next.0
    → Extends p (checked p r next).0
checked-Extends p (err e) next done = Extends-same p p refl
checked-Extends p (ok _) next done = done

checked-ExtendsAt :
    {A : Type 0} (j : String) (p : Provider) (r : Result StoreError (Unit {0}))
    (next : Provider × Result StoreError A)
    → ExtendsAt j p next.0
    → ExtendsAt j p (checked p r next).0
checked-ExtendsAt j p (err e) next done = Extends-same p p refl j
checked-ExtendsAt j p (ok _) next done = done

module _ ⦃env : LocalEnv⦄ where
  add-Extends :
      (p : Provider) (key : String) (v : Version)
      → Extends p (add_version (record p { seq = p.seq + 1 }) key v)
  unfolding versions_of
  add-Extends p key v j id u h = find-add_old (record p { seq = p.seq + 1 }) key j id u v h

  pub publish-Extends :
      (p : Provider) (key : String) (body : List ℕ) (content_type : String) (spec : Retention)
      → Extends p (publish p key body content_type spec).0
  unfolding publish
  publish-Extends p key body content_type spec =
      add-Extends p key (new_version p key body content_type spec)

  pub put-Extends : (p : Provider) (req : PutRequest) → Extends p (put p req).0
  unfolding put put_body
  put-Extends p req =
      let P : Provider × Result StoreError PutResult → Type 0 = λ x. Extends p x.0 in
      let failed : Extends p (record p { seq = p.seq + 1 }) =
        Extends-same p (record p { seq = p.seq + 1 }) refl in
      checked-Extends p (validate_key req.key) _ (
        if_intro P (req.if_none_match && has_any (versions_of p req.key)) _ _
          (λ _. Extends-same p p refl)
          (λ _.
            if_intro P req.body.fails _ _ (λ _. failed)
              (λ _.
                if_intro P (wrong_length req) _ _ (λ _. failed)
                  (λ _.
                    if_intro P (wrong_checksum req) _ _ (λ _. failed)
                      (λ _.
                        publish-Extends p req.key req.body.bytes req.content_type req.retention)))))

  pub delete-Extends : (p : Provider) (key : String) → Extends p (delete p key).0
  unfolding delete
  delete-Extends p key = checked-Extends p (validate_key key) _ (
      if_intro (λ (x : Provider × Result StoreError (Unit {0})). Extends p x.0)
        (not (has_any (versions_of p key))) _ _ (λ _. Extends-same p p refl)
        (λ _. add-Extends p key (marker p key)))

  copy_body-Extends :
      (p : Provider) (req : CopyRequest) (src : Sidecar) (o : Option (List ℕ))
      → Extends p (copy_body p req src o).0
  unfolding copy_body
  copy_body-Extends p req src none = Extends-same p p refl
  copy_body-Extends p req src (some body) =
      if_intro (λ (x : Provider × Result StoreError PutResult). Extends p x.0)
        (not (str_eq (env.sha256_hex body) src.checksum_sha256)) _ _
        (λ _. Extends-same p (record p { seq = p.seq + 1 }) refl)
        (λ _. publish-Extends p req.dst_key body src.content_type req.retention)

  pub copy-Extends : (p : Provider) (req : CopyRequest) → Extends p (copy_within_provider p req).0
  unfolding copy_within_provider
  copy-Extends p req = checked-Extends p (validate_key req.src.key) _ (
      checked-Extends p (validate_key req.dst_key) _ (
        Result_intro (λ (x : Provider × Result StoreError PutResult). Extends p x.0)
          (copy_source p req.src) _ _ (λ _. Extends-same p p refl)
          (λ v. copy_body-Extends p req v.sidecar v.body)))

  complete_upload-ExtendsAt :
      (j : String) (p : Provider) (u : MultipartUpload) (cs : List CompletedPart) (spec : Retention)
      (o : Option Staging)
      → Outside j
      → ExtendsAt j p (complete_upload p u cs spec o).0
  unfolding complete_upload finish_upload
  complete_upload-ExtendsAt j p u cs spec none out = Extends-same p p refl j
  complete_upload-ExtendsAt j p u cs spec (some s) out =
      let P : Provider × Result StoreError PutResult → Type 0 = λ x. ExtendsAt j p x.0 in
      let failed : ExtendsAt j p (record p { seq = p.seq + 1 }) =
        Extends-same p (record p { seq = p.seq + 1 }) refl j in
      Result_intro P (join_parts cs s.parts) _ _ (λ _. failed)
        (λ body.
          if_intro P _ _ _ (λ _. failed)
            (λ _ id w h.
              remove_dir-ExtendsAt (publish p u.key body s.content_type spec).0
                (multipart_dir u.key u.upload_id) j (multipart_dir-Outside u.key u.upload_id j out)
                id w (publish-Extends p u.key body s.content_type spec j id w h)))

  pub complete-ExtendsAt :
      (j : String) (p : Provider) (u : MultipartUpload) (cs : List CompletedPart) (spec : Retention)
      → Outside j
      → ExtendsAt j p (complete_multipart p u cs spec).0
  unfolding complete_multipart
  complete-ExtendsAt j p u cs spec out =
      checked-ExtendsAt j p (validate_key u.key) _
        (complete_upload-ExtendsAt j p u cs spec (find_upload u p.uploads) out)

  create-Extends : (p : Provider) (req : MultipartRequest) → Extends p (create_multipart p req).0
  unfolding create_multipart
  create-Extends p req = checked-Extends p (validate_key req.key) _ (Extends-same p _ refl)

  store_part-Extends :
      (p : Provider) (u : MultipartUpload) (n : ℕ) (r : Reader) (o : Option Staging)
      → Extends p (store_part p u n r o).0
  unfolding store_part
  store_part-Extends p u n r none = Extends-same p p refl
  store_part-Extends p u n r (some s) =
      if_intro (λ (x : Provider × Result StoreError UploadedPart). Extends p x.0) r.fails _ _
        (λ _. Extends-same p _ refl) (λ _. Extends-same p _ refl)

  part-Extends :
      (p : Provider) (u : MultipartUpload) (n : ℕ) (r : Reader) → Extends p (upload_part p u n r).0
  unfolding upload_part
  part-Extends p u n r = checked-Extends p (validate_key u.key) _ (
      if_intro (λ (x : Provider × Result StoreError UploadedPart). Extends p x.0) (ltb n 1) _ _
        (λ _. Extends-same p p refl) (λ _. store_part-Extends p u n r (find_upload u p.uploads)))

  abort-ExtendsAt :
      (j : String) (p : Provider) (u : MultipartUpload)
      → Outside j
      → ExtendsAt j p (abort_multipart p u).0
  unfolding abort_multipart
  abort-ExtendsAt j p u out = checked-ExtendsAt j p (validate_key u.key) _ (
      remove_dir-ExtendsAt p (multipart_dir u.key u.upload_id) j
        (multipart_dir-Outside u.key u.upload_id j out))

  -- The source's id is a path segment, or it is not given.
  abbrev pub FromSegment : CopyRequest → Type 0
  FromSegment req = (req.src.version_id ≡ "") ⊎ IsSegment req.src.version_id

  -- The calls that write versions or delete keys, and those on uploads, with ids that are path
  -- segments.
  abbrev pub Adds : {p q : Provider} → Step p q → Type 0
  Adds (put_ req) = Unit
  Adds (delete_ key) = Unit
  Adds (purge_ key) = ⊥
  Adds (copy_ req) = FromSegment req
  Adds (create_ req) = Unit
  Adds (part_ u n r) = IsSegment u.upload_id
  Adds (complete_ u parts spec) = IsSegment u.upload_id
  Adds (abort_ u) = IsSegment u.upload_id
  Adds (retain_ req) = ⊥
  Adds (hold_ ref enabled) = ⊥
  Adds (remove_ ref) = ⊥
  Adds (batch_ refs) = ⊥

  pub Step-ExtendsAt :
      (j : String) (p q : Provider) (s : Step p q) → Outside j → Adds s → ExtendsAt j p q
  Step-ExtendsAt j p q (put_ req) out a = put-Extends p req j
  Step-ExtendsAt j p q (delete_ key) out a = delete-Extends p key j
  Step-ExtendsAt j p q (copy_ req) out a = copy-Extends p req j
  Step-ExtendsAt j p q (create_ req) out a = create-Extends p req j
  Step-ExtendsAt j p q (part_ u n r) out a = part-Extends p u n r j
  Step-ExtendsAt j p q (complete_ u parts spec) out a = complete-ExtendsAt j p u parts spec out
  Step-ExtendsAt j p q (abort_ u) out a = abort-ExtendsAt j p u out
  Step-ExtendsAt j p _ (purge_ key) out a = elim a [ ]
  Step-ExtendsAt j p _ (retain_ req) out a = elim a [ ]
  Step-ExtendsAt j p _ (hold_ ref enabled) out a = elim a [ ]
  Step-ExtendsAt j p _ (remove_ ref) out a = elim a [ ]
  Step-ExtendsAt j p _ (batch_ refs) out a = elim a [ ]
