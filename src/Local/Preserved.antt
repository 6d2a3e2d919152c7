-- ===== src/Local/Preserved.antt =====
-- The methods on uploads, retention and removal keep the versions valid.
use kdrive.Common.{
  ℕ, ◌≡◌, refl, sym, subst, String, Bool, false, if_intro, if◌then◌else◌, str_eq, Bool-cases,
  eq_iff, inl, inr, ◌∙◌, ltb, List, [], ◌∷◌, Option, none, some, Result, ok, err, Result_intro,
  Reader, All, arith,
}
use kdrive.Common.Dict.{lookup, str_ne, ne_of_str_eq, str_eq_refl}
use kdrive.Common.Text.{lies_under}
use kdrive.BlobStore.{
  StoreError, Retention, VersionedObjectRef, PutResult, MultipartUpload, UploadedPart,
  CompletedPart,
}
use kdrive.Local.State.{
  Sidecar, Version, Staging, Provider, LocalEnv, versions_of, or_none, publish,
}
use kdrive.Local.Keys.{validate_key}
use kdrive.Local.Objects.{remove_all, remove_dir, multipart_dir, purge_all_versions}
use kdrive.Local.Multipart.{
  MultipartRequest, create_multipart, store_part, upload_part, find_upload, join_parts,
  finish_upload, complete_upload, complete_multipart, abort_multipart,
}
use kdrive.Local.Retain.{
  RetentionUpdate, set_retention, store_retention, write_retention, update_retention,
  set_legal_hold, drop_version, delete_version, delete_batch,
}
use kdrive.Local.Validity.{
  Agrees, Written, IsValid, IsValid-same, insert-IsValid, publish-IsValid, checked-IsValid, bumped,
}

here :
    (key j : String) (w : List Version) (os : List (String × List Version))
    → lookup j (remove_all key os)
      ≡ (if str_eq key j then none else if lies_under key j then none else lookup j os)
    → lookup j (remove_all key ((j, w) ∷ os))
      ≡ (if str_eq key j then none else if lies_under key j then none else some w)
unfolding remove_all lookup
here key j w os ih = elim (Bool-cases (str_eq j key)) [
  | inl same ↦ rw same (ih ∙ rw ((eq_iff j key).0 same, str_eq_refl key) refl)
  | inr ne ↦
      let other : str_eq key j ≡ false = str_ne key j (λ e. ne_of_str_eq j key ne (sym e)) in
      elim (Bool-cases (lies_under key j)) [
        | inl under ↦ rw (ne, under, other) (ih ∙ rw (other, under) refl)
        | inr free ↦ rw (ne, free, other, str_eq_refl j) refl
      ]
]

-- What is left of the objects is what was there.
pub lookup-remove_all :
    (key j : String) (os : List (String × List Version))
    → lookup j (remove_all key os)
      ≡ (if str_eq key j then none else if lies_under key j then none else lookup j os)
unfolding remove_all lookup
lookup-remove_all key j [] = ground arith
lookup-remove_all key j ((i, w) ∷ os) = elim (Bool-cases (str_eq i j)) [
  | inl same ↦
      subst
        (λ x. lookup j (remove_all key ((x, w) ∷ os)) ≡ (
          if str_eq key j then none else if lies_under key j then none else lookup j ((x, w) ∷ os)))
        (sym ((eq_iff i j).0 same))
        (rw (str_eq_refl j) (here key j w os (lookup-remove_all key j os)))
  | inr ne ↦
      rw ne ground (arith, lookup-remove_all key j os, ne, eq_iff i key, eq_iff key j, eq_iff i j)
]

drop_version-All :
    (P : Version → Type 0) (id : String) (vs : List Version) → All P vs → All P (drop_version id vs)
unfolding drop_version
drop_version-All P id [] h = tt
drop_version-All P id (v ∷ vs) h =
    let rest = drop_version-All P id vs h.1 in
    if_intro (All P) (str_eq v.sidecar.version_id id) _ _ (λ _. rest) (λ _. (h.0, rest))

module _ ⦃env : LocalEnv⦄ where
  Agrees-retention :
      (sc : Sidecar) (r : Retention) (o : Option (List ℕ))
      → Agrees sc o
      → Agrees (record sc { retention = r }) o
  Agrees-retention sc r none a = a
  Agrees-retention sc r (some body) a = a

  set_retention-Written :
      (key : String) (seq : ℕ) (id : String) (r : Retention) (vs : List Version)
      → All (Written key seq) vs
      → All (Written key seq) (set_retention id r vs)
  unfolding set_retention
  set_retention-Written key seq id r [] h = tt
  set_retention-Written key seq id r (v ∷ vs) h =
      if_intro (All (Written key seq)) (str_eq v.sidecar.version_id id) _ _
        (λ _. (
          record {
            owner = h.0.owner;
            made = h.0.made;
            agrees = Agrees-retention v.sidecar r v.body h.0.agrees;
          },
          h.1,
        ))
        (λ _. (h.0, set_retention-Written key seq id r vs h.1))

  write_retention-IsValid :
      (p : Provider) (ref : VersionedObjectRef) (m : Result StoreError Retention)
      → IsValid p
      → IsValid (write_retention p ref m).0
  unfolding write_retention store_retention
  write_retention-IsValid p ref (err e) valid = valid
  write_retention-IsValid p ref (ok r) valid =
      insert-IsValid p ref.key _ valid (
        set_retention-Written ref.key p.seq ref.version_id r (versions_of p ref.key)
          (valid ref.key))

  pub delete_version-IsValid :
      (p : Provider) (ref : VersionedObjectRef) → IsValid p → IsValid (delete_version p ref).0
  unfolding delete_version
  delete_version-IsValid p ref valid = checked-IsValid p (validate_key ref.key) _ valid (
      insert-IsValid p ref.key _ valid (
        drop_version-All (Written ref.key p.seq) ref.version_id (versions_of p ref.key)
          (valid ref.key)))

  pub delete_batch-IsValid :
      (p : Provider) (refs : List VersionedObjectRef) → IsValid p → IsValid (delete_batch p refs).0
  unfolding delete_batch
  delete_batch-IsValid p [] valid = valid
  delete_batch-IsValid p (ref ∷ refs) valid =
      let one = delete_version p ref in
      let rest = delete_batch-IsValid one.0 refs (delete_version-IsValid p ref valid) in
      Result_intro
        (λ (x : Provider × List VersionedObjectRef × List (VersionedObjectRef × StoreError)).
          IsValid x.0)
        one.1 _ _ (λ _. rest) (λ _. rest)

  remove_dir-IsValid : (p : Provider) (dir : String) → IsValid p → IsValid (remove_dir p dir)
  unfolding remove_dir versions_of
  remove_dir-IsValid p dir valid j = rw (lookup-remove_all dir j p.objects) (
      if_intro (λ o. All (Written j p.seq) (or_none o)) (str_eq dir j) _ _ (λ _. tt)
        (λ _.
          if_intro (λ o. All (Written j p.seq) (or_none o)) (lies_under dir j) _ _ (λ _. tt)
            (λ _. valid j)))

  pub purge-IsValid :
      (p : Provider) (key : String) → IsValid p → IsValid (purge_all_versions p key).0
  unfolding purge_all_versions
  purge-IsValid p key valid =
      checked-IsValid p (validate_key key) _ valid (remove_dir-IsValid p key valid)

  pub create_multipart-IsValid :
      (p : Provider) (req : MultipartRequest) → IsValid p → IsValid (create_multipart p req).0
  unfolding create_multipart
  create_multipart-IsValid p req valid =
      checked-IsValid p (validate_key req.key) _ valid (IsValid-same p _ refl (omega arith) valid)

  store_part-IsValid :
      (p : Provider) (u : MultipartUpload) (n : ℕ) (r : Reader) (o : Option Staging)
      → IsValid p
      → IsValid (store_part p u n r o).0
  unfolding store_part
  store_part-IsValid p u n r none valid = valid
  store_part-IsValid p u n r (some s) valid =
      if_intro (λ (x : Provider × Result StoreError UploadedPart). IsValid x.0) r.fails _ _
        (λ _. IsValid-same p _ refl (omega arith) valid)
        (λ _. IsValid-same p _ refl (omega arith) valid)

  pub upload_part-IsValid :
      (p : Provider) (u : MultipartUpload) (n : ℕ) (r : Reader)
      → IsValid p
      → IsValid (upload_part p u n r).0
  unfolding upload_part
  upload_part-IsValid p u n r valid = checked-IsValid p (validate_key u.key) _ valid (
      if_intro (λ (x : Provider × Result StoreError UploadedPart). IsValid x.0) (ltb n 1) _ _
        (λ _. valid) (λ _. store_part-IsValid p u n r (find_upload u p.uploads) valid))

  complete_upload-IsValid :
      (p : Provider) (u : MultipartUpload) (cs : List CompletedPart) (spec : Retention)
      (o : Option Staging)
      → IsValid p
      → IsValid (complete_upload p u cs spec o).0
  unfolding complete_upload finish_upload
  complete_upload-IsValid p u cs spec none valid = valid
  complete_upload-IsValid p u cs spec (some s) valid =
      let P : Provider × Result StoreError PutResult → Type 0 = λ x. IsValid x.0 in
      Result_intro P (join_parts cs s.parts) _ _ (λ _. bumped p valid)
        (λ body.
          if_intro P _ _ _ (λ _. bumped p valid)
            (λ _.
              remove_dir-IsValid (publish p u.key body s.content_type spec).0
                (multipart_dir u.key u.upload_id)
                (publish-IsValid p u.key body s.content_type spec valid)))

  pub complete_multipart-IsValid :
      (p : Provider) (u : MultipartUpload) (cs : List CompletedPart) (spec : Retention)
      → IsValid p
      → IsValid (complete_multipart p u cs spec).0
  unfolding complete_multipart
  complete_multipart-IsValid p u cs spec valid =
      checked-IsValid p (validate_key u.key) _ valid
        (complete_upload-IsValid p u cs spec (find_upload u p.uploads) valid)

  pub abort_multipart-IsValid :
      (p : Provider) (u : MultipartUpload) → IsValid p → IsValid (abort_multipart p u).0
  unfolding abort_multipart
  abort_multipart-IsValid p u valid =
      checked-IsValid p (validate_key u.key) _ valid
        (remove_dir-IsValid p (multipart_dir u.key u.upload_id) valid)

  pub update_retention-IsValid :
      (p : Provider) (req : RetentionUpdate) → IsValid p → IsValid (update_retention p req).0
  unfolding update_retention
  update_retention-IsValid p req valid = write_retention-IsValid p req.ref _ valid

  pub set_legal_hold-IsValid :
      (p : Provider) (ref : VersionedObjectRef) (enabled : Bool)
      → IsValid p
      → IsValid (set_legal_hold p ref enabled).0
  unfolding set_legal_hold
  set_legal_hold-IsValid p ref enabled valid = write_retention-IsValid p ref _ valid
