-- ===== src/Local/Runs.antt =====
-- Any calls of the provider, one after another.
use kdrive.Common.{ℕ, String, Bool, List, Reader}
use kdrive.BlobStore.{Retention, VersionedObjectRef, PutRequest, MultipartUpload, CompletedPart}
use kdrive.Common.Dict.{lookup}
use kdrive.Local.State.{Provider, LocalEnv, empty_provider, versions_of}
use kdrive.Local.Objects.{CopyRequest, put, delete, copy_within_provider, purge_all_versions}
use kdrive.Local.Multipart.{
  MultipartRequest, create_multipart, upload_part, complete_multipart, abort_multipart,
}
use kdrive.Local.Retain.{
  RetentionUpdate, update_retention, set_legal_hold, delete_version, delete_batch,
}
use kdrive.Local.Validity.{IsValid, put-IsValid, delete-IsValid, copy-IsValid}
use kdrive.Local.Preserved.{
  purge-IsValid, create_multipart-IsValid, upload_part-IsValid, complete_multipart-IsValid,
  abort_multipart-IsValid, update_retention-IsValid, set_legal_hold-IsValid, delete_version-IsValid,
  delete_batch-IsValid,
}

module _ ⦃env : LocalEnv⦄ where
  -- One call of a method that changes the state, with whatever result.
  pub data Step (p : Provider) : Provider → Type 0 where
    put_ : (req : PutRequest) → Step p (put p req).0
    delete_ : (key : String) → Step p (delete p key).0
    purge_ : (key : String) → Step p (purge_all_versions p key).0
    copy_ : (req : CopyRequest) → Step p (copy_within_provider p req).0
    create_ : (req : MultipartRequest) → Step p (create_multipart p req).0
    part_ : (u : MultipartUpload) (n : ℕ) (r : Reader) → Step p (upload_part p u n r).0
    complete_ :
        (u : MultipartUpload) (parts : List CompletedPart) (spec : Retention)
        → Step p (complete_multipart p u parts spec).0
    abort_ : (u : MultipartUpload) → Step p (abort_multipart p u).0
    retain_ : (req : RetentionUpdate) → Step p (update_retention p req).0
    hold_ : (ref : VersionedObjectRef) (enabled : Bool) → Step p (set_legal_hold p ref enabled).0
    remove_ : (ref : VersionedObjectRef) → Step p (delete_version p ref).0
    batch_ : (refs : List VersionedObjectRef) → Step p (delete_batch p refs).0

  -- The states that a provider which is empty at first comes to.
  pub data Reached : Provider → Type 0 where
    start : Reached empty_provider
    then_ : {p q : Provider} → Reached p → Step p q → Reached q

  Step-IsValid : (p q : Provider) → Step p q → IsValid p → IsValid q
  Step-IsValid p q (put_ req) v = put-IsValid p req v
  Step-IsValid p q (delete_ key) v = delete-IsValid p key v
  Step-IsValid p q (purge_ key) v = purge-IsValid p key v
  Step-IsValid p q (copy_ req) v = copy-IsValid p req v
  Step-IsValid p q (create_ req) v = create_multipart-IsValid p req v
  Step-IsValid p q (part_ u n r) v = upload_part-IsValid p u n r v
  Step-IsValid p q (complete_ u parts spec) v = complete_multipart-IsValid p u parts spec v
  Step-IsValid p q (abort_ u) v = abort_multipart-IsValid p u v
  Step-IsValid p q (retain_ req) v = update_retention-IsValid p req v
  Step-IsValid p q (hold_ ref enabled) v = set_legal_hold-IsValid p ref enabled v
  Step-IsValid p q (remove_ ref) v = delete_version-IsValid p ref v
  Step-IsValid p q (batch_ refs) v = delete_batch-IsValid p refs v

  pub Reached-IsValid : (p : Provider) → Reached p → IsValid p
  unfolding empty_provider versions_of lookup
  Reached-IsValid p start j = tt
  Reached-IsValid q (then_ {p} r s) j = Step-IsValid p q s (Reached-IsValid p r) j
