-- ===== src/Local/Retain.antt =====
-- Retention and legal hold of one version, and its removal.
use kdrive.Common.{
  ℕ, ltb, ◌==◌, String, Bool, false, not, ◌&&◌, if◌then◌else◌, str_eq, List, [], ◌∷◌, Result, ok,
  err, ◌>>=◌, reject,
}
use kdrive.Common.Dict.{insert}
use kdrive.BlobStore.{
  StoreError, retention_conflict, Retention, VersionedObjectRef, retention_none,
  retention_compliance,
}
use kdrive.Local.State.{Version, Provider, versions_of}
use kdrive.Local.Keys.{validate_key}
use kdrive.Local.Objects.{checked, read_sidecar}

-- `RetentionUpdate`
pub record RetentionUpdate : Type 0 where
  pub ref : VersionedObjectRef
  pub mode : String
  pub retain_until : ℕ
  pub clear_retention : Bool

-- `!RetainUntil.IsZero()` and before the date that is set.
unfoldable pub shortens : ℕ → ℕ → Bool
shortens asked held = not (held == 0) && ltb asked held

unfoldable pub extended : Retention → ℕ → Result StoreError Retention
unfolding shortens
extended r asked =
    if asked == 0
    then ok r
    else if shortens asked r.retain_until
    then err retention_conflict
    else ok (record r { retain_until = asked })

unfoldable pub update_compliance : Retention → RetentionUpdate → Result StoreError Retention
unfolding extended
update_compliance r req = do
  _ ← reject req.clear_retention retention_conflict
  r' ← extended r req.retain_until
  _ ←
      reject (not (str_eq req.mode retention_none) && not (str_eq req.mode retention_compliance))
        retention_conflict
  ok r'

abbrev pub cleared : Retention
cleared = record { mode = retention_none; retain_until = 0; legal_hold = false }

unfoldable pub update_open : Retention → RetentionUpdate → Result StoreError Retention
unfolding extended
update_open r req =
    if req.clear_retention
    then ok cleared
    else extended (if not (str_eq req.mode retention_none) then record r { mode = req.mode } else r)
        req.retain_until

-- The state that `UpdateRetention` gives a version.
unfoldable pub updated : Retention → RetentionUpdate → Result StoreError Retention
unfolding update_compliance update_open
updated r req =
    if str_eq r.mode retention_compliance then update_compliance r req else update_open r req

-- `writeSidecar` of the version with this id.
unfoldable pub set_retention : String → Retention → List Version → List Version
set_retention id r [] = []
set_retention id r (v ∷ vs) =
    if str_eq v.sidecar.version_id id
    then record v { sidecar = record (v.sidecar) { retention = r } } ∷ vs
    else v ∷ set_retention id r vs

unfoldable pub store_retention : Provider → VersionedObjectRef → Retention → Provider
unfolding set_retention versions_of
store_retention p ref r = record p {
  objects = insert ref.key (set_retention ref.version_id r (versions_of p ref.key)) p.objects;
}

unfoldable pub get_retention : Provider → VersionedObjectRef → Result StoreError Retention
unfolding validate_key read_sidecar
get_retention p ref = do _ ← validate_key ref.key; v ← read_sidecar p ref; ok v.sidecar.retention

-- The state is written and returned, or nothing is written.
unfoldable pub write_retention :
    Provider
    → VersionedObjectRef
    → Result StoreError Retention
    → Provider × Result StoreError Retention
unfolding store_retention
write_retention p ref (err e) = (p, err e)
write_retention p ref (ok r) = (store_retention p ref r, ok r)

unfoldable pub update_retention :
    Provider → RetentionUpdate → Provider × Result StoreError Retention
unfolding write_retention get_retention updated
update_retention p req = write_retention p req.ref (do r ← get_retention p req.ref; updated r req)

unfoldable pub set_legal_hold :
    Provider → VersionedObjectRef → Bool → Provider × Result StoreError Retention
unfolding write_retention get_retention
set_legal_hold p ref enabled =
    write_retention p ref (do r ← get_retention p ref; ok (record r { legal_hold = enabled }))

unfoldable pub drop_version : String → List Version → List Version
drop_version id [] = []
drop_version id (v ∷ vs) =
    let rest = drop_version id vs in if str_eq v.sidecar.version_id id then rest else v ∷ rest

-- Missing files are no error, and no lock is looked at. The version id is one path segment here: with
-- a slash in it the files may be another key's.
unfoldable pub delete_version :
    Provider → VersionedObjectRef → Provider × Result StoreError (Unit {0})
unfolding validate_key drop_version versions_of
delete_version p ref = checked p (validate_key ref.key) (
  record p {
    objects = insert ref.key (drop_version ref.version_id (versions_of p ref.key)) p.objects;
  },
  ok tt,
)

-- `BatchDeleteResult`: what was deleted, and what was not.
unfoldable pub delete_batch :
    Provider
    → List VersionedObjectRef
    → Provider × List VersionedObjectRef × List (VersionedObjectRef × StoreError)
unfolding delete_version
delete_batch p [] = (p, [], [])
delete_batch p (ref ∷ refs) =
    let one = delete_version p ref in
    let rest = delete_batch one.0 refs in
    elim one.1 [
      | ok _ ↦ (rest.0, ref ∷ rest.1, rest.2)
      | err e ↦ (rest.0, rest.1, (ref, e) ∷ rest.2)
    ]
