-- ===== src/Local/Removal.antt =====
-- `DeleteVersion` and `PurgeAllVersions`.
use kdrive.Common.{
  ◌≡◌, ◌≢◌, refl, sym, ◌∙◌, String, false, if_intro, without, if◌then◌else◌, str_eq, Bool-cases,
  eq_iff, inl, inr, ◌⊎◌, List, [], ◌∷◌, Option, none, ok, err,
}
use kdrive.Common.Dict.{str_ne, ne_of_str_eq, str_eq_refl}
use kdrive.BlobStore.{not_found, VersionedObjectRef}
use kdrive.Local.State.{Version, Provider, LocalEnv, versions_of, find_version}
use kdrive.Local.Keys.{IsSegment, IsSegment-named, validate_key}
use kdrive.Local.Objects.{ByteRange, read_sidecar, get}
use kdrive.Local.Retain.{drop_version, delete_version}
use kdrive.Local.Versions.{versions_of-insert}
use kdrive.Local.RoundTrip.{selected-by_id}

find-drop_version :
    (id asked : String) (vs : List Version)
    → find_version asked (drop_version id vs)
      ≡ (if str_eq id asked then none else find_version asked vs)
unfolding find_version drop_version
find-drop_version id asked [] =
    if_intro (λ x. none ≡ x) (str_eq id asked) none none (λ _. refl) (λ _. refl)
find-drop_version id asked (v ∷ vs) = elim (Bool-cases (str_eq v.sidecar.version_id id)) [
  | inl same ↦
      rw (same, find-drop_version id asked vs, sym ((eq_iff v.sidecar.version_id id).0 same))
        (elim (Bool-cases (str_eq v.sidecar.version_id asked)) [
          | inl e ↦ rw e refl
          | inr e ↦ rw e refl
        ])
  | inr differ ↦ rw differ (elim (Bool-cases (str_eq v.sidecar.version_id asked)) [
    | inl hit ↦
        let ne : str_eq id asked ≡ false = str_ne id asked (λ e.
          ne_of_str_eq v.sidecar.version_id id differ
            ((eq_iff v.sidecar.version_id asked).0 hit ∙ sym e)) in
        rw (hit, ne) refl
    | inr miss ↦ rw miss (find-drop_version id asked vs)
  ])
]

module _ ⦃env : LocalEnv⦄ where
  delete_version-find :
      (p : Provider) (ref : VersionedObjectRef) (j id : String)
      → validate_key ref.key ≡ ok tt
      → find_version id (versions_of (delete_version p ref).0 j) ≡ (
          if str_eq ref.key j
          then (if str_eq ref.version_id id then none else find_version id (versions_of p j))
          else find_version id (versions_of p j))
  unfolding delete_version
  delete_version-find p ref j id valid =
      rw
        (
          valid,
          versions_of-insert p ref.key j (drop_version ref.version_id (versions_of p ref.key)),
        )
        (elim (Bool-cases (str_eq ref.key j)) [
          | inl same ↦
              rw
                (
                  same,
                  find-drop_version ref.version_id id (versions_of p ref.key),
                  (eq_iff ref.key j).0 same,
                )
                refl
          | inr ne ↦ rw ne refl
        ])

  -- `DeleteVersion` of a valid key and of a version id that is a single path segment removes the
  -- version whatever its retention and legal hold are: its reads find nothing then. Every other
  -- version is found as before.
  pub delete_version-removes :
      (p : Provider) (ref : VersionedObjectRef)
      → validate_key ref.key ≡ ok tt
      → IsSegment ref.version_id
      → (delete_version p ref).1 ≡ ok tt
        × ((range : Option ByteRange) → get (delete_version p ref).0 ref range ≡ err not_found)
        × ((j id : String)
            → (ref.key ≢ j) ⊎ (ref.version_id ≢ id)
            → find_version id (versions_of (delete_version p ref).0 j)
              ≡ find_version id (versions_of p j))
  unfolding get read_sidecar
  delete_version-removes p ref valid named = (
    unfold delete_version in rw valid refl,
    λ range. missing (delete_version p ref).0 range (IsSegment-named ref.version_id named) (
        delete_version-find p ref ref.key ref.version_id valid
        ∙ rw (str_eq_refl ref.key, str_eq_refl ref.version_id) refl),
    λ j id other. delete_version-find p ref j id valid ∙ elim (Bool-cases (str_eq ref.key j)) [
      | inr ne ↦ rw ne refl
      | inl same ↦
          let id_ne : str_eq ref.version_id id ≡ false =
            str_ne ref.version_id id
              (elim other [ inl ne ↦ absurd (ne ((eq_iff ref.key j).0 same)) | inr ne ↦ ne ]) in
          rw (same, id_ne) refl
    ],
  )
    where
      missing :
          (q : Provider) (range : Option ByteRange)
          → ref.version_id ≢ ""
          → find_version ref.version_id (versions_of q ref.key) ≡ none
          → get q ref range ≡ err not_found
      missing q range given gone =
          let none_ : read_sidecar q ref ≡ err not_found =
            without (find_version ref.version_id (versions_of q ref.key)) _ _ gone in
          rw (valid, selected-by_id q ref given, none_) refl
