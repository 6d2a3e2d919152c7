-- ===== src/Local/Keeps.antt =====
-- Versions stay readable by their ids while others are written, or the key is deleted.
use kdrive.Common.{
  ◌+◌, ◌≡◌, ◌≢◌, refl, sym, ap, ◌∙◌, subst, String, true, not, if_intro, within, List, Option, none,
  some, Result, ok, err, err-ne-ok, ok-injective, >>=-eq-ok, Reader,
}
use kdrive.BlobStore.{StoreError, not_found, VersionedObjectRef, ObjectMeta}
use kdrive.Local.State.{
  Version, Provider, LocalEnv, versions_of, list_versions, has_any, latest_version, find_version,
  add_version,
}
use kdrive.Local.Keys.{IsSegment, IsSegment-named, validate_key}
use kdrive.Local.Objects.{ByteRange, current, selected, read_sidecar, head, get, marker, delete}
use kdrive.Local.Validity.{IsValid}
use kdrive.Local.Fresh.{LocalLaws, valid-NotAfter, latest-add}
use kdrive.Local.Runs.{Step}
use kdrive.Local.RoundTrip.{selected-by_id, read_sidecar-found, checked-ok}
use kdrive.Local.Extends.{ExtendsAt, Extends-same, Adds, Step-ExtendsAt, delete-Extends}
use kdrive.Local.Dirs.{Outside}

pub read_sidecar-eq-ok :
    (p : Provider) (ref : VersionedObjectRef) (v : Version)
    → read_sidecar p ref ≡ ok v
    → find_version ref.version_id (versions_of p ref.key) ≡ some v
unfolding read_sidecar
read_sidecar-eq-ok p ref v = go (find_version ref.version_id (versions_of p ref.key))
  where
    go :
        (o : Option Version)
        → (elim o as (λ _. Result StoreError Version) [ none ↦ err not_found | some v ↦ ok v ])
          ≡ ok v
        → o ≡ some v
    go none h = absurd (err-ne-ok not_found v h)
    go (some w) h = ap some (ok-injective w v h)

current-marker :
    (vs : List Version) (v : Version)
    → latest_version vs ≡ some v
    → v.sidecar.is_delete_marker ≡ true
    → current vs ≡ err not_found
unfolding current
current-marker vs v latest dead = within (latest_version vs) _ _ v latest ∙ rw dead refl

module _ ⦃env : LocalEnv⦄ where
  delete-ok :
      (p q : Provider) (key : String)
      → delete p key ≡ (q, ok tt)
      → (validate_key key ≡ ok tt)
        × (add_version (record p { seq = p.seq + 1 }) key (marker p key) ≡ q)
  unfolding delete
  delete-ok p q key h =
      let inner = checked-ok p q (validate_key key) _ tt h in
      (
        inner.0,
        if_intro
            (λ (x : Provider × Result StoreError (Unit {0})).
              x ≡ (q, ok tt) → add_version (record p { seq = p.seq + 1 }) key (marker p key) ≡ q)
            (not (has_any (versions_of p key))) _ _
            (λ _ g. absurd (err-ne-ok _ tt (ap (λ x. x.1) g))) (λ _ g. ap (λ x. x.0) g) inner.1,
      )

  -- A read of a version by its id has the same answer in a state that has all versions.
  get-Extends :
      (p q : Provider) (ref : VersionedObjectRef) (range : Option ByteRange)
      (x : Reader × ObjectMeta)
      → ExtendsAt ref.key p q
      → ref.version_id ≢ ""
      → get p ref range ≡ ok x
      → get q ref range ≡ ok x
  unfolding get
  get-Extends p q ref range x ext named h =
      let valid = >>=-eq-ok (validate_key ref.key) _ x h in
      let found = >>=-eq-ok (selected p ref) _ x valid.2 in
      let v = found.0 in
      let here = read_sidecar-eq-ok p ref v (sym (selected-by_id p ref named) ∙ found.1) in
      let there =
        selected-by_id q ref named ∙ read_sidecar-found q ref v (ext ref.version_id v here) in
      rw (valid.1, there) (rw found.1 at valid.2)

  -- The states that such calls lead to.
  pub data Grown (p : Provider) : Provider → Type 0 where
    unchanged : Grown p p
    grown : {q r : Provider} → Grown p q → (s : Step q r) → Adds s → Grown p r

  Grown-ExtendsAt : (j : String) (p q : Provider) → Outside j → Grown p q → ExtendsAt j p q
  Grown-ExtendsAt j p q out unchanged = Extends-same p p refl j
  Grown-ExtendsAt j p r out (grown {q} g s a) =
      λ id u h. Step-ExtendsAt j q r s out a id u (Grown-ExtendsAt j p q out g id u h)

  -- A version that a `Get` by its id has delivered is delivered by the same `Get`, with the same
  -- bytes and metadata, after any calls that write, copy or assemble objects, delete keys, or open,
  -- fill or abort uploads, with whatever results. The key does not begin with _multipart/, and the
  -- ids that the calls give are single path segments.
  pub get-Grown :
      (p q : Provider) (ref : VersionedObjectRef) (range : Option ByteRange)
      (x : Reader × ObjectMeta)
      → Grown p q
      → Outside ref.key
      → IsSegment ref.version_id
      → get p ref range ≡ ok x
      → get q ref range ≡ ok x
  get-Grown p q ref range x g out named =
      get-Extends p q ref range x (Grown-ExtendsAt ref.key p q out g)
        (IsSegment-named ref.version_id named)

  -- After a `Delete` that succeeds the key is not found by `Head` and by `Get` without a version id,
  -- and its versions are still read by their ids. Time is assumed not to go back.
  pub delete-hides :
      (p q : Provider) (key : String)
      → LocalLaws env
      → IsValid p
      → delete p key ≡ (q, ok tt)
      → (head q key ≡ err not_found)
        × ((range : Option ByteRange)
            → get q (record { key = key; version_id = "" }) range ≡ err not_found)
        × ((ref : VersionedObjectRef) (range : Option ByteRange) (x : Reader × ObjectMeta)
            → ref.version_id ≢ ""
            → get p ref range ≡ ok x
            → get q ref range ≡ ok x)
  unfolding head get selected
  delete-hides p q key laws valid h =
      let done = delete-ok p q key h in
      let gone : current (list_versions q key) ≡ err not_found =
        current-marker (list_versions q key) (marker p key)
          (subst (λ x. latest_version (list_versions x key) ≡ some (marker p key)) done.1
            (latest-add (record p { seq = p.seq + 1 }) key (marker p key)
              (valid-NotAfter p key laws valid)))
          refl in
      (
        rw (done.0, gone) refl,
        λ range. rw (done.0, gone) refl,
        λ ref range x named was.
            get-Extends p q ref range x
              (subst (λ x. ExtendsAt ref.key p x) (ap (λ x. x.0) h) (delete-Extends p key ref.key))
              named was,
      )
