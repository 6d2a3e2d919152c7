-- ===== src/Local/LockRuns.antt =====
-- COMPLIANCE locks over any calls that do not remove versions.
use mathlib.Core.Option.{some-injective}
use kdrive.Common.{
  ◌≤◌, ◌≡◌, refl, sym, ap, ◌∙◌, String, Bool, some, Result, ok, err, ok-injective, >>=-eq-ok, ◌>>=◌,
  arith,
}
use kdrive.BlobStore.{StoreError, Retention, VersionedObjectRef, retention_compliance}
use kdrive.Local.State.{Version, Provider, LocalEnv, versions_of, find_version}
use kdrive.Local.Keys.{IsSegment, validate_key}
use kdrive.Local.Dirs.{Outside}
use kdrive.Local.Objects.{read_sidecar}
use kdrive.Local.Retain.{
  RetentionUpdate, updated, get_retention, write_retention, update_retention, set_legal_hold,
}
use kdrive.Local.Runs.{
  Step, put_, delete_, purge_, copy_, create_, part_, complete_, abort_, retain_, hold_, remove_,
  batch_,
}
use kdrive.Local.Extends.{FromSegment, Adds, Step-ExtendsAt}
use kdrive.Local.Keeps.{read_sidecar-eq-ok}
use kdrive.Local.Locks.{
  updated-ok, Protects, KeepsLock, ProtectsAt, ExtendsAt-ProtectsAt, store-Protects,
}

get_retention-eq-ok :
    (p : Provider) (ref : VersionedObjectRef) (r : Retention) (u : Version)
    → get_retention p ref ≡ ok r
    → find_version ref.version_id (versions_of p ref.key) ≡ some u
    → u.sidecar.retention ≡ r
unfolding get_retention
get_retention-eq-ok p ref r u h found =
    let valid = >>=-eq-ok (validate_key ref.key) _ r h in
    let read = >>=-eq-ok (read_sidecar p ref) _ r valid.2 in
    let same : u ≡ read.0 =
      some-injective u read.0 (sym found ∙ read_sidecar-eq-ok p ref read.0 read.1) in
    ap (λ v. v.sidecar.retention) same ∙ ok-injective _ r read.2

-- A change that keeps the lock of the version it is for.
KeepsIn : Provider → VersionedObjectRef → Result StoreError Retention → Type 0
KeepsIn p ref m =
    (r : Retention)
    → m ≡ ok r
    → (u : Version) → find_version ref.version_id (versions_of p ref.key) ≡ some u
    → u.sidecar.retention.mode ≡ retention_compliance
    → (r.mode ≡ retention_compliance) × (u.sidecar.retention.retain_until ≤ r.retain_until)

write-Protects :
    (p : Provider) (ref : VersionedObjectRef) (m : Result StoreError Retention)
    → KeepsIn p ref m
    → Protects p (write_retention p ref m).0
unfolding write_retention KeepsIn
write-Protects p ref (err e) fine j id u h m = (u, h, refl, m, omega arith)
write-Protects p ref (ok r) fine j id u h m = store-Protects p ref r (fine r refl) j id u h m

update-Protects : (p : Provider) (req : RetentionUpdate) → Protects p (update_retention p req).0
unfolding update_retention KeepsIn
update-Protects p req =
    write-Protects p req.ref (get_retention p req.ref >>= λ r. updated r req) (λ r done u found m.
      let read = >>=-eq-ok (get_retention p req.ref) (λ r. updated r req) r done in
      let same = get_retention-eq-ok p req.ref read.0 u read.1 found in
      let kept = updated-ok u.sidecar.retention r req (rw same read.2) in
      let strict = kept.0 m in (strict.1, (kept.1 strict.0).0))

hold-Protects :
    (p : Provider) (ref : VersionedObjectRef) (enabled : Bool)
    → Protects p (set_legal_hold p ref enabled).0
unfolding set_legal_hold KeepsIn
hold-Protects p ref enabled =
    write-Protects p ref (get_retention p ref >>= λ r. ok (record r { legal_hold = enabled }))
      (λ r done u found m.
        let read =
          >>=-eq-ok (get_retention p ref) (λ r. ok (record r { legal_hold = enabled })) r done in
        let same = get_retention-eq-ok p ref read.0 u read.1 found in
        let made = ok-injective _ r read.2 in
        (
          ap (λ x. x.mode) (sym made) ∙ ap (λ x. x.mode) (sym same) ∙ m,
          (let one = ap (λ x. x.retain_until) same in
              let two = ap (λ x. x.retain_until) made in omega (arith, one, two)),
        ))

module _ ⦃env : LocalEnv⦄ where
  -- The calls that do not remove versions, with ids that are path segments.
  abbrev pub Spares : {p q : Provider} → Step p q → Type 0
  Spares (put_ req) = Unit
  Spares (delete_ key) = Unit
  Spares (purge_ key) = ⊥
  Spares (copy_ req) = FromSegment req
  Spares (create_ req) = Unit
  Spares (part_ u n r) = IsSegment u.upload_id
  Spares (complete_ u parts spec) = IsSegment u.upload_id
  Spares (abort_ u) = IsSegment u.upload_id
  Spares (retain_ req) = IsSegment req.ref.version_id
  Spares (hold_ ref enabled) = IsSegment ref.version_id
  Spares (remove_ ref) = ⊥
  Spares (batch_ refs) = ⊥

  pub data Spared (p : Provider) : Provider → Type 0 where
    untouched : Spared p p
    spared : {q r : Provider} → Spared p q → (s : Step q r) → Spares s → Spared p r

  added-ProtectsAt :
      (j : String) (p q : Provider) (s : Step p q) → Outside j → Adds s → ProtectsAt j p q
  added-ProtectsAt j p q s out a = ExtendsAt-ProtectsAt j p q (Step-ExtendsAt j p q s out a)

  Step-ProtectsAt :
      (j : String) (p q : Provider) (s : Step p q) → Outside j → Spares s → ProtectsAt j p q
  Step-ProtectsAt j p q (put_ req) out a = added-ProtectsAt j p q (put_ req) out tt
  Step-ProtectsAt j p q (delete_ key) out a = added-ProtectsAt j p q (delete_ key) out tt
  Step-ProtectsAt j p q (copy_ req) out a = added-ProtectsAt j p q (copy_ req) out a
  Step-ProtectsAt j p q (create_ req) out a = added-ProtectsAt j p q (create_ req) out tt
  Step-ProtectsAt j p q (part_ u n r) out a = added-ProtectsAt j p q (part_ u n r) out a
  Step-ProtectsAt j p q (complete_ u cs spec) out a =
      added-ProtectsAt j p q (complete_ u cs spec) out a
  Step-ProtectsAt j p q (abort_ u) out a = added-ProtectsAt j p q (abort_ u) out a
  Step-ProtectsAt j p q (retain_ req) out a = update-Protects p req j
  Step-ProtectsAt j p q (hold_ ref enabled) out a = hold-Protects p ref enabled j
  Step-ProtectsAt j p q (purge_ key) out a = elim a [ ]
  Step-ProtectsAt j p q (remove_ ref) out a = elim a [ ]
  Step-ProtectsAt j p q (batch_ refs) out a = elim a [ ]

  -- A version with a COMPLIANCE lock, of a key that does not begin with _multipart/, stays under its
  -- key and id, with its body, in COMPLIANCE mode and with a date that is not earlier, over any calls,
  -- retention updates included, other than those that remove versions (`PurgeAllVersions`,
  -- `DeleteVersion`, `DeleteBatch`), when the upload ids and version ids that the calls give are
  -- single path segments.
  pub compliance-Spared :
      (p q : Provider) (j id : String) (u : Version)
      → Spared p q
      → Outside j
      → find_version id (versions_of p j) ≡ some u
      → u.sidecar.retention.mode ≡ retention_compliance
      → KeepsLock q j id u
  compliance-Spared p q j id u untouched out h m = (u, h, refl, m, omega arith)
  compliance-Spared p r j id u (spared {q} run s a) out h m =
      let before = compliance-Spared p q j id u run out h m in
      let v = before.0 in
      let after = Step-ProtectsAt j q r s out a id v before.1 before.3 in
      let first = before.4 in
      let second = after.4 in
      (after.0, after.1, after.2 ∙ before.2, after.3, omega (arith, first, second))
