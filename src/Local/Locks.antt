-- ===== src/Local/Locks.antt =====
-- What retention locks guarantee.
use mathlib.Core.Option.{some-injective}
use kdrive.Common.{
  ℕ, ◌≤◌, ◌≡◌, ◌≢◌, ◌⊎◌, refl, sym, ◌∙◌, subst, String, false, not, ◌&&◌, ltb, ◌==◌, if_intro,
  str_eq, Bool-cases, eq_iff, inl, inr, List, [], ◌∷◌, some, Result, ok, err-ne-ok, ok-injective,
  >>=-eq-ok, reject-eq-ok, arith,
}
use kdrive.Common.Dict.{ne_of_str_eq, str_ne, str_eq_refl}
use kdrive.BlobStore.{
  StoreError, Retention, VersionedObjectRef, retention_none, retention_compliance,
}
use kdrive.Local.State.{Version, Provider, versions_of, find_version}
use kdrive.Local.Retain.{
  RetentionUpdate, shortens, extended, update_compliance, update_open, updated, set_retention,
  store_retention,
}
use kdrive.Local.Versions.{versions_of-insert}
use kdrive.Local.Extends.{ExtendsAt}

-- The date is not earlier, and the legal hold is as it was.
abbrev pub NotShorter : Retention → Retention → Type 0
NotShorter r r' = (r.retain_until ≤ r'.retain_until) × (r'.legal_hold ≡ r.legal_hold)

extended-ok :
    (r r' : Retention) (asked : ℕ) → extended r asked ≡ ok r' → (r'.mode ≡ r.mode) × NotShorter r r'
unfolding extended shortens
extended-ok r r' asked =
    let P : Result StoreError Retention → Type 0 =
      λ x. x ≡ ok r' → (r'.mode ≡ r.mode) × NotShorter r r' in
    if_intro P (asked == 0) _ _ (λ _ h. rw (sym (ok-injective r r' h)) (refl, (omega arith, refl)))
      (λ _.
        if_intro P (not (r.retain_until == 0) && ltb asked r.retain_until) _ _
          (λ _ h. absurd (err-ne-ok _ r' h))
          (λ fine h.
            rw (sym (ok-injective (record r { retain_until = asked }) r' h))
              (refl, (ground arith, refl))))

-- A COMPLIANCE lock stays one and is never cleared, and no lock is shortened without clearing it.
pub updated-ok :
    (r r' : Retention) (req : RetentionUpdate)
    → updated r req ≡ ok r'
    → (r.mode ≡ retention_compliance
        → (req.clear_retention ≡ false) × (r'.mode ≡ retention_compliance))
      × (req.clear_retention ≡ false → NotShorter r r')
unfolding updated update_compliance update_open
updated-ok r r' req h = elim (Bool-cases (str_eq r.mode retention_compliance)) [
  | inl locked ↦
      let strict = reject-eq-ok req.clear_retention _ _ r' (rw locked at h) in
      let step = >>=-eq-ok (extended r req.retain_until) _ r' strict.1 in
      let last =
        reject-eq-ok
          (not (str_eq req.mode retention_none) && not (str_eq req.mode retention_compliance)) _ _
          r' step.2 in
      let made = extended-ok r r' req.retain_until (step.1 ∙ last.1) in
      (λ m. (strict.0, made.0 ∙ m), λ _. made.1)
  | inr open_ ↦ (
    λ m. absurd (ne_of_str_eq r.mode retention_compliance open_ m),
    λ kept.
        if_intro (λ (x : Retention). extended x req.retain_until ≡ ok r' → NotShorter r r')
          (not (str_eq req.mode retention_none)) _ _
          (λ _ g. (extended-ok (record r { mode = req.mode }) r' req.retain_until g).1)
          (λ _ g. (extended-ok r r' req.retain_until g).1) (rw kept at (rw open_ at h)),
  )
]

find-set_retention :
    (id : String) (r : Retention) (u : Version) (vs : List Version)
    → find_version id vs ≡ some u
    → find_version id (set_retention id r vs)
      ≡ some (record u { sidecar = record (u.sidecar) { retention = r } })
unfolding find_version set_retention
find-set_retention id r u [] h = cc
find-set_retention id r u (v ∷ vs) h = elim (Bool-cases (str_eq v.sidecar.version_id id)) [
  | inl same ↦ let at : v ≡ u = some-injective v u (rw same at h) in rw (same, same, at) refl
  | inr ne ↦ rw (ne, ne) (find-set_retention id r u vs (rw ne at h))
]

find-set_retention_ne :
    (id other : String) (r : Retention) (u : Version) (vs : List Version)
    → other ≢ id
    → find_version id vs ≡ some u
    → find_version id (set_retention other r vs) ≡ some u
unfolding find_version set_retention
find-set_retention_ne id other r u [] ne h = cc
find-set_retention_ne id other r u (v ∷ vs) ne h =
    elim (Bool-cases (str_eq v.sidecar.version_id other)) [
      | inl same ↦
          let far : str_eq v.sidecar.version_id id ≡ false =
            str_ne v.sidecar.version_id id
              (λ e. ne (sym ((eq_iff v.sidecar.version_id other).0 same) ∙ e)) in
          rw (same, far) (rw far at h)
      | inr differ ↦ rw differ (elim (Bool-cases (str_eq v.sidecar.version_id id)) [
        | inl hit ↦ rw hit (rw hit at h)
        | inr miss ↦ rw miss (find-set_retention_ne id other r u vs ne (rw miss at h))
      ])
    ]

store-find :
    (p : Provider) (ref : VersionedObjectRef) (r : Retention) (u : Version)
    → find_version ref.version_id (versions_of p ref.key) ≡ some u
    → find_version ref.version_id (versions_of (store_retention p ref r) ref.key)
      ≡ some (record u { sidecar = record (u.sidecar) { retention = r } })
unfolding store_retention
store-find p ref r u h =
    rw
      (versions_of-insert p ref.key ref.key
        (set_retention ref.version_id r (versions_of p ref.key)))
      (rw (str_eq_refl ref.key) (find-set_retention ref.version_id r u (versions_of p ref.key) h))

store-find_ne :
    (p : Provider) (ref : VersionedObjectRef) (r : Retention) (j id : String) (u : Version)
    → ((ref.key ≢ j) ⊎ (ref.version_id ≢ id))
    → find_version id (versions_of p j) ≡ some u
    → find_version id (versions_of (store_retention p ref r) j) ≡ some u
unfolding store_retention
store-find_ne p ref r j id u other h =
    rw (versions_of-insert p ref.key j (set_retention ref.version_id r (versions_of p ref.key)))
      (elim (Bool-cases (str_eq ref.key j)) [
        | inl same ↦
            let key = (eq_iff ref.key j).0 same in
            let id_ne : ref.version_id ≢ id = λ e. elim other [ inl ne ↦ ne key | inr ne ↦ ne e ] in
            rw same (
              find-set_retention_ne id ref.version_id r u (versions_of p ref.key) id_ne
                (subst (λ k. find_version id (versions_of p k) ≡ some u) (sym key) h))
        | inr differ ↦ rw differ h
      ])

-- A version with a COMPLIANCE lock is there, with its body and a lock that is not shorter.
abbrev pub KeepsLock : Provider → String → String → Version → Type 0
KeepsLock q j id u =
    (u' : Version) × (find_version id (versions_of q j) ≡ some u')
    × (u'.body ≡ u.body)
    × (u'.sidecar.retention.mode ≡ retention_compliance)
    × (u.sidecar.retention.retain_until ≤ u'.sidecar.retention.retain_until)

abbrev pub ProtectsAt : String → Provider → Provider → Type 0
ProtectsAt j p q =
    (id : String) (u : Version)
    → find_version id (versions_of p j) ≡ some u
    → u.sidecar.retention.mode ≡ retention_compliance
    → KeepsLock q j id u

abbrev pub Protects : Provider → Provider → Type 0
Protects p q = (j : String) → ProtectsAt j p q

pub ExtendsAt-ProtectsAt : (j : String) (p q : Provider) → ExtendsAt j p q → ProtectsAt j p q
ExtendsAt-ProtectsAt j p q ext id u h m = (u, ext id u h, refl, m, omega arith)

pub store-Protects :
    (p : Provider) (ref : VersionedObjectRef) (r : Retention)
    → ((u : Version)
        → find_version ref.version_id (versions_of p ref.key) ≡ some u
        → u.sidecar.retention.mode ≡ retention_compliance
        → (r.mode ≡ retention_compliance) × (u.sidecar.retention.retain_until ≤ r.retain_until))
    → Protects p (store_retention p ref r)
store-Protects p ref r fine j id u h m = elim (Bool-cases (str_eq ref.key j)) [
  | inr far ↦
      (u, store-find_ne p ref r j id u (inl (ne_of_str_eq ref.key j far)) h, refl, m, omega arith)
  | inl near ↦ elim (Bool-cases (str_eq ref.version_id id)) [
    | inr far ↦ (
      u,
      store-find_ne p ref r j id u (inr (ne_of_str_eq ref.version_id id far)) h,
      refl,
      m,
      omega arith,
    )
    | inl same ↦
        let key = (eq_iff ref.key j).0 near in
        let id_ = (eq_iff ref.version_id id).0 same in
        let here : find_version ref.version_id (versions_of p ref.key) ≡ some u = rw (key, id_) h in
        let ok_ = fine u here m in
        (
          record u { sidecar = record (u.sidecar) { retention = r } },
          subst
              (λ k.
                find_version id (versions_of (store_retention p ref r) k)
                ≡ some (record u { sidecar = record (u.sidecar) { retention = r } }))
              key
              (subst
                (λ i.
                  find_version i (versions_of (store_retention p ref r) ref.key)
                  ≡ some (record u { sidecar = record (u.sidecar) { retention = r } }))
                id_ (store-find p ref r u here)),
          refl,
          ok_.0,
          ok_.1,
        )
  ]
]
