-- ===== src/Local/Versions.antt =====
-- Facts on lists of versions, and on the versions under a key.
use mathlib.Core.Option.{some-injective}
use kdrive.Common.{
  ℕ, ◌≤◌, ◌≡◌, ◌≢◌, refl, sym, ◌∙◌, ap, subst, inl, inr, String, if◌then◌else◌, ltb, str_eq, eq_iff,
  Bool-cases, List, [], ◌∷◌, ◌++◌, Option, none, some, All, arith,
}
use kdrive.Common.Dict.{insert, lookup-insert, str_eq_refl, str_ne}
use kdrive.Local.State.{
  Version, Provider, versions_of, sort_in, sort_versions, latest_version, find_version,
}

-- No version is younger than the time.
abbrev pub NotAfter : ℕ → List Version → Type 0
NotAfter time = All (λ w. w.sidecar.write_time ≤ time)

latest_cons :
    (u x : Version) (us : List Version) → latest_version (u ∷ x ∷ us) ≡ latest_version (x ∷ us)
unfolding latest_version
latest_cons u x us = go (latest_version us)
  where
    go :
        (o : Option Version)
        → (elim (elim o as (λ _. Option Version) [ some w ↦ some w | none ↦ some x ])
            as (λ _. Option Version) [ some w ↦ some w | none ↦ some u ])
          ≡ (elim o as (λ _. Option Version) [ some w ↦ some w | none ↦ some x ])
    go none = refl
    go (some w) = refl

latest-cons_of :
    (u v : Version) (vs : List Version)
    → latest_version vs ≡ some v
    → latest_version (u ∷ vs) ≡ some v
unfolding latest_version
latest-cons_of u v vs h = rw h refl

-- An insertion of a version that is not younger leaves the latest one.
latest-sort_in :
    (w v : Version) (vs : List Version)
    → latest_version vs ≡ some v
    → w.sidecar.write_time ≤ v.sidecar.write_time
    → latest_version (sort_in w vs) ≡ some v
unfolding sort_in
latest-sort_in w v [] h le = let p : none ≡ some v = (unfold latest_version in h) in absurd (cc)
latest-sort_in w v (u ∷ []) h le =
    let same : u ≡ v = some-injective u v (unfold latest_version in h) in
    elim (Bool-cases (ltb u.sidecar.write_time w.sidecar.write_time)) [
      | inl older ↦
          let young : u.sidecar.write_time ≡ v.sidecar.write_time =
            ap (λ x. x.sidecar.write_time) same in
          absurd (ground arith)
      | inr newer ↦ rw newer (latest-cons_of w v (u ∷ []) h)
    ]
latest-sort_in w v (u ∷ x ∷ us) h le =
    elim (Bool-cases (ltb u.sidecar.write_time w.sidecar.write_time)) [
      | inl older ↦ rw older (
          latest-cons_of u v (sort_in w (x ∷ us))
            (latest-sort_in w v (x ∷ us) (sym (latest_cons u x us) ∙ h) le))
      | inr newer ↦ rw newer (latest-cons_of w v (u ∷ x ∷ us) h)
    ]

-- A version that is written last, at a time not before the others, is the latest.
pub latest-sort-append :
    (v : Version) (vs : List Version)
    → NotAfter v.sidecar.write_time vs
    → latest_version (sort_versions (vs ++ v ∷ [])) ≡ some v
unfolding sort_versions
latest-sort-append v [] h = unfold sort_in latest_version in refl
latest-sort-append v (w ∷ vs) h =
    latest-sort_in w v (sort_versions (vs ++ v ∷ [])) (latest-sort-append v vs h.1) h.0

-- No version has the id.
abbrev pub IsFresh : String → List Version → Type 0
IsFresh id = All (λ w. w.sidecar.version_id ≢ id)

pub find-append_new :
    (id : String) (v : Version) (vs : List Version)
    → IsFresh id vs
    → v.sidecar.version_id ≡ id
    → find_version id (vs ++ v ∷ []) ≡ some v
unfolding find_version
find-append_new id v [] h e = rw (e, str_eq_refl id) refl
find-append_new id v (w ∷ vs) h e =
    rw (str_ne w.sidecar.version_id id h.0) (find-append_new id v vs h.1 e)

pub find-append_old :
    (id : String) (u v : Version) (vs : List Version)
    → find_version id vs ≡ some u
    → find_version id (vs ++ v ∷ []) ≡ some u
unfolding find_version
find-append_old id u v [] h = cc
find-append_old id u v (w ∷ vs) h = elim (Bool-cases (str_eq w.sidecar.version_id id)) [
  | inl same ↦ rw same (rw same at h)
  | inr ne ↦ rw ne (find-append_old id u v vs (rw ne at h))
]

-- The version that is found satisfies what all of them do.
pub find-All :
    (P : Version → Type 0) (id : String) (v : Version) (vs : List Version)
    → All P vs
    → find_version id vs ≡ some v
    → P v × (v.sidecar.version_id ≡ id)
unfolding find_version
find-All P id v [] h e = cc
find-All P id v (w ∷ vs) h e = elim (Bool-cases (str_eq w.sidecar.version_id id)) [
  | inl same ↦
      let at : w ≡ v = some-injective w v (rw same at e) in
      (
        subst P at h.0,
        ap (λ x. x.sidecar.version_id) (sym at) ∙ (eq_iff w.sidecar.version_id id).0 same,
      )
  | inr ne ↦ find-All P id v vs h.1 (rw ne at e)
]

pub All-append_one :
    (P : Version → Type 0) (v : Version) (vs : List Version) → All P vs → P v → All P (vs ++ v ∷ [])
All-append_one P v [] h p = (p, tt)
All-append_one P v (w ∷ vs) h p = (h.0, All-append_one P v vs h.1 p)

pub versions_of-insert :
    (p : Provider) (key j : String) (vs : List Version)
    → versions_of (record p { objects = insert key vs p.objects }) j
      ≡ (if str_eq key j then vs else versions_of p j)
unfolding versions_of
versions_of-insert p key j vs = elim (Bool-cases (str_eq key j)) [
  | inl same ↦ rw (lookup-insert key j vs p.objects) (rw same refl)
  | inr ne ↦ rw (lookup-insert key j vs p.objects) (rw ne refl)
]

-- A property of all versions is kept by writing the versions of one key.
pub insert-keeps :
    (P : String → Version → Type 0) (p : Provider) (key : String) (vs : List Version)
    → ((j : String) → All (P j) (versions_of p j))
    → All (P key) vs
    → (j : String) → All (P j) (versions_of (record p { objects = insert key vs p.objects }) j)
insert-keeps P p key vs h new j =
    rw (versions_of-insert p key j vs) (elim (Bool-cases (str_eq key j)) [
      | inl same ↦ rw same (subst (λ k. All (P k) vs) ((eq_iff key j).0 same) new)
      | inr ne ↦ rw ne (h j)
    ])
