-- ===== src/Local/Fresh.antt =====
-- A version that is written now is the latest one of its key, and its id is new.
use kdrive.Common.{
  ℕ, ◌+◌, ◌≤◌, ◌≡◌, ◌≢◌, refl, sym, subst, ◌∙◌, inl, inr, String, str_eq, Bool-cases, eq_iff, [],
  ◌∷◌, ◌++◌, some, All-map, arith,
}
use kdrive.Common.Dict.{str_eq_refl}
use kdrive.Local.State.{
  Version, Provider, LocalEnv, versions_of, list_versions, latest_version, find_version,
  add_version, next_id,
}
use kdrive.Local.Versions.{
  NotAfter, latest-sort-append, IsFresh, find-append_new, find-append_old, versions_of-insert,
}
use kdrive.Local.Validity.{Written, IsValid}

-- Time does not go back, and no two values of the counter make one version id, nor the empty one.
pub record LocalLaws (env : LocalEnv) : Type 0 where
  pub clock_mono : (i j : ℕ) → i ≤ j → env.clock i ≤ env.clock j
  pub ids_differ : (i j : ℕ) → env.version_id i ≡ env.version_id j → i ≡ j
  pub ids_named : (i : ℕ) → env.version_id i ≢ ""

module _ ⦃env : LocalEnv⦄ where
  -- No version is younger than the counter's next step.
  pub valid-NotAfter :
      (p : Provider) (key : String)
      → LocalLaws env
      → IsValid p
      → NotAfter (env.clock (p.seq + 1)) (versions_of p key)
  valid-NotAfter p key laws valid =
      All-map (Written key p.seq) _ (versions_of p key)
        (λ v w.
          subst (λ t. t ≤ env.clock (p.seq + 1)) (sym w.made.3)
            (laws.clock_mono w.made.0 (p.seq + 1) (omega (arith, w.made.1))))
        (valid key)

  -- No version has the next id.
  pub valid-IsFresh :
      (p : Provider) (key : String)
      → LocalLaws env
      → IsValid p
      → IsFresh (next_id p) (versions_of p key)
  valid-IsFresh p key laws valid =
      All-map (Written key p.seq) _ (versions_of p key)
        (λ v w same.
          let at = laws.ids_differ w.made.0 (p.seq + 1) (sym w.made.2 ∙ same) in
          let below = w.made.1 in omega (arith, at, below))
        (valid key)

  pub versions_of-add :
      (p : Provider) (key : String) (v : Version)
      → versions_of (add_version p key v) key ≡ versions_of p key ++ v ∷ []
  unfolding add_version
  versions_of-add p key v =
      versions_of-insert p key key (versions_of p key ++ v ∷ []) ∙ rw (str_eq_refl key) refl

  pub latest-add :
      (p : Provider) (key : String) (v : Version)
      → NotAfter v.sidecar.write_time (versions_of p key)
      → latest_version (list_versions (add_version p key v) key) ≡ some v
  unfolding list_versions
  latest-add p key v h = rw (versions_of-add p key v) (latest-sort-append v (versions_of p key) h)

  pub find-add_new :
      (p : Provider) (key : String) (v : Version)
      → IsFresh v.sidecar.version_id (versions_of p key)
      → find_version v.sidecar.version_id (versions_of (add_version p key v) key) ≡ some v
  find-add_new p key v h =
      rw (versions_of-add p key v)
        (find-append_new v.sidecar.version_id v (versions_of p key) h refl)

  -- What could be found is found still.
  pub find-add_old :
      (p : Provider) (key j id : String) (u v : Version)
      → find_version id (versions_of p j) ≡ some u
      → find_version id (versions_of (add_version p key v) j) ≡ some u
  unfolding add_version
  find-add_old p key j id u v h =
      rw (versions_of-insert p key j (versions_of p key ++ v ∷ []))
        (elim (Bool-cases (str_eq key j)) [
          | inl same ↦ rw same (
              find-append_old id u v (versions_of p key) (
                subst (λ k. find_version id (versions_of p k) ≡ some u)
                  (sym ((eq_iff key j).0 same)) h))
          | inr ne ↦ rw ne h
        ])
