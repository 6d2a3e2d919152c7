-- ===== src/Config/Migration.antt =====
-- The migration from the deprecated fields, and what production then has.
use kdrive.Common.{
  ◌≡◌, ◌≢◌, ◌⊎◌, refl, inl, inr, String, Bool, true, false, not, ◌&&◌, if_intro, str_eq, eq_iff, ok,
  reject-eq-ok,
}
use kdrive.Common.Dict.{ne_of_str_eq}
use kdrive.Config.Types.{StorageConfig, WasabiConfig, bad_storage, postgres_dsn_required}
use kdrive.Config.Validate.{known_provider, validate_storage, validate_production}
use kdrive.Config.Load.{migrate_storage}
use kdrive.Config.Bounds.{wrapped-ok, reject-ok, or-true}

-- What production needs of a storage.
pub record Complete (s : StorageConfig) : Type 0 where
  pub endpoint : s.endpoint ≢ ""
  pub region : s.region ≢ ""
  pub bucket : s.bucket ≢ ""
  pub access_key : s.access_key ≢ ""
  pub secret_key : s.secret_key ≢ ""
  pub provider :
      (s.provider ≡ "") ⊎ ((s.provider ≡ "wasabi") ⊎ ((s.provider ≡ "s3") ⊎ (s.provider ≡ "b2")))

known_provider_sound :
    (p : String)
    → not (known_provider p) ≡ false
    → (p ≡ "") ⊎ ((p ≡ "wasabi") ⊎ ((p ≡ "s3") ⊎ (p ≡ "b2")))
known_provider_sound p h =
    let known = not_false (known_provider p) h in
    elim (or-true (str_eq p "") _ known) [
      | inl e ↦ inl ((eq_iff p "").0 e)
      | inr r ↦ elim (or-true (str_eq p "wasabi") _ r) [
        | inl e ↦ inr (inl ((eq_iff p "wasabi").0 e))
        | inr r' ↦ elim (or-true (str_eq p "s3") (str_eq p "b2") r') [
          | inl e ↦ inr (inr (inl ((eq_iff p "s3").0 e)))
          | inr e ↦ inr (inr (inr ((eq_iff p "b2").0 e)))
        ]
      ]
    ]
  where
    not_false : (b : Bool) → not b ≡ false → b ≡ true
    not_false true h = refl
    not_false false h = cc

validate_storage_sound : (s : StorageConfig) → validate_storage s ≡ ok tt → Complete s
unfolding validate_storage
validate_storage_sound s h =
    let endpoint = reject-eq-ok _ _ _ tt h in
    let region = reject-eq-ok _ _ _ tt endpoint.1 in
    let bucket = reject-eq-ok _ _ _ tt region.1 in
    let access = reject-eq-ok _ _ _ tt bucket.1 in
    let secret = reject-eq-ok _ _ _ tt access.1 in
    record {
      endpoint = ne_of_str_eq s.endpoint "" endpoint.0;
      region = ne_of_str_eq s.region "" region.0;
      bucket = ne_of_str_eq s.bucket "" bucket.0;
      access_key = ne_of_str_eq s.access_key "" access.0;
      secret_key = ne_of_str_eq s.secret_key "" secret.0;
      provider =
          known_provider_sound s.provider (reject-ok (not (known_provider s.provider)) _ secret.1);
    }

-- In production the database is named and the storage complete.
pub validate_production_sound :
    (env dsn : String) (s : StorageConfig)
    → env ≡ "production"
    → validate_production env dsn s ≡ ok tt
    → (dsn ≢ "") × Complete s
unfolding validate_production
validate_production_sound env dsn s live h =
    let checked = reject-eq-ok (str_eq dsn "") postgres_dsn_required _ tt (rw live at h) in
    (
      ne_of_str_eq dsn "" checked.0,
      validate_storage_sound s (wrapped-ok bad_storage (validate_storage s) checked.1),
    )

-- A storage that has an endpoint has a provider once it is migrated.
pub migrate_storage-provider :
    (s : StorageConfig) (w : WasabiConfig)
    → (migrate_storage s w).endpoint ≢ ""
    → (migrate_storage s w).provider ≢ ""
unfolding migrate_storage
migrate_storage-provider s w =
    let P : StorageConfig → Type 0 = λ x. x.endpoint ≢ "" → x.provider ≢ "" in
    if_intro P (str_eq s.provider "" && str_eq s.endpoint "") _ _
      (λ both.
        if_intro P (not (str_eq w.endpoint "")) _ _ (λ _ _. ne_of_str_eq "wasabi" "" refl)
          (λ _ ne. absurd (
            ne (
              (eq_iff s.endpoint "").0
                (and-right (str_eq s.provider "") (str_eq s.endpoint "") both)))))
      (λ _.
        if_intro P (str_eq s.provider "") _ _ (λ _ _. ne_of_str_eq "wasabi" "" refl)
          (λ named _. ne_of_str_eq s.provider "" named))
  where
    and-right : (a b : Bool) → (a && b) ≡ true → b ≡ true
    and-right true b h = h
    and-right false b h = cc
