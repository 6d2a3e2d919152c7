-- ===== src/Local/State.antt =====
-- The provider's files.
use kdrive.Common.{
  ℕ, ◌+◌, String, Bool, true, false, if◌then◌else◌, ltb, str_eq, List, [], ◌∷◌, ◌++◌, length,
  Option, none, some, Result, err,
}
use kdrive.Common.Dict.{lookup, insert}
use kdrive.BlobStore.{
  StoreError, Retention, retention_none, versioning_enabled, PutResult, ObjectMeta,
}

pub record Sidecar : Type 0 where
  pub key : String
  pub version_id : String
  pub size_bytes : ℕ
  pub checksum_sha256 : String
  pub content_type : String
  pub versioning_state : String
  pub retention : Retention
  pub write_time : ℕ
  pub is_delete_marker : Bool

-- `{version}.json`, and `{version}.bin` where the version is no delete marker.
pub record Version : Type 0 where
  pub sidecar : Sidecar
  pub body : Option (List ℕ)

-- A staging directory: `upload.json`, and the part files.
pub record Staging : Type 0 where
  pub key : String
  pub upload_id : String
  pub content_type : String
  pub checksum_sha256 : String
  pub retention : Retention
  pub started_at : ℕ
  pub parts : List (ℕ × List ℕ)

-- `seq` is the global `versionCounter`.
pub record Provider : Type 0 where
  pub objects : List (String × List Version)
  pub uploads : List Staging
  pub seq : ℕ

-- What the provider takes from outside: SHA-256 in hexadecimal, the id that `newVersionID` makes
-- with a value of the counter, the time that `p.now()` reads after it, and the canonical hash of
-- key, version, size and checksum.
pub record LocalEnv : Type 0 where
  pub sha256_hex : List ℕ → String
  pub version_id : ℕ → String
  pub clock : ℕ → ℕ
  pub write_result_hash : String → String → ℕ → String → String

unfoldable pub empty_provider : Provider
empty_provider = record { objects = []; uploads = []; seq = 0 }

abbrev pub or_none : Option (List Version) → List Version
or_none none = []
or_none (some vs) = vs

-- The versions under a key, in the order of their file names.
unfoldable pub versions_of : Provider → String → List Version
versions_of p key = or_none (lookup key p.objects)

-- `sort.Slice` by write time, which keeps the order of the few versions with one time.
unfoldable pub sort_in : Version → List Version → List Version
sort_in v [] = v ∷ []
sort_in v (w ∷ ws) =
    if ltb w.sidecar.write_time v.sidecar.write_time then w ∷ sort_in v ws else v ∷ w ∷ ws

unfoldable pub sort_versions : List Version → List Version
unfolding sort_in
sort_versions [] = []
sort_versions (v ∷ vs) = sort_in v (sort_versions vs)

-- `listVersionsLocked`
unfoldable pub list_versions : Provider → String → List Version
unfolding versions_of sort_versions
list_versions p key = sort_versions (versions_of p key)

-- `latestVersion`
unfoldable pub latest_version : List Version → Option Version
latest_version [] = none
latest_version (v ∷ vs) = elim (latest_version vs) [ some w ↦ some w | none ↦ some v ]

-- `latestNonDeleteMarker`
unfoldable pub latest_body : List Version → Option Version
latest_body [] = none
latest_body (v ∷ vs) = elim (latest_body vs) [
  | some w ↦ some w
  | none ↦ if v.sidecar.is_delete_marker then none else some v
]

unfoldable pub find_version : String → List Version → Option Version
find_version id [] = none
find_version id (v ∷ vs) = if str_eq v.sidecar.version_id id then some v else find_version id vs

-- `hasAnyVersionLocked`
unfoldable pub has_any : List Version → Bool
has_any [] = false
has_any (v ∷ vs) = true

-- A new version's files.
unfoldable pub add_version : Provider → String → Version → Provider
unfolding versions_of
add_version p key v = record p { objects = insert key (versions_of p key ++ v ∷ []) p.objects }

unfoldable pub sidecar_to_meta : Sidecar → ObjectMeta
sidecar_to_meta sc = record {
  key = sc.key;
  version_id = sc.version_id;
  versioning_state = sc.versioning_state;
  size = sc.size_bytes;
  checksum_sha256 = sc.checksum_sha256;
  retention = sc.retention;
  write_time = sc.write_time;
}

unfoldable pub effective_retention_mode : Retention → String
effective_retention_mode spec = if str_eq spec.mode "" then retention_none else spec.mode

-- The retention that a new version starts with.
unfoldable pub initial_retention : Retention → Retention
unfolding effective_retention_mode
initial_retention spec = record {
  mode = effective_retention_mode spec;
  retain_until = if str_eq spec.mode retention_none then 0 else spec.retain_until;
  legal_hold = spec.legal_hold;
}

module _ ⦃env : LocalEnv⦄ where
  abbrev pub next_id : Provider → String
  next_id p = env.version_id (p.seq + 1)

  -- A body that is written under a fresh version id.
  abbrev pub new_version : Provider → String → List ℕ → String → Retention → Version
  new_version p key body content_type spec = record {
    sidecar = record {
      key = key;
      version_id = next_id p;
      size_bytes = length body;
      checksum_sha256 = env.sha256_hex body;
      content_type = content_type;
      versioning_state = versioning_enabled;
      retention = initial_retention spec;
      write_time = env.clock (p.seq + 1);
      is_delete_marker = false;
    };
    body = some body;
  }

  abbrev pub put_result : Sidecar → PutResult
  put_result sc = record {
    key = sc.key;
    version_id = sc.version_id;
    versioning_state = sc.versioning_state;
    retention = sc.retention;
    write_time = sc.write_time;
    size = sc.size_bytes;
    checksum_sha256 = sc.checksum_sha256;
    write_result_hash = env.write_result_hash sc.key sc.version_id sc.size_bytes sc.checksum_sha256;
  }

  -- The counter's step, the new version's files, and the result.
  unfoldable pub publish : Provider → String → List ℕ → String → Retention → Provider × PutResult
  unfolding add_version initial_retention
  publish p key body content_type spec =
      let v = new_version p key body content_type spec in
      (add_version (record p { seq = p.seq + 1 }) key v, put_result v.sidecar)

abbrev pub fail_put : {A : Type 0} → Provider → StoreError → Provider × Result StoreError A
fail_put p e = (record p { seq = p.seq + 1 }, err e)
