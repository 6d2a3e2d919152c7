-- ===== src/Tests/GatewayTests.antt =====
-- The dedup API and the guardrails at concrete inputs.
use kdrive.Common.{
  ℕ, ◌+◌, ◌*◌, ◌-◌, ◌≤◌, ◌≡◌, refl, false, if◌then◌else◌, List, [], ◌∷◌, All, Option, none, some,
  String, ok, err, pos, arith,
}
use kdrive.Common.Dict.{lookup, insert, delete, ne_of_str_eq}
use kdrive.Tests.Floats.{thousandths}
use kdrive.BlobStore.{ObjectMeta, not_found, other, versioning_enabled}
use kdrive.Dedup.State.{
  ContentChunk, MemContentEntry, committed, failed, ContentDb, Objects, MapOrder, Gateway,
}
use kdrive.Dedup.Memory.{
  drop_key, trim_entries, trim_chunks, put_mem_content, get_mem_content, add_hashes, known_hashes,
}
use kdrive.Dedup.Handlers.{RegisterBody, mem_entry_of}
use kdrive.Dedup.Commit.{
  CommitBody, known, check_reused, check_reused_mem, check_uploaded, check_new, commit_body,
}
use kdrive.Dedup.Reuse.{Reuses, Uploaded, TenantOffers, known_hashes-tenant, commit_body-checked}
use kdrive.Guardrails.{
  MinStorageTracker, default_guardrails_for_provider, validate, egress_ratio_not_positive,
  residual_billable_window, day,
}
use kdrive.Guardrails.Laws.{residual_billable_window-billed, default-invalid}

-- A database without a row; the tests run without one.
instance abbrev no_rows : ContentDb (Unit {0})
no_rows = record {
  get_content_entry = λ _ _ _. err failed;
  get_content_chunks = λ _ _ _. err failed;
  get_content_entry_by_content_id = λ _ _. err failed;
  check_chunk_hashes = λ _ _ _ _. err failed;
  create_content_entry = λ d _. (d, err failed);
  create_content_chunks = λ d _ _. (d, err failed);
}

abbrev key_of_entry : List (String × MemContentEntry) → Option String
key_of_entry [] = none
key_of_entry (e ∷ es) = some e.0

abbrev key_of_chunks : List (String × List ContentChunk) → Option String
key_of_chunks [] = none
key_of_chunks (e ∷ es) = some e.0

instance abbrev in_order : MapOrder
in_order = record { first_entry = key_of_entry; first_chunks = key_of_chunks; entries = λ es. es }

abbrev uploaded_meta : String → ObjectMeta
uploaded_meta key = record {
  key = key;
  version_id = "v1";
  versioning_state = versioning_enabled;
  size = 4;
  checksum_sha256 = "";
  retention = record { mode = ""; retain_until = 0; legal_hold = false };
  write_time = 9;
}

-- The store that has the keys of a list.
instance abbrev key_list : Objects (List String)
key_list = record {
  put = λ keys req. (req.key ∷ keys, err other);
  head = λ keys key. if known key keys then ok (uploaded_meta key) else err not_found;
}

abbrev chunk : String → String → ContentChunk
chunk hash key = record {
  chunk_index = pos 0;
  chunk_content_hash = hash;
  blob_key = key;
  plaintext_len = pos 4;
  ciphertext_len = pos 20;
}

abbrev content : RegisterBody
content = record {
  content_id = "c1";
  plaintext_size = pos 8;
  chunk_count = pos 2;
  chunk_size = pos 4;
  chunk_plan_root = "root";
  chunks = chunk "h1" "k1" ∷ chunk "h2" "k2" ∷ [];
}

-- A full store: registering evicts "old".
abbrev gateway : Gateway (Unit {0}) (List String)
gateway = record {
  meta_db = none;
  store = some ("k3" ∷ []);
  mem_content_store = ("old", record (mem_entry_of content "t2" 1) { content_id = "old" }) ∷ [];
  mem_content_chunks = ("old", chunk "h9" "k9" ∷ []) ∷ [];
  mem_content_store_max = pos 1;
}

abbrev registered_gateway : Gateway (Unit {0}) (List String)
registered_gateway = record gateway {
  mem_content_store = ("c1", mem_entry_of content "t1" 5) ∷ [];
  mem_content_chunks = ("c1", content.chunks) ∷ [];
}

registers :
    put_mem_content gateway "c1" (mem_entry_of content "t1" 5) content.chunks ≡ registered_gateway
unfolding put_mem_content trim_entries trim_chunks drop_key insert delete
registers = refl

h2_known :
    lookup "h2" (
      known_hashes "t1" registered_gateway.mem_content_chunks registered_gateway.mem_content_store
        [])
    ≡ some "k2"
unfolding known_hashes add_hashes lookup insert
h2_known = refl

known_hashes-tenant_example :
    TenantOffers "t1" registered_gateway.mem_content_chunks registered_gateway.mem_content_store
      "h2" "k2"
known_hashes-tenant_example =
    known_hashes-tenant "t1" registered_gateway.mem_content_chunks
      registered_gateway.mem_content_store "h2" "k2" h2_known

abbrev commit : CommitBody
commit = record {
  protocol = "KDRV1";
  content_id = "c1";
  reused_blob_keys = "k2" ∷ [];
  new_blob_keys = "k3" ∷ [];
}

commits : commit_body registered_gateway "t1" commit "version_1" ≡ ok (committed "version_1" 1 1)
unfolding commit_body check_reused_mem check_reused known check_new check_uploaded get_mem_content
    lookup
commits = refl

commit_body-checked_example :
    (commit.protocol ≡ "KDRV1")
    × Reuses (get_mem_content registered_gateway "c1") "t1" ("k2" ∷ [])
    × ((s : List String) → registered_gateway.store ≡ some s → All (Uploaded s) ("k3" ∷ []))
    × (committed "version_1" 1 1 ≡ committed "version_1" 1 1)
commit_body-checked_example =
    commit_body-checked registered_gateway "t1" commit "version_1" (committed "version_1" 1 1) refl
      commits

abbrev piece : MinStorageTracker
piece = record {
  tenant_id = "t1";
  piece_id = "p";
  stored_at = 10 * day;
  deleted_at = 40 * day;
  min_storage_duration = pos (90 * day);
}

residual_billable_window-billed_example :
    (90 * day ≤ 40 * day - 10 * day → residual_billable_window piece 0 ≡ 0)
    × (40 * day - 10 * day ≤ 90 * day
        → 40 * day - 10 * day + residual_billable_window piece 0 ≡ 90 * day)
residual_billable_window-billed_example = residual_billable_window-billed piece 0 refl (omega arith)

default-invalid_example :
    validate {F = ℕ} (default_guardrails_for_provider "t1" "minio") ≡ err egress_ratio_not_positive
default-invalid_example =
    default-invalid ℕ "t1" "minio" refl (ne_of_str_eq "t1" "" refl)
      (ne_of_str_eq "minio" "wasabi" refl) (ne_of_str_eq "minio" "b2" refl)
