-- ===== src/Tests/PipelineTests.antt =====
-- The pipeline over a cache that is a map and a store that is a map.
use kdrive.Common.{
  ℕ, ◌==◌, ◌≡◌, ◌≢◌, refl, ◌∙◌, ap, true, false, Bool, if◌then◌else◌, List, [], ◌∷◌, length, none,
  some, String, Result, ok, err, Reader, within, arith,
}
use kdrive.Common.Dict.{
  lookup, insert, delete, lookup-insert_self, lookup-insert_ne, lookup-delete, str_ne,
}
use mathlib.Core.List.{flatten}
use kdrive.BlobStore.{PutResult, ObjectMeta, not_found, other, Retention, versioning_enabled}
use kdrive.HotCache.{CacheError, miss, buffer_blob, Metadata}
use kdrive.Blobio.State.{
  cached, CacheOps, StoreOps, Extern, Pipeline, WriteOptions, BlobStatus, status_put, mark_durable,
}
use kdrive.Blobio.Parts.{cut, cut-flatten}
use kdrive.Blobio.Promotion.{
  check_already_durable, same_object, upload_blob, promote_single, release, finish_promote,
  promote_body, promote_cached, promote_known, promote,
}
use kdrive.Blobio.Methods.{
  new_pipeline, written_status, commit, write, read, evict_cached, evict_in, evict, written,
}
use kdrive.Blobio.RoundTrip.{write-read}
use kdrive.Blobio.Outcome.{Outcome, promote-Outcome}
use kdrive.Blobio.Keeping.{CacheLaws}
use kdrive.Blobio.Runs.{Call, write_, promote_, evict_, run_calls}

abbrev pub Map : Type 0
Map = List (String × List ℕ)

abbrev hit_meta : String → List ℕ → Metadata
hit_meta id b = record {
  blob_id = id;
  size_bytes = length b;
  hash = "";
  stored_at = 0;
  last_access = 0;
  hit_count = 1;
  pinned = false;
  non_evictable = true;
}

abbrev map_get : Map → String → Result CacheError (Reader × Metadata)
map_get m id = elim (lookup id m) [
  | none ↦ err miss
  | some b ↦ ok (record { bytes = b; fails = false }, hit_meta id b)
]

abbrev map_put : Bool → Map → String → List ℕ → Map × Result CacheError (Unit {0})
map_put true m id b = (m, err buffer_blob)
map_put false m id b = (insert id b m, ok tt)

instance abbrev map_cache : CacheOps Map
map_cache = record {
  get = λ m id _. (m, map_get m id);
  put = λ m id r _ _. map_put r.fails m id r.bytes;
  evict = λ m id. (delete id m, ok tt);
}

map_put-others :
    (f : Bool) (m : Map) (id : String) (bytes : List ℕ) (j : String) (b : List ℕ)
    → id ≢ j
    → lookup j m ≡ some b
    → lookup j (map_put f m id bytes).0 ≡ some b
map_put-others true m id bytes j b ne h = h
map_put-others false m id bytes j b ne h = lookup-insert_ne id j bytes m ne ∙ h

map_put-failed :
    (f : Bool) (m : Map) (id : String) (bytes : List ℕ) (e : CacheError) (j : String) (b : List ℕ)
    → (map_put f m id bytes).1 ≡ err e
    → lookup j m ≡ some b
    → lookup j (map_put f m id bytes).0 ≡ some b
map_put-failed true m id bytes e j b k h = h
map_put-failed false m id bytes e j b k h = cc

map_put-kept :
    (f : Bool) (m : Map) (id : String) (bytes : List ℕ)
    → f ≡ false
    → lookup id (map_put f m id bytes).0 ≡ some bytes
map_put-kept true m id bytes h = cc
map_put-kept false m id bytes h = lookup-insert_self id bytes m

map_get-kept :
    (m : Map) (id : String) (b : List ℕ)
    → lookup id m ≡ some b
    → map_get m id ≡ ok (record { bytes = b; fails = false }, hit_meta id b)
map_get-kept m id b h =
    within (lookup id m) (λ c. ok (record { bytes = c; fails = false }, hit_meta id c)) (err miss) b
      h

instance abbrev map_cache_laws : CacheLaws Map
map_cache_laws = record {
  Fine = λ _. Unit;
  Kept = λ m id b. lookup id m ≡ some b;
  get_fine = λ _ _ _ _. tt;
  put_fine = λ _ _ _ _ _ _. tt;
  evict_fine = λ _ _ _. tt;
  put_kept = λ m id r _ _ _ h _ _ _. map_put-kept r.fails m id r.bytes h;
  put_others = λ m id r _ _ j b _ ne h. map_put-others r.fails m id r.bytes j b ne h;
  put_failed = λ m id r _ _ e j b _ k h. map_put-failed r.fails m id r.bytes e j b k h;
  get_keeps = λ _ _ _ _ _ _ h. h;
  get_kept = λ m id _ b _ h. (hit_meta id b, map_get-kept m id b h);
  evict_others = λ m id j b _ ne h.
      lookup-delete id j m ∙ ap (λ t. if t then none else lookup j m) (str_ne id j ne) ∙ h;
}

abbrev unlocked : Retention
unlocked = record { mode = ""; retain_until = 0; legal_hold = false }

abbrev pub digest : List ℕ → String
digest [] = "e0"
digest (b ∷ bs) = if b == 1 then "01" else "02"

abbrev put_result : String → List ℕ → PutResult
put_result key b = record {
  key = key;
  version_id = "v1";
  versioning_state = versioning_enabled;
  retention = unlocked;
  write_time = 77;
  size = length b;
  checksum_sha256 = digest b;
  write_result_hash = "";
}

abbrev object_meta : String → List ℕ → ObjectMeta
object_meta key b = record {
  key = key;
  version_id = "v1";
  versioning_state = versioning_enabled;
  size = length b;
  checksum_sha256 = digest b;
  retention = unlocked;
  write_time = 77;
}

instance abbrev pub map_store : StoreOps Map
map_store = record {
  put = λ m req.
      (insert req.key req.body.bytes m, req.body.bytes, ok (put_result req.key req.body.bytes));
  get = λ m key. elim (lookup key m) [
    | none ↦ err not_found
    | some b ↦ ok (record { bytes = b; fails = false }, object_meta key b)
  ];
  head = λ m key. elim (lookup key m) [ none ↦ err not_found | some b ↦ ok (object_meta key b) ];
  create = λ m key _. (m, err other);
  upload = λ m _ _ _. (m, err other);
  complete = λ m _ _. (m, err other);
  abort = λ m _. (m, ok tt);
}

instance abbrev pub test_extern : Extern
test_extern = record { sha256_hex = digest; schedule = λ jobs. jobs }

abbrev plain : WriteOptions
plain = record {
  promote_sync = false;
  pin_hot = false;
  retention = unlocked;
  file_id = "f";
  tenant_id = "t";
}

-- "a" is written and stays cached, "b" is promoted and evicted; evicting "a" is refused.
abbrev pub calls : List Call
calls =
    write_ "a" (1 ∷ 2 ∷ 3 ∷ []) plain 10
    ∷ write_ "b" (5 ∷ 5 ∷ []) plain 11
    ∷ promote_ "b" 12
    ∷ evict_ "a"
    ∷ evict_ "b"
    ∷ []

abbrev pub status_a : BlobStatus
status_a = record {
  blob_id = "a";
  commit_state = cached;
  size = 3;
  checksum_sha256 = "01";
  version_id = "";
  cached_at = 10;
  durable_at = 0;
  file_id = "f";
  tenant_id = "t";
  retention = unlocked;
}

abbrev after : Pipeline Map Map
after = run_calls (new_pipeline [] []) calls

unfoldable pub pipeline_program : Unit {0}
unfolding lookup insert delete status_put mark_durable check_already_durable same_object upload_blob
    promote_single release finish_promote promote_body promote_cached promote_known promote
    new_pipeline written_status commit write evict_cached evict_in evict run_calls
pipeline_program = tt

after_a : lookup "a" after.status ≡ some status_a
unfolding pipeline_program
after_a = refl

promote-Outcome_example : Outcome after "a" (promote after "a" 30)
promote-Outcome_example = promote-Outcome after "a" 30

cut-flatten_example : flatten (cut 2 (1 ∷ 2 ∷ 3 ∷ [])) ≡ 1 ∷ 2 ∷ 3 ∷ []
cut-flatten_example = cut-flatten 2 (1 ∷ 2 ∷ 3 ∷ []) (omega arith)

abbrev started : Pipeline Map Map
started = new_pipeline [] (("z", 1 ∷ 4 ∷ []) ∷ [])

write_ok :
    (write started "a" (1 ∷ 2 ∷ 3 ∷ []) plain 10).1 ≡ ok (written cached "a" (1 ∷ 2 ∷ 3 ∷ []))
unfolding pipeline_program
write_ok = refl

write-read_example :
    (written cached "a" (1 ∷ 2 ∷ 3 ∷ []) ≡ written cached "a" (1 ∷ 2 ∷ 3 ∷ []))
    × ((read (write started "a" (1 ∷ 2 ∷ 3 ∷ []) plain 10).0 "a" 90).1
        ≡ ok (record {
          body = record { bytes = 1 ∷ 2 ∷ 3 ∷ []; fails = false };
          size = 3;
          checksum_sha256 = "01";
          version_id = "";
          from_cache = true;
        }))
write-read_example =
    write-read started "a" (1 ∷ 2 ∷ 3 ∷ []) plain 10 90 (written cached "a" (1 ∷ 2 ∷ 3 ∷ [])) tt
      refl write_ok
