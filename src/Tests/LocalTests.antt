-- ===== src/Tests/LocalTests.antt =====
-- The filesystem provider at concrete inputs.
use kdrive.Common.{
  ℕ, zero, suc, ◌≤◌, ◌≡◌, ◌≢◌, refl, sym, ap, ◌∙◌, subst, ◌⊎◌, false, List, [], ◌∷◌, Option, none,
  some, take, drop, length, String, ok, err, pos, negsuc, Reader, arith,
}
use kdrive.Common.Text.{codes, has_code, has_prefix}
use kdrive.Common.Dict.{ne_of_str_eq, lookup, insert}
use kdrive.BlobStore.{
  not_found, retention_none, retention_compliance, VersionedObjectRef, PutRequest, PutResult,
  ObjectMeta,
}
use kdrive.Local.State.{
  Version, Provider, LocalEnv, empty_provider, versions_of, find_version, new_version, put_result,
  initial_retention,
}
use kdrive.Local.Keys.{bad_segment, IsSegment, validate_key}
use kdrive.Local.Objects.{ByteRange, slice, get, head, put, delete}
use kdrive.Local.Retain.{RetentionUpdate, update_retention, delete_version}
use kdrive.Local.Validity.{IsValid, put-IsValid}
use kdrive.Local.Fresh.{LocalLaws}
use kdrive.Local.Runs.{start, Reached-IsValid, delete_, retain_}
use kdrive.Local.RoundTrip.{described, get-put}
use kdrive.Local.Keeps.{unchanged, grown, get-Grown, delete-hides}
use kdrive.Local.LockRuns.{untouched, spared, compliance-Spared}
use kdrive.Local.Locks.{KeepsLock}
use kdrive.Local.Ranges.{slice-bounds, EndsAt}
use kdrive.Local.Removal.{delete_version-removes}

-- Ids "v", "vv", and so on, at the times 1, 2, and so on; a letter a byte in place of SHA-256.
abbrev pub ids : ℕ → String
ids zero = "v"
ids (suc n) = String.◌∷◌ "v" (ids n)

abbrev pub sum_name : List ℕ → String
sum_name [] = "s"
sum_name (b ∷ bs) = String.◌∷◌ "s" (sum_name bs)

instance abbrev pub counted : LocalEnv
counted = record {
  sha256_hex = sum_name;
  version_id = ids;
  clock = λ n. n;
  write_result_hash = λ key id size sum. id;
}

length-ids : (n : ℕ) → length (codes (ids n)) ≡ suc n
length-ids zero = refl
length-ids (suc n) = omega (arith, length-ids n)

pub counted_laws : LocalLaws counted
counted_laws = record {
  clock_mono = λ i j le. le;
  ids_differ = λ i j same.
      let here = sym (length-ids i) ∙ ap (λ s. length (codes s)) same ∙ length-ids j in
      omega (arith, here);
  ids_named = λ i same.
      let here = sym (length-ids i) ∙ ap (λ s. length (codes s)) same in omega (arith, here);
}

abbrev pub open_object : List ℕ → PutRequest
open_object body = record {
  key = "a";
  body = record { bytes = body; fails = false };
  expected_length = 0;
  checksum_sha256 = "";
  content_type = "";
  retention = record { mode = retention_compliance; retain_until = 50; legal_hold = false };
  if_none_match = false;
}

abbrev pub first : Provider
first = record {
  objects =
      ("a", new_version empty_provider "a" (7 ∷ 8 ∷ []) "" (open_object []).retention ∷ []) ∷ [];
  uploads = [];
  seq = 1;
}

abbrev res_first : PutResult
res_first =
    put_result (new_version empty_provider "a" (7 ∷ 8 ∷ []) "" (open_object []).retention).sidecar

put_first : put empty_provider (open_object (7 ∷ 8 ∷ [])) ≡ (first, ok res_first)
unfolding put empty_provider insert lookup
put_first = refl

pub empty_IsValid : IsValid empty_provider
empty_IsValid = Reached-IsValid empty_provider start

first_IsValid : IsValid first
first_IsValid =
    subst IsValid (ap (λ x. x.0) put_first)
      (put-IsValid empty_provider (open_object (7 ∷ 8 ∷ [])) empty_IsValid)

abbrev pub bytes_of : List ℕ → Reader
bytes_of body = record { bytes = body; fails = false }

get-put_example :
    (get first (record { key = "a"; version_id = "" }) none
      ≡ ok (bytes_of (7 ∷ 8 ∷ []), described res_first))
    × (get first (record { key = "a"; version_id = res_first.version_id }) none
        ≡ ok (bytes_of (7 ∷ 8 ∷ []), described res_first))
    × (head first "a" ≡ ok (described res_first))
    × (res_first.size ≡ 2)
    × (res_first.checksum_sha256 ≡ "sss")
get-put_example =
    get-put empty_provider first (open_object (7 ∷ 8 ∷ [])) res_first counted_laws empty_IsValid
      put_first

abbrev first_ref : VersionedObjectRef
first_ref = record { key = "a"; version_id = res_first.version_id }

first_ref_named : first_ref.version_id ≢ ""
unfolding empty_provider
first_ref_named = ne_of_str_eq "vv" "" refl

first_ref-IsSegment : IsSegment first_ref.version_id
unfolding empty_provider has_code bad_segment
first_ref-IsSegment = (refl, refl)

get-Grown_example :
    get (delete first "a").0 first_ref none ≡ ok (bytes_of (7 ∷ 8 ∷ []), described res_first)
get-Grown_example =
    get-Grown first (delete first "a").0 first_ref none _ (grown unchanged (delete_ "a") tt)
      (unfold has_prefix in refl) first_ref-IsSegment
      (get-put empty_provider first (open_object (7 ∷ 8 ∷ [])) res_first counted_laws empty_IsValid
        put_first).1

delete-first : delete first "a" ≡ ((delete first "a").0, ok tt)
unfolding delete lookup
delete-first = refl

delete-hides_example :
    (head (delete first "a").0 "a" ≡ err not_found)
    × ((range : Option ByteRange)
        → get (delete first "a").0 (record { key = "a"; version_id = "" }) range ≡ err not_found)
    × ((ref : VersionedObjectRef) (range : Option ByteRange) (x : Reader × ObjectMeta)
        → ref.version_id ≢ ""
        → get first ref range ≡ ok x
        → get (delete first "a").0 ref range ≡ ok x)
delete-hides_example =
    delete-hides first (delete first "a").0 "a" counted_laws first_IsValid delete-first

abbrev longer : RetentionUpdate
longer = record {
  ref = first_ref;
  mode = retention_none;
  retain_until = 60;
  clear_retention = false;
}

abbrev first_version : Version
first_version = new_version empty_provider "a" (7 ∷ 8 ∷ []) "" (open_object []).retention

found_first : find_version first_ref.version_id (versions_of first "a") ≡ some first_version
unfolding find_version versions_of lookup empty_provider
found_first = refl

compliance-Spared_example :
    KeepsLock (update_retention first longer).0 "a" first_ref.version_id first_version
unfolding initial_retention
compliance-Spared_example =
    compliance-Spared first (update_retention first longer).0 "a" first_ref.version_id first_version
      (spared untouched (retain_ longer) first_ref-IsSegment) (unfold has_prefix in refl)
      found_first refl

abbrev tail_range : ByteRange
tail_range = record { start = pos 1; end = negsuc 0 }

abbrev three_bytes : List ℕ
three_bytes = 5 ∷ 6 ∷ 7 ∷ []

abbrev two_bytes : List ℕ
two_bytes = 6 ∷ 7 ∷ []

slice-bounds_example :
    (i : ℕ) × (tail_range.start ≡ pos i)
    × (two_bytes ≡ take 2 (drop i three_bytes))
    × (1 ≤ 2)
    × EndsAt tail_range.end i 2 3
slice-bounds_example = slice-bounds tail_range three_bytes two_bytes (unfold slice in refl)

delete_version-removes_example :
    ((delete_version first first_ref).1 ≡ ok tt)
    × ((range : Option ByteRange)
        → get (delete_version first first_ref).0 first_ref range ≡ err not_found)
    × ((j id : String)
        → ("a" ≢ j) ⊎ (first_ref.version_id ≢ id)
        → find_version id (versions_of (delete_version first first_ref).0 j)
          ≡ find_version id (versions_of first j))
delete_version-removes_example =
    delete_version-removes first first_ref (unfold validate_key in refl) first_ref-IsSegment
