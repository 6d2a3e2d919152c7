-- ===== src/Local/Inventory.antt =====
-- `ListObjects`, `ListObjectVersions` and `ListParts`.
use kdrive.Common.{
  ℕ, ltb, leb, String, Bool, true, false, not, ◌&&◌, if◌then◌else◌, str_eq, List, [], ◌∷◌, map,
  Option, none, some, Result, ok, ◌>>=◌, ℤ, pos, negsuc, length, take, ◌/◌,
}
use kdrive.Common.Text.{codes, has_code, has_prefix, str_lt}
use kdrive.BlobStore.{StoreError, ObjectMeta, MultipartUpload}
use kdrive.Local.State.{
  Version, Provider, sort_versions, list_versions, latest_body, sidecar_to_meta,
}
use kdrive.Local.Keys.{validate_key}
use kdrive.Local.Multipart.{find_upload}

-- `ListObjectsRequest`
pub record ListRequest : Type 0 where
  pub prefix : String
  pub cursor : String
  pub max_keys : ℤ

pub record ObjectPage : Type 0 where
  pub objects : List ObjectMeta
  pub next_cursor : String
  pub is_truncated : Bool

-- The directory entries of the root are the keys without a slash; a key at or before the cursor
-- is passed over.
unfoldable pub is_listed : ListRequest → String → Bool
unfolding has_code has_prefix str_lt
is_listed req key =
    not (has_code b'/' (codes key))
    && ((if str_eq req.prefix "" then true else has_prefix key req.prefix)
        && (if str_eq req.cursor "" then true else str_lt req.cursor key))

unfoldable pub insert_meta : ObjectMeta → List ObjectMeta → List ObjectMeta
insert_meta m [] = m ∷ []
insert_meta m (n ∷ ns) = if str_lt m.key n.key then m ∷ n ∷ ns else n ∷ insert_meta m ns

abbrev with_meta : Option Version → List ObjectMeta → List ObjectMeta
with_meta none metas = metas
with_meta (some v) metas = insert_meta (sidecar_to_meta v.sidecar) metas

-- The sorted metadata of the keys whose newest version that is no marker is there.
unfoldable pub listed : ListRequest → List (String × List Version) → List ObjectMeta
unfolding is_listed insert_meta latest_body sort_versions
listed req [] = []
listed req (o ∷ os) =
    let rest = listed req os in
    if is_listed req o.0 then with_meta (latest_body (sort_versions o.1)) rest else rest

-- 1000 by default and at most.
unfoldable pub page_size : ℤ → ℕ
page_size (negsuc n) = 1000
page_size (pos n) = if leb n 0 then 1000 else if ltb 1000 n then 1000 else n

unfoldable pub last_key : List ObjectMeta → String
last_key [] = ""
last_key (m ∷ []) = m.key
last_key (m ∷ n ∷ ms) = last_key (n ∷ ms)

unfoldable pub page_of : ℕ → List ObjectMeta → ObjectPage
unfolding last_key
page_of max metas =
    if ltb max (length metas)
    then record {
      objects = take max metas;
      next_cursor = last_key (take max metas);
      is_truncated = true;
    }
    else record { objects = metas; next_cursor = ""; is_truncated = false }

unfoldable pub list_objects : Provider → ListRequest → ObjectPage
unfolding listed page_size page_of
list_objects p req = page_of (page_size req.max_keys) (listed req p.objects)

unfoldable pub list_object_versions : Provider → String → Result StoreError (List ObjectMeta)
unfolding validate_key list_versions sidecar_to_meta
list_object_versions p key = do
  _ ← validate_key key
  ok (map (λ v. sidecar_to_meta v.sidecar) (list_versions p key))

unfoldable pub insert_part : ℕ × List ℕ → List (ℕ × ℕ) → List (ℕ × ℕ)
insert_part part [] = (part.0, length part.1) ∷ []
insert_part part (q ∷ qs) =
    if ltb part.0 q.0 then (part.0, length part.1) ∷ q ∷ qs else q ∷ insert_part part qs

-- The number that `Sscanf` reads from a part file's name with `%05d`: at most five digits of an
-- `int32`.
unfoldable pub five_digits : ℕ → ℕ
five_digits n =
    if ltb n 100000
    then n
    else if ltb n 1000000
    then n / 10
    else if ltb n 10000000
    then n / 100
    else if ltb n 100000000
    then n / 1000
    else if ltb n 1000000000
    then n / 10000
    else n / 100000

-- Numbers and sizes of the part files behind the cursor, in the order of the numbers.
unfoldable pub parts_behind : ℕ → List (ℕ × List ℕ) → List (ℕ × ℕ)
unfolding insert_part five_digits
parts_behind cursor [] = []
parts_behind cursor (part ∷ parts) =
    let rest = parts_behind cursor parts in
    let number = five_digits part.0 in
    if ltb cursor number then insert_part (number, part.1) rest else rest

-- An empty cursor, and one that is no number, is 0.
unfoldable pub list_parts : Provider → MultipartUpload → ℕ → List (ℕ × ℕ)
unfolding find_upload parts_behind
list_parts p u cursor = elim (find_upload u p.uploads) [
  | none ↦ []
  | some s ↦ parts_behind cursor s.parts
]
