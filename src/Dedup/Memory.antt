-- ===== src/Dedup/Memory.antt =====
-- The in-memory content store of the dev mode: two maps from content ids.
use kdrive.Common.{
  ◌*◌, String, not, ◌&&◌, if◌then◌else◌, List, [], ◌∷◌, Option, none, some, str_eq, ℤ, pos, ltℤ,
  pos_part, length,
}
use kdrive.Common.Dict.{lookup, insert, delete}
use kdrive.Dedup.State.{ContentChunk, MemContentEntry, MapOrder, Gateway, HashResult}

-- `for k := range m { delete(...); break }`, for the key that comes first.
unfoldable pub drop_key : {D S : Type 0} → Option String → Gateway D S → Gateway D S
drop_key none g = g
drop_key (some k) g = record g {
  mem_content_store = delete k g.mem_content_store;
  mem_content_chunks = delete k g.mem_content_chunks;
}

abbrev pub times_ten : ℤ → ℤ
times_ten m = pos (pos_part m * 10)

module _ ⦃order : MapOrder⦄ where
  unfoldable pub trim_entries : {D S : Type 0} → Gateway D S → Gateway D S
  unfolding drop_key
  trim_entries g =
      if not (ltℤ (pos (length g.mem_content_store)) g.mem_content_store_max)
      then drop_key (order.first_entry g.mem_content_store) g
      else g

  unfoldable pub trim_chunks : {D S : Type 0} → Gateway D S → Gateway D S
  unfolding drop_key
  trim_chunks g =
      if ltℤ (pos 0) g.mem_content_store_max
        && ltℤ (times_ten g.mem_content_store_max) (pos (length g.mem_content_chunks))
      then drop_key (order.first_chunks g.mem_content_chunks) g
      else g

  unfoldable pub put_mem_content :
      {D S : Type 0} → Gateway D S → String → MemContentEntry → List ContentChunk → Gateway D S
  unfolding trim_entries trim_chunks
  put_mem_content g key entry chunks =
      let g' = trim_chunks (trim_entries g) in
      record g' {
        mem_content_store = insert key entry g'.mem_content_store;
        mem_content_chunks = insert key chunks g'.mem_content_chunks;
      }

unfoldable pub get_mem_content : {D S : Type 0} → Gateway D S → String → Option MemContentEntry
get_mem_content g key = lookup key g.mem_content_store

-- The inner loop of `checkChunks`: later chunks overwrite.
unfoldable pub add_hashes : List ContentChunk → List (String × String) → List (String × String)
add_hashes [] known = known
add_hashes (c ∷ cs) known = add_hashes cs (insert c.chunk_content_hash c.blob_key known)

abbrev pub chunks_under : Option (List ContentChunk) → List ContentChunk
chunks_under none = []
chunks_under (some cs) = cs

-- The outer loop of `checkChunks`, over the entries in the map's order.
unfoldable pub known_hashes :
    String
    → List (String × List ContentChunk)
    → List (String × MemContentEntry)
    → List (String × String)
    → List (String × String)
unfolding add_hashes
known_hashes tenant_id chunks [] known = known
known_hashes tenant_id chunks (e ∷ es) known =
    if not (str_eq e.1.tenant_id tenant_id)
    then known_hashes tenant_id chunks es known
    else known_hashes tenant_id chunks es (add_hashes (chunks_under (lookup e.0 chunks)) known)

unfoldable pub answer_hashes : List (String × String) → List String → List HashResult
answer_hashes known [] = []
answer_hashes known (h ∷ hs) =
    record { hash = h; blob_key = lookup h known } ∷ answer_hashes known hs
