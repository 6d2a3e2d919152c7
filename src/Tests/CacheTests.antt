-- ===== src/Tests/CacheTests.antt =====
-- The memory cache with room for ten bytes; `float64` is thousandths.
use kdrive.Common.{
  ℕ, ◌≡◌, refl, true, false, List, [], ◌∷◌, Option, none, some, String, if◌then◌else◌, str_eq,
  eq_iff, ok, pos, arith, Reader, limit_above,
}
use kdrive.Tests.Floats.{thousandths}
use kdrive.Common.Dict.{lookup, insert, delete}
use kdrive.HotCache.{EvictionPolicy, PutOptions, validate, eviction_lru_hot_pin}
use kdrive.HotCache.Memory.State.{
  MemEntry, MemoryCache, has, erase, move_to_front, update, read_limited, read_all, walk_back,
  remove_locked, main_victim, evict_main_loop, evict_main_locked, evict_hot_loop, evict_hot_locked,
}
use kdrive.HotCache.Memory.Methods.{
  touch, metadata_of, get_found, get_indexed, get, remove_existing, expiry, new_entry, push_entry,
  make_room, put_locked, read_body, put_from, put, evict, with_kind, hot_limit_of, new_memory_cache,
}
use kdrive.HotCache.Memory.Invariant.{IsValid}
use kdrive.HotCache.Memory.Contents.{view, Stored}
use kdrive.HotCache.Memory.Promises.{put-Stored, put_fits, evict-removes}
use kdrive.HotCache.Memory.Runs.{
  Call, get_call, put_call, step, run_calls, run_calls-IsValid, IsSafe, run_calls-protected,
}

unfoldable pub program : Unit {0}
unfolding lookup insert delete has erase move_to_front update limit_above read_limited read_all
    walk_back remove_locked main_victim evict_main_loop evict_main_locked evict_hot_loop
    evict_hot_locked touch metadata_of get_found get_indexed get remove_existing expiry new_entry
    push_entry make_room put_locked read_body put_from put evict with_kind hot_limit_of
    new_memory_cache validate step run_calls
program = tt

abbrev pub unallocated : MemEntry
unallocated = record {
  blob_id = "";
  body = [];
  hash = "";
  stored_at = 0;
  last_access = 0;
  hits = 0;
  pinned = false;
  non_evictable = false;
  expires_at = 0;
}

abbrev pub policy : EvictionPolicy ℕ
policy = record {
  kind = eviction_lru_hot_pin;
  max_bytes = pos 10;
  hot_region_fraction = 100;
  hot_demotion_hit_count = 1;
  ttl = pos 0;
}

abbrev pub empty : MemoryCache ℕ
empty = record {
  policy = policy;
  hot = [];
  main = [];
  value = λ _. unallocated;
  next = 0;
  index = [];
  bytes_used = 0;
  hot_limit = pos 1;
  hot_bytes = 0;
  stats = record {
    entries = 0;
    bytes_used = 0;
    bytes_limit = pos 10;
    hits = 0;
    misses = 0;
    evictions = 0;
  };
}

new_memory_cache-empty : new_memory_cache unallocated policy ≡ ok empty
unfolding program
new_memory_cache-empty = refl

abbrev plain : PutOptions
plain = record {
  size_bytes = pos 0;
  hash = "";
  ttl = pos 0;
  pin_hot = false;
  non_evictable = false;
}

abbrev kept : PutOptions
kept = record plain { non_evictable = true }

abbrev bytes_of : List ℕ → Option Reader
bytes_of l = some (record { bytes = l; fails = false })

abbrev calls : List Call
calls =
    put_call "a" (bytes_of (1 ∷ 2 ∷ 3 ∷ 4 ∷ [])) kept 5
    ∷ put_call "b" (bytes_of (5 ∷ 6 ∷ 7 ∷ 8 ∷ [])) plain 6
    ∷ get_call "a" 7
    ∷ put_call "c" (bytes_of (9 ∷ 9 ∷ 9 ∷ 9 ∷ [])) plain 8
    ∷ []

-- The third blob pushes out the unprotected second one.
calls_main :
    ((run_calls empty calls).index ≡ ("a", 0) ∷ ("c", 2) ∷ [])
    × ((run_calls empty calls).bytes_used ≡ 8)
unfolding program
calls_main = (refl, refl)

run_calls-IsValid_example : IsValid (run_calls empty calls)
run_calls-IsValid_example = run_calls-IsValid unallocated policy empty calls new_memory_cache-empty

abbrev four : Reader
four = record { bytes = 1 ∷ 2 ∷ 3 ∷ 4 ∷ []; fails = false }

empty-IsValid : IsValid empty
unfolding run_calls
empty-IsValid = run_calls-IsValid unallocated policy empty [] new_memory_cache-empty

abbrev one_stored : MemoryCache ℕ
one_stored = put_locked empty "a" (1 ∷ 2 ∷ 3 ∷ 4 ∷ []) kept 5

put_fits_example : put empty "a" (some four) kept 5 ≡ ok one_stored
put_fits_example = put_fits empty "a" four kept 5 refl refl refl (λ h. (refl, refl))

put-Stored_example :
    (body : List ℕ) × (read_body policy four ≡ ok body)
    × Stored empty one_stored "a" (new_entry policy "a" body kept 5)
put-Stored_example = put-Stored empty one_stored "a" four kept 5 empty-IsValid put_fits_example

one_stored-IsValid : IsValid one_stored
one_stored-IsValid =
    (put-Stored empty one_stored "a" four kept 5 empty-IsValid put_fits_example).2.valid

evict-removes_example :
    IsValid (evict one_stored "a")
    × ((j : String)
        → view (evict one_stored "a") j ≡ (if str_eq "a" j then none else view one_stored j))
evict-removes_example = evict-removes one_stored "a" one_stored-IsValid

abbrev stored_a : MemEntry
stored_a = new_entry policy "a" (1 ∷ 2 ∷ 3 ∷ 4 ∷ []) kept 5

abbrev busy : List Call
busy =
    put_call "b" (bytes_of (5 ∷ 6 ∷ 7 ∷ 8 ∷ [])) plain 6
    ∷ get_call "a" 7
    ∷ put_call "c" (bytes_of (9 ∷ 9 ∷ 9 ∷ 9 ∷ [])) plain 8
    ∷ []

run_calls-protected_example :
    (e : MemEntry) × (view (run_calls one_stored busy) "a" ≡ some e) × IsSafe stored_a.body e
unfolding program
run_calls-protected_example =
    run_calls-protected one_stored "a" stored_a busy one_stored-IsValid
      (ground (arith, eq_iff "b" "a"), (tt, (ground (arith, eq_iff "c" "a"), tt))) refl refl refl
