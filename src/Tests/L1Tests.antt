-- ===== src/Tests/L1Tests.antt =====
-- The pipeline over the memory cache with room for ten bytes.
use kdrive.Common.{ℕ, true, false, [], ◌≡◌, refl, List, some, ok, length}
use kdrive.Common.Dict.{lookup, ne_of_str_eq}
use kdrive.HotCache.Memory.State.{MemoryCache}
use kdrive.HotCache.Memory.Methods.{new_memory_cache}
use kdrive.Blobio.State.{Pipeline}
use kdrive.Blobio.Methods.{new_pipeline, read}
use kdrive.Blobio.Runs.{run_calls}
use kdrive.Blobio.MemoryL1.{memory_cache}
use kdrive.Blobio.L1Runs.{memory_run-Safe}
use kdrive.Tests.Floats.{thousandths}
use kdrive.Tests.CacheTests.{program, unallocated, policy, empty}
use kdrive.Tests.PipelineTests.{
  pipeline_program, Map, map_store, test_extern, calls, status_a, digest,
}

empty_new : new_memory_cache unallocated policy ≡ ok empty
unfolding program
empty_new = refl

abbrev after_l1 : Pipeline (MemoryCache ℕ) Map
after_l1 = run_calls (new_pipeline empty []) calls

after_l1_a : lookup "a" after_l1.status ≡ some status_a
unfolding program pipeline_program
after_l1_a = refl

memory_run-Safe_example :
    (b : List ℕ) × (digest b ≡ "01")
    × (length b ≡ 3)
    × ((read after_l1 "a" 20).1
        ≡ ok (record {
          body = record { bytes = b; fails = false };
          size = 3;
          checksum_sha256 = "01";
          version_id = "";
          from_cache = true;
        }))
memory_run-Safe_example =
    memory_run-Safe unallocated policy empty [] calls "a" status_a 20 empty_new refl refl after_l1_a
      refl (ne_of_str_eq "a" "" refl)
