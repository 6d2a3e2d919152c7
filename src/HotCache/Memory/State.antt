-- ===== src/HotCache/Memory/State.antt =====
-- The state of `MemoryCache`, its lists, and the two eviction loops.
use kdrive.Common.{
  ℕ, zero, suc, ◌+◌, ◌-◌, String, Bool, true, false, ◌&&◌, List, [], ◌∷◌, Option, none, some, ltb,
  ◌==◌, if◌then◌else◌, ℤ, pos, ltℤ, length, take, Result, ok, err, ◌||◌, Reader,
}
use kdrive.Common.Dict.{delete}
use kdrive.HotCache.{CacheError, buffer_blob, u64, Stats, EvictionPolicy}
use mathlib.Core.List.{reverse}

pub record MemEntry : Type 0 where
  pub blob_id : String
  pub body : List ℕ
  pub hash : String
  pub stored_at : ℕ
  pub last_access : ℕ
  pub hits : ℕ
  pub pinned : Bool
  pub non_evictable : Bool
  pub expires_at : ℕ

pub record MemoryCache (F : Type 0) : Type 0 where
  pub policy : EvictionPolicy F
  pub hot : List ℕ
  pub main : List ℕ
  -- what each address points to, and the first address not yet allocated
  pub value : ℕ → MemEntry
  pub next : ℕ
  pub index : List (String × ℕ)
  pub bytes_used : ℕ
  pub hot_limit : ℤ
  pub hot_bytes : ℕ
  pub stats : Stats

-- `container/list`: an element that is not of the list is left alone.
unfoldable pub has : ℕ → List ℕ → Bool
has a [] = false
has a (b ∷ l) = b == a || has a l

unfoldable pub erase : ℕ → List ℕ → List ℕ
erase a [] = []
erase a (b ∷ l) = if b == a then l else b ∷ erase a l

unfoldable pub move_to_front : ℕ → List ℕ → List ℕ
unfolding has erase
move_to_front a l = if has a l then a ∷ erase a l else l

unfoldable pub update : (ℕ → MemEntry) → ℕ → MemEntry → ℕ → MemEntry
update f a v b = if b == a then v else f b

-- `io.ReadAll(io.LimitReader(r, n))`: a failure behind the first `n` bytes is not met.
unfoldable pub read_limited : ℕ → Reader → Result CacheError (List ℕ)
read_limited n r =
    if r.fails && ltb (length r.bytes) n then err buffer_blob else ok (take n r.bytes)

unfoldable pub read_all : Reader → Result CacheError (List ℕ)
read_all r = if r.fails then err buffer_blob else ok r.bytes

-- `bytes > MaxBytes`, where `MaxBytes` is an `int64`.
abbrev pub over : ℤ → ℕ → Bool
over limit n = ltℤ limit (pos n)

-- The first evictable element on the walk by `Prev` that starts at the list's back.
unfoldable pub walk_back : (ℕ → MemEntry) → List ℕ → Option ℕ
walk_back value [] = none
walk_back value (a ∷ l) = if (value a).non_evictable then walk_back value l else some a

module _ {F : Type 0} where
  unfoldable pub remove_locked : MemoryCache F → ℕ → MemoryCache F
  unfolding erase
  remove_locked c el =
      let entry = c.value el in
      let size = length entry.body in
      let index = delete entry.blob_id c.index in
      record c {
        hot = if entry.pinned then erase el c.hot else c.hot;
        main = if entry.pinned then c.main else erase el c.main;
        index = index;
        bytes_used = c.bytes_used - size;
        hot_bytes = if entry.pinned then c.hot_bytes - size else c.hot_bytes;
        stats = record (c.stats) {
          entries = length index;
          bytes_used = c.bytes_used - size;
          evictions = u64 (c.stats.evictions + 1);
        };
      }

  -- The element that a round of `evictMainLocked` removes.
  unfoldable pub main_victim : MemoryCache F → Option ℕ
  unfolding walk_back
  main_victim c = elim (c.main) [
    | [] ↦ walk_back c.value (reverse c.hot)
    | a ∷ l ↦ walk_back c.value (reverse (a ∷ l))
  ]

  unfoldable pub evict_main_loop : ℕ → MemoryCache F → ℕ → MemoryCache F
  evict_main_loop zero c incoming = c
  evict_main_loop (suc fuel) c incoming = elim (over c.policy.max_bytes (c.bytes_used + incoming)) [
    | false ↦ c
    | true ↦ elim (main_victim c) [
      | none ↦ c
      | some el ↦ evict_main_loop fuel (remove_locked c el) incoming
    ]
  ]

  unfoldable pub evict_main_locked : MemoryCache F → ℕ → MemoryCache F
  unfolding evict_main_loop
  evict_main_locked c incoming =
      if ltℤ (pos 0) c.policy.max_bytes
      then evict_main_loop (length c.main + length c.hot) c incoming
      else c

  unfoldable pub evict_hot_loop : ℕ → MemoryCache F → ℕ → MemoryCache F
  evict_hot_loop zero c incoming = c
  evict_hot_loop (suc fuel) c incoming = elim (over c.hot_limit (c.hot_bytes + incoming)) [
    | false ↦ c
    | true ↦ elim (walk_back c.value (reverse c.hot)) [
      | none ↦ c
      | some el ↦ evict_hot_loop fuel (remove_locked c el) incoming
    ]
  ]

  unfoldable pub evict_hot_locked : MemoryCache F → ℕ → MemoryCache F
  unfolding evict_hot_loop
  evict_hot_locked c incoming =
      if ltℤ (pos 0) c.hot_limit then evict_hot_loop (length c.hot) c incoming else c
