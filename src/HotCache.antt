-- ===== src/HotCache.antt =====
-- The L1 hot cache's shared types and the eviction policy (pkg/hotcache/hotcache.go). Times are
-- nanoseconds, with 0 for the zero `time.Time`; `float64` is a parameter.
pub mod Memory
use kdrive.Common.{
  ℕ, String, Bool, true, false, ◌&&◌, ◌||◌, not, str_eq, ℤ, pos, ltℤ, Result, ok, err, ◌>>=◌, ◌>>◌,
  reject, if◌then◌else◌, ◌==◌, ◌%◌, ◌+◌,
}

pub data CacheError : Type 0 where
  miss blob_id_required reader_required exceeds_capacity buffer_blob : CacheError
  kind_required unknown_kind max_bytes_negative hot_region_fraction ttl_negative : CacheError
  hot_pin_fields : CacheError

-- A `uint64` counter wraps.
abbrev pub u64 : ℕ → ℕ
u64 n = n % 18446744073709551616

-- The operations of `float64` that the program uses.
pub record Float64 (F : Type 0) : Type 0 where
  pub lt : F → F → Bool
  pub le : F → F → Bool
  pub eq : F → F → Bool
  pub mul : F → F → F
  pub of_int64 : ℤ → F
  pub to_int64 : F → ℤ
  -- decimal literals: the digits, and how many of them follow the point
  pub literal : ℕ → ℕ → F

pub record PutOptions : Type 0 where
  pub size_bytes : ℤ
  pub hash : String
  pub ttl : ℤ
  pub pin_hot : Bool
  pub non_evictable : Bool

pub record Metadata : Type 0 where
  pub blob_id : String
  pub size_bytes : ℕ
  pub hash : String
  pub stored_at : ℕ
  pub last_access : ℕ
  pub hit_count : ℕ
  pub pinned : Bool
  pub non_evictable : Bool

pub record Stats : Type 0 where
  pub entries : ℕ
  pub bytes_used : ℕ
  pub bytes_limit : ℤ
  pub hits : ℕ
  pub misses : ℕ
  pub evictions : ℕ

abbrev pub eviction_lru : String
eviction_lru = "lru"

abbrev pub eviction_lru_hot_pin : String
eviction_lru_hot_pin = "lru_hot_pin"

pub record EvictionPolicy (F : Type 0) : Type 0 where
  pub kind : String
  pub max_bytes : ℤ
  pub hot_region_fraction : F
  pub hot_demotion_hit_count : ℕ
  pub ttl : ℤ

validate_kind : String → Result CacheError (Unit {0})
validate_kind kind =
    if str_eq kind eviction_lru || str_eq kind eviction_lru_hot_pin
    then ok tt
    else if str_eq kind ""
    then err kind_required
    else err unknown_kind

module _ {F : Type 0} ⦃fl : Float64 F⦄ where
  unfoldable pub default_eviction_policy : ℤ → EvictionPolicy F
  default_eviction_policy max_bytes = record {
    kind = eviction_lru_hot_pin;
    max_bytes = max_bytes;
    hot_region_fraction = fl.literal 1 1;
    hot_demotion_hit_count = 1;
    ttl = pos 0;
  }

  unfoldable pub validate : EvictionPolicy F → Result CacheError (Unit {0})
  unfolding validate_kind
  validate e = do
    validate_kind e.kind
    reject (ltℤ e.max_bytes (pos 0)) max_bytes_negative
    reject
        (fl.lt e.hot_region_fraction (fl.literal 0 0)
          || fl.le (fl.literal 1 0) e.hot_region_fraction)
        hot_region_fraction
    reject (ltℤ e.ttl (pos 0)) ttl_negative
    reject
        (str_eq e.kind eviction_lru
          && (not (fl.eq e.hot_region_fraction (fl.literal 0 0))
              || not (e.hot_demotion_hit_count == 0)))
        hot_pin_fields
