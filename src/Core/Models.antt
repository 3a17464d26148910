-- ===== src/Core/Models.antt =====
-- core/models.py: freshness policies, acquired values, and what the cache answers. `A` is Python's
-- `Any`: a payload, or a metadata mapping.
use coalestra.Prelude.{ℕ, ℤ, pos, ◌-◌, String, Bool, false, Option, List, leb, ◌&&◌, ◌||◌, not}
use coalestra.Core.Errors.{value_error, Result, ok, reject_if, ◌>>◌}
use coalestra.Core.Keys.{ResourceKey}
use coalestra.Core.Numbers.{
  Number, finite, is_finite, is_nan, lt_number, Limit, seconds, unlimited, limit, count,
}

pub data RefreshMode : Type 0 where
  blocking stale_while_revalidate refresh_ahead : RefreshMode

pub data CacheWriteStatus : Type 0 where
  stored ignored_lower_authority ignored_older ignored_duplicate : CacheWriteStatus

pub record FreshnessPolicy : Type 0 where
  pub ttl_seconds : Limit
  pub max_stale_seconds : Limit
  pub allow_stale_on_error : Bool
  pub refresh_mode : RefreshMode
  pub refresh_ahead_seconds : ℕ

abbrev pub zero_seconds : Number
zero_seconds = finite (pos 0)

-- the last test of `__post_init__`, on the refresh mode
check_refresh : RefreshMode → Number → Number → Result (Unit {0})
check_refresh refresh_ahead ttl ahead = reject_if (is_finite ttl && lt_number ttl ahead) value_error
check_refresh _ ttl ahead =
    reject_if (lt_number ahead zero_seconds || lt_number zero_seconds ahead) value_error

-- FreshnessPolicy(...) with its `__post_init__`
unfoldable pub freshness_policy :
    Number → Number → Bool → RefreshMode → Number → Result FreshnessPolicy
unfolding check_refresh
freshness_policy ttl max_stale allow_stale mode ahead = do
  reject_if (is_nan ttl) value_error
  reject_if (is_nan max_stale) value_error
  reject_if (not (is_finite ahead)) value_error
  reject_if (lt_number ttl zero_seconds) value_error
  reject_if (lt_number max_stale ttl) value_error
  reject_if (lt_number ahead zero_seconds) value_error
  check_refresh mode ttl ahead
  ok (record {
    ttl_seconds = limit ttl;
    max_stale_seconds = limit max_stale;
    allow_stale_on_error = allow_stale;
    refresh_mode = mode;
    refresh_ahead_seconds = count ahead;
  })

-- age >= max(0.0, ttl - ahead), for a finite ttl
past_threshold : Limit → ℕ → ℕ → Bool
past_threshold unlimited ahead age = false
past_threshold (seconds ttl) ahead age = leb (ttl - ahead) age

refresh_ahead_due : RefreshMode → Limit → ℕ → ℕ → Bool
unfolding past_threshold
refresh_ahead_due refresh_ahead ttl ahead age = past_threshold ttl ahead age
refresh_ahead_due _ ttl ahead age = false

unfoldable pub should_refresh_ahead : FreshnessPolicy → ℕ → Bool
unfolding refresh_ahead_due
should_refresh_ahead p age =
    refresh_ahead_due p.refresh_mode p.ttl_seconds p.refresh_ahead_seconds age

pub record SnapshotValue (A : Type 0) : Type 0 where
  pub key : ResourceKey
  pub value : A
  pub source : String
  pub observed_at : ℤ
  pub fetched_at : ℤ
  pub age_seconds : ℕ
  pub stale : Bool
  pub from_cache : Bool
  pub latency_ms : ℕ
  pub attempts : ℕ
  pub metadata : A
  pub authority_rank : ℤ
  pub version : String
  pub dependency_versions : List (ResourceKey × String)

pub record CacheLookup (A : Type 0) : Type 0 where
  pub value : Option (SnapshotValue A)
  pub fresh : Bool
  pub usable_stale : Bool
  pub age_seconds : Option ℕ

pub record CacheWriteResult (A : Type 0) : Type 0 where
  pub status : CacheWriteStatus
  pub value : SnapshotValue A
  pub previous : Option (SnapshotValue A)
