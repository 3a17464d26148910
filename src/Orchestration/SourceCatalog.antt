-- ===== src/Orchestration/SourceCatalog.antt =====
-- orchestration/source_catalog.py: the memo of what sources support. Names of sources are unique, so
-- a source is its name; `declared` is whether its answers may be kept, and `behaviour` its `supports`.
pub mod Memo
use coalestra.Prelude.{
  ℕ, zero, suc, ◌+◌, String, String-discrete, Bool, true, false, Option, none, some, List, [], ◌∷◌,
  ltb, length, ◌&&◌, if◌then◌else◌,
}
use coalestra.Dict.{lookup, put, to_end}
use coalestra.Core.Errors.{value_error, Result, ok, raise, reject_if, ◌>>=◌, ◌>>◌}
use coalestra.Core.Keys.{ResourceKey, ResourceKey-discrete}

-- (source.name, key)
pub record CacheKey : Type 0 where
  pub source : String
  pub key : ResourceKey

unfoldable pub CacheKey-discrete : Discrete CacheKey
unfolding String-discrete ResourceKey-discrete
CacheKey-discrete = hlevel (String-discrete, ResourceKey-discrete)

pub record SourceCatalog : Type 0 where
  pub cache_supports : Bool
  pub support_cache_max_entries : Option ℕ
  pub support_cache : List (CacheKey × Bool)

-- the counters of the diagnostics
pub record SupportCounts : Type 0 where
  pub support_cache_hits : ℕ
  pub support_cache_misses : ℕ

abbrev check_max_entries : Option ℕ → Result (Unit {0})
check_max_entries none = ok tt
check_max_entries (some n) = reject_if (ltb n 1) value_error

-- SourceCatalog(...), for the memo
unfoldable pub source_catalog : Bool → Option ℕ → Result SourceCatalog
source_catalog cache_supports max_entries = do
  check_max_entries max_entries
  ok (record {
    cache_supports = cache_supports;
    support_cache_max_entries = max_entries;
    support_cache = [];
  })

unfoldable pub clear_support_cache : SourceCatalog → SourceCatalog
clear_support_cache c = record c { support_cache = [] }

unfoldable pub support_cache_size : SourceCatalog → ℕ
support_cache_size c = length c.support_cache

-- while len(support_cache) > limit: popitem(last=False)
unfoldable pub drop_over : ℕ → List (CacheKey × Bool) → List (CacheKey × Bool)
drop_over limit [] = []
drop_over limit (e ∷ rest) =
    let dropped = drop_over limit rest in
    if ltb limit (length (e ∷ rest)) then dropped else e ∷ rest

unfoldable pub limit_support_cache : Option ℕ → List (CacheKey × Bool) → List (CacheKey × Bool)
unfolding drop_over
limit_support_cache none memo = memo
limit_support_cache (some limit) memo = drop_over limit memo

-- support_cache[cache_key] = supported, and what follows
unfoldable pub remember : SourceCatalog → CacheKey → Bool → SourceCatalog
unfolding limit_support_cache
remember c k supported = record c {
  support_cache =
      limit_support_cache c.support_cache_max_entries
        (to_end CacheKey-discrete k supported (put CacheKey-discrete k supported c.support_cache));
}

abbrev pub Supports : Type 0
Supports = SourceCatalog × SupportCounts × Result Bool

unfoldable pub supports_hit : SourceCatalog → SupportCounts → CacheKey → Bool → Supports
supports_hit c n k supported = (
  record c { support_cache = to_end CacheKey-discrete k supported c.support_cache },
  record n { support_cache_hits = n.support_cache_hits + 1 },
  ok supported,
)

unfoldable pub supports_miss :
    SourceCatalog → SupportCounts → CacheKey → Bool → Result Bool → Supports
unfolding remember
supports_miss c n k cacheable (raise e) =
    (c, record n { support_cache_misses = n.support_cache_misses + 1 }, raise e)
supports_miss c n k cacheable (ok supported) = (
  if cacheable then remember c k supported else c,
  record n { support_cache_misses = n.support_cache_misses + 1 },
  ok supported,
)

-- what the memo has, if it may be asked
unfoldable pub remembered : SourceCatalog → CacheKey → Bool → Option Bool
remembered c k cacheable = if cacheable then lookup CacheKey-discrete k c.support_cache else none

unfoldable pub supports_from :
    SourceCatalog → SupportCounts → CacheKey → Bool → Result Bool → Option Bool → Supports
unfolding supports_hit supports_miss
supports_from c n k cacheable answer (some supported) = supports_hit c n k supported
supports_from c n k cacheable answer none = supports_miss c n k cacheable answer

module _ (behaviour : CacheKey → Result Bool) where
  unfoldable pub supports : SourceCatalog → SupportCounts → CacheKey → Bool → Supports
  unfolding supports_from remembered
  supports c n k declared =
      let cacheable = c.cache_supports && declared in
      supports_from c n k cacheable (behaviour k) (remembered c k cacheable)
