-- ===== src/Cache/Removal.antt =====
-- cache/memory.py: invalidation, pruning, clearing, and the counters as `stats` reports them.
use coalestra.Prelude.{
  ℕ, ℤ, ◌+◌, String, String-discrete, Bool, true, false, Option, none, some, List, [], ◌∷◌, monus,
  length, ◌&&◌, if◌then◌else◌,
}
use coalestra.Dict.{lookup, pop, unique}
use coalestra.Core.Keys.{ResourceKey, ResourceKey-discrete}
use coalestra.Core.Numbers.{exceeds}
use coalestra.Core.Models.{FreshnessPolicy, SnapshotValue}
use coalestra.Cache.State.{Cache}

abbrev pub same : String → String → Bool
same a b = elim (String-discrete a b) [ yes _ ↦ true | no _ ↦ false ]

abbrev none_or_same : Option String → String → Bool
none_or_same none b = true
none_or_same (some a) b = same b a

module _ {A : Type 0} where
  -- the body of the loop of `invalidate_many`
  unfoldable pub invalidate_one : Cache A → ResourceKey → Cache A
  invalidate_one c key = elim (lookup ResourceKey-discrete key c.entries) [
    | none ↦ c
    | some _ ↦ record c {
      entries = pop ResourceKey-discrete key c.entries;
      invalidations = c.invalidations + 1;
    }
  ]

  unfoldable pub invalidate_all : Cache A → List ResourceKey → Cache A
  unfolding invalidate_one
  invalidate_all c [] = c
  invalidate_all c (key ∷ keys) = invalidate_all (invalidate_one c key) keys

  unfoldable pub invalidate_many : Cache A → List ResourceKey → Cache A
  unfolding invalidate_all
  invalidate_many c keys = invalidate_all c (unique ResourceKey-discrete keys)

  unfoldable pub invalidate : Cache A → ResourceKey → Cache A
  unfolding invalidate_many
  invalidate c key = invalidate_many c (key ∷ [])

  -- the keys of the entries that a test accepts, in order
  unfoldable pub matching :
      (ResourceKey → SnapshotValue A → Bool)
      → List (ResourceKey × SnapshotValue A)
      → List ResourceKey
  matching test [] = []
  matching test ((k, v) ∷ rest) =
      let others = matching test rest in if test k v then k ∷ others else others

  -- for key in keys: self._entries.pop(key, None)
  unfoldable pub pop_all :
      List ResourceKey → List (ResourceKey × SnapshotValue A) → List (ResourceKey × SnapshotValue A)
  pop_all [] entries = entries
  pop_all (k ∷ ks) entries = pop_all ks (pop ResourceKey-discrete k entries)

  unfoldable pub invalidate_matching : Cache A → (ResourceKey → Bool) → Cache A × List ResourceKey
  unfolding matching pop_all
  invalidate_matching c predicate =
      let removed = matching (λ k _. predicate k) c.entries in
      (
        record c {
          entries = pop_all removed c.entries;
          invalidations = c.invalidations + length removed;
        },
        removed,
      )

  unfoldable pub invalidate_namespace :
      Cache A → String → Option String → Option String → Cache A × List ResourceKey
  unfolding invalidate_matching
  invalidate_namespace c namespace name subject = invalidate_matching c λ key.
      same key.namespace namespace
      && (none_or_same name key.name && none_or_same subject key.subject)

  unfoldable pub prune : Cache A → ℤ → (ResourceKey → FreshnessPolicy) → Cache A × List ResourceKey
  unfolding matching pop_all
  prune c now resolve =
      let expired =
        matching (λ k v. exceeds (monus now v.observed_at) (resolve k).max_stale_seconds)
          c.entries in
      (
        record c {
          entries = pop_all expired c.entries;
          expirations = c.expirations + length expired;
        },
        expired,
      )

  unfoldable pub clear : Cache A → Cache A
  clear c = record c { entries = []; invalidations = c.invalidations + length c.entries }

  unfoldable pub size : Cache A → ℕ
  size c = length c.entries

pub record CacheStats : Type 0 where
  pub size : ℕ
  pub max_entries : Option ℕ
  pub hits : ℕ
  pub misses : ℕ
  pub fresh_hits : ℕ
  pub stale_hits : ℕ
  pub sets : ℕ
  pub invalidations : ℕ
  pub evictions : ℕ
  pub expirations : ℕ

unfoldable pub stats : {A : Type 0} → Cache A → CacheStats
unfolding size
stats c = record {
  size = size c;
  max_entries = c.max_entries;
  hits = c.hits;
  misses = c.misses;
  fresh_hits = c.fresh_hits;
  stale_hits = c.stale_hits;
  sets = c.sets;
  invalidations = c.invalidations;
  evictions = c.evictions;
  expirations = c.expirations;
}
