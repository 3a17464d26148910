-- ===== src/Cache/Reads.antt =====
-- cache/memory.py: `get` and `get_many`.
pub mod Cases
use coalestra.Prelude.{
  ℕ, ℤ, ◌+◌, Bool, true, false, Option, none, some, List, [], ◌∷◌, monus, not, if◌then◌else◌,
}
use coalestra.Dict.{lookup, pop, to_end, unique}
use coalestra.Core.Errors.{key_error, Result, ok, raise, each, ◌>>=◌}
use coalestra.Core.Keys.{ResourceKey, ResourceKey-discrete}
use coalestra.Core.Numbers.{exceeds}
use coalestra.Core.Models.{FreshnessPolicy, SnapshotValue, CacheLookup}
use coalestra.Cache.State.{Cache, Copier, clone_snapshot_value}
use coalestra.Cache.Dependencies.{dependencies_current}

-- `policies[key]` for each key, or the KeyError for those that have none
unfoldable pub with_policies :
    List (ResourceKey × FreshnessPolicy)
    → List ResourceKey
    → Result (List (ResourceKey × FreshnessPolicy))
with_policies policies [] = ok []
with_policies policies (key ∷ keys) = elim (lookup ResourceKey-discrete key policies) [
  | none ↦ raise key_error
  | some policy ↦ do rest ← with_policies policies keys; ok ((key, policy) ∷ rest)
]

module _ {A : Type 0} where
  abbrev pub no_value : Option ℕ → CacheLookup A
  no_value age = record { value = none; fresh = false; usable_stale = false; age_seconds = age }

  abbrev pub cached : SnapshotValue A → Bool → ℕ → CacheLookup A
  cached value fresh age = record {
    value = some value;
    fresh = fresh;
    usable_stale = true;
    age_seconds = some age;
  }

  -- the entry is dropped, since a dependency changed or is gone
  abbrev pub drop_invalid : Cache A → ResourceKey → Cache A
  drop_invalid c key = record c {
    entries = pop ResourceKey-discrete key c.entries;
    misses = c.misses + 1;
    invalidations = c.invalidations + 1;
  }

  -- the entry is dropped, since it is older than the policy lets it be
  abbrev pub drop_expired : Cache A → ResourceKey → Cache A
  drop_expired c key = record c {
    entries = pop ResourceKey-discrete key c.entries;
    misses = c.misses + 1;
    expirations = c.expirations + 1;
  }

  -- the entry becomes the most recently used
  abbrev pub touch : Cache A → ResourceKey → SnapshotValue A → Bool → Cache A
  touch c key value fresh = record c {
    entries = to_end ResourceKey-discrete key value c.entries;
    hits = c.hits + 1;
    fresh_hits = if fresh then c.fresh_hits + 1 else c.fresh_hits;
    stale_hits = if fresh then c.stale_hits else c.stale_hits + 1;
  }

  read_current :
      Cache A → ResourceKey → SnapshotValue A → ℕ → FreshnessPolicy → Cache A × CacheLookup A
  read_current c key value age policy =
      let fresh = not (exceeds age policy.ttl_seconds) in
      if exceeds age policy.max_stale_seconds
      then (drop_expired c key, no_value (some age))
      else (touch c key value fresh, cached value fresh age)

  -- the body of the loop of `get_many`, for a key that the cache holds
  read_present :
      Cache A
      → ResourceKey
      → SnapshotValue A
      → ℕ
      → FreshnessPolicy
      → Option Bool
      → Cache A × CacheLookup A
  unfolding read_current
  read_present c key value age policy (some true) = read_current c key value age policy
  read_present c key value age policy _ = (drop_invalid c key, no_value (some age))

  -- the body of the loop of `get_many`
  unfoldable pub read_one : Cache A → ℤ → FreshnessPolicy → ResourceKey → Cache A × CacheLookup A
  unfolding read_present
  read_one c now policy key = elim (lookup ResourceKey-discrete key c.entries) [
    | none ↦ (record c { misses = c.misses + 1 }, no_value none)
    | some value ↦
        read_present c key value (monus now value.observed_at) policy
          (dependencies_current c.entries value)
  ]

  -- the loop of `get_many`, under the lock, over keys that each have a policy
  unfoldable pub read_all :
      Cache A
      → ℤ
      → List (ResourceKey × FreshnessPolicy)
      → Cache A × List (ResourceKey × CacheLookup A)
  read_all c now [] = (c, [])
  read_all c now ((key, policy) ∷ rest) =
      let (c', found) = read_one c now policy key in
      let (c'', others) = read_all c' now rest in (c'', (key, found) ∷ others)

  module _ (copier : Copier A) where
    unfoldable pub clone_found : CacheLookup A → Option (SnapshotValue A) → Result (CacheLookup A)
    clone_found found none = ok found
    clone_found found (some v) = do
      v' ← clone_snapshot_value copier v
      ok (record found { value = some v' })

    unfoldable pub clone_lookup : ResourceKey × CacheLookup A → Result (ResourceKey × CacheLookup A)
    unfolding clone_found
    clone_lookup (key, found) = do found' ← clone_found found found.value; ok (key, found')

    unfoldable pub read_policies :
        Cache A
        → ℤ
        → Result (List (ResourceKey × FreshnessPolicy))
        → Cache A × Result (List (ResourceKey × CacheLookup A))
    read_policies c now (raise e) = (c, raise e)
    read_policies c now (ok wanted) =
        let (c', found) = read_all c now wanted in (c', each clone_lookup found)

    -- What was counted, moved or dropped stays so when a copy fails afterwards.
    unfoldable pub get_many :
        Cache A
        → List ResourceKey
        → ℤ
        → List (ResourceKey × FreshnessPolicy)
        → Cache A × Result (List (ResourceKey × CacheLookup A))
    unfolding read_policies
    get_many c keys now policies =
        read_policies c now (with_policies policies (unique ResourceKey-discrete keys))

    found_for : ResourceKey → List (ResourceKey × CacheLookup A) → Result (CacheLookup A)
    found_for key founds = elim (lookup ResourceKey-discrete key founds) [
      | none ↦ raise key_error
      | some found ↦ ok found
    ]

    unfoldable pub get :
        Cache A → ResourceKey → ℤ → FreshnessPolicy → Cache A × Result (CacheLookup A)
    unfolding get_many found_for
    get c key now policy =
        let (c', founds) = get_many c (key ∷ []) now ((key, policy) ∷ []) in
        (c', founds >>= found_for key)
