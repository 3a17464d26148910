-- ===== src/Cache/Publisher.antt =====
-- cache/publisher.py: a publisher over an AsyncMemoryCache, which writes whole batches atomically.
-- Copies of payloads run with the cache free: what other tasks do to it between the read and the
-- write of a publication is the argument `meanwhile`, and during the write `others`. The striped
-- locks only keep publications of one key apart. Metrics and events are left out.
pub mod Precedence
pub mod Agreement
pub mod Causes
pub mod Chosen
pub mod Kept
pub mod Existing
pub mod Prepared
pub mod Results
pub mod Answers
pub mod Valid
pub mod Rejected
use coalestra.Prelude.{
  ℕ, ℤ, pos, String, Bool, true, false, Option, none, some, List, [], ◌∷◌, map, ltb, ltb_ℤ, leb_ℤ,
  eqb_ℤ, monus, not, ◌&&◌, ◌||◌, if◌then◌else◌,
}
use coalestra.Dict.{lookup, put, unique}
use coalestra.Core.Errors.{
  value_error, key_error, runtime_error, source_protocol_error, Error, Result, ok, raise, reject_if,
  each, ◌>>=◌, ◌>>◌,
}
use coalestra.Core.Keys.{ResourceKey, ResourceKey-discrete}
use coalestra.Core.Numbers.{Number, finite, unlimited, exceeds}
use coalestra.Core.Models.{
  FreshnessPolicy, blocking, SnapshotValue, CacheWriteStatus, CacheWriteResult, CacheLookup,
}
use coalestra.Core.Authority.{AuthorityPolicyResolver, stripped, rank_for, has_rules}
use coalestra.Core.Quality.{ObservationPolicy, require_finite_timestamp}
use coalestra.Cache.State.{Cache, Copier, copy, copy_metadata, clone_snapshot_value}
use coalestra.Cache.Reads.{get_many}
use coalestra.Cache.Commit.{Attempt, set_many_if_newer}
use coalestra.Cache.Removal.{invalidate_many as invalidate_cached}
use coalestra.Cache.Update.{
  PublishResult, ResourceUpdate, Selection, all_values_policy, choose, no_updates, observed_or,
  publish_status, resource_update, update_keys, validate_observed_at, value_of,
}

-- what a publisher is built with, and the copies of its cache, `cache_isolator`: `with_published` is
-- the metadata of an update with its marks, where the clock skew is given if there is one, and
-- `version` is the new version of a value
pub record Publisher (A : Type 0) : Type 0 where
  pub strip : String → String
  pub isolator : Copier A
  pub cache_isolator : Copier A
  pub observation_policy : ObservationPolicy
  pub authority : AuthorityPolicyResolver
  pub resolve : ResourceKey → Result FreshnessPolicy
  pub with_published : A → Option ℕ → A
  pub version : ResourceKey → String

abbrev number : Option ℤ → Option Number
number none = none
number (some t) = some (finite t)

module _ {A : Type 0} (p : Publisher A) where
  -- `_prepare_update_for_submission`: an update with copies of its payloads
  unfoldable pub prepare_update_for_submission : ResourceUpdate A → Result (ResourceUpdate A)
  prepare_update_for_submission update = do
    value ← copy p.isolator update.value
    metadata ← copy_metadata p.isolator update.metadata
    resource_update p.strip update.key value update.source (number update.observed_at) metadata

  -- the first loop of `publish_many`
  unfoldable pub select_updates : ℤ → Selection A → List (ResourceUpdate A) → Result (Selection A)
  unfolding choose validate_observed_at
  select_updates now s [] = ok s
  select_updates now s (update ∷ rest) = do
    validate_observed_at p.observation_policy (observed_or now update.observed_at) now
    rank ← rank_for p.strip p.authority update.key update.source
    select_updates now (choose now update rank s) rest

  skew : ℕ → Option ℕ
  skew future = if ltb 0 future then some future else none

  unfoldable pub prepare_candidate :
      ℤ → ResourceKey × ResourceUpdate A → Result (ResourceKey × SnapshotValue A)
  unfolding skew
  prepare_candidate now (key, update) =
      let observed_at = observed_or now update.observed_at in
      do
        policy ← p.resolve key
        value ← copy p.isolator update.value
        rank ← rank_for p.strip p.authority key update.source
        metadata ←
            copy_metadata p.isolator
              (p.with_published update.metadata (skew (monus observed_at now)))
        ok (
          key,
          record {
            key = key;
            value = value;
            source = update.source;
            observed_at = observed_at;
            fetched_at = now;
            age_seconds = monus now observed_at;
            stale = exceeds (monus now observed_at) policy.ttl_seconds;
            from_cache = false;
            latency_ms = 0;
            attempts = 0;
            metadata = metadata;
            authority_rank = rank;
            version = p.version key;
            dependency_versions = [];
          },
        )

  unfoldable pub copy_found : Option (SnapshotValue A) → Result (Option (SnapshotValue A))
  copy_found none = ok none
  copy_found (some v) = do v' ← clone_snapshot_value p.isolator v; ok (some v')

  unfoldable pub copy_existing :
      ResourceKey × CacheLookup A → Result (ResourceKey × Option (SnapshotValue A))
  unfolding copy_found
  copy_existing (key, found) = do value ← copy_found found.value; ok (key, value)

  abbrev with_policy : ResourceKey → ResourceKey × FreshnessPolicy
  with_policy key = (key, all_values_policy)

  -- `_get_existing`: the read counts in the cache, and its values are copied
  unfoldable pub get_existing :
      Cache A
      → List ResourceKey
      → ℤ
      → Cache A × Result (List (ResourceKey × Option (SnapshotValue A)))
  unfolding copy_existing
  get_existing c keys now =
      let (c', found) = get_many p.cache_isolator c keys now (map with_policy keys) in
      (c', found >>= each copy_existing)

  -- `_publish_result_from_cache`
  unfoldable pub publish_result_from_cache : CacheWriteResult A → Result (PublishResult A)
  unfolding copy_found publish_status
  publish_result_from_cache r = do
    value ← clone_snapshot_value p.isolator r.value
    previous ← copy_found r.previous
    ok (record { status = publish_status r.status; value = value; previous = previous })

  -- the result of one of the unique keys; a missing one is the RuntimeError
  unfoldable pub result_for :
      List (ResourceKey × CacheWriteResult A)
      → ResourceKey × ResourceUpdate A
      → Result (ResourceKey × CacheWriteResult A)
  result_for results (key, update) = elim (lookup ResourceKey-discrete key results) [
    | none ↦ raise runtime_error
    | some r ↦ ok (key, r)
  ]

  unfoldable pub copy_result :
      ResourceKey × CacheWriteResult A → Result (ResourceKey × PublishResult A)
  unfolding publish_result_from_cache
  copy_result (key, r) = do result ← publish_result_from_cache r; ok (key, result)

  -- what a publication answers: the cache, and the results or the exception
  abbrev pub Publication : Type 0
  Publication = Option (Cache A × Result (List (ResourceKey × PublishResult A)))

  -- from the atomic write on
  unfoldable pub results_from : List (ResourceKey × ResourceUpdate A) → Attempt A → Publication
  unfolding result_for copy_result
  results_from updates none = none
  results_from updates (some (c, answer)) =
      some
        (c, do results ← answer; found ← each (result_for results) updates; each copy_result found)

  -- the candidates, and their copies for the cache
  unfoldable pub candidates_for :
      ℤ → List (ResourceKey × ResourceUpdate A) → Result (List (SnapshotValue A))
  unfolding prepare_candidate
  candidates_for now updates = do
    items ← each (prepare_candidate now) updates
    each (clone_snapshot_value p.isolator) (map value_of items)

  module _ (meanwhile : Cache A → Cache A) (others : ℕ → Cache A → Cache A)
      (force replace_equal : Bool) where
    -- `_set_many_if_newer` and what follows it
    unfoldable pub write_isolated :
        List (ResourceKey × ResourceUpdate A)
        → Cache A
        → Result (List (SnapshotValue A))
        → Publication
    unfolding results_from
    write_isolated updates c (raise e) = some (c, raise e)
    write_isolated updates c (ok isolated) =
        results_from updates
          (set_many_if_newer p.cache_isolator force replace_equal others c isolated)

    unfoldable pub publish_existing :
        ℤ
        → List (ResourceKey × ResourceUpdate A)
        → Cache A × Result (List (ResourceKey × Option (SnapshotValue A)))
        → Publication
    unfolding write_isolated candidates_for
    publish_existing now updates (c, raise e) = some (c, raise e)
    publish_existing now updates (c, ok previous) =
        write_isolated updates (meanwhile c) (candidates_for now updates)

    unfoldable pub publish_selected :
        Cache A → ℤ → List ResourceKey → Result (Selection A) → Publication
    unfolding get_existing publish_existing
    publish_selected c now keys (raise e) = some (c, raise e)
    publish_selected c now keys (ok s) =
        publish_existing now s.unique_updates (get_existing c keys now)

    unfoldable pub publish_many : Cache A → ℤ → List (ResourceUpdate A) → Publication
    unfolding publish_selected select_updates no_updates
    publish_many c now [] = some (c, ok [])
    publish_many c now (update ∷ rest) =
        publish_selected c now (unique ResourceKey-discrete (update_keys (update ∷ rest)))
          (select_updates now no_updates (update ∷ rest))

    update_result :
        ResourceKey
        → Cache A × Result (List (ResourceKey × PublishResult A))
        → Cache A × Result (PublishResult A)
    update_result key (c, answer) = (
      c,
      do
        results ← answer
        elim (lookup ResourceKey-discrete key results) [ none ↦ raise key_error | some r ↦ ok r ],
    )

    unfoldable pub publish_update :
        Cache A → ℤ → ResourceUpdate A → Option (Cache A × Result (PublishResult A))
    unfolding publish_many update_result
    publish_update c now update = elim (publish_many c now (update ∷ [])) [
      | none ↦ none
      | some done ↦ some (update_result update.key done)
    ]

  -- `invalidate_many`
  unfoldable pub invalidate_many : Cache A → List ResourceKey → Cache A
  invalidate_many c keys = invalidate_cached c (unique ResourceKey-discrete keys)
