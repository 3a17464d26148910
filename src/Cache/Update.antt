-- ===== src/Cache/Update.antt =====
-- cache/publisher.py: updates, which of them is published, and what becomes of it.
use coalestra.Prelude.{
  ℤ, pos, String, Bool, true, Option, none, some, List, [], ◌∷◌, ltb, ltb_ℤ, leb_ℤ, eqb_ℤ, monus,
  not, ◌&&◌, ◌||◌, if◌then◌else◌,
}
use coalestra.Dict.{lookup, put}
use coalestra.Core.Errors.{value_error, source_protocol_error, Result, ok, reject_if, ◌>>=◌, ◌>>◌}
use coalestra.Core.Keys.{ResourceKey, ResourceKey-discrete}
use coalestra.Core.Numbers.{Number, unlimited}
use coalestra.Core.Models.{FreshnessPolicy, blocking, SnapshotValue, CacheWriteStatus}
use coalestra.Core.Authority.{AuthorityPolicyResolver, stripped, has_rules}
use coalestra.Core.Quality.{ObservationPolicy, require_finite_timestamp}

pub data PublishStatus : Type 0 where
  published ignored_lower_authority ignored_older ignored_duplicate : PublishStatus

pub record ResourceUpdate (A : Type 0) : Type 0 where
  pub key : ResourceKey
  pub value : A
  pub source : String
  pub observed_at : Option ℤ
  pub metadata : A

pub record PublishResult (A : Type 0) : Type 0 where
  pub status : PublishStatus
  pub value : SnapshotValue A
  pub previous : Option (SnapshotValue A)

timestamp : Option Number → Result (Option ℤ)
timestamp none = ok none
timestamp (some t) = do observed_at ← require_finite_timestamp t; ok (some observed_at)

-- ResourceUpdate(...) with its `__post_init__`; `strip` is `str.strip`
unfoldable pub resource_update :
    {A : Type 0}
    → (String → String)
    → ResourceKey
    → A
    → String
    → Option Number
    → A
    → Result (ResourceUpdate A)
unfolding timestamp
resource_update strip key value source observed_at metadata = do
  name ← stripped strip source
  observed ← timestamp observed_at
  ok (record {
    key = key;
    value = value;
    source = name;
    observed_at = observed;
    metadata = metadata;
  })

-- ResourcePublisher(...), for its checks: `shares_isolator` says that it is given another's isolator,
-- `sets_threads` that it is told where copies run, and `validates` is what the cache declares
unfoldable pub check_publisher :
    ℤ → ℤ → Bool → Bool → ℤ → Bool → AuthorityPolicyResolver → Result (Unit {0})
check_publisher lock_stripes max_pending shares_isolator sets_threads max_copies validates
      authority =
    do
      reject_if (ltb_ℤ lock_stripes (pos 1)) value_error
      reject_if (ltb_ℤ max_pending (pos 1)) value_error
      reject_if (shares_isolator && (sets_threads || not (eqb_ℤ max_copies (pos 4)))) value_error
      reject_if (has_rules authority && not validates) value_error

abbrev pub all_values_policy : FreshnessPolicy
all_values_policy = record {
  ttl_seconds = unlimited;
  max_stale_seconds = unlimited;
  allow_stale_on_error = true;
  refresh_mode = blocking;
  refresh_ahead_seconds = 0;
}

-- observed_at, or now where there is none
abbrev pub observed_or : ℤ → Option ℤ → ℤ
observed_or now none = now
observed_or now (some t) = t

-- `_validate_observed_at`, for a clock that shows finite times
unfoldable pub validate_observed_at : ObservationPolicy → ℤ → ℤ → Result (Unit {0})
validate_observed_at policy observed_at now =
    reject_if
      (ltb policy.future_tolerance_seconds (monus observed_at now)
        && policy.reject_future_observations)
      source_protocol_error

-- previous is None or (rank, observed_at) >= previous
abbrev pub takes_precedence : Option (ℤ × ℤ) → ℤ → ℤ → Bool
takes_precedence none rank observed_at = true
takes_precedence (some (previous_rank, previous_time)) rank observed_at =
    if eqb_ℤ rank previous_rank then leb_ℤ previous_time observed_at else ltb_ℤ previous_rank rank

-- the two dictionaries of the first loop of `publish_many`
pub record Selection (A : Type 0) : Type 0 where
  pub unique_updates : List (ResourceKey × ResourceUpdate A)
  pub effective_precedence : List (ResourceKey × (ℤ × ℤ))

module _ {A : Type 0} where
  abbrev pub update_keys : List (ResourceUpdate A) → List ResourceKey
  update_keys [] = []
  update_keys (update ∷ rest) = update.key ∷ update_keys rest

  abbrev pub value_of : ResourceKey × SnapshotValue A → SnapshotValue A
  value_of (_, v) = v

  unfoldable pub no_updates : Selection A
  no_updates = record { unique_updates = []; effective_precedence = [] }

  unfoldable pub choose : ℤ → ResourceUpdate A → ℤ → Selection A → Selection A
  choose now update rank s =
      let observed_at = observed_or now update.observed_at in
      if takes_precedence (lookup ResourceKey-discrete update.key s.effective_precedence) rank
        observed_at
      then record {
        unique_updates = put ResourceKey-discrete update.key update s.unique_updates;
        effective_precedence =
            put ResourceKey-discrete update.key (rank, observed_at) s.effective_precedence;
      }
      else s

  -- `_ignored_status`
  unfoldable pub ignored_status :
      Option (SnapshotValue A) → SnapshotValue A → Bool → Bool → Option PublishStatus
  ignored_status none candidate force replace_equal = none
  ignored_status (some previous) candidate force replace_equal =
      if force
      then none
      else if ltb_ℤ candidate.authority_rank previous.authority_rank
      then some PublishStatus.ignored_lower_authority
      else if ltb_ℤ previous.authority_rank candidate.authority_rank
      then none
      else if ltb_ℤ candidate.observed_at previous.observed_at
      then some PublishStatus.ignored_older
      else if eqb_ℤ previous.observed_at candidate.observed_at && not replace_equal
      then some PublishStatus.ignored_duplicate
      else none

  abbrev provisional_from :
      Option (SnapshotValue A) → SnapshotValue A → Option PublishStatus → PublishResult A
  provisional_from (some previous) candidate (some status) = record {
    status = status;
    value = previous;
    previous = some previous;
  }
  provisional_from previous candidate _ = record {
    status = published;
    value = candidate;
    previous = previous;
  }

  -- the provisional result of a candidate, in the loop over the unique keys
  unfoldable pub provisional :
      Option (SnapshotValue A) → SnapshotValue A → Bool → Bool → PublishResult A
  unfolding ignored_status
  provisional previous candidate force replace_equal =
      provisional_from previous candidate (ignored_status previous candidate force replace_equal)

-- statuses[result.status]
unfoldable pub publish_status : CacheWriteStatus → PublishStatus
publish_status CacheWriteStatus.stored = published
publish_status CacheWriteStatus.ignored_lower_authority = PublishStatus.ignored_lower_authority
publish_status CacheWriteStatus.ignored_older = PublishStatus.ignored_older
publish_status CacheWriteStatus.ignored_duplicate = PublishStatus.ignored_duplicate
