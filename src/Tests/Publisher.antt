-- ===== src/Tests/Publisher.antt =====
-- The publisher: two updates of one key, over a cache that holds an older value.
use coalestra.Prelude.{ℕ, pos, ◌≡◌, refl, true, false, none, some, [], ◌∷◌, String-discrete}
use coalestra.Dict.{lookup, pop, put, to_end, unique, contains, without}
use coalestra.Core.Errors.{ok, raise, each, source_protocol_error}
use coalestra.Core.Keys.{ResourceKey-discrete}
use coalestra.Core.Models.{SnapshotValue}
use coalestra.Core.Authority.{rank_for, rank_or}
use coalestra.Cache.State.{Cache, clone_snapshot_value}
use coalestra.Cache.Dependencies.{dependencies_current}
use coalestra.Cache.Reads.{get_many, read_one}
use coalestra.Cache.Writes.{select_candidates, missing_from, judge, enforce_limit, write_status}
use coalestra.Cache.Commit.{set_many_if_newer, clone_result, prepare, commit_all}
use coalestra.Cache.Invariant.{IsValid}
use coalestra.Cache.Update.{ResourceUpdate, observed_or, no_updates, provisional, publish_status}
use coalestra.Cache.Publisher.{Publisher, select_updates, publish_many}
use coalestra.Cache.Publisher.Agreement.{current, provisional_lem}
use coalestra.Cache.Publisher.Precedence.{candidate_list, select_updates-select_candidates}
use coalestra.Cache.Publisher.Valid.{LeavesValid, publish_many-LeavesValid}
use coalestra.Cache.Publisher.Rejected.{publish_many-rejected}
use coalestra.Tests.Cache.{account, prices, market, minute}

program : Unit {0}
unfolding set_many_if_newer missing_from judge prepare commit_all enforce_limit clone_result each
    clone_snapshot_value lookup pop put to_end unique contains without ResourceKey-discrete
    String-discrete read_one get_many dependencies_current publish_many select_updates no_updates
    rank_for
program = tt

-- the stream ranks above other sources, and one tick of skew is tolerated
abbrev publisher : Publisher ℕ
publisher = record {
  strip = λ name. name;
  isolator = record { copier = some; as_mapping = some };
  cache_isolator = record { copier = some; as_mapping = some };
  observation_policy = record { future_tolerance_seconds = 1; reject_future_observations = true };
  authority = record {
    default_policy = record { source_ranks = ("stream", pos 2) ∷ []; default_rank = pos 1 };
    overrides = [];
    dynamic = none;
  };
  resolve = λ key. ok minute;
  with_published = λ metadata skew. metadata;
  version = λ key. "v9";
}

abbrev polled : ResourceUpdate ℕ
polled = record {
  key = account;
  value = 80;
  source = "poll";
  observed_at = some (pos 110);
  metadata = 0;
}

abbrev streamed : ResourceUpdate ℕ
streamed = record polled { source = "stream"; observed_at = some (pos 105) }

abbrev early : ResourceUpdate ℕ
early = record polled { observed_at = some (pos 120) }

abbrev other : ResourceUpdate ℕ
other = record polled { key = prices; observed_at = none }

abbrev cache : Cache ℕ
cache = record {
  max_entries = none;
  entries = [];
  hits = 0;
  misses = 0;
  fresh_hits = 0;
  stale_hits = 0;
  sets = 0;
  invalidations = 0;
  evictions = 0;
  expirations = 0;
}

cache-IsValid : IsValid cache
unfolding lookup
cache-IsValid = record { distinct = tt; keyed = λ k v h. cc h; bounded = tt; counted = refl }

abbrev keep : Cache ℕ → Cache ℕ
keep c = c

abbrev keep_each : ℕ → Cache ℕ → Cache ℕ
keep_each n c = c

abbrev candidate : ResourceUpdate ℕ → SnapshotValue ℕ
candidate u = record market {
  key = u.key;
  value = u.value;
  source = u.source;
  observed_at = observed_or (pos 111) u.observed_at;
  authority_rank = rank_or (pos 1) (lookup String-discrete u.source (("stream", pos 2) ∷ []));
}

-- the stream's older value wins over the polled one
select_updates-select_candidates_example :
    select_candidates
      (candidate_list publisher (pos 111) candidate (streamed ∷ polled ∷ other ∷ []))
    ≡ (account, candidate streamed) ∷ (prices, candidate other) ∷ []
unfolding program
select_updates-select_candidates_example =
    select_updates-select_candidates publisher (pos 111) candidate (streamed ∷ polled ∷ other ∷ [])
      (record {
        unique_updates = (account, streamed) ∷ (prices, other) ∷ [];
        effective_precedence = (account, (pos 2, pos 105)) ∷ (prices, (pos 1, pos 111)) ∷ [];
      })
      ((refl, refl, refl), ((refl, refl, refl), ((refl, refl, refl), tt))) refl

provisional_lem_example :
    let result = provisional (some market) (record market { observed_at = pos 90 }) false false in
    (result.status
      ≡ publish_status
          (write_status (some market) (record market { observed_at = pos 90 }) false false))
    × (result.value ≡ current result.status (record market { observed_at = pos 90 }) (some market))
    × (result.previous ≡ some market)
provisional_lem_example =
    provisional_lem (some market) (record market { observed_at = pos 90 }) false false

publish_many-LeavesValid_example :
    LeavesValid publisher keep keep_each false false
      (λ x v. v)
      (λ n x v. v)
      (publish_many publisher keep keep_each false false cache
        (pos 111)
        (streamed ∷ polled ∷ other ∷ []))
publish_many-LeavesValid_example =
    publish_many-LeavesValid publisher keep keep_each false false (λ x v. v) (λ n x v. v) cache
      (pos 111) (streamed ∷ polled ∷ other ∷ []) cache-IsValid

publish_many-rejected_example :
    publish_many publisher keep keep_each false false cache (pos 111) (streamed ∷ early ∷ [])
    ≡ some (cache, raise source_protocol_error)
unfolding program
publish_many-rejected_example =
    publish_many-rejected publisher (pos 111) keep keep_each false false cache
      (streamed ∷ early ∷ []) ((pos 2, refl), ((pos 1, refl), tt)) refl
