-- ===== src/Tests/Cache.antt =====
-- The cache: a limit of two entries, one derived value, and writes that compete for one key.
use coalestra.Prelude.{
  ℕ, pos, ◌+◌, ◌≡◌, ◌≢◌, ◌↔◌, refl, true, false, none, some, List, [], ◌∷◌, arith, String-discrete,
  length, All,
}
use coalestra.Dict.{lookup, pop, put, to_end, unique, contains, without, IsDict}
use coalestra.Core.Errors.{ok, raise, each, payload_isolation_error}
use coalestra.Core.Keys.{ResourceKey, ResourceKey-discrete}
use coalestra.Core.Numbers.{seconds}
use coalestra.Core.Models.{
  SnapshotValue, FreshnessPolicy, blocking, stored, ignored_older, CacheWriteResult,
}
use coalestra.Cache.State.{Cache, Copier, init, clone_snapshot_value}
use coalestra.Cache.Dependencies.{dependencies_current}
use coalestra.Cache.Dependencies.Spec.{IsKeyed, Current, current, nil, cons}
use coalestra.Cache.Dependencies.Complete.{dependencies_current_iff}
use coalestra.Cache.Reads.{read_one, get_many}
use coalestra.Cache.Writes.{select_candidates, evict_oldest, missing_from, judge, enforce_limit}
use coalestra.Cache.Writes.Order.{◌≼◌}
use coalestra.Cache.Commit.{set_many_if_newer, clone_result, prepare, commit_all}
use coalestra.Cache.Invariant.{IsValid}
use coalestra.Cache.Invariant.Reads.{get_many-IsValid}
use coalestra.Cache.Invariant.Removal.{prune_lem, invalidate_matching_lem, invalidate_many_lem}
use coalestra.Cache.Removal.{prune, invalidate_matching, invalidate_many, same}
use coalestra.Cache.Served.{read_one-IsServable, IsServable}
use coalestra.Cache.WriteLaws.{set_many_if_newer-IsValid}
use coalestra.Cache.Commit.Total.{set_many_if_newer_total}
use coalestra.Cache.Writes.Select.{Items, IsCovered, select_candidates_lem}
use coalestra.Cache.Monotone.{set_many_if_newer_monotone}

program : Unit {0}
unfolding set_many_if_newer missing_from judge prepare commit_all enforce_limit clone_result prune
    invalidate_matching invalidate_many evict_oldest each clone_snapshot_value lookup pop put to_end
    unique contains without ResourceKey-discrete String-discrete read_one get_many
    dependencies_current init
program = tt

abbrev pub account : ResourceKey
account = record { namespace = "account"; name = "balance"; subject = "A"; qualifiers = [] }

abbrev total : ResourceKey
total = record { namespace = "account"; name = "total"; subject = ""; qualifiers = [] }

abbrev pub prices : ResourceKey
prices = record { namespace = "market"; name = "prices"; subject = ""; qualifiers = [] }

abbrev pub balance : SnapshotValue ℕ
balance = record {
  key = account;
  value = 70;
  source = "rest";
  observed_at = pos 100;
  fetched_at = pos 101;
  age_seconds = 1;
  stale = false;
  from_cache = false;
  latency_ms = 4;
  attempts = 1;
  metadata = 0;
  authority_rank = pos 1;
  version = "v1";
  dependency_versions = [];
}

-- derived from the balance, at its version
abbrev sum : SnapshotValue ℕ
sum = record balance { key = total; version = "v2"; dependency_versions = (account, "v1") ∷ [] }

abbrev pub market : SnapshotValue ℕ
market = record balance { key = prices; version = "v3" }

abbrev pub entries : List (ResourceKey × SnapshotValue ℕ)
entries = (account, balance) ∷ (total, sum) ∷ []

abbrev full : Cache ℕ
full = record {
  max_entries = some 2;
  entries = entries;
  hits = 0;
  misses = 0;
  fresh_hits = 0;
  stale_hits = 0;
  sets = 2;
  invalidations = 0;
  evictions = 0;
  expirations = 0;
}

entries-IsKeyed : IsKeyed entries
unfolding lookup
entries-IsKeyed k v h = ground arith

full-IsValid : IsValid full
unfolding program
full-IsValid = record {
  distinct = (refl, (refl, tt));
  keyed = entries-IsKeyed;
  bounded = omega arith;
  counted = refl;
}

abbrev pub minute : FreshnessPolicy
minute = record {
  ttl_seconds = seconds 10;
  max_stale_seconds = seconds 60;
  allow_stale_on_error = true;
  refresh_mode = blocking;
  refresh_ahead_seconds = 0;
}

abbrev copying : Copier ℕ
copying = record { copier = some; as_mapping = some }

sum-Current : Current entries sum
unfolding program
sum-Current = current (cons balance refl refl (current nil) nil)

dependencies_current_iff_example :
    (dependencies_current entries sum ≢ none)
    × ((dependencies_current entries sum ≡ some true) ↔ Current entries sum)
unfolding program
dependencies_current_iff_example = dependencies_current_iff entries entries-IsKeyed sum refl

-- a newer balance of the same authority is stored, and makes the derived total stale
abbrev newer : SnapshotValue ℕ
newer = record balance { value = 75; observed_at = pos 105; version = "v4" }

abbrev updated : Cache ℕ
updated = record full { entries = (total, sum) ∷ (account, newer) ∷ []; sets = 3 }

abbrev report : List (ResourceKey × CacheWriteResult ℕ)
report = (account, record { status = stored; value = newer; previous = some balance }) ∷ []

written :
    set_many_if_newer copying false false (λ _ c. c) full (newer ∷ []) ≡ some (updated, ok report)
unfolding program
written = refl

set_many_if_newer_monotone_example : balance ≼ newer
unfolding program
set_many_if_newer_monotone_example =
    set_many_if_newer_monotone copying false full (newer ∷ []) account balance newer full-IsValid
      written refl refl

-- a third key pushes out the entry that was used longest ago
abbrev evicted : Cache ℕ
evicted = record full { entries = (total, sum) ∷ (prices, market) ∷ []; sets = 3; evictions = 1 }

-- while the first candidate is copied, another task stores the newer balance
abbrev meanwhile : ℕ → Cache ℕ → Cache ℕ
meanwhile _ c = updated

overtaken :
    set_many_if_newer copying false false meanwhile full
      (record balance { observed_at = pos 103 } ∷ [])
    ≡ some (
      updated,
      ok ((account, record { status = ignored_older; value = newer; previous = some newer }) ∷ []),
    )
unfolding program
overtaken = refl

updated-IsValid : IsValid updated
updated-IsValid =
    set_many_if_newer-IsValid copying false false (λ _ c. c) full (newer ∷ []) (λ _ _ v. v)
      full-IsValid written

set_many_if_newer-IsValid_example : IsValid updated
set_many_if_newer-IsValid_example =
    set_many_if_newer-IsValid copying false false meanwhile full
      (record balance { observed_at = pos 103 } ∷ []) (λ _ _ _. updated-IsValid) full-IsValid
      overtaken

-- A copier that always fails: nothing is written, and the exception is the isolation error.
failing_copy :
    set_many_if_newer
      (record copying { copier = λ _. none })
      false
      false
      (λ _ c. c)
      full
      (market ∷ [])
    ≡ some (full, raise payload_isolation_error)
unfolding program
failing_copy = refl

eviction :
    set_many_if_newer copying false false (λ _ c. c) full (market ∷ [])
    ≡ some
        (evicted, ok ((prices, record { status = stored; value = market; previous = none }) ∷ []))
unfolding program
eviction = refl

set_many_if_newer_total_example :
    set_many_if_newer copying false false meanwhile full (market ∷ newer ∷ []) ≢ none
set_many_if_newer_total_example =
    set_many_if_newer_total copying false false meanwhile full (market ∷ newer ∷ [])

select_candidates_lem_example :
    IsDict ResourceKey-discrete (select_candidates (newer ∷ balance ∷ []))
    × Items (λ k v. (v.key ≡ k) × (v.source ≡ "rest")) (select_candidates (newer ∷ balance ∷ []))
    × All (IsCovered (select_candidates (newer ∷ balance ∷ []))) (newer ∷ balance ∷ [])
select_candidates_lem_example =
    select_candidates_lem (λ v. v.source ≡ "rest") (newer ∷ balance ∷ []) (refl, (refl, tt))

read_one-IsServable_example :
    ((read_one full (pos 130) minute total).1.value ≡ some sum)
    ↔ IsServable full (pos 130) minute total sum
read_one-IsServable_example = read_one-IsServable full (pos 130) minute total full-IsValid sum

-- after the update the total is derived from a balance that is gone, so it is not served
total_not_served : (read_one updated (pos 130) minute total).1.value ≡ none
unfolding program
total_not_served = refl

get_many-IsValid_example :
    IsValid (get_many copying full (total ∷ prices ∷ []) (pos 130) ((total, minute) ∷ [])).0
get_many-IsValid_example =
    get_many-IsValid copying full (total ∷ prices ∷ []) (pos 130) ((total, minute) ∷ [])
      full-IsValid

prune_lem_example :
    let (c', removed) = prune full (pos 161) (λ _. minute) in
    IsValid c'
    × (lookup ResourceKey-discrete account c'.entries ≡ none)
    × (contains ResourceKey-discrete account removed ≡ true)
unfolding program
prune_lem_example = prune_lem full (pos 161) (λ _. minute) account full-IsValid

invalidate_matching_lem_example :
    let (c', removed) = invalidate_matching full (λ k. same k.namespace "account") in
    IsValid c'
    × (lookup ResourceKey-discrete total c'.entries ≡ none)
    × (contains ResourceKey-discrete total removed ≡ true)
unfolding program
invalidate_matching_lem_example =
    invalidate_matching_lem full (λ k. same k.namespace "account") total full-IsValid

invalidate_many_lem_example :
    let c' = invalidate_many full (account ∷ account ∷ []) in
    IsValid c'
    × (lookup ResourceKey-discrete account c'.entries ≡ none)
    × (length c'.entries + c'.invalidations ≡ 2)
unfolding program
invalidate_many_lem_example = invalidate_many_lem full (account ∷ account ∷ []) account full-IsValid
