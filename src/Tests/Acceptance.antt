-- ===== src/Tests/Acceptance.antt =====
-- Acceptance and freshness: a balance of rank 1 observed at 100, and a policy that asks for more.
use coalestra.Prelude.{pos, ◌≤◌, ◌≡◌, ◌↔◌, refl, true, false, some, [], ◌∷◌, String-discrete}
use coalestra.Dict.{lookup, unique, contains, without, Distinct}
use coalestra.Core.Errors.{ok}
use coalestra.Core.Keys.{ResourceKey-discrete}
use coalestra.Core.Numbers.{finite, seconds, ◌≤Limit◌}
use coalestra.Core.Models.{refresh_ahead, freshness_policy}
use coalestra.Core.Freshness.{freshness_policy-ok}
use coalestra.Acceptance.{
  ResourceAcceptanceRule, SnapshotRequirement, SnapshotAcceptancePolicy, snapshot_requirement,
  rule_for,
}
use coalestra.Acceptance.Evaluate.{find_snapshot_acceptance_violations, key_violations}
use coalestra.Acceptance.Accepted.{IsAccepted, no_violations_iff}
use coalestra.Acceptance.Requirements.{snapshot_requirement-ok}
use coalestra.Tests.Cache.{account, prices, minute, entries}

program : Unit {0}
unfolding find_snapshot_acceptance_violations key_violations rule_for lookup unique contains without
    ResourceKey-discrete String-discrete snapshot_requirement freshness_policy
program = tt

abbrev rule : ResourceAcceptanceRule
rule = record {
  max_age_seconds = some 30;
  allow_stale = false;
  minimum_authority_rank = some (pos 1);
}

-- one of the balance and the prices
abbrev either : SnapshotRequirement
either = record { keys = account ∷ prices ∷ []; minimum_count = 1; name = "either" }

abbrev policy : SnapshotAcceptancePolicy
policy = record {
  default_rule = rule;
  resource_rules = [];
  requirements = either ∷ [];
  include_optional_resources = false;
}

no_violations_iff_example :
    (find_snapshot_acceptance_violations entries
        (account ∷ [])
        []
        policy
        (finite (pos 105))
        (λ _. minute)
      ≡ ok [])
    ↔ IsAccepted entries (account ∷ []) [] policy (λ _. minute) (pos 105)
no_violations_iff_example =
    no_violations_iff entries (account ∷ []) [] policy (λ _. minute) (pos 105)

-- the evaluation as it runs, at the end of the time to live
in_time :
    find_snapshot_acceptance_violations entries
      (account ∷ [])
      []
      policy
      (finite (pos 110))
      (λ _. minute)
    ≡ ok []
unfolding program
in_time = refl

snapshot_requirement-ok_example :
    Distinct ResourceKey-discrete (account ∷ prices ∷ []) × (1 ≤ 2) × (2 ≤ 2)
unfolding program
snapshot_requirement-ok_example =
    snapshot_requirement-ok (λ s. s) (account ∷ prices ∷ account ∷ []) (pos 2) "both"
      (record { keys = account ∷ prices ∷ []; minimum_count = 2; name = "both" }) refl

freshness_policy-ok_example : (seconds 10 ≤Limit seconds 60) × (seconds 3 ≤Limit seconds 10)
unfolding program
freshness_policy-ok_example =
    freshness_policy-ok (finite (pos 10)) (finite (pos 60)) (finite (pos 3)) true refresh_ahead
      (record {
        ttl_seconds = seconds 10;
        max_stale_seconds = seconds 60;
        allow_stale_on_error = true;
        refresh_mode = refresh_ahead;
        refresh_ahead_seconds = 3;
      })
      refl
