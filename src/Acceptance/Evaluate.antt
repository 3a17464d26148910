-- ===== src/Acceptance/Evaluate.antt =====
-- core/acceptance.py: `find_snapshot_acceptance_violations`.
use coalestra.Prelude.{
  ℕ, ℤ, ◌+◌, Bool, true, false, Option, none, some, List, [], ◌∷◌, ◌++◌, monus, max, ltb, leb,
  ltb_ℤ, not, ◌&&◌, ◌||◌, if◌then◌else◌,
}
use coalestra.Dict.{lookup, contains, unique}
use coalestra.Core.Errors.{value_error, Result, ok, raise}
use coalestra.Core.Keys.{ResourceKey, ResourceKey-discrete}
use coalestra.Core.Numbers.{Number, finite, exceeds}
use coalestra.Core.Models.{FreshnessPolicy, SnapshotValue}
use coalestra.Acceptance.{
  stale, too_old, insufficient_authority, requirement_unsatisfied, SnapshotRequirement,
  SnapshotAcceptancePolicy, SnapshotAcceptanceViolation, violation, rule_for, rule_keys,
  requirement_keys,
}

-- what the code's two dictionaries hold for a key: nothing and False when it is not resolved, and
-- otherwise its violations and whether there are none
abbrev pub Verdict : Type 0
Verdict = Option (List SnapshotAcceptanceViolation)

abbrev pub accepts : Verdict → Bool
accepts (some []) = true
accepts _ = false

-- resource_violations.get(key, ())
abbrev pub found_violations : Verdict → List SnapshotAcceptanceViolation
found_violations none = []
found_violations (some vs) = vs

abbrev pub current_age : {A : Type 0} → SnapshotValue A → ℤ → ℕ
current_age value now = max value.age_seconds (monus now value.observed_at)

abbrev pub dynamically_stale : {A : Type 0} → SnapshotValue A → ℤ → FreshnessPolicy → Bool
dynamically_stale value now freshness =
    value.stale || exceeds (current_age value now) freshness.ttl_seconds

unfoldable pub age_violations : ResourceKey → ℕ → Bool → Option ℕ → List SnapshotAcceptanceViolation
age_violations key age is_stale none = []
age_violations key age is_stale (some limit) =
    if ltb limit age
    then record (violation too_old (key ∷ [])) {
      key = some key;
      current_age_seconds = some age;
      max_age_seconds = some limit;
      stale = some is_stale;
    }
      ∷ []
    else []

unfoldable pub rank_violations : ResourceKey → ℤ → Option ℤ → List SnapshotAcceptanceViolation
rank_violations key rank none = []
rank_violations key rank (some minimum) =
    if ltb_ℤ rank minimum
    then record (violation insufficient_authority (key ∷ [])) {
      key = some key;
      authority_rank = some rank;
      minimum_authority_rank = some minimum;
    }
      ∷ []
    else []

unfoldable pub stale_violations : ResourceKey → ℕ → Bool → Bool → List SnapshotAcceptanceViolation
stale_violations key age is_stale allow_stale =
    if not allow_stale && is_stale
    then record (violation stale (key ∷ [])) {
      key = some key;
      current_age_seconds = some age;
      stale = some true;
    }
      ∷ []
    else []

module _ {A : Type 0} (resources : List (ResourceKey × SnapshotValue A))
    (policy : SnapshotAcceptancePolicy) (freshness_policy_for : ResourceKey → FreshnessPolicy)
    (now : ℤ) where
  unfoldable pub key_violations : ResourceKey → SnapshotValue A → List SnapshotAcceptanceViolation
  unfolding age_violations rank_violations stale_violations
  key_violations key value =
      let rule = rule_for policy key in
      let age = current_age value now in
      let is_stale = dynamically_stale value now (freshness_policy_for key) in
      stale_violations key age is_stale rule.allow_stale
      ++ (age_violations key age is_stale rule.max_age_seconds
          ++ rank_violations key value.authority_rank rule.minimum_authority_rank)

  -- the body of the loop over the participating keys
  unfoldable pub verdict : ResourceKey → Verdict
  unfolding key_violations
  verdict key = elim (lookup ResourceKey-discrete key resources) [
    | none ↦ none
    | some value ↦ some (key_violations key value)
  ]

  unfoldable pub verdicts : List ResourceKey → List (ResourceKey × Verdict)
  unfolding verdict
  verdicts [] = []
  verdicts (key ∷ keys) = (key, verdict key) ∷ verdicts keys

-- the violations that the loop reports itself
unfoldable pub enforced :
    List ResourceKey → List (ResourceKey × Verdict) → List SnapshotAcceptanceViolation
enforced direct [] = []
enforced direct ((key, v) ∷ rest) =
    let others = enforced direct rest in
    if contains ResourceKey-discrete key direct then found_violations v ++ others else others

abbrev pub verdict_of : List (ResourceKey × Verdict) → ResourceKey → Verdict
verdict_of found key = elim (lookup ResourceKey-discrete key found) [ none ↦ none | some v ↦ v ]

unfoldable pub accepted_among : List (ResourceKey × Verdict) → List ResourceKey → ℕ
accepted_among found [] = 0
accepted_among found (key ∷ keys) =
    let others = accepted_among found keys in
    if accepts (verdict_of found key) then 1 + others else others

unfoldable pub indirect :
    List ResourceKey
    → List (ResourceKey × Verdict)
    → List ResourceKey
    → List SnapshotAcceptanceViolation
indirect direct found [] = []
indirect direct found (key ∷ keys) =
    let others = indirect direct found keys in
    if contains ResourceKey-discrete key direct
    then others
    else found_violations (verdict_of found key) ++ others

-- the violation of a requirement that too few of its resources meet
abbrev pub shortfall : SnapshotRequirement → ℕ → SnapshotAcceptanceViolation
shortfall r accepted = record (violation requirement_unsatisfied r.keys) {
  requirement_name = r.name;
  accepted_count = some accepted;
  required_count = some r.minimum_count;
}

-- the body of the loop over the requirements
unfoldable pub requirement_violations :
    List ResourceKey
    → List (ResourceKey × Verdict)
    → SnapshotRequirement
    → List SnapshotAcceptanceViolation
unfolding accepted_among indirect
requirement_violations direct found r =
    let accepted = accepted_among found r.keys in
    if leb r.minimum_count accepted
    then []
    else indirect direct found r.keys ++ shortfall r accepted ∷ []

unfoldable pub all_requirement_violations :
    List ResourceKey
    → List (ResourceKey × Verdict)
    → List SnapshotRequirement
    → List SnapshotAcceptanceViolation
unfolding requirement_violations
all_requirement_violations direct found [] = []
all_requirement_violations direct found (r ∷ rs) =
    requirement_violations direct found r ++ all_requirement_violations direct found rs

abbrev pub directly_enforced :
    List ResourceKey → List ResourceKey → SnapshotAcceptancePolicy → List ResourceKey
directly_enforced required optional policy =
    (unique ResourceKey-discrete required
      ++ (if policy.include_optional_resources then unique ResourceKey-discrete optional else []))
    ++ rule_keys policy.resource_rules

abbrev pub participating_keys : List ResourceKey → SnapshotAcceptancePolicy → List ResourceKey
participating_keys direct policy =
    unique ResourceKey-discrete (direct ++ requirement_keys policy.requirements)

unfoldable pub find_snapshot_acceptance_violations :
    {A : Type 0}
    → List (ResourceKey × SnapshotValue A)
    → List ResourceKey
    → List ResourceKey
    → SnapshotAcceptancePolicy
    → Number
    → (ResourceKey → FreshnessPolicy)
    → Result (List SnapshotAcceptanceViolation)
unfolding verdicts enforced all_requirement_violations
find_snapshot_acceptance_violations resources required optional policy (finite now) freshness =
    let direct = directly_enforced required optional policy in
    let found = verdicts resources policy freshness now (participating_keys direct policy) in
    ok (enforced direct found ++ all_requirement_violations direct found policy.requirements)
find_snapshot_acceptance_violations resources required optional policy now freshness =
    raise value_error
