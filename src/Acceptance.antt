-- ===== src/Acceptance.antt =====
-- core/acceptance.py: the test that a snapshot candidate meets the quality that its caller asked
-- for. Messages are left out; `freshness_policy_for` is the caller's function.
pub mod Evaluate
pub mod Spec
pub mod Verdicts
pub mod Accepted
pub mod Requirements
use coalestra.Prelude.{
  ℕ, ℤ, pos, ◌+◌, String, Bool, true, false, Option, none, some, List, [], ◌∷◌, ◌++◌, map, monus,
  max, ltb, leb, ltb_ℤ, length, not, ◌&&◌, ◌||◌, if◌then◌else◌,
}
use coalestra.Dict.{lookup, contains, unique}
use coalestra.Core.Errors.{Error, value_error, Result, ok, raise, reject_if, ◌>>=◌, ◌>>◌}
use coalestra.Core.Keys.{ResourceKey, ResourceKey-discrete}
use coalestra.Core.Numbers.{Number, finite, is_finite, lt_number, exceeds, count}
use coalestra.Core.Models.{FreshnessPolicy, SnapshotValue}

pub data SnapshotAcceptanceReason : Type 0 where
  stale too_old insufficient_authority requirement_unsatisfied : SnapshotAcceptanceReason

pub record ResourceAcceptanceRule : Type 0 where
  pub max_age_seconds : Option ℕ
  pub allow_stale : Bool
  pub minimum_authority_rank : Option ℤ

check_max_age : Option Number → Result (Option ℕ)
check_max_age none = ok none
check_max_age (some age) = do
  reject_if (not (is_finite age)) value_error
  reject_if (lt_number age (finite (pos 0))) value_error
  ok (some (count age))

-- ResourceAcceptanceRule(...) with its `__post_init__`
unfoldable pub resource_acceptance_rule :
    Option Number → Bool → Option ℤ → Result ResourceAcceptanceRule
unfolding check_max_age
resource_acceptance_rule max_age allow_stale minimum_rank = do
  age ← check_max_age max_age
  ok (record {
    max_age_seconds = age;
    allow_stale = allow_stale;
    minimum_authority_rank = minimum_rank;
  })

abbrev is_some {ℓ} : {T : Type ℓ} → Option T → Bool
is_some none = false
is_some (some _) = true

unfoldable pub has_constraints : ResourceAcceptanceRule → Bool
has_constraints rule =
    is_some rule.max_age_seconds || (not rule.allow_stale || is_some rule.minimum_authority_rank)

pub record SnapshotRequirement : Type 0 where
  pub keys : List ResourceKey
  pub minimum_count : ℕ
  pub name : String

abbrev is_empty {ℓ} : {T : Type ℓ} → List T → Bool
is_empty [] = true
is_empty (_ ∷ _) = false

-- SnapshotRequirement(keys, minimum_count=..., name=...); `strip` is `str.strip`
unfoldable pub snapshot_requirement :
    (String → String) → List ResourceKey → ℤ → String → Result SnapshotRequirement
snapshot_requirement strip keys minimum_count name =
    let normalized = unique ResourceKey-discrete keys in
    do
      reject_if (is_empty normalized) value_error
      reject_if (ltb_ℤ minimum_count (pos 1) || ltb_ℤ (pos (length normalized)) minimum_count)
          value_error
      ok (record {
        keys = normalized;
        minimum_count = count (finite minimum_count);
        name = strip name;
      })

unfoldable pub all_of : (String → String) → List ResourceKey → String → Result SnapshotRequirement
unfolding snapshot_requirement
all_of strip keys name =
    let normalized = unique ResourceKey-discrete keys in
    snapshot_requirement strip normalized (pos (length normalized)) name

unfoldable pub any_of : (String → String) → List ResourceKey → String → Result SnapshotRequirement
unfolding snapshot_requirement
any_of strip keys name = snapshot_requirement strip keys (pos 1) name

-- The rules by key, in the order of the mapping.
pub record SnapshotAcceptancePolicy : Type 0 where
  pub default_rule : ResourceAcceptanceRule
  pub resource_rules : List (ResourceKey × ResourceAcceptanceRule)
  pub requirements : List SnapshotRequirement
  pub include_optional_resources : Bool

any_constraint : List (ResourceKey × ResourceAcceptanceRule) → Bool
unfolding has_constraints
any_constraint [] = false
any_constraint ((_, rule) ∷ rules) = has_constraints rule || any_constraint rules

-- SnapshotAcceptancePolicy(...) with its `__post_init__`
unfoldable pub snapshot_acceptance_policy :
    ResourceAcceptanceRule
    → List (ResourceKey × ResourceAcceptanceRule)
    → List SnapshotRequirement
    → Bool
    → Result SnapshotAcceptancePolicy
unfolding any_constraint
snapshot_acceptance_policy default_rule rules requirements include_optional = do
  reject_if
      (not (has_constraints default_rule || (any_constraint rules || not (is_empty requirements))))
      value_error
  ok (record {
    default_rule = default_rule;
    resource_rules = rules;
    requirements = requirements;
    include_optional_resources = include_optional;
  })

unfoldable pub rule_for : SnapshotAcceptancePolicy → ResourceKey → ResourceAcceptanceRule
rule_for p key = elim (lookup ResourceKey-discrete key p.resource_rules) [
  | none ↦ p.default_rule
  | some rule ↦ rule
]

abbrev pub rule_keys : List (ResourceKey × ResourceAcceptanceRule) → List ResourceKey
rule_keys [] = []
rule_keys ((key, _) ∷ rules) = key ∷ rule_keys rules

abbrev pub requirement_keys : List SnapshotRequirement → List ResourceKey
requirement_keys [] = []
requirement_keys (r ∷ rs) = r.keys ++ requirement_keys rs

unfoldable pub referenced_keys : SnapshotAcceptancePolicy → List ResourceKey
referenced_keys p =
    unique ResourceKey-discrete (rule_keys p.resource_rules ++ requirement_keys p.requirements)

pub record SnapshotAcceptanceViolation : Type 0 where
  pub reason : SnapshotAcceptanceReason
  pub keys : List ResourceKey
  pub key : Option ResourceKey
  pub requirement_name : String
  pub current_age_seconds : Option ℕ
  pub max_age_seconds : Option ℕ
  pub stale : Option Bool
  pub authority_rank : Option ℤ
  pub minimum_authority_rank : Option ℤ
  pub accepted_count : Option ℕ
  pub required_count : Option ℕ

-- SnapshotAcceptanceViolation(reason=reason, keys=keys), the other fields at their defaults
abbrev violation : SnapshotAcceptanceReason → List ResourceKey → SnapshotAcceptanceViolation
violation reason keys = record {
  reason = reason;
  keys = keys;
  key = none;
  requirement_name = "";
  current_age_seconds = none;
  max_age_seconds = none;
  stale = none;
  authority_rank = none;
  minimum_authority_rank = none;
  accepted_count = none;
  required_count = none;
}
