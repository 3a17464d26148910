-- ===== src/Acceptance/Spec.antt =====
-- core/acceptance.py: what a policy asks of a snapshot, stated without the evaluation's loops.
use coalestra.Prelude.{
  ℕ, zero, suc, ℤ, ◌≤◌, ◌≤ℤ◌, ◌≡◌, ◌↔◌, ◌⊎◌, Bool, true, false, ◌||◌, Option, none, some, List, [],
  ◌∷◌, ◌++◌, arith,
}
use coalestra.Dict.{lookup}
use coalestra.Core.Keys.{ResourceKey, ResourceKey-discrete}
use coalestra.Core.Numbers.{exceeds}
use coalestra.Core.Models.{FreshnessPolicy, SnapshotValue}
use coalestra.Acceptance.{
  ResourceAcceptanceRule, SnapshotRequirement, SnapshotAcceptancePolicy, rule_for,
}
use coalestra.Acceptance.Evaluate.{
  current_age, age_violations, rank_violations, stale_violations, key_violations,
}

abbrev pub WithinAge : Option ℕ → ℕ → Type 0
WithinAge none age = Unit
WithinAge (some limit) age = age ≤ limit

abbrev pub HasRank : Option ℤ → ℤ → Type 0
HasRank none rank = Unit
HasRank (some minimum) rank = minimum ≤ℤ rank

-- not marked stale, and no older than the time to live
abbrev pub FreshEnough : Bool → Bool → Bool → Type 0
FreshEnough true marked expired = Unit
FreshEnough false marked expired = (marked ≡ false) × (expired ≡ false)

pub record IsSatisfied {A : Type 0} (rule : ResourceAcceptanceRule) (freshness : FreshnessPolicy)
    (now : ℤ) (value : SnapshotValue A) : Type 0 where
  pub fresh :
      FreshEnough rule.allow_stale value.stale
        (exceeds (current_age value now) freshness.ttl_seconds)
  pub young : WithinAge rule.max_age_seconds (current_age value now)
  pub ranked : HasRank rule.minimum_authority_rank value.authority_rank

-- At least `n` places of the list hold what `P` asks for.
abbrev pub AtLeast : {K : Type 0} → (K → Type 0) → ℕ → List K → Type 0
AtLeast P zero keys = Unit
AtLeast P (suc n) [] = ⊥
AtLeast P (suc n) (k ∷ keys) = (P k × AtLeast P n keys) ⊎ AtLeast P (suc n) keys

module _ {A : Type 0} (resources : List (ResourceKey × SnapshotValue A))
    (policy : SnapshotAcceptancePolicy) (freshness_policy_for : ResourceKey → FreshnessPolicy)
    (now : ℤ) where
  -- The resource may be missing; if it is there, it satisfies its rule.
  abbrev pub IsTolerated : ResourceKey → Type 0
  IsTolerated key =
      (value : SnapshotValue A)
      → lookup ResourceKey-discrete key resources ≡ some value
      → IsSatisfied (rule_for policy key) (freshness_policy_for key) now value

  -- The resource is there and satisfies its rule.
  abbrev pub IsAcceptable : ResourceKey → Type 0
  IsAcceptable key =
      (value : SnapshotValue A) × (lookup ResourceKey-discrete key resources ≡ some value)
      × IsSatisfied (rule_for policy key) (freshness_policy_for key) now value

  abbrev pub IsMet : SnapshotRequirement → Type 0
  IsMet r = AtLeast IsAcceptable r.minimum_count r.keys

pub append_nil {ℓ} : {T : Type ℓ} (xs ys : List T) → (xs ++ ys ≡ []) ↔ ((xs ≡ []) × (ys ≡ []))
append_nil [] ys = ground arith
append_nil (x ∷ xs) ys = ground arith

age_nil :
    (key : ResourceKey) (age : ℕ) (s : Bool) (m : Option ℕ)
    → (age_violations key age s m ≡ []) ↔ WithinAge m age
unfolding age_violations
age_nil key age s none = ground arith
age_nil key age s (some m) = ground arith

rank_nil :
    (key : ResourceKey) (rank : ℤ) (m : Option ℤ)
    → (rank_violations key rank m ≡ []) ↔ HasRank m rank
unfolding rank_violations
rank_nil key rank none = ground arith
rank_nil key rank (some m) = ground arith

stale_nil :
    (key : ResourceKey) (age : ℕ) (marked expired allow : Bool)
    → (stale_violations key age (marked || expired) allow ≡ []) ↔ FreshEnough allow marked expired
unfolding stale_violations
stale_nil key age marked expired true = ground arith
stale_nil key age marked expired false = ground arith

module _ {A : Type 0} (resources : List (ResourceKey × SnapshotValue A))
    (policy : SnapshotAcceptancePolicy) (freshness_policy_for : ResourceKey → FreshnessPolicy)
    (now : ℤ) where
  module _ (key : ResourceKey) (value : SnapshotValue A) where
    rule : ResourceAcceptanceRule
    rule = rule_for policy key

    marked_or_expired : Bool
    marked_or_expired =
        value.stale || exceeds (current_age value now) (freshness_policy_for key).ttl_seconds

    key_parts : (key_violations resources policy freshness_policy_for now key value ≡ []) ↔ (
        FreshEnough
          (rule_for policy key).allow_stale
          value.stale
          (exceeds (current_age value now) (freshness_policy_for key).ttl_seconds)
        × (WithinAge (rule_for policy key).max_age_seconds (current_age value now)
            × HasRank (rule_for policy key).minimum_authority_rank value.authority_rank))
    unfolding key_violations rule marked_or_expired
    key_parts =
        let olds =
          age_violations key (current_age value now) marked_or_expired rule.max_age_seconds in
        let ranks = rank_violations key value.authority_rank rule.minimum_authority_rank in
        let stales =
          stale_violations key (current_age value now) marked_or_expired rule.allow_stale in
        ground (
          arith,
          append_nil stales (olds ++ ranks),
          append_nil olds ranks,
          age_nil key (current_age value now) marked_or_expired rule.max_age_seconds,
          rank_nil key value.authority_rank rule.minimum_authority_rank,
          stale_nil key (current_age value now) value.stale
              (exceeds (current_age value now) (freshness_policy_for key).ttl_seconds)
              rule.allow_stale,
        )

    pub key_nil :
        (key_violations resources policy freshness_policy_for now key value ≡ [])
        ↔ IsSatisfied (rule_for policy key) (freshness_policy_for key) now value
    key_nil = (
      λ h. let p = key_parts.0 h in record { fresh = p.0; young = p.1.0; ranked = p.1.1 },
      λ s. key_parts.1 (s.fresh, (s.young, s.ranked)),
    )
