-- ===== src/Consistency.antt =====
-- core/consistency.py: the limit on how far apart the resources of a snapshot were observed.
pub mod Skew
use coalestra.Prelude.{
  ℕ, ℤ, pos, Bool, Option, none, some, List, [], ◌∷◌, monus, leb, ltb_ℤ, not, if◌then◌else◌,
}
use coalestra.Dict.{lookup, unique}
use coalestra.Core.Errors.{value_error, Result, ok, reject_if, ◌>>◌}
use coalestra.Core.Keys.{ResourceKey, ResourceKey-discrete}
use coalestra.Core.Numbers.{Number, finite, is_finite, lt_number, count}
use coalestra.Core.Models.{SnapshotValue}

pub record SnapshotConsistencyPolicy : Type 0 where
  pub max_observation_skew_seconds : ℕ
  pub include_optional_resources : Bool

-- SnapshotConsistencyPolicy(...) with its `__post_init__`
unfoldable pub snapshot_consistency_policy : Number → Bool → Result SnapshotConsistencyPolicy
snapshot_consistency_policy skew include_optional = do
  reject_if (not (is_finite skew)) value_error
  reject_if (lt_number skew (finite (pos 0))) value_error
  ok (record {
    max_observation_skew_seconds = count skew;
    include_optional_resources = include_optional;
  })

pub record ObservationSkewViolation : Type 0 where
  pub keys : List ResourceKey
  pub oldest_key : ResourceKey
  pub oldest_observed_at : ℤ
  pub newest_key : ResourceKey
  pub newest_observed_at : ℤ
  pub observation_skew_seconds : ℕ
  pub max_observation_skew_seconds : ℕ

-- a resolved key with its value
abbrev pub Item : Type 0 → Type 0
Item A = ResourceKey × SnapshotValue A

abbrev pub item_keys : {A : Type 0} → List (Item A) → List ResourceKey
item_keys [] = []
item_keys ((key, _) ∷ items) = key ∷ item_keys items

module _ {A : Type 0} where
  abbrev pub observed : Item A → ℤ
  observed (_, v) = v.observed_at

  abbrev pub if_found : ResourceKey → Option (SnapshotValue A) → List (Item A) → List (Item A)
  if_found key none others = others
  if_found key (some value) others = (key, value) ∷ others

  unfoldable pub resolve : List (Item A) → List ResourceKey → List (Item A)
  resolve resources [] = []
  resolve resources (key ∷ keys) =
      let others = resolve resources keys in
      if_found key (lookup ResourceKey-discrete key resources) others

  -- min(items, key=observed_at) and max(...), the first of equals, over `best` and what follows it
  unfoldable pub oldest : Item A → List (Item A) → Item A
  oldest best [] = best
  oldest best (e ∷ items) = oldest (if ltb_ℤ (observed e) (observed best) then e else best) items

  unfoldable pub newest : Item A → List (Item A) → Item A
  newest best [] = best
  newest best (e ∷ items) = newest (if ltb_ℤ (observed best) (observed e) then e else best) items

  skew_violation :
      SnapshotConsistencyPolicy
      → List ResourceKey
      → Item A
      → Item A
      → Option ObservationSkewViolation
  skew_violation policy keys old new =
      let skew = monus (observed new) (observed old) in
      if leb skew policy.max_observation_skew_seconds
      then none
      else some (record {
        keys = keys;
        oldest_key = old.0;
        oldest_observed_at = observed old;
        newest_key = new.0;
        newest_observed_at = observed new;
        observation_skew_seconds = skew;
        max_observation_skew_seconds = policy.max_observation_skew_seconds;
      })

  unfoldable pub skew_among :
      SnapshotConsistencyPolicy → List (Item A) → Option ObservationSkewViolation
  unfolding oldest newest skew_violation
  skew_among policy [] = none
  skew_among policy (_ ∷ []) = none
  skew_among policy (e ∷ f ∷ items) =
      skew_violation policy (item_keys (e ∷ f ∷ items)) (oldest e (f ∷ items))
        (newest e (f ∷ items))

  unfoldable pub find_observation_skew_violation :
      List (Item A) → List ResourceKey → SnapshotConsistencyPolicy → Option ObservationSkewViolation
  unfolding resolve skew_among
  find_observation_skew_violation resources keys policy =
      skew_among policy (resolve resources (unique ResourceKey-discrete keys))
