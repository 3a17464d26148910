-- ===== src/Cache/Dependencies.antt =====
-- cache/memory.py: `_dependencies_current_locked`, the test that a derived value's dependencies are
-- still cached at the versions it was derived from. The recursion takes fuel; `none` means that the
-- fuel ran out.
pub mod Spec
pub mod Sound
pub mod Total
pub mod Within
pub mod Complete
use coalestra.Prelude.{
  ℕ, zero, suc, String, String-discrete, Bool, true, false, Option, none, some, List, [], ◌∷◌,
  length,
}
use coalestra.Dict.{lookup, contains}
use coalestra.Core.Keys.{ResourceKey, ResourceKey-discrete}
use coalestra.Core.Models.{SnapshotValue}

-- the answer for one dependency whose own test answered `inner`; `rest` is the loop's
abbrev and_then : Option Bool → Option Bool → Option Bool
and_then none rest = none
and_then (some false) rest = some false
and_then (some true) rest = rest

abbrev on_path : Bool → Option Bool → Option Bool
on_path true rest = some false
on_path false rest = rest

module _ {A : Type 0} (entries : List (ResourceKey × SnapshotValue A)) where
  -- the loop over `dependency_versions.items()`; `inner` is the recursive call
  unfoldable pub all_current :
      (SnapshotValue A → Option Bool) → List (ResourceKey × String) → Option Bool
  all_current inner [] = some true
  all_current inner ((k, expected) ∷ rest) =
      let later = all_current inner rest in
      elim (lookup ResourceKey-discrete k entries) [
        | none ↦ some false
        | some dependency ↦ elim (String-discrete dependency.version expected) [
          | no _ ↦ some false
          | yes _ ↦ and_then (inner dependency) later
        ]
      ]

  unfoldable pub dependencies_current_fuel : ℕ → List ResourceKey → SnapshotValue A → Option Bool
  unfolding all_current
  dependencies_current_fuel zero visiting value = none
  dependencies_current_fuel (suc fuel) visiting value =
      let inner = dependencies_current_fuel fuel (value.key ∷ visiting) in
      elim value.dependency_versions [
        | [] ↦ some true
        | _ ∷ _ ↦
            on_path (contains ResourceKey-discrete value.key visiting)
              (all_current inner value.dependency_versions)
      ]

  -- One call deeper than there are entries is never needed.
  unfoldable pub dependencies_current : SnapshotValue A → Option Bool
  unfolding dependencies_current_fuel
  dependencies_current = dependencies_current_fuel (suc (length entries)) []
