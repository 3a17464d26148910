-- ===== src/Cache/Dependencies/Sound.antt =====
-- cache/memory.py: positive answers of the dependency test, at any fuel and path.
use coalestra.Prelude.{
  ℕ, zero, suc, ◌≡◌, String, true, Option, some, List, [], ◌∷◌, arith, Option-cases, inl, inr,
}
use coalestra.Dict.{lookup}
use coalestra.Core.Keys.{ResourceKey, ResourceKey-discrete}
use coalestra.Core.Models.{SnapshotValue}
use coalestra.Cache.Dependencies.{all_current, dependencies_current_fuel}
use coalestra.Cache.Dependencies.Spec.{Current, current, AllCurrent, nil, cons}

module _ {A : Type 0} (entries : List (ResourceKey × SnapshotValue A)) where
  all_current_inv :
      (inner : SnapshotValue A → Option _) (k : ResourceKey) (e : String)
      (rest : List (ResourceKey × String))
      → all_current entries inner ((k, e) ∷ rest) ≡ some true
      → (d : SnapshotValue A) × (lookup ResourceKey-discrete k entries ≡ some d)
        × (d.version ≡ e)
        × (inner d ≡ some true)
        × (all_current entries inner rest ≡ some true)
  unfolding all_current
  all_current_inv inner k e rest h = elim (Option-cases (lookup ResourceKey-discrete k entries)) [
    | inl missing ↦ absurd (ground arith)
    | inr (d, found) ↦ (d, found, ground arith, ground arith, ground arith)
  ]

  all_sound :
      (inner : SnapshotValue A → Option _)
      → ((d : SnapshotValue A) → inner d ≡ some true → Current entries d)
      → (deps : List (ResourceKey × String)) → all_current entries inner deps ≡ some true
      → AllCurrent entries deps
  all_sound inner sound [] h = nil
  all_sound inner sound ((k, e) ∷ rest) h =
      let (d, found, same, ok, later) = all_current_inv inner k e rest h in
      cons d found same (sound d ok) (all_sound inner sound rest later)

  step_inv :
      (n : ℕ) (visiting : List ResourceKey) (v : SnapshotValue A)
      → dependencies_current_fuel entries (suc n) visiting v ≡ some true
      → all_current entries
          (dependencies_current_fuel entries n (v.key ∷ visiting))
          v.dependency_versions
        ≡ some true
  unfolding dependencies_current_fuel
  step_inv n visiting v h = ground arith

  pub fuel_sound :
      (n : ℕ) (visiting : List ResourceKey) (v : SnapshotValue A)
      → dependencies_current_fuel entries n visiting v ≡ some true
      → Current entries v
  unfolding dependencies_current_fuel
  fuel_sound zero visiting v h = cc
  fuel_sound (suc n) visiting v h = current (
      all_sound _ (fuel_sound n (v.key ∷ visiting)) v.dependency_versions (step_inv n visiting v h))
