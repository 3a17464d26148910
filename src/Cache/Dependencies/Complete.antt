-- ===== src/Cache/Dependencies/Complete.antt =====
-- cache/memory.py: the answers of `_dependencies_current_locked`, against the derivations of a value.
use coalestra.Prelude.{
  ℕ, zero, suc, ◌<◌, ◌≡◌, ◌≢◌, ◌↔◌, refl, String, Bool, true, false, Option, none, some, List, [],
  ◌∷◌, arith, length, inl, inr, Bool-cases, Option-cases,
}
use coalestra.Dict.{lookup, contains}
use coalestra.Core.Keys.{ResourceKey, ResourceKey-discrete}
use coalestra.Core.Models.{SnapshotValue}
use coalestra.Cache.Dependencies.{all_current, dependencies_current_fuel, dependencies_current}
use coalestra.Cache.Dependencies.Spec.{Current, IsKeyed}
use coalestra.Cache.Dependencies.Sound.{fuel_sound}
use coalestra.Cache.Dependencies.Total.{
  unvisited, unvisited-cons-lt, unvisited-nil, fuel_total, Cached,
}
use coalestra.Cache.Dependencies.Within.{within, all_within, within-suc, height}

module _ {A : Type 0} (entries : List (ResourceKey × SnapshotValue A))
    (keyed : IsKeyed entries) where
  -- every value on the path has no derivation of height below `n`
  abbrev IsAbove : ℕ → List ResourceKey → Type 0
  IsAbove n visiting =
      (u : ResourceKey) (w : SnapshotValue A)
      → contains ResourceKey-discrete u visiting ≡ true
      → lookup ResourceKey-discrete u entries ≡ some w
      → within entries n w ≡ false

  lower :
      (n : ℕ) (w : SnapshotValue A) → within entries (suc n) w ≡ false → within entries n w ≡ false
  lower n w h = ground (arith, within-suc entries n w)

  IsAbove-cons :
      (n : ℕ) (v : SnapshotValue A) (visiting : List ResourceKey)
      → Cached entries v
      → within entries n v ≡ false
      → IsAbove (suc n) visiting
      → IsAbove n (v.key ∷ visiting)
  unfolding contains
  IsAbove-cons n v visiting c low above u w seen found = elim (ResourceKey-discrete v.key u) [
    | yes p ↦ ground arith
    | no p ↦ lower n w (above u w (ground arith) found)
  ]

  all_complete :
      (n : ℕ) (inner : SnapshotValue A → Option Bool)
      → ((d : SnapshotValue A) → Cached entries d → within entries n d ≡ true → inner d ≡ some true)
      → (deps : List (ResourceKey × String)) → all_within entries (within entries n) deps ≡ true
      → all_current entries inner deps ≡ some true
  unfolding all_current all_within
  all_complete n inner complete [] h = refl
  all_complete n inner complete ((k, e) ∷ rest) h =
      elim (Option-cases (lookup ResourceKey-discrete k entries)) [
        | inl missing ↦ ground arith
        | inr (d, found) ↦
            ground (arith, complete d, keyed k d found, all_complete n inner complete rest)
      ]

  step :
      (fuel : ℕ) (visiting : List ResourceKey) (v : SnapshotValue A)
      → contains ResourceKey-discrete v.key visiting ≡ false
      → all_current entries
          (dependencies_current_fuel entries fuel (v.key ∷ visiting))
          v.dependency_versions
        ≡ some true
      → dependencies_current_fuel entries (suc fuel) visiting v ≡ some true
  unfolding dependencies_current_fuel
  step fuel visiting v new h = ground arith

  complete :
      (n fuel : ℕ) (visiting : List ResourceKey) (v : SnapshotValue A)
      → Cached entries v
      → within entries n v ≡ true
      → IsAbove n visiting
      → unvisited visiting entries < fuel
      → dependencies_current_fuel entries fuel visiting v ≡ some true
  unfolding within
  complete zero fuel visiting v c h above lt = cc
  complete (suc n) zero visiting v c h above lt = absurd (omega arith)
  complete (suc n) (suc fuel) visiting v c h above lt = elim (Bool-cases (within entries n v)) [
    | inl earlier ↦
        complete n (suc fuel) visiting v c earlier
          (λ u w seen found. lower n w (above u w seen found)) lt
    | inr low ↦ elim (Bool-cases (contains ResourceKey-discrete v.key visiting)) [
      | inl seen ↦ absurd (cc (above v.key v seen c, h))
      | inr new ↦ step fuel visiting v new (
          all_complete n (dependencies_current_fuel entries fuel (v.key ∷ visiting))
            (λ d cd wd.
              complete n fuel (v.key ∷ visiting) d cd wd (IsAbove-cons n v visiting c low above)
                (omega (arith, unvisited-cons-lt v.key v visiting entries c new)))
            v.dependency_versions h)
    ]
  ]

  none_visited : (n : ℕ) → IsAbove n []
  unfolding contains
  none_visited n u w seen found = cc

  -- For a cached value the dependency check always ends with an answer, and the answer is yes
  -- exactly when every dependency, transitively, is cached at the recorded version, without a
  -- cycle.
  pub dependencies_current_iff :
      (v : SnapshotValue A)
      → lookup ResourceKey-discrete v.key entries ≡ some v
      → (dependencies_current entries v ≢ none)
        × ((dependencies_current entries v ≡ some true) ↔ Current entries v)
  unfolding dependencies_current
  dependencies_current_iff v c =
      let enough : unvisited [] entries < suc (length entries) =
        omega (arith, unvisited-nil entries) in
      (
        fuel_total entries keyed (suc (length entries)) [] v c enough,
        (
          fuel_sound entries (suc (length entries)) [] v,
          λ d.
              let (n, h) = height entries d in
              complete n (suc (length entries)) [] v c h (none_visited n) enough,
        ),
      )
