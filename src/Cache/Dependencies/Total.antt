-- ===== src/Cache/Dependencies/Total.antt =====
-- cache/memory.py: the fuel of the dependency test, measured by the cached keys off the path.
use coalestra.Prelude.{
  ℕ, zero, suc, ◌<◌, ◌≤◌, ◌≡◌, ◌≢◌, refl, String, Bool, false, Option, none, some, List, [], ◌∷◌,
  arith, length, inl, inr, Bool-cases, Option-cases, if◌then◌else◌,
}
use coalestra.Dict.{lookup, contains}
use coalestra.Core.Keys.{ResourceKey, ResourceKey-discrete}
use coalestra.Core.Models.{SnapshotValue}
use coalestra.Cache.Dependencies.{all_current, dependencies_current_fuel}
use coalestra.Cache.Dependencies.Spec.{IsKeyed}

module _ {A : Type 0} where
  -- the cached keys that are not on the path
  pub unvisited : List ResourceKey → List (ResourceKey × SnapshotValue A) → ℕ
  unvisited visiting [] = 0
  unvisited visiting ((k, v) ∷ rest) =
      let others = unvisited visiting rest in
      if contains ResourceKey-discrete k visiting then others else suc others

  unvisited-cons-le :
      (k : ResourceKey) (visiting : List ResourceKey)
      (entries : List (ResourceKey × SnapshotValue A))
      → unvisited (k ∷ visiting) entries ≤ unvisited visiting entries
  unfolding unvisited contains
  unvisited-cons-le k visiting [] = omega arith
  unvisited-cons-le k visiting ((j, w) ∷ rest) = ground (arith, unvisited-cons-le k visiting rest)

  pub unvisited-cons-lt :
      (k : ResourceKey) (v : SnapshotValue A) (visiting : List ResourceKey)
      (entries : List (ResourceKey × SnapshotValue A))
      → lookup ResourceKey-discrete k entries ≡ some v
      → contains ResourceKey-discrete k visiting ≡ false
      → unvisited (k ∷ visiting) entries < unvisited visiting entries
  unfolding unvisited contains lookup
  unvisited-cons-lt k v visiting [] h absent = cc
  unvisited-cons-lt k v visiting ((j, w) ∷ rest) h absent =
      ground (arith, unvisited-cons-lt k v visiting rest, unvisited-cons-le k visiting rest)

  pub unvisited-nil :
      (entries : List (ResourceKey × SnapshotValue A)) → unvisited [] entries ≡ length entries
  unfolding unvisited contains
  unvisited-nil [] = refl
  unvisited-nil ((k, v) ∷ rest) = ground (arith, unvisited-nil rest)

abbrev pub Cached : {A : Type 0} → List (ResourceKey × SnapshotValue A) → SnapshotValue A → Type 0
Cached entries v = lookup ResourceKey-discrete v.key entries ≡ some v

module _ {A : Type 0} (entries : List (ResourceKey × SnapshotValue A))
    (keyed : IsKeyed entries) where
  all_total :
      (inner : SnapshotValue A → Option Bool)
      → ((d : SnapshotValue A) → Cached entries d → inner d ≢ none)
      → (deps : List (ResourceKey × String)) → all_current entries inner deps ≢ none
  unfolding all_current
  all_total inner total [] = λ p. cc
  all_total inner total ((k, e) ∷ rest) =
      elim (Option-cases (lookup ResourceKey-discrete k entries)) [
        | inl missing ↦ ground arith
        | inr (d, found) ↦ ground (arith, total d, keyed k d found, all_total inner total rest)
      ]

  pub fuel_total :
      (n : ℕ) (visiting : List ResourceKey) (v : SnapshotValue A)
      → Cached entries v
      → unvisited visiting entries < n
      → dependencies_current_fuel entries n visiting v ≢ none
  unfolding dependencies_current_fuel
  fuel_total zero visiting v c h = absurd (omega arith)
  fuel_total (suc n) visiting v c h =
      elim (Bool-cases (contains ResourceKey-discrete v.key visiting)) [
        | inl seen ↦ ground arith
        | inr new ↦ ground (
          arith,
          all_total (dependencies_current_fuel entries n (v.key ∷ visiting))
              (λ d cd.
                fuel_total n (v.key ∷ visiting) d cd
                  (omega (arith, unvisited-cons-lt v.key v visiting entries c new)))
              v.dependency_versions,
        )
      ]
