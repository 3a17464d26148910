-- ===== src/Cache/Dependencies/Within.antt =====
-- Derivations by their height: `within n v` says that `v` has one of height below `n`.
use coalestra.Prelude.{
  ℕ, zero, suc, ◌+◌, ◌≤◌, ◌≡◌, refl, String, String-discrete, Bool, true, false, ◌&&◌, ◌-◌, sym,
  subst, none, some, List, [], ◌∷◌, arith, inl, inr, Option-cases,
}
use native.Mathlib.Nat.{zero-add}
use coalestra.Dict.{lookup}
use coalestra.Core.Keys.{ResourceKey, ResourceKey-discrete}
use coalestra.Core.Models.{SnapshotValue}
use coalestra.Cache.Dependencies.Spec.{Current, current, AllCurrent, nil, cons}

module _ {A : Type 0} (entries : List (ResourceKey × SnapshotValue A)) where
  unfoldable pub all_within : (SnapshotValue A → Bool) → List (ResourceKey × String) → Bool
  all_within inner [] = true
  all_within inner ((k, expected) ∷ rest) =
      let later = all_within inner rest in
      elim (lookup ResourceKey-discrete k entries) [
        | none ↦ false
        | some dependency ↦ elim (String-discrete dependency.version expected) [
          | no _ ↦ false
          | yes _ ↦ inner dependency && later
        ]
      ]

  unfoldable pub within : ℕ → SnapshotValue A → Bool
  within zero v = false
  within (suc n) v = all_within (within n) v.dependency_versions

  all_within_mono :
      (f g : SnapshotValue A → Bool)
      → ((d : SnapshotValue A) → f d ≡ true → g d ≡ true)
      → (deps : List (ResourceKey × String)) → all_within f deps ≡ true
      → all_within g deps ≡ true
  unfolding all_within
  all_within_mono f g mono [] h = refl
  all_within_mono f g mono ((k, e) ∷ rest) h =
      elim (Option-cases (lookup ResourceKey-discrete k entries)) [
        | inl missing ↦ ground arith
        | inr (d, found) ↦ ground (arith, mono d, all_within_mono f g mono rest)
      ]

  pub within-suc : (n : ℕ) (v : SnapshotValue A) → within n v ≡ true → within (suc n) v ≡ true
  unfolding within
  within-suc zero v h = cc
  within-suc (suc n) v h =
      all_within_mono (within n) (within (suc n)) (within-suc n) v.dependency_versions h

  within_add : (k n : ℕ) (v : SnapshotValue A) → within n v ≡ true → within (k + n) v ≡ true
  within_add zero n v h = subst (λ t. within t v ≡ true) (sym (zero-add n)) h
  within_add (suc k) n v h =
      let e : suc k + n ≡ suc (k + n) = omega arith in
      rw e (within-suc (k + n) v (within_add k n v h))

  pub within_le : (n m : ℕ) (v : SnapshotValue A) → n ≤ m → within n v ≡ true → within m v ≡ true
  within_le n m v h w =
      let e : (m - n) + n ≡ m = omega arith in
      subst (λ t. within t v ≡ true) e (within_add (m - n) n v w)

  all_within-cons :
      (n m : ℕ) (k : ResourceKey) (expected : String) (rest : List (ResourceKey × String))
      (d : SnapshotValue A)
      → lookup ResourceKey-discrete k entries ≡ some d
      → d.version ≡ expected
      → within n d ≡ true
      → all_within (within m) rest ≡ true
      → all_within (within (n + m)) ((k, expected) ∷ rest) ≡ true
  unfolding all_within
  all_within-cons n m k expected rest d found same h h' =
      let later =
        all_within_mono (within m) (within (n + m)) (λ x. within_le m (n + m) x (omega arith)) rest
          h' in
      ground (arith, within_le n (n + m) d (omega arith) h, later)

none_within :
    {A : Type 0} (entries : List (ResourceKey × SnapshotValue A))
    → all_within entries (within entries 0) [] ≡ true
unfolding all_within
none_within entries = refl

mutual
  unfolding within

  pub height :
      {A : Type 0} (entries : List (ResourceKey × SnapshotValue A)) {v : SnapshotValue A}
      → Current entries v
      → (n : ℕ) × (within entries n v ≡ true)
  height entries (current ds) = let (n, h) = heights entries ds in (suc n, h)

  heights :
      {A : Type 0} (entries : List (ResourceKey × SnapshotValue A))
      {deps : List (ResourceKey × String)}
      → AllCurrent entries deps
      → (n : ℕ) × (all_within entries (within entries n) deps ≡ true)
  heights entries nil = (0, none_within entries)
  heights entries (cons {k} {expected} {rest} d found same c cs) =
      let (n, h) = height entries c in
      let (m, h') = heights entries cs in
      (n + m, all_within-cons entries n m k expected rest d found same h h')
