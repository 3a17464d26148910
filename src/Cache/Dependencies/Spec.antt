-- ===== src/Cache/Dependencies/Spec.antt =====
-- What `_dependencies_current_locked` decides, as a relation that knows nothing of visited keys:
-- every dependency is cached at the recorded version and is itself current. A derivation is a
-- finite tree, so a value that depends on itself has none.
use coalestra.Prelude.{◌≡◌, String, List, [], ◌∷◌, some}
use coalestra.Dict.{lookup}
use coalestra.Core.Keys.{ResourceKey, ResourceKey-discrete}
use coalestra.Core.Models.{SnapshotValue}

mutual
  pub data Current {A : Type 0} (entries : List (ResourceKey × SnapshotValue A))
      : SnapshotValue A → Type 0 where
    current : {v : SnapshotValue A} → AllCurrent entries v.dependency_versions → Current entries v

  pub data AllCurrent {A : Type 0} (entries : List (ResourceKey × SnapshotValue A))
      : List (ResourceKey × String) → Type 0 where
    nil : AllCurrent entries []
    cons :
        {k : ResourceKey} {expected : String} {rest : List (ResourceKey × String)}
        (dependency : SnapshotValue A)
        → lookup ResourceKey-discrete k entries ≡ some dependency
        → dependency.version ≡ expected
        → Current entries dependency
        → AllCurrent entries rest
        → AllCurrent entries ((k, expected) ∷ rest)

-- Each entry stands under the key that its value names.
abbrev pub IsKeyed : {A : Type 0} → List (ResourceKey × SnapshotValue A) → Type 0
IsKeyed {A} entries =
    (k : ResourceKey) (v : SnapshotValue A)
    → lookup ResourceKey-discrete k entries ≡ some v
    → v.key ≡ k
