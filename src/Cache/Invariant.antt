-- ===== src/Cache/Invariant.antt =====
-- The invariant of the cache, and the operations on entries that keep its parts.
pub mod Reads
pub mod Removal
pub mod Writes
use coalestra.Prelude.{
  ℕ, suc, ◌+◌, ◌≤◌, ◌≡◌, ◌≢◌, refl, Option, none, some, List, [], ◌∷◌, ◌++◌, arith, length, ltb,
}
use coalestra.Dict.{lookup, pop, put, to_end, IsDict}
use coalestra.Dict.Laws.{
  lookup-pop, lookup-put, lookup-to_end, pop-IsDict, put-IsDict, to_end-IsDict, length-pop-le,
  length-to_end,
}
use coalestra.Core.Errors.{ok}
use coalestra.Core.Keys.{ResourceKey, ResourceKey-discrete}
use coalestra.Core.Models.{SnapshotValue}
use coalestra.Cache.State.{Cache, init}
use coalestra.Cache.Dependencies.Spec.{IsKeyed}

-- at most the configured number of entries
abbrev pub Fits : Option ℕ → ℕ → Type 0
Fits none n = Unit
Fits (some limit) n = n ≤ limit

pub record IsValid {A : Type 0} (c : Cache A) : Type 0 where
  pub distinct : IsDict ResourceKey-discrete c.entries
  pub keyed : IsKeyed c.entries
  pub bounded : Fits c.max_entries (length c.entries)
  pub counted : c.hits ≡ c.fresh_hits + c.stale_hits

pub Fits-le : (limit : Option ℕ) {m n : ℕ} → m ≤ n → Fits limit n → Fits limit m
Fits-le none h f = tt
Fits-le (some limit) h f = omega arith

module _ {A : Type 0} where
  pub pop-IsKeyed :
      (k : ResourceKey) (entries : List (ResourceKey × SnapshotValue A))
      → IsKeyed entries
      → IsKeyed (pop ResourceKey-discrete k entries)
  pop-IsKeyed k entries h q v found =
      ground (arith, h q v, lookup-pop ResourceKey-discrete k q entries)

  pub put-IsKeyed :
      (k : ResourceKey) (w : SnapshotValue A) (entries : List (ResourceKey × SnapshotValue A))
      → w.key ≡ k
      → IsKeyed entries
      → IsKeyed (put ResourceKey-discrete k w entries)
  put-IsKeyed k w entries e h q v found =
      ground (arith, h q v, lookup-put ResourceKey-discrete k q w entries)

  pub to_end-IsKeyed :
      (k : ResourceKey) (w : SnapshotValue A) (entries : List (ResourceKey × SnapshotValue A))
      → w.key ≡ k
      → IsKeyed entries
      → IsKeyed (to_end ResourceKey-discrete k w entries)
  to_end-IsKeyed k w entries e h q v found =
      ground (arith, h q v, lookup-to_end ResourceKey-discrete k q w entries)

  nil-IsKeyed : IsKeyed {A = A} []
  unfolding lookup
  nil-IsKeyed k v h = cc

  -- A cache that is built with an accepted limit is empty and valid, and the limit is positive.
  pub init-IsValid :
      (limit : Option ℕ) (copies : ℕ) {c : Cache A}
      → init limit copies ≡ ok c
      → IsValid c × (c.entries ≡ []) × (c.max_entries ≡ limit) × (limit ≢ some 0)
  unfolding init
  init-IsValid none copies h = grind (arith, nil-IsKeyed)
  init-IsValid (some n) copies h = grind (arith, nil-IsKeyed)
