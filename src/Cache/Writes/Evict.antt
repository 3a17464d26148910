-- ===== src/Cache/Writes/Evict.antt =====
-- cache/memory.py: `_enforce_limit_locked`.
use coalestra.Prelude.{
  ℕ, zero, suc, ◌+◌, ◌-◌, ◌≡◌, ap, ◌∙◌, some, List, [], ◌∷◌, arith, length, drop, ltb, Bool-cases,
  inl, inr,
}
use coalestra.Dict.{lookup, IsDict}
use coalestra.Core.Keys.{ResourceKey, ResourceKey-discrete}
use coalestra.Core.Models.{SnapshotValue}
use coalestra.Cache.Writes.{evict_oldest}

module _ {A : Type 0} where
  -- With a limit, exactly the oldest entries over it are dropped and counted as evictions; without
  -- one, or within it, nothing is.
  pub evict_oldest-drop :
      (limit : ℕ) (d : List (ResourceKey × SnapshotValue A)) (n : ℕ)
      → evict_oldest limit d n ≡ (drop (length d - limit) d, n + (length d - limit))
  unfolding evict_oldest
  evict_oldest-drop limit [] n = ground arith
  evict_oldest-drop limit (e ∷ rest) n = elim (Bool-cases (ltb limit (length (e ∷ rest)))) [
    | inl over ↦
        let more : length (e ∷ rest) - limit ≡ suc (length rest - limit) = ground arith in
        rw (over, more)
          (evict_oldest-drop limit rest (n + 1)
            ∙ ap (λ t. (drop (length rest - limit) rest, t)) (omega arith))
    | inr fits ↦
        let none_over : length (e ∷ rest) - limit ≡ 0 = ground arith in
        rw (fits, none_over) (ap (λ t. (e ∷ rest, t)) (omega arith))
  ]

  pub drop-IsDict :
      (n : ℕ) (d : List (ResourceKey × SnapshotValue A))
      → IsDict ResourceKey-discrete d
      → IsDict ResourceKey-discrete (drop n d)
  drop-IsDict zero d h = h
  drop-IsDict (suc n) [] h = h
  drop-IsDict (suc n) (e ∷ d) (new, h) = drop-IsDict n d h

  pub lookup-drop :
      (n : ℕ) (d : List (ResourceKey × SnapshotValue A)) (q : ResourceKey) (w : SnapshotValue A)
      → IsDict ResourceKey-discrete d
      → lookup ResourceKey-discrete q (drop n d) ≡ some w
      → lookup ResourceKey-discrete q d ≡ some w
  unfolding lookup
  lookup-drop zero d q w i h = h
  lookup-drop (suc n) [] q w i h = h
  lookup-drop (suc n) ((k, v) ∷ d) q w (new, i) h = ground (arith, lookup-drop n d q w i h)
