-- ===== src/Cache/Writes/Select.antt =====
-- cache/memory.py: `_select_candidates`.
use coalestra.Prelude.{
  ◌≡◌, inl, inr, refl, Bool, true, false, some, List, [], ◌∷◌, arith, Bool-cases, Option-cases,
  if_pos, if_neg, All, if◌then◌else◌,
}
use coalestra.Dict.{lookup, put, IsDict}
use coalestra.Dict.Laws.{lookup-put, put-IsDict}
use coalestra.Core.Keys.{ResourceKey, ResourceKey-discrete}
use coalestra.Core.Models.{SnapshotValue}
use coalestra.Cache.Writes.{candidate_precedes, replaces, select_from, select_candidates}
use coalestra.Cache.Writes.Order.{◌≼◌, ≼_refl, ≼_trans, precedes→≼, not_precedes→≼}

module _ {A : Type 0} where
  -- the value is beaten by the one that is selected for its key
  abbrev pub IsCovered : List (ResourceKey × SnapshotValue A) → SnapshotValue A → Type 0
  IsCovered selected v =
      (w : SnapshotValue A) × (lookup ResourceKey-discrete v.key selected ≡ some w) × (v ≼ w)

  -- one round of the loop
  abbrev add :
      List (ResourceKey × SnapshotValue A) → SnapshotValue A → List (ResourceKey × SnapshotValue A)
  add selected value =
      if replaces (lookup ResourceKey-discrete value.key selected) value
      then put ResourceKey-discrete value.key value selected
      else selected

  add_covers :
      (selected : List (ResourceKey × SnapshotValue A)) (v : SnapshotValue A)
      → IsCovered (add selected v) v
  add_covers selected v = elim (Option-cases (lookup ResourceKey-discrete v.key selected)) [
    | inl missing ↦
        (v, ground (arith, lookup-put ResourceKey-discrete v.key v.key v selected), ≼_refl v)
    | inr (w, found) ↦ elim (Bool-cases (candidate_precedes w v)) [
      | inl p ↦
          (v, ground (arith, lookup-put ResourceKey-discrete v.key v.key v selected), ≼_refl v)
      | inr p ↦ (w, ground arith, not_precedes→≼ w v p)
    ]
  ]

  add_keeps :
      (selected : List (ResourceKey × SnapshotValue A)) (v u : SnapshotValue A)
      → IsCovered selected u
      → IsCovered (add selected v) u
  add_keeps selected v u (w, found, below) = elim (ResourceKey-discrete v.key u.key) [
    | yes same ↦ elim (Bool-cases (candidate_precedes w v)) [
      | inl p ↦ (
        v,
        ground (arith, lookup-put ResourceKey-discrete v.key u.key v selected),
        ≼_trans u w v below (precedes→≼ w v p),
      )
      | inr p ↦ (w, ground arith, below)
    ]
    | no other ↦ (w, ground (arith, lookup-put ResourceKey-discrete v.key u.key v selected), below)
  ]

  select_from_keeps :
      (selected : List (ResourceKey × SnapshotValue A)) (values : List (SnapshotValue A))
      (u : SnapshotValue A)
      → IsCovered selected u
      → IsCovered (select_from selected values) u
  unfolding select_from
  select_from_keeps selected [] u h = h
  select_from_keeps selected (v ∷ rest) u h =
      select_from_keeps (add selected v) rest u (add_keeps selected v u h)

  select_from_covers :
      (selected : List (ResourceKey × SnapshotValue A)) (values : List (SnapshotValue A))
      → All (IsCovered (select_from selected values)) values
  unfolding select_from
  select_from_covers selected [] = tt
  select_from_covers selected (v ∷ rest) = (
    select_from_keeps (add selected v) rest v (add_covers selected v),
    select_from_covers (add selected v) rest,
  )

  -- what holds of every item of a dictionary
  abbrev pub Items {ℓ} :
      (ResourceKey → SnapshotValue A → Type ℓ) → List (ResourceKey × SnapshotValue A) → Type ℓ
  Items P d = All (λ e. P e.0 e.1) d

  pub put-Items {ℓ} :
      (P : ResourceKey → SnapshotValue A → Type ℓ) (k : ResourceKey) (v : SnapshotValue A)
      (d : List (ResourceKey × SnapshotValue A))
      → P k v
      → Items P d
      → Items P (put ResourceKey-discrete k v d)
  unfolding put
  put-Items P k v [] h i = (h, tt)
  put-Items P k v ((j, w) ∷ d) h (i, is) = elim (ResourceKey-discrete j k) [
    | yes p ↦ rw (if_pos _ p) (h, is)
    | no p ↦ rw (if_neg _ p) (i, put-Items P k v d h is)
  ]

  select_from-Items {ℓ} :
      (P : SnapshotValue A → Type ℓ) (selected : List (ResourceKey × SnapshotValue A))
      (values : List (SnapshotValue A))
      → All P values
      → Items (λ k v. (v.key ≡ k) × P v) selected
      → Items (λ k v. (v.key ≡ k) × P v) (select_from selected values)
  unfolding select_from
  select_from-Items P selected [] h i = i
  select_from-Items P selected (v ∷ rest) (h, hs) i =
      select_from-Items P (add selected v) rest hs
        (added (replaces (lookup ResourceKey-discrete v.key selected) v))
    where
      added :
          (b : Bool)
          → Items
              (λ k w. (w.key ≡ k) × P w)
              (if b then put ResourceKey-discrete v.key v selected else selected)
      added true = put-Items (λ k w. (w.key ≡ k) × P w) v.key v selected (refl, h) i
      added false = i

  select_from-IsDict :
      (selected : List (ResourceKey × SnapshotValue A)) (values : List (SnapshotValue A))
      → IsDict ResourceKey-discrete selected
      → IsDict ResourceKey-discrete (select_from selected values)
  unfolding select_from
  select_from-IsDict selected [] d = d
  select_from-IsDict selected (v ∷ rest) d =
      select_from-IsDict (add selected v) rest
        (ground (arith, put-IsDict ResourceKey-discrete v.key v selected))

  -- Of the values to write, one is selected for each key: no key is selected twice, each selected
  -- value stands under its own key and has every property that all the given values have, and no
  -- given value takes precedence over the one selected for its key.
  pub select_candidates_lem {ℓ} :
      (P : SnapshotValue A → Type ℓ) (values : List (SnapshotValue A))
      → All P values
      → IsDict ResourceKey-discrete (select_candidates values)
        × Items (λ k v. (v.key ≡ k) × P v) (select_candidates values)
        × All (IsCovered (select_candidates values)) values
  unfolding select_candidates
  select_candidates_lem P values h = (
    select_from-IsDict [] values tt,
    select_from-Items P [] values h tt,
    select_from_covers [] values,
  )
