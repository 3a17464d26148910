-- ===== src/Cache/Invariant/Removal.antt =====
-- cache/memory.py: invalidation, pruning and clearing, with the invariant of the cache.
use coalestra.Prelude.{
  ℕ, ℤ, ◌+◌, ◌≤◌, ◌≡◌, refl, ◌∙◌, Bool, false, Option, none, some, List, [], ◌∷◌, arith, inl, inr,
  length, Option-cases, monus, if◌then◌else◌, ite,
}
use coalestra.Dict.{lookup, pop, contains, unique, IsDict}
use coalestra.Dict.Laws.{lookup-pop, pop-IsDict, length-pop, length-pop-le}
use coalestra.Dict.Keys.{contains-unique}
use coalestra.Core.Keys.{ResourceKey, ResourceKey-discrete}
use coalestra.Core.Numbers.{exceeds}
use coalestra.Core.Models.{SnapshotValue, FreshnessPolicy}
use coalestra.Cache.State.{Cache}
use coalestra.Cache.Dependencies.Spec.{IsKeyed}
use coalestra.Cache.Removal.{
  invalidate_one, invalidate_all, invalidate_many, matching, pop_all, invalidate_matching, prune,
}
use coalestra.Cache.Invariant.{IsValid, Fits-le, pop-IsKeyed}

module _ {A : Type 0} where
  lookup-pop_all :
      (q : ResourceKey) (ks : List ResourceKey) (d : List (ResourceKey × SnapshotValue A))
      → lookup ResourceKey-discrete q (pop_all ks d)
        ≡ (if contains ResourceKey-discrete q ks then none else lookup ResourceKey-discrete q d)
  unfolding pop_all contains
  lookup-pop_all q [] d = refl
  lookup-pop_all q (k ∷ ks) d = ground (
    arith,
    lookup-pop_all q ks (pop ResourceKey-discrete k d),
    lookup-pop ResourceKey-discrete k q d,
  )

  pop_all-IsDict :
      (ks : List ResourceKey) (d : List (ResourceKey × SnapshotValue A))
      → IsDict ResourceKey-discrete d
      → IsDict ResourceKey-discrete (pop_all ks d)
  unfolding pop_all
  pop_all-IsDict [] d i = i
  pop_all-IsDict (k ∷ ks) d i =
      pop_all-IsDict ks (pop ResourceKey-discrete k d) (pop-IsDict ResourceKey-discrete k d i)

  pop_all-IsKeyed :
      (ks : List ResourceKey) (d : List (ResourceKey × SnapshotValue A))
      → IsKeyed d
      → IsKeyed (pop_all ks d)
  unfolding pop_all
  pop_all-IsKeyed [] d h = h
  pop_all-IsKeyed (k ∷ ks) d h =
      pop_all-IsKeyed ks (pop ResourceKey-discrete k d) (pop-IsKeyed k d h)

  length-pop_all-le :
      (ks : List ResourceKey) (d : List (ResourceKey × SnapshotValue A))
      → length (pop_all ks d) ≤ length d
  unfolding pop_all
  length-pop_all-le [] d = omega arith
  length-pop_all-le (k ∷ ks) d = omega (
    arith,
    length-pop_all-le ks (pop ResourceKey-discrete k d),
    length-pop-le ResourceKey-discrete k d,
  )

  -- what a test leaves of what stands under a key
  abbrev pub kept : (SnapshotValue A → Bool) → Option (SnapshotValue A) → Option (SnapshotValue A)
  kept test none = none
  kept test (some v) = if test v then none else some v

  contains-matching :
      (test : ResourceKey → SnapshotValue A → Bool) (q : ResourceKey)
      (d : List (ResourceKey × SnapshotValue A))
      → IsDict ResourceKey-discrete d
      → contains ResourceKey-discrete q (matching test d)
        ≡ elim (lookup ResourceKey-discrete q d) [ none ↦ false | some v ↦ test q v ]
  unfolding matching lookup contains
  contains-matching test q [] i = refl
  contains-matching test q ((k, v) ∷ d) (new, i) = ground (arith, contains-matching test q d i)

  lookup-pop_all-matching :
      (test : ResourceKey → SnapshotValue A → Bool) (q : ResourceKey)
      (d : List (ResourceKey × SnapshotValue A))
      → IsDict ResourceKey-discrete d
      → lookup ResourceKey-discrete q (pop_all (matching test d) d)
        ≡ kept (test q) (lookup ResourceKey-discrete q d)
  lookup-pop_all-matching test q d i =
      ground (arith, lookup-pop_all q (matching test d) d, contains-matching test q d i)

  removed-IsValid :
      (c : Cache A) (ks : List ResourceKey) (n m : ℕ)
      → IsValid c
      → IsValid (record c { entries = pop_all ks c.entries; invalidations = n; expirations = m })
  removed-IsValid c ks n m v = record {
    distinct = pop_all-IsDict ks c.entries v.distinct;
    keyed = pop_all-IsKeyed ks c.entries v.keyed;
    bounded = Fits-le c.max_entries (length-pop_all-le ks c.entries) v.bounded;
    counted = v.counted;
  }

  -- `prune` removes exactly the entries that are older than their key's stale window, reports
  -- exactly their keys, and leaves a valid cache.
  pub prune_lem :
      (c : Cache A) (now : ℤ) (resolve : ResourceKey → FreshnessPolicy) (q : ResourceKey)
      → IsValid c
      → let (c', removed) = prune c now resolve in
        let expired = λ (v : SnapshotValue A).
          exceeds (monus now v.observed_at) (resolve q).max_stale_seconds in
        IsValid c'
        × (lookup ResourceKey-discrete q c'.entries
            ≡ kept expired (lookup ResourceKey-discrete q c.entries))
        × (contains ResourceKey-discrete q removed
            ≡ elim (lookup ResourceKey-discrete q c.entries) [ none ↦ false | some v ↦ expired v ])
  unfolding prune
  prune_lem c now resolve q v = (
    removed-IsValid c
        (matching (λ k u. exceeds (monus now u.observed_at) (resolve k).max_stale_seconds)
          c.entries)
        c.invalidations _ v,
    lookup-pop_all-matching _ q c.entries v.distinct,
    contains-matching _ q c.entries v.distinct,
  )

  -- `invalidate_matching` removes exactly the entries whose key the predicate accepts, reports
  -- exactly those keys that were cached, and leaves a valid cache.
  pub invalidate_matching_lem :
      (c : Cache A) (predicate : ResourceKey → Bool) (q : ResourceKey)
      → IsValid c
      → let (c', removed) = invalidate_matching c predicate in
        IsValid c'
        × (lookup ResourceKey-discrete q c'.entries
            ≡ (if predicate q then none else lookup ResourceKey-discrete q c.entries))
        × (contains ResourceKey-discrete q removed
            ≡ elim (lookup ResourceKey-discrete q c.entries) [
              | none ↦ false
              | some v ↦ predicate q
            ])
  unfolding invalidate_matching
  invalidate_matching_lem c predicate q v = (
    removed-IsValid c (matching (λ k _. predicate k) c.entries) _ c.expirations v,
    ground (arith, lookup-pop_all-matching (λ k _. predicate k) q c.entries v.distinct),
    contains-matching _ q c.entries v.distinct,
  )

  invalidate_one_lem :
      (c : Cache A) (k q : ResourceKey)
      → IsValid c
      → IsValid (invalidate_one c k)
        × (lookup ResourceKey-discrete q (invalidate_one c k).entries
            ≡ ite (ResourceKey-discrete k q) none (lookup ResourceKey-discrete q c.entries))
        × (length (invalidate_one c k).entries + (invalidate_one c k).invalidations
            ≡ length c.entries + c.invalidations)
  unfolding invalidate_one
  invalidate_one_lem c k q v = elim (Option-cases (lookup ResourceKey-discrete k c.entries)) [
    | inl missing ↦ rw (missing, invalidate_one) (v, ground arith, refl)
    | inr (w, found) ↦
        rw (found, invalidate_one)
          (
            record {
              distinct = pop-IsDict ResourceKey-discrete k c.entries v.distinct;
              keyed = pop-IsKeyed k c.entries v.keyed;
              bounded =
                  Fits-le c.max_entries (length-pop-le ResourceKey-discrete k c.entries) v.bounded;
              counted = v.counted;
            },
            lookup-pop ResourceKey-discrete k q c.entries,
            omega (arith, length-pop ResourceKey-discrete k w c.entries v.distinct found),
          )
  ]

  invalidate_all_lem :
      (c : Cache A) (ks : List ResourceKey) (q : ResourceKey)
      → IsValid c
      → IsValid (invalidate_all c ks)
        × (lookup ResourceKey-discrete q (invalidate_all c ks).entries ≡ (
            if contains ResourceKey-discrete q ks
            then none
            else lookup ResourceKey-discrete q c.entries))
        × (length (invalidate_all c ks).entries + (invalidate_all c ks).invalidations
            ≡ length c.entries + c.invalidations)
  unfolding invalidate_all contains
  invalidate_all_lem c [] q v = (v, refl, refl)
  invalidate_all_lem c (k ∷ ks) q v =
      let (v1, at1, n1) = invalidate_one_lem c k q v in
      let (v2, at2, n2) = invalidate_all_lem (invalidate_one c k) ks q v1 in
      (v2, ground (arith, at1, at2), n2 ∙ n1)

  -- `invalidate_many` removes exactly the entries under the given keys, counts each removal once
  -- however often a key is given, and leaves a valid cache.
  pub invalidate_many_lem :
      (c : Cache A) (ks : List ResourceKey) (q : ResourceKey)
      → IsValid c
      → let c' = invalidate_many c ks in
        IsValid c'
        × (lookup ResourceKey-discrete q c'.entries ≡ (
            if contains ResourceKey-discrete q ks
            then none
            else lookup ResourceKey-discrete q c.entries))
        × (length c'.entries + c'.invalidations ≡ length c.entries + c.invalidations)
  unfolding invalidate_many
  invalidate_many_lem c ks q v =
      let (v', at, n) = invalidate_all_lem c (unique ResourceKey-discrete ks) q v in
      (v', rw (contains-unique ResourceKey-discrete q ks) at at, n)
