-- ===== src/Consistency/Skew.antt =====
-- core/consistency.py: the search for a violation, against all pairs of resolved resources.
use coalestra.Prelude.{
  ℤ, pos, ◌≤◌, ◌≤ℤ◌, ◌≡◌, ◌↔◌, inl, inr, refl, true, Option, none, some, List, [], ◌∷◌, arith, All,
  monus, ltb_ℤ, Bool-cases, if◌then◌else◌, subst,
}
use coalestra.Dict.{lookup, unique, contains}
use coalestra.Dict.Keys.{contains-unique}
use coalestra.Core.Keys.{ResourceKey, ResourceKey-discrete}
use coalestra.Core.Models.{SnapshotValue}
use coalestra.Consistency.{
  SnapshotConsistencyPolicy, Item, item_keys, if_found, observed, resolve, oldest, newest,
  skew_violation, skew_among, find_observation_skew_violation,
}

trans_ℤ : (a b c : ℤ) → a ≤ℤ b → b ≤ℤ c → a ≤ℤ c
trans_ℤ a b c h g = omega arith

module _ {A : Type 0} where
  oldest-among :
      (P : Item A → Type 0) (e : Item A) (items : List (Item A))
      → P e
      → All P items
      → P (oldest e items)
  unfolding oldest
  oldest-among P e [] p h = p
  oldest-among P e (f ∷ items) p (q, h) = elim (Bool-cases (ltb_ℤ (observed f) (observed e))) [
    | inl b ↦ rw b (oldest-among P f items q h)
    | inr b ↦ rw b (oldest-among P e items p h)
  ]

  newest-among :
      (P : Item A → Type 0) (e : Item A) (items : List (Item A))
      → P e
      → All P items
      → P (newest e items)
  unfolding newest
  newest-among P e [] p h = p
  newest-among P e (f ∷ items) p (q, h) = elim (Bool-cases (ltb_ℤ (observed e) (observed f))) [
    | inl b ↦ rw b (newest-among P f items q h)
    | inr b ↦ rw b (newest-among P e items p h)
  ]

  pick_old :
      (e f : Item A)
      → (observed (if ltb_ℤ (observed f) (observed e) then f else e) ≤ℤ observed e)
        × (observed (if ltb_ℤ (observed f) (observed e) then f else e) ≤ℤ observed f)
  pick_old e f = ground arith

  pick_new :
      (e f : Item A)
      → (observed e ≤ℤ observed (if ltb_ℤ (observed e) (observed f) then f else e))
        × (observed f ≤ℤ observed (if ltb_ℤ (observed e) (observed f) then f else e))
  pick_new e f = ground arith

  oldest_le :
      (o e : Item A) (items : List (Item A))
      → oldest e items ≡ o
      → (observed o ≤ℤ observed e) × All (λ f. observed o ≤ℤ observed f) items
  unfolding oldest
  oldest_le o e [] p = (ground (arith, p), tt)
  oldest_le o e (f ∷ items) p =
      let best = if ltb_ℤ (observed f) (observed e) then f else e in
      let rest = oldest_le o best items p in
      let pick = pick_old e f in
      (
        trans_ℤ (observed o) (observed best) (observed e) rest.0 pick.0,
        (trans_ℤ (observed o) (observed best) (observed f) rest.0 pick.1, rest.1),
      )

  le_newest :
      (n e : Item A) (items : List (Item A))
      → newest e items ≡ n
      → (observed e ≤ℤ observed n) × All (λ f. observed f ≤ℤ observed n) items
  unfolding newest
  le_newest n e [] p = (ground (arith, p), tt)
  le_newest n e (f ∷ items) p =
      let best = if ltb_ℤ (observed e) (observed f) then f else e in
      let rest = le_newest n best items p in
      let pick = pick_new e f in
      (
        trans_ℤ (observed e) (observed best) (observed n) pick.0 rest.0,
        (trans_ℤ (observed f) (observed best) (observed n) pick.1 rest.0, rest.1),
      )

  violation_iff :
      (policy : SnapshotConsistencyPolicy) (keys : List ResourceKey) (old new : Item A)
      → (skew_violation policy keys old new ≡ none)
        ↔ (monus (observed new) (observed old) ≤ policy.max_observation_skew_seconds)
  unfolding skew_violation
  violation_iff policy keys old new = ground arith

module _ {A : Type 0} {P Q : A → Type 0} (f : (a : A) → P a → Q a) where
  All-map : (xs : List A) → All P xs → All Q xs
  All-map [] h = tt
  All-map (x ∷ xs) (p, h) = (f x p, All-map xs h)

module _ {A : Type 0} (P : Item A → Type 0) (k : ResourceKey) where
  found-All :
      (o : Option (SnapshotValue A)) (items : List (Item A))
      → ((v : SnapshotValue A) → o ≡ some v → P (k, v))
      → All P items
      → All P (if_found k o items)
  found-All none items h g = g
  found-All (some v) items h g = (h v refl, g)

  All-found :
      (o : Option (SnapshotValue A)) (items : List (Item A))
      → All P (if_found k o items)
      → ((v : SnapshotValue A) → o ≡ some v → P (k, v)) × All P items
  All-found none items g = (λ v e. cc, g)
  All-found (some v) items (p, g) = (λ w e. subst (λ x. P (k, x)) (ground (arith, e)) p, g)

module _ {A : Type 0} (resources : List (Item A)) where
  -- the item of a key that was asked for
  abbrev pub IsResolved : List ResourceKey → Item A → Type 0
  IsResolved keys e =
      (contains ResourceKey-discrete e.0 keys ≡ true)
      × (lookup ResourceKey-discrete e.0 resources ≡ some e.1)

  IsResolved-here :
      (k : ResourceKey) (keys : List ResourceKey) (e : Item A)
      → IsResolved keys e
      → IsResolved (k ∷ keys) e
  unfolding contains
  IsResolved-here k keys e h = ground (arith, h)

  resolve-All : (keys : List ResourceKey) → All (IsResolved keys) (resolve resources keys)
  unfolding resolve contains
  resolve-All [] = tt
  resolve-All (k ∷ keys) =
      let others = All-map (IsResolved-here k keys) (resolve resources keys) (resolve-All keys) in
      found-All (IsResolved (k ∷ keys)) k (lookup ResourceKey-discrete k resources)
        (resolve resources keys) (λ v e. (ground arith, e)) others

  all-resolved :
      (P : Item A → Type 0) (keys : List ResourceKey)
      → All P (resolve resources keys)
      → (e : Item A) → IsResolved keys e
      → P e
  unfolding resolve contains
  all-resolved P [] h e (i, l) = cc
  all-resolved P (k ∷ keys) h e (i, l) =
      let parts =
        All-found P k (lookup ResourceKey-discrete k resources) (resolve resources keys) h in
      elim (ResourceKey-discrete k e.0) [
        | yes same ↦ subst (λ q. P (q, e.1)) same (parts.0 e.1 (ground (arith, same, l)))
        | no other ↦ all-resolved P keys parts.1 e (ground (arith, i, other), l)
      ]

module _ {A : Type 0} (policy : SnapshotConsistencyPolicy) where
  -- items without a violation lie between two times within the limit
  spread :
      (items : List (Item A))
      → skew_among policy items ≡ none
      → (low : ℤ) × (high : ℤ) × (monus high low ≤ policy.max_observation_skew_seconds)
        × All (λ e. low ≤ℤ observed e) items
        × All (λ e. observed e ≤ℤ high) items
  unfolding skew_among
  spread [] h = (pos 0, pos 0, omega arith, tt, tt)
  spread (e ∷ []) h = (observed e, observed e, omega arith, (omega arith, tt), (omega arith, tt))
  spread (e ∷ f ∷ items) h =
      let o = oldest e (f ∷ items) in
      let n = newest e (f ∷ items) in
      (
        observed o,
        observed n,
        (violation_iff policy (item_keys (e ∷ f ∷ items)) o n).0 h,
        oldest_le o e (f ∷ items) refl,
        le_newest n e (f ∷ items) refl,
      )

  unspread :
      (P : Item A → Type 0) (items : List (Item A))
      → All P items
      → ((e f : Item A)
          → P e
          → P f
          → monus (observed e) (observed f) ≤ policy.max_observation_skew_seconds)
      → skew_among policy items ≡ none
  unfolding skew_among
  unspread P [] h g = refl
  unspread P (e ∷ []) h g = refl
  unspread P (e ∷ f ∷ items) (p, h) g =
      let o = oldest e (f ∷ items) in
      let n = newest e (f ∷ items) in
      (violation_iff policy (item_keys (e ∷ f ∷ items)) o n).1
        (g n o (newest-among P e (f ∷ items) p h) (oldest-among P e (f ∷ items) p h))

  -- No violation is found exactly when no two resources, of the keys asked for that are resolved,
  -- were observed further apart than the limit.
  pub no_violation_iff :
      (resources : List (Item A)) (keys : List ResourceKey)
      → (find_observation_skew_violation resources keys policy ≡ none) ↔ (
          (e f : Item A)
          → IsResolved resources keys e
          → IsResolved resources keys f
          → monus (observed e) (observed f) ≤ policy.max_observation_skew_seconds)
  unfolding find_observation_skew_violation
  no_violation_iff resources keys =
      let once = unique ResourceKey-discrete keys in
      let asked = λ (e : Item A). contains-unique ResourceKey-discrete e.0 keys in
      (
        λ h e f i j.
            let (low, high, close, below, above) = spread (resolve resources once) h in
            let lower =
              all-resolved resources (λ x. low ≤ℤ observed x) once below f
                (ground (arith, asked f, j)) in
            let upper =
              all-resolved resources (λ x. observed x ≤ℤ high) once above e
                (ground (arith, asked e, i)) in
            omega (arith, lower, upper, close),
        λ g.
            unspread (IsResolved resources once) (resolve resources once)
              (resolve-All resources once)
              (λ e f i j. g e f (ground (arith, asked e, i)) (ground (arith, asked f, j))),
      )
