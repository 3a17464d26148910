-- ===== src/Cache/Publisher/Prepared.antt =====
-- cache/publisher.py: what stops a publication before its write, and the keys that it writes.
use coalestra.Prelude.{
  ap, All, ℤ, ◌≡◌, ◌∙◌, inl, inr, refl, true, Bool-cases, List, [], ◌∷◌, arith, any, map,
}
use coalestra.Core.Errors.{Error, source_protocol_error, ok, raise, each, >>=-eq-raise, >>=-eq-ok}
use coalestra.Core.Keys.{ResourceKey}
use coalestra.Core.Models.{SnapshotValue}
use coalestra.Core.Authority.{rank_for}
use coalestra.Cache.State.{copy, copy_metadata, clone_snapshot_value}
use coalestra.Cache.Update.{
  ResourceUpdate, Selection, choose, observed_or, validate_observed_at, value_of,
}
use coalestra.Cache.Publisher.{Publisher, select_updates, prepare_candidate, candidates_for}
use coalestra.Cache.Publisher.Causes.{
  each-raise, each-raise_from, IsUncopied, copy-raise, copy_metadata-raise, clone-raise,
}
use coalestra.Cache.Publisher.Chosen.{IsAmong, IsFrom}
use coalestra.Cache.Publisher.Kept.{keys_of, value_keys}
use coalestra.Cache.Publisher.Rejected.{is_rejected}

-- why a publication of these updates raises this exception
pub data Cause {A : Type 0} (p : Publisher A) (now : ℤ) (us : List (ResourceUpdate A)) (e : Error)
    : Type 0 where
  rejected : e ≡ source_protocol_error → any (is_rejected p now) us ≡ true → Cause p now us e
  unranked :
      (u : ResourceUpdate A)
      → IsAmong us u
      → rank_for p.strip p.authority u.key u.source ≡ raise e
      → Cause p now us e
  unresolved : (u : ResourceUpdate A) → IsAmong us u → p.resolve u.key ≡ raise e → Cause p now us e
  uncopied : IsUncopied p.isolator e → Cause p now us e
  uncopied_by_cache : IsUncopied p.cache_isolator e → Cause p now us e

module _ {A : Type 0} (p : Publisher A) where
  pub select_updates-Cause :
      (now : ℤ) (all us : List (ResourceUpdate A)) (s : Selection A) (e : Error)
      → (any (is_rejected p now) us ≡ true → any (is_rejected p now) all ≡ true)
      → ((v : ResourceUpdate A) → IsAmong us v → IsAmong all v)
      → select_updates p now s us ≡ raise e
      → Cause p now all e
  unfolding select_updates validate_observed_at
  select_updates-Cause now all [] s e part among h = cc h
  select_updates-Cause now all (u ∷ us) s e part among h = elim (Bool-cases (is_rejected p now u)) [
    | inl b ↦ rejected (ground (arith, h, b)) (part (ground (arith, b)))
    | inr b ↦
        elim (>>=-eq-raise
          (validate_observed_at p.observation_policy (observed_or now u.observed_at) now) _ h) [
            | inl failed ↦ absurd (ground (arith, failed, b))
            | inr (_, _, ranked) ↦
                elim (>>=-eq-raise (rank_for p.strip p.authority u.key u.source) _ ranked) [
                  | inl failed ↦ unranked u (among u (inl refl)) failed
                  | inr (rank, _, later) ↦
                      select_updates-Cause now all us (choose now u rank s) e
                        (λ r. part (ground (arith, b, r))) (λ v m. among v (inr m)) later
                ]
          ]
  ]

  prepare_candidate-Cause :
      (now : ℤ) (all : List (ResourceUpdate A)) (x : ResourceKey × ResourceUpdate A) (e : Error)
      → IsFrom all x
      → prepare_candidate p now x ≡ raise e
      → Cause p now all e
  unfolding prepare_candidate
  prepare_candidate-Cause now all (key, u) e (m, same) h = elim (>>=-eq-raise (p.resolve key) _ h) [
    | inl failed ↦ unresolved u m (ap p.resolve same ∙ failed)
    | inr (_, _, resolved) ↦ elim (>>=-eq-raise (copy p.isolator u.value) _ resolved) [
      | inl failed ↦ uncopied (copy-raise p.isolator u.value e failed)
      | inr (_, _, copied) ↦
          elim (>>=-eq-raise (rank_for p.strip p.authority key u.source) _ copied) [
            | inl failed ↦
                unranked u m (ap (λ k. rank_for p.strip p.authority k u.source) same ∙ failed)
            | inr (_, _, ranked) ↦ elim (>>=-eq-raise (copy_metadata p.isolator _) _ ranked) [
              | inl failed ↦ uncopied (copy_metadata-raise p.isolator _ e failed)
              | inr (_, _, done) ↦ cc done
            ]
          ]
    ]
  ]

  pub candidates_for-Cause :
      (now : ℤ) (all : List (ResourceUpdate A)) (us : List (ResourceKey × ResourceUpdate A))
      (e : Error)
      → All (IsFrom all) us
      → candidates_for p now us ≡ raise e
      → Cause p now all e
  unfolding candidates_for
  candidates_for-Cause now all us e from h =
      elim (>>=-eq-raise (each (prepare_candidate p now) us) _ h) [
        | inl failed ↦
            each-raise_from (IsFrom all) (Cause p now all) (prepare_candidate p now)
              (λ x m y r. prepare_candidate-Cause now all x y m r) us e from failed
        | inr (items, _, later) ↦ uncopied (
            each-raise (IsUncopied p.isolator) (clone_snapshot_value p.isolator)
              (clone-raise p.isolator) (map value_of items) e later)
      ]

  prepare_candidate-key :
      (now : ℤ) (x : ResourceKey × ResourceUpdate A) (y : ResourceKey × SnapshotValue A)
      → prepare_candidate p now x ≡ ok y
      → (y.0 ≡ x.0) × (y.1.key ≡ x.0)
  unfolding prepare_candidate
  prepare_candidate-key now (key, u) y h =
      let (_, _, resolved) = >>=-eq-ok (p.resolve key) _ h in
      let (_, _, copied) = >>=-eq-ok (copy p.isolator u.value) _ resolved in
      let (_, _, ranked) = >>=-eq-ok (rank_for p.strip p.authority key u.source) _ copied in
      let (_, _, last) = >>=-eq-ok (copy_metadata p.isolator _) _ ranked in
      (ground (arith, last), ground (arith, last))

  prepared-keys :
      (now : ℤ) (us : List (ResourceKey × ResourceUpdate A))
      (items : List (ResourceKey × SnapshotValue A))
      → each (prepare_candidate p now) us ≡ ok items
      → value_keys (map value_of items) ≡ keys_of us
  unfolding each
  prepared-keys now [] items h = ground (arith, h)
  prepared-keys now ((k, u) ∷ us) items h =
      let ((j, w), first, others) = >>=-eq-ok (prepare_candidate p now (k, u)) _ h in
      let (rest, later, last) = >>=-eq-ok (each (prepare_candidate p now) us) _ others in
      ground (
        arith,
        prepare_candidate-key now (k, u) (j, w) first,
        prepared-keys now us rest later,
        last,
      )

  clone-key : (v w : SnapshotValue A) → clone_snapshot_value p.isolator v ≡ ok w → w.key ≡ v.key
  unfolding clone_snapshot_value
  clone-key v w h =
      let (_, _, others) = >>=-eq-ok (copy p.isolator v.value) _ h in
      let (_, _, last) = >>=-eq-ok (copy_metadata p.isolator v.metadata) _ others in
      ground (arith, last)

  cloned-keys :
      (vs ws : List (SnapshotValue A))
      → each (clone_snapshot_value p.isolator) vs ≡ ok ws
      → value_keys ws ≡ value_keys vs
  unfolding each
  cloned-keys [] ws h = ground (arith, h)
  cloned-keys (v ∷ vs) ws h =
      let (w, first, others) = >>=-eq-ok (clone_snapshot_value p.isolator v) _ h in
      let (rest, later, last) = >>=-eq-ok (each (clone_snapshot_value p.isolator) vs) _ others in
      ground (arith, clone-key v w first, cloned-keys vs rest later, last)

  -- The values to write have the keys of the updates.
  pub candidates_for-keys :
      (now : ℤ) (us : List (ResourceKey × ResourceUpdate A)) (isolated : List (SnapshotValue A))
      → candidates_for p now us ≡ ok isolated
      → value_keys isolated ≡ keys_of us
  unfolding candidates_for
  candidates_for-keys now us isolated h =
      let (items, first, later) = >>=-eq-ok (each (prepare_candidate p now) us) _ h in
      cloned-keys (map value_of items) isolated later ∙ prepared-keys now us items first
