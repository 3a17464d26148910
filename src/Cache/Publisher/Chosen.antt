-- ===== src/Cache/Publisher/Chosen.antt =====
-- cache/publisher.py: the updates that the first loop of `publish_many` chooses are given ones.
use coalestra.Prelude.{
  ℤ, subst, ite, ◌≡◌, ◌⊎◌, inl, inr, refl, Bool-cases, List, [], ◌∷◌, All, arith,
}
use coalestra.Dict.{lookup, put}
use coalestra.Core.Errors.{ok, >>=-eq-ok}
use coalestra.Core.Keys.{ResourceKey, ResourceKey-discrete}
use coalestra.Core.Authority.{rank_for}
use coalestra.Cache.Update.{
  ResourceUpdate, Selection, choose, takes_precedence, observed_or, validate_observed_at,
}
use coalestra.Cache.Publisher.{Publisher, select_updates}

put-All :
    {V : Type 0} (P : ResourceKey × V → Type 0) (k : ResourceKey) (v : V)
    (d : List (ResourceKey × V))
    → P (k, v)
    → All P d
    → All P (put ResourceKey-discrete k v d)
unfolding put
put-All P k v [] h hs = (h, tt)
put-All P k v ((j, w) ∷ d) h (x, hs) = chosen (ResourceKey-discrete j k) (put-All P k v d h hs)
  where
    chosen :
        (t : Dec (j ≡ k))
        → All P (put ResourceKey-discrete k v d)
        → All P (ite t ((k, v) ∷ d) ((j, w) ∷ put ResourceKey-discrete k v d))
    chosen (yes _) later = (h, hs)
    chosen (no _) later = (x, later)

module _ {A : Type 0} where
  -- The update is one of these.
  abbrev pub IsAmong : List (ResourceUpdate A) → ResourceUpdate A → Type 0
  IsAmong [] u = ⊥
  IsAmong (v ∷ vs) u = (v ≡ u) ⊎ IsAmong vs u

  -- The update is one of these, under its key.
  abbrev pub IsFrom : List (ResourceUpdate A) → ResourceKey × ResourceUpdate A → Type 0
  IsFrom us (k, u) = IsAmong us u × (u.key ≡ k)

  choose-IsFrom :
      (all : List (ResourceUpdate A)) (now rank : ℤ) (u : ResourceUpdate A) (s : Selection A)
      → IsAmong all u
      → All (IsFrom all) s.unique_updates
      → All (IsFrom all) (choose now u rank s).unique_updates
  unfolding choose
  choose-IsFrom all now rank u s m h =
      elim (Bool-cases (
        takes_precedence (lookup ResourceKey-discrete u.key s.effective_precedence) rank
          (observed_or now u.observed_at))) [
            | inl e ↦ rw e (put-All (IsFrom all) u.key u s.unique_updates (m, refl) h)
            | inr e ↦ rw e h
          ]

  module _ (p : Publisher A) (all : List (ResourceUpdate A)) where
    pub select_updates-IsFrom :
        (now : ℤ) (s s' : Selection A) (us : List (ResourceUpdate A))
        → ((u : ResourceUpdate A) → IsAmong us u → IsAmong all u)
        → All (IsFrom all) s.unique_updates
        → select_updates p now s us ≡ ok s'
        → All (IsFrom all) s'.unique_updates
    unfolding select_updates
    select_updates-IsFrom now s s' [] part h e =
        let same : s ≡ s' = ground (arith, e) in
        subst (λ (r : Selection A). All (IsFrom all) r.unique_updates) same h
    select_updates-IsFrom now s s' (u ∷ us) part h e =
        let (_, _, ranked) =
          >>=-eq-ok (validate_observed_at p.observation_policy (observed_or now u.observed_at) now)
            _ e in
        let (rank, _, later) = >>=-eq-ok (rank_for p.strip p.authority u.key u.source) _ ranked in
        select_updates-IsFrom now (choose now u rank s) s' us (λ v m. part v (inr m))
          (choose-IsFrom all now rank u s (part u (inl refl)) h) later
