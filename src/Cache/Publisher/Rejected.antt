-- ===== src/Cache/Publisher/Rejected.antt =====
-- cache/publisher.py: observations from the future.
use coalestra.Prelude.{
  ℕ, ℤ, ◌≡◌, refl, ap, Bool, true, ◌&&◌, some, List, [], ◌∷◌, arith, All, any, ltb, monus,
  Bool-cases, inl, inr,
}
use coalestra.Dict.{unique}
use coalestra.Core.Errors.{source_protocol_error, ok, raise}
use coalestra.Core.Keys.{ResourceKey-discrete}
use coalestra.Core.Authority.{rank_for}
use coalestra.Cache.State.{Cache}
use coalestra.Cache.Update.{
  ResourceUpdate, Selection, choose, observed_or, validate_observed_at, no_updates, update_keys,
}
use coalestra.Cache.Publisher.{Publisher, select_updates, publish_selected, publish_many}

module _ {A : Type 0} (p : Publisher A) (now : ℤ) where
  -- The update was observed further in the future than tolerated, where that is rejected.
  abbrev pub is_rejected : ResourceUpdate A → Bool
  is_rejected u =
      ltb p.observation_policy.future_tolerance_seconds (monus (observed_or now u.observed_at) now)
      && p.observation_policy.reject_future_observations

  -- The source of the update has a rank.
  abbrev pub IsRanked : ResourceUpdate A → Type 0
  IsRanked u = (rank : ℤ) × (rank_for p.strip p.authority u.key u.source ≡ ok rank)

  select_updates-rejected :
      (us : List (ResourceUpdate A)) (s : Selection A)
      → All IsRanked us
      → any is_rejected us ≡ true
      → select_updates p now s us ≡ raise source_protocol_error
  unfolding select_updates validate_observed_at
  select_updates-rejected [] s r h = cc
  select_updates-rejected (u ∷ us) s ((rank, e), r) h = elim (Bool-cases (is_rejected u)) [
    | inl b ↦ rw b refl
    | inr b ↦ rw (b, e) (select_updates-rejected us (choose now u rank s) r (ground (arith, h, b)))
  ]

  -- Where every source has a rank, one update that was observed further in the future than tolerated
  -- has the whole publication raise a SourceProtocolError and leaves the cache as it was.
  pub publish_many-rejected :
      (meanwhile : Cache A → Cache A) (others : ℕ → Cache A → Cache A) (force replace_equal : Bool)
      (c : Cache A) (updates : List (ResourceUpdate A))
      → All IsRanked updates
      → any is_rejected updates ≡ true
      → publish_many p meanwhile others force replace_equal c now updates
        ≡ some (c, raise source_protocol_error)
  unfolding publish_many publish_selected
  publish_many-rejected meanwhile others force replace_equal c [] r h = cc
  publish_many-rejected meanwhile others force replace_equal c (u ∷ us) r h =
      ap
        (publish_selected p meanwhile others force replace_equal c now
          (unique ResourceKey-discrete (update_keys (u ∷ us))))
        (select_updates-rejected (u ∷ us) no_updates r h)
