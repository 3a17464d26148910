-- ===== src/Cache/Publisher/Valid.antt =====
-- cache/publisher.py: what a publication leaves in the cache.
use coalestra.Prelude.{ℕ, ℤ, ◌≡◌, ◌≢◌, refl, Bool, Option, none, some, List, [], ◌∷◌, map}
use coalestra.Dict.{unique}
use coalestra.Core.Errors.{Result, ok, raise}
use coalestra.Core.Keys.{ResourceKey, ResourceKey-discrete}
use coalestra.Core.Models.{SnapshotValue, CacheWriteResult}
use coalestra.Cache.State.{Cache}
use coalestra.Cache.Invariant.{IsValid}
use coalestra.Cache.Invariant.Reads.{get_many-IsValid}
use coalestra.Cache.Commit.{Attempt, set_many_if_newer}
use coalestra.Cache.Commit.Total.{set_many_if_newer_total}
use coalestra.Cache.WriteLaws.{set_many_if_newer-IsValid}
use coalestra.Cache.Update.{ResourceUpdate, PublishResult, Selection, no_updates, update_keys}
use coalestra.Cache.Publisher.{
  Publisher, with_policy, select_updates, get_existing, results_from, write_isolated,
  candidates_for, publish_existing, publish_selected, publish_many,
}

module _ {A : Type 0} (p : Publisher A) (meanwhile : Cache A → Cache A)
    (others : ℕ → Cache A → Cache A) (force replace_equal : Bool)
    (kept : (x : Cache A) → IsValid x → IsValid (meanwhile x))
    (keeps : (n : ℕ) (x : Cache A) → IsValid x → IsValid (others n x)) where
  -- It ends, with a valid cache.
  abbrev pub LeavesValid : Option (Cache A × Result (List (ResourceKey × PublishResult A))) → Type 0
  LeavesValid none = ⊥
  LeavesValid (some (c, _)) = IsValid c

  results_from-LeavesValid :
      (us : List (ResourceKey × ResourceUpdate A)) (a : Attempt A)
      → a ≢ none
      → ((out : Cache A × Result (List (ResourceKey × CacheWriteResult A)))
          → a ≡ some out
          → IsValid out.0)
      → LeavesValid (results_from p us a)
  unfolding results_from
  results_from-LeavesValid us none n v = n refl
  results_from-LeavesValid us (some (c, r)) n v = v (c, r) refl

  write_isolated-LeavesValid :
      (us : List (ResourceKey × ResourceUpdate A)) (c : Cache A)
      (isolated : Result (List (SnapshotValue A)))
      → IsValid c
      → LeavesValid (write_isolated p meanwhile others force replace_equal us c isolated)
  unfolding write_isolated
  write_isolated-LeavesValid us c (raise e) v = v
  write_isolated-LeavesValid us c (ok isolated) v =
      results_from-LeavesValid us
        (set_many_if_newer p.cache_isolator force replace_equal others c isolated)
        (set_many_if_newer_total p.cache_isolator force replace_equal others c isolated)
        (λ out e.
          set_many_if_newer-IsValid p.cache_isolator force replace_equal others c isolated keeps v
            e)

  existing-LeavesValid :
      (now : ℤ) (us : List (ResourceKey × ResourceUpdate A))
      (c : Cache A × Result (List (ResourceKey × Option (SnapshotValue A))))
      → IsValid c.0
      → LeavesValid (publish_existing p meanwhile others force replace_equal now us c)
  unfolding publish_existing
  existing-LeavesValid now us (c, raise e) v = v
  existing-LeavesValid now us (c, ok previous) v =
      write_isolated-LeavesValid us (meanwhile c) (candidates_for p now us) (kept c v)

  pub get_existing-IsValid :
      (c : Cache A) (keys : List ResourceKey) (now : ℤ)
      → IsValid c
      → IsValid (get_existing p c keys now).0
  unfolding get_existing
  get_existing-IsValid c keys now v =
      get_many-IsValid p.cache_isolator c keys now (map (with_policy p) keys) v

  selected-LeavesValid :
      (c : Cache A) (now : ℤ) (keys : List ResourceKey) (r : Result (Selection A))
      → IsValid c
      → LeavesValid (publish_selected p meanwhile others force replace_equal c now keys r)
  unfolding publish_selected
  selected-LeavesValid c now keys (raise e) v = v
  selected-LeavesValid c now keys (ok s) v =
      existing-LeavesValid now s.unique_updates (get_existing p c keys now)
        (get_existing-IsValid c keys now v)

  -- If what other tasks do keeps the cache valid, a publication ends and leaves it valid, whether it
  -- answers results or raises.
  pub publish_many-LeavesValid :
      (c : Cache A) (now : ℤ) (updates : List (ResourceUpdate A))
      → IsValid c
      → LeavesValid (publish_many p meanwhile others force replace_equal c now updates)
  unfolding publish_many
  publish_many-LeavesValid c now [] v = v
  publish_many-LeavesValid c now (u ∷ us) v =
      selected-LeavesValid c now (unique ResourceKey-discrete (update_keys (u ∷ us)))
        (select_updates p now no_updates (u ∷ us)) v
