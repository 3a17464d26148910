-- ===== src/Cache/Invariant/Reads.antt =====
-- cache/memory.py: reads, with the invariant of the cache.
use coalestra.Prelude.{ℤ, ◌+◌, ◌≡◌, Bool, some, List, [], ◌∷◌, arith}
use coalestra.Dict.{lookup, unique}
use coalestra.Dict.Laws.{pop-IsDict, to_end-IsDict, length-pop-le, length-to_end}
use coalestra.Core.Keys.{ResourceKey, ResourceKey-discrete}
use coalestra.Core.Models.{FreshnessPolicy, SnapshotValue}
use coalestra.Cache.State.{Cache, Copier}
use coalestra.Cache.Reads.{
  drop_invalid, drop_expired, touch, read_one, read_all, get_many, with_policies, read_policies,
}
use coalestra.Cache.Reads.Cases.{read_one_cases}
use coalestra.Core.Errors.{Result, ok, raise}
use coalestra.Cache.Invariant.{IsValid, Fits-le, pop-IsKeyed, to_end-IsKeyed}

module _ {A : Type 0} where
  drop_invalid-IsValid : (c : Cache A) (k : ResourceKey) → IsValid c → IsValid (drop_invalid c k)
  drop_invalid-IsValid c k v = record {
    distinct = pop-IsDict ResourceKey-discrete k c.entries v.distinct;
    keyed = pop-IsKeyed k c.entries v.keyed;
    bounded = Fits-le c.max_entries (length-pop-le ResourceKey-discrete k c.entries) v.bounded;
    counted = v.counted;
  }

  drop_expired-IsValid : (c : Cache A) (k : ResourceKey) → IsValid c → IsValid (drop_expired c k)
  drop_expired-IsValid c k v =
      let d = drop_invalid-IsValid c k v in
      record { distinct = d.distinct; keyed = d.keyed; bounded = d.bounded; counted = v.counted }

  touch-IsValid :
      (c : Cache A) (k : ResourceKey) (w : SnapshotValue A) (fresh : Bool)
      → lookup ResourceKey-discrete k c.entries ≡ some w
      → IsValid c
      → IsValid (touch c k w fresh)
  touch-IsValid c k w fresh found v = record {
    distinct = to_end-IsDict ResourceKey-discrete k w c.entries v.distinct;
    keyed = to_end-IsKeyed k w c.entries (v.keyed k w found) v.keyed;
    bounded =
        Fits-le c.max_entries
          (omega (arith, length-to_end ResourceKey-discrete k w w c.entries v.distinct found))
          v.bounded;
    counted = ground (arith, v.counted);
  }

  miss-IsValid : (c : Cache A) → IsValid c → IsValid (record c { misses = c.misses + 1 })
  miss-IsValid c v = record {
    distinct = v.distinct;
    keyed = v.keyed;
    bounded = v.bounded;
    counted = v.counted;
  }

  -- Reading one key, whatever the outcome, keeps the cache valid.
  pub read_one-IsValid :
      (c : Cache A) (now : ℤ) (policy : FreshnessPolicy) (k : ResourceKey)
      → IsValid c
      → IsValid (read_one c now policy k).0
  read_one-IsValid c now policy k v =
      read_one_cases c now policy k (λ r. IsValid r.0) (λ _. miss-IsValid c v)
        (λ _ _ _. drop_invalid-IsValid c k v) (λ _ _ _ _. drop_expired-IsValid c k v)
        (λ w found _ _. touch-IsValid c k w _ found v)

  pub read_all-IsValid :
      (c : Cache A) (now : ℤ) (wanted : List (ResourceKey × FreshnessPolicy))
      → IsValid c
      → IsValid (read_all c now wanted).0
  unfolding read_all
  read_all-IsValid c now [] v = v
  read_all-IsValid c now ((k, policy) ∷ rest) v =
      read_all-IsValid (read_one c now policy k).0 now rest (read_one-IsValid c now policy k v)

  -- `get_many` keeps the invariant, whether it answers or raises.
  pub get_many-IsValid :
      (copier : Copier A) (c : Cache A) (keys : List ResourceKey) (now : ℤ)
      (policies : List (ResourceKey × FreshnessPolicy))
      → IsValid c
      → IsValid (get_many copier c keys now policies).0
  unfolding get_many
  get_many-IsValid copier c keys now policies v =
      answered (with_policies policies (unique ResourceKey-discrete keys))
    where
      answered : (r : Result _) → IsValid (read_policies copier c now r).0
      answered (raise e) = v
      answered (ok wanted) = read_all-IsValid c now wanted v
