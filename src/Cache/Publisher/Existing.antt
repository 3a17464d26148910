-- ===== src/Cache/Publisher/Existing.antt =====
-- cache/publisher.py: what the read of a publication raises.
use coalestra.Prelude.{
  ℤ, ◌≡◌, ◌≢◌, ◌⊎◌, ◌∙◌, inl, inr, refl, sym, true, Option, none, some, List, [], ◌∷◌, arith, map,
  Option-cases,
}
use coalestra.Dict.{lookup, contains, unique}
use coalestra.Dict.Keys.{contains-unique}
use coalestra.Core.Errors.{Error, Result, ok, raise, each, ◌>>=◌, >>=-eq-raise}
use coalestra.Core.Keys.{ResourceKey, ResourceKey-discrete}
use coalestra.Core.Models.{FreshnessPolicy, SnapshotValue, CacheLookup}
use coalestra.Cache.State.{Cache, Copier, clone_snapshot_value}
use coalestra.Cache.Reads.{
  with_policies, clone_found, clone_lookup, read_policies, read_all, get_many,
}
use coalestra.Cache.Publisher.{Publisher, with_policy, copy_found, copy_existing, get_existing}
use coalestra.Cache.Publisher.Causes.{each-raise, IsUncopied, clone-raise}

first_contained :
    (k : ResourceKey) (ks : List ResourceKey) → contains ResourceKey-discrete k (k ∷ ks) ≡ true
unfolding contains
first_contained k ks = ground arith

others_contained :
    (k q : ResourceKey) (ks : List ResourceKey)
    → contains ResourceKey-discrete q ks ≡ true
    → contains ResourceKey-discrete q (k ∷ ks) ≡ true
unfolding contains
others_contained k q ks h = ground (arith, h)

-- Where every key that is asked for has a policy, there is no KeyError.
with_policies-raise :
    (policies : List (ResourceKey × FreshnessPolicy)) (keys : List ResourceKey)
    → ((q : ResourceKey)
        → contains ResourceKey-discrete q keys ≡ true
        → lookup ResourceKey-discrete q policies ≢ none)
    → (e : Error) → with_policies policies keys ≢ raise e
unfolding with_policies contains
with_policies-raise policies [] h e r = cc r
with_policies-raise policies (k ∷ ks) h e r =
    elim (Option-cases (lookup ResourceKey-discrete k policies)) [
      | inl n ↦ h k (first_contained k ks) n
      | inr (policy, at) ↦
          ground (
            arith,
            with_policies-raise policies ks (λ q m. h q (others_contained k q ks m)) e,
            r,
            at,
          )
    ]

module _ {A : Type 0} (p : Publisher A) where
  lookup-with_policy :
      (keys : List ResourceKey) (q : ResourceKey)
      → contains ResourceKey-discrete q keys ≡ true
      → lookup ResourceKey-discrete q (map (with_policy p) keys) ≢ none
  unfolding lookup contains
  lookup-with_policy [] q h = absurd (ground (arith, h))
  lookup-with_policy (k ∷ ks) q h = ground (arith, h, lookup-with_policy ks q)

  clone_found-raise :
      (c : Copier A) (found : CacheLookup A) (o : Option (SnapshotValue A)) (e : Error)
      → clone_found c found o ≡ raise e
      → IsUncopied c e
  unfolding clone_found
  clone_found-raise c found none e h = cc h
  clone_found-raise c found (some v) e h = elim (>>=-eq-raise (clone_snapshot_value c v) _ h) [
    | inl failed ↦ clone-raise c v e failed
    | inr (_, _, done) ↦ cc done
  ]

  clone_lookup-raise :
      (c : Copier A) (x : ResourceKey × CacheLookup A) (e : Error)
      → clone_lookup c x ≡ raise e
      → IsUncopied c e
  unfolding clone_lookup
  clone_lookup-raise c (k, found) e h = elim (>>=-eq-raise (clone_found c found found.value) _ h) [
    | inl failed ↦ clone_found-raise c found found.value e failed
    | inr (_, _, done) ↦ cc done
  ]

  pub copy_found-raise :
      (o : Option (SnapshotValue A)) (e : Error)
      → copy_found p o ≡ raise e
      → IsUncopied p.isolator e
  unfolding copy_found
  copy_found-raise none e h = cc h
  copy_found-raise (some v) e h = elim (>>=-eq-raise (clone_snapshot_value p.isolator v) _ h) [
    | inl failed ↦ clone-raise p.isolator v e failed
    | inr (_, _, done) ↦ cc done
  ]

  copy_existing-raise :
      (x : ResourceKey × CacheLookup A) (e : Error)
      → copy_existing p x ≡ raise e
      → IsUncopied p.isolator e
  unfolding copy_existing
  copy_existing-raise (k, found) e h = elim (>>=-eq-raise (copy_found p found.value) _ h) [
    | inl failed ↦ copy_found-raise found.value e failed
    | inr (_, _, done) ↦ cc done
  ]

  pub get_existing-raise :
      (c : Cache A) (keys : List ResourceKey) (now : ℤ) (e : Error)
      → (get_existing p c keys now).1 ≡ raise e
      → IsUncopied p.cache_isolator e ⊎ IsUncopied p.isolator e
  unfolding get_existing get_many read_policies
  get_existing-raise c keys now e h =
      read (with_policies (map (with_policy p) keys) (unique ResourceKey-discrete keys))
        (with_policies-raise (map (with_policy p) keys) (unique ResourceKey-discrete keys) (λ q at.
          lookup-with_policy keys q (sym (contains-unique ResourceKey-discrete q keys) ∙ at)))
        h
    where
      read :
          (r : Result (List (ResourceKey × FreshnessPolicy)))
          → ((x : Error) → r ≢ raise x)
          → ((read_policies p.cache_isolator c now r).1 >>= each (copy_existing p)) ≡ raise e
          → IsUncopied p.cache_isolator e ⊎ IsUncopied p.isolator e
      read (raise x) n f = absurd (n x refl)
      read (ok wanted) n f =
          elim (>>=-eq-raise (each (clone_lookup p.cache_isolator) (read_all c now wanted).1) _ f) [
            | inl failed ↦ inl (
                each-raise (IsUncopied p.cache_isolator) (clone_lookup p.cache_isolator)
                  (clone_lookup-raise p.cache_isolator) (read_all c now wanted).1 e failed)
            | inr (rs, _, later) ↦ inr (
                each-raise (IsUncopied p.isolator) (copy_existing p) copy_existing-raise rs e later)
          ]
