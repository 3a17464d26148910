-- ===== src/Cache/Publisher/Results.antt =====
-- cache/publisher.py: from the write of a publication to its results, by key.
use coalestra.Prelude.{
  ◌≡◌, ◌≢◌, ◌∙◌, inl, inr, refl, Bool, true, false, Option, none, some, Option-cases, List, [], ◌∷◌,
  All, arith,
}
use coalestra.Dict.{lookup, contains}
use coalestra.Core.Errors.{Error, Result, ok, raise, each, ◌>>=◌, >>=-eq-ok, >>=-eq-raise}
use coalestra.Core.Keys.{ResourceKey, ResourceKey-discrete}
use coalestra.Core.Models.{CacheWriteResult}
use coalestra.Cache.State.{Cache, clone_snapshot_value}
use coalestra.Cache.Commit.{Attempt}
use coalestra.Cache.Update.{ResourceUpdate, PublishResult}
use coalestra.Cache.Publisher.{
  Publisher, copy_found, result_for, copy_result, publish_result_from_cache, results_from,
}
use coalestra.Cache.Publisher.Causes.{each-raise, IsUncopied, clone-raise}
use coalestra.Cache.Publisher.Kept.{keys_of}
use coalestra.Cache.Publisher.Existing.{copy_found-raise}

module _ {V : Type 0} where
  abbrev is_some : Option V → Bool
  is_some none = false
  is_some (some _) = true

  -- key in d
  unfoldable pub has : ResourceKey → List (ResourceKey × V) → Bool
  has k d = is_some (lookup ResourceKey-discrete k d)

-- A loop that keeps the key of each item keeps the keys.
each-has :
    {V W : Type 0} (f : ResourceKey × V → Result (ResourceKey × W))
    → ((x : ResourceKey × V) (y : ResourceKey × W) → f x ≡ ok y → y.0 ≡ x.0)
    → (xs : List (ResourceKey × V)) (ys : List (ResourceKey × W)) → each f xs ≡ ok ys
    → (q : ResourceKey) → has q ys ≡ has q xs
unfolding each has lookup
each-has f keep [] ys e q = ground (arith, e)
each-has f keep ((k, v) ∷ xs) ys e q =
    let ((j, w), first, others) = >>=-eq-ok (f (k, v)) _ e in
    let (rest, later, last) = >>=-eq-ok (each f xs) _ others in
    ground (arith, keep (k, v) (j, w) first, each-has f keep xs rest later q, last)

module _ {A : Type 0} where
  -- The publication ends, with an exception for one of these reasons or with results for exactly
  -- these keys.
  abbrev pub IsAnswered :
      (Error → Type 0)
      → (ResourceKey → Bool)
      → Option (Cache A × Result (List (ResourceKey × PublishResult A)))
      → Type 0
  IsAnswered why wanted none = ⊥
  IsAnswered why wanted (some (c, raise e)) = why e
  IsAnswered why wanted (some (c, ok results)) = (q : ResourceKey) → has q results ≡ wanted q

module _ {A : Type 0} (p : Publisher A) where
  each-result_for :
      (results : List (ResourceKey × CacheWriteResult A)) (x : ResourceKey × ResourceUpdate A)
      (y : ResourceKey × CacheWriteResult A)
      → result_for p results x ≡ ok y
      → y.0 ≡ x.0
  unfolding result_for
  each-result_for results (k, u) y e = ground (arith, e)

  each-copy_result :
      (x : ResourceKey × CacheWriteResult A) (y : ResourceKey × PublishResult A)
      → copy_result p x ≡ ok y
      → y.0 ≡ x.0
  unfolding copy_result
  each-copy_result (k, r) y e =
      let (r', _, last) = >>=-eq-ok (publish_result_from_cache p r) _ e in ground (arith, last)

  copy_result-raise :
      (x : ResourceKey × CacheWriteResult A) (e : Error)
      → copy_result p x ≡ raise e
      → IsUncopied p.isolator e
  unfolding copy_result publish_result_from_cache
  copy_result-raise (k, r) e h = elim (>>=-eq-raise (publish_result_from_cache p r) _ h) [
    | inl failed ↦ elim (>>=-eq-raise (clone_snapshot_value p.isolator r.value) _ failed) [
      | inl uncloned ↦ clone-raise p.isolator r.value e uncloned
      | inr (_, _, later) ↦ elim (>>=-eq-raise (copy_found p r.previous) _ later) [
        | inl unfound ↦ copy_found-raise p r.previous e unfound
        | inr (_, _, done) ↦ cc done
      ]
    ]
    | inr (_, _, done) ↦ cc done
  ]

  contains-lookup :
      (results : List (ResourceKey × CacheWriteResult A)) (q : ResourceKey)
      → contains ResourceKey-discrete q (keys_of results) ≡ true
      → lookup ResourceKey-discrete q results ≢ none
  unfolding contains lookup
  contains-lookup [] q h = absurd (ground (arith, h))
  contains-lookup ((k, r) ∷ results) q h = ground (arith, h, contains-lookup results q)

  -- Where each key has a result, there is no RuntimeError.
  found-raise :
      (results : List (ResourceKey × CacheWriteResult A))
      (us : List (ResourceKey × ResourceUpdate A)) (e : Error)
      → All (λ q. contains ResourceKey-discrete q (keys_of results) ≡ true) (keys_of us)
      → each (result_for p results) us ≢ raise e
  unfolding each result_for
  found-raise results [] e at h = cc h
  found-raise results ((k, u) ∷ us) e (at, ats) h =
      elim (Option-cases (lookup ResourceKey-discrete k results)) [
        | inl n ↦ contains-lookup results k at n
        | inr (r, found) ↦ ground (arith, found, h, found-raise results us e ats)
      ]

  module _ (why : Error → Type 0)
      (failed_copy : (e : Error) → IsUncopied p.isolator e → why e) where
    copied-IsAnswered :
        (c : Cache A) (wanted : ResourceKey → Bool)
        (found : List (ResourceKey × CacheWriteResult A))
        (r : Result (List (ResourceKey × PublishResult A)))
        → each (copy_result p) found ≡ r
        → ((q : ResourceKey) → has q found ≡ wanted q)
        → IsAnswered why wanted (some (c, r))
    copied-IsAnswered c wanted found (raise e) h w =
        failed_copy e
          (each-raise (IsUncopied p.isolator) (copy_result p) copy_result-raise found e h)
    copied-IsAnswered c wanted found (ok rs) h w =
        λ q. each-has (copy_result p) each-copy_result found rs h q ∙ w q

    found-IsAnswered :
        (c : Cache A) (us : List (ResourceKey × ResourceUpdate A))
        (results : List (ResourceKey × CacheWriteResult A))
        (r : Result (List (ResourceKey × CacheWriteResult A)))
        → each (result_for p results) us ≡ r
        → All (λ q. contains ResourceKey-discrete q (keys_of results) ≡ true) (keys_of us)
        → IsAnswered why (λ q. has q us) (some (c, r >>= each (copy_result p)))
    found-IsAnswered c us results (raise e) h at = absurd (found-raise results us e at h)
    found-IsAnswered c us results (ok found) h at =
        copied-IsAnswered c (λ q. has q us) found (each (copy_result p) found) refl
          (λ q. each-has (result_for p results) (each-result_for results) us found h q)

    pub results_from-IsAnswered :
        (us : List (ResourceKey × ResourceUpdate A)) (a : Attempt A)
        → a ≢ none
        → ((c : Cache A) (e : Error) → a ≡ some (c, raise e) → why e)
        → ((c : Cache A) (rs : List (ResourceKey × CacheWriteResult A))
            → a ≡ some (c, ok rs)
            → All (λ q. contains ResourceKey-discrete q (keys_of rs) ≡ true) (keys_of us))
        → IsAnswered why (λ q. has q us) (results_from p us a)
    unfolding results_from
    results_from-IsAnswered us none n x w = n refl
    results_from-IsAnswered us (some (c, raise e)) n x w = x c e refl
    results_from-IsAnswered us (some (c, ok results)) n x w =
        found-IsAnswered c us results (each (result_for p results) us) refl (w c results refl)
