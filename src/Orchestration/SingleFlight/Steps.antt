-- ===== src/Orchestration/SingleFlight/Steps.antt =====
-- orchestration/singleflight.py: the keys that a producer has left.
use coalestra.Prelude.{
  ◌≡◌, ◌≢◌, refl, subst, inl, inr, true, Option, none, some, List, [], ◌∷◌, arith, Option-cases,
}
use coalestra.Dict.{lookup, contains}
use coalestra.Core.Errors.{Result, ok, raise, Error, runtime_error, cancelled_error}
use coalestra.Orchestration.SingleFlight.{
  Producer, running, completing, key_list, fail_all, values_for, outcomes, or_fail, produced,
  interrupt,
}
use coalestra.Orchestration.SingleFlight.Run.{covers}

fail_all-keys :
    {K : Type 0} (T : Type 0) (dec : Discrete K) (owned : List K) (e : Error)
    → key_list {V = Result T} (fail_all dec owned e) ≡ owned
unfolding fail_all
fail_all-keys T dec [] e = refl
fail_all-keys T dec (k ∷ owned) e = ground (arith, fail_all-keys T dec owned e)

module _ {K T : Type 0} (dec : Discrete K) where
  -- what a producer has left is of what it owns
  abbrev pub Owns : Producer K T → Type 0
  Owns (running owned) = Unit
  Owns (completing owned left) =
      (k : K) → contains dec k (key_list left) ≡ true → contains dec k owned ≡ true

  values_for-keys :
      (produced : List (K × T)) (owned : List K) (values : List (K × Result T))
      → values_for dec produced owned ≡ some values
      → key_list values ≡ owned
  unfolding values_for
  values_for-keys produced [] values e = ground (arith, e)
  values_for-keys produced (k ∷ owned) values e = elim (Option-cases (lookup dec k produced)) [
    | inl f ↦ ground (arith, e, f)
    | inr (v, f) ↦ elim (Option-cases (values_for dec produced owned)) [
      | inl g ↦ ground (arith, e, f, g)
      | inr (vs, g) ↦ ground (arith, e, f, g, values_for-keys produced owned vs g)
    ]
  ]

  or_fail-keys :
      (produced : List (K × T)) (owned : List K) (o : Option (List (K × Result T)))
      → values_for dec produced owned ≡ o
      → key_list (or_fail dec owned o) ≡ owned
  unfolding or_fail
  or_fail-keys produced owned none e = fail_all-keys T dec owned runtime_error
  or_fail-keys produced owned (some values) e = values_for-keys produced owned values e

  outcomes-keys :
      (owned : List K) (result : Result (List (K × T)))
      → key_list (outcomes dec owned result) ≡ owned
  unfolding outcomes
  outcomes-keys owned (raise e) = fail_all-keys T dec owned e
  outcomes-keys owned (ok values) = or_fail-keys values owned (values_for dec values owned) refl

  -- a producer that goes on keeps its keys, but for one that it completes
  pub produced-covers :
      (k : K) (p : Producer K T) (result : Result (List (K × T)))
      → covers dec k p ≡ true
      → covers dec k (produced dec p result) ≡ true
  unfolding produced
  produced-covers k (running owned) result h = rw (outcomes-keys owned result) h
  produced-covers k (completing owned left) result h = h

  pub interrupt-covers :
      (k : K) (p : Producer K T)
      → Owns p
      → covers dec k p ≡ true
      → covers dec k (interrupt dec p) ≡ true
  unfolding interrupt
  interrupt-covers k (running owned) o h = rw (fail_all-keys T dec owned cancelled_error) h
  interrupt-covers k (completing owned left) o h = h

  pub complete_next-covers :
      (k key : K) (left : List (K × Result T))
      → key ≢ k
      → contains dec k (key ∷ key_list left) ≡ true
      → contains dec k (key_list left) ≡ true
  unfolding contains
  complete_next-covers k key left n h = ground arith

  pub produced-Owns :
      (p : Producer K T) (result : Result (List (K × T))) → Owns p → Owns (produced dec p result)
  unfolding produced
  produced-Owns (running owned) result o =
      λ k h. subst (λ ks. contains dec k ks ≡ true) (outcomes-keys owned result) h
  produced-Owns (completing owned left) result o = o

  pub interrupt-Owns : (p : Producer K T) → Owns p → Owns (interrupt dec p)
  unfolding interrupt
  interrupt-Owns (running owned) o =
      λ k h. subst (λ ks. contains dec k ks ≡ true) (fail_all-keys T dec owned cancelled_error) h
  interrupt-Owns (completing owned left) o = o
