-- ===== src/Orchestration/SingleFlight/Complete.antt =====
-- orchestration/singleflight.py: producers that complete their keys.
use coalestra.Prelude.{
  ℕ, ◌≡◌, ◌≢◌, inl, inr, true, none, some, List, arith, any, ite, ℕ_discrete, Option-cases,
}
use coalestra.Dict.{lookup, pop, put, contains}
use coalestra.Dict.Laws.{lookup-put, lookup-pop}
use coalestra.Core.Errors.{Result}
use coalestra.Orchestration.SingleFlight.{Producer, SingleFlight, resolve, complete}
use coalestra.Orchestration.SingleFlight.Run.{covers}
use coalestra.Orchestration.SingleFlight.Invariant.{IsSound}

module _ {K T : Type 0} (dec : Discrete K) where
  -- the state after `complete`, where the key has a future and where it has none
  module _ (s : SingleFlight K T) (h : IsSound dec s) (key : K) (outcome : Result T)
      (ps : List (Producer K T))
      (keep : (q : K)
        → key ≢ q
        → any (covers dec q) s.producers ≡ true
        → any (covers dec q) ps ≡ true) where
    popped :
        (q : K) → lookup dec q (pop dec key s.tasks) ≡ ite (dec key q) none (lookup dec q s.tasks)
    popped q = lookup-pop dec key q s.tasks

    gone-IsSound :
        lookup dec key s.tasks ≡ none
        → IsSound dec (record s { tasks = pop dec key s.tasks; producers = ps })
    unfolding contains
    gone-IsSound e = record {
      fresh = h.fresh;
      created = λ k f g. ground (arith, popped k, h.created k f, g);
      pending = λ k f g. ground (arith, popped k, h.pending k f, g);
      covered = λ k f g. ground (arith, popped k, h.covered k f, keep k, g);
      distinct = λ k j f g i. ground (arith, popped k, popped j, h.distinct k j f, g, i);
      waited = λ f l p. let (k, g) = h.waited f l p in (k, ground (arith, popped k, g, e));
    }

    marked :
        (f g : ℕ)
        → lookup ℕ_discrete g (put ℕ_discrete f outcome s.done)
          ≡ ite (ℕ_discrete f g) (some outcome) (lookup ℕ_discrete g s.done)
    marked f g = lookup-put ℕ_discrete f g outcome s.done

    resolved-IsSound :
        (future : ℕ)
        → lookup dec key s.tasks ≡ some future
        → IsSound dec (record s {
          tasks = pop dec key s.tasks;
          producers = ps;
          done = put ℕ_discrete future outcome s.done;
        })
    unfolding contains
    resolved-IsSound future e = record {
      fresh = λ f l. ground (arith, marked future f, h.fresh f, h.created key future e, l);
      created = λ k f g. ground (arith, popped k, h.created k f, g);
      pending = λ k f g.
          ground (arith, popped k, marked future f, h.pending k f, h.distinct key k f, g, e);
      covered = λ k f g. ground (arith, popped k, h.covered k f, keep k, g);
      distinct = λ k j f g i. ground (arith, popped k, popped j, h.distinct k j f, g, i);
      waited = λ f l p.
          let (k, g) = h.waited f l (ground (arith, marked future f, p)) in
          (k, ground (arith, popped k, marked future f, g, e, p));
    }

    resolve_pending :
        (r : SingleFlight K T) (f : ℕ)
        → lookup ℕ_discrete f r.done ≡ none
        → resolve dec r (some f) outcome ≡ record r { done = put ℕ_discrete f outcome r.done }
    unfolding resolve
    resolve_pending r f e = ground (arith, e)

    pub complete-IsSound : IsSound dec (record (complete dec key outcome s) { producers = ps })
    unfolding complete resolve
    complete-IsSound = elim (Option-cases (lookup dec key s.tasks)) [
      | inl e ↦ rw e (gone-IsSound e)
      | inr (f, e) ↦
          rw (e, resolve_pending (record s { tasks = pop dec key s.tasks }) f (h.pending key f e))
            (resolved-IsSound f e)
    ]
