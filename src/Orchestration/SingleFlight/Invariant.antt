-- ===== src/Orchestration/SingleFlight/Invariant.antt =====
-- orchestration/singleflight.py: futures in flight, their keys and their producers.
use coalestra.Prelude.{
  ℕ, ◌+◌, ◌≤◌, ◌<◌, ◌≡◌, refl, true, ◌||◌, Option, none, some, List, [], ◌∷◌, ◌++◌, arith, any, ite,
  ℕ_discrete,
}
use coalestra.Dict.{lookup, put, contains, unique}
use coalestra.Dict.Laws.{lookup-put}
use coalestra.Dict.Keys.{contains-append}
use coalestra.Orchestration.SingleFlight.{
  Producer, SingleFlight, Reservation, reserve_one, reserve_all, start_producer, run_many,
}
use coalestra.Orchestration.SingleFlight.Run.{covers}

module _ {K T : Type 0} (dec : Discrete K) where
  -- Each key in flight has a pending future of its own and a producer that has it still to complete,
  -- or stands among `owned`; each pending future is that of a key in flight.
  pub record IsSoundWith (owned : List K) (s : SingleFlight K T) : Type 0 where
    pub fresh : (f : ℕ) → s.next ≤ f → lookup ℕ_discrete f s.done ≡ none
    pub created : (k : K) (f : ℕ) → lookup dec k s.tasks ≡ some f → f < s.next
    pub pending :
        (k : K) (f : ℕ) → lookup dec k s.tasks ≡ some f → lookup ℕ_discrete f s.done ≡ none
    pub covered :
        (k : K) (f : ℕ)
        → lookup dec k s.tasks ≡ some f
        → (any (covers dec k) s.producers || contains dec k owned) ≡ true
    pub distinct :
        (k j : K) (f : ℕ) → lookup dec k s.tasks ≡ some f → lookup dec j s.tasks ≡ some f → k ≡ j
    pub waited :
        (f : ℕ)
        → f < s.next
        → lookup ℕ_discrete f s.done ≡ none
        → (k : K) × (lookup dec k s.tasks ≡ some f)

  module _ (owned : List K) (s : SingleFlight K T) (h : IsSoundWith owned s) (key : K)
      (new : lookup dec key s.tasks ≡ none) where
    reserved : SingleFlight K T
    reserved = record s { tasks = put dec key s.next s.tasks; next = s.next + 1 }

    reserved_lookup :
        (q : K) → lookup dec q reserved.tasks ≡ ite (dec key q) (some s.next) (lookup dec q s.tasks)
    unfolding reserved
    reserved_lookup q = lookup-put dec key q s.next s.tasks

    reserved-IsSound : IsSoundWith (owned ++ key ∷ []) reserved
    unfolding reserved contains
    reserved-IsSound = record {
      fresh = λ f l. h.fresh f (omega (arith, l));
      created = λ k f e. ground (arith, reserved_lookup k, h.created k f, e);
      pending = λ k f e. ground (arith, reserved_lookup k, h.pending k f, h.fresh s.next, e);
      covered = λ k f e.
          ground
            (arith, reserved_lookup k, h.covered k f, e, contains-append dec k owned (key ∷ []));
      distinct = λ k j f e g. ground (
        arith,
        reserved_lookup k,
        reserved_lookup j,
        h.created k f,
        h.created j f,
        h.distinct k j f,
        e,
        g,
      );
      waited = λ f l p. elim (ℕ_discrete s.next f) [
        | yes same ↦ (key, ground (arith, reserved_lookup key, same))
        | no other ↦
            let (k, e) = h.waited f (ground (arith, l, other)) p in
            (k, ground (arith, reserved_lookup k, e, new))
      ];
    }

  reserve_one-IsSound :
      (r : Reservation K T) (key : K) (o : Option ℕ)
      → lookup dec key r.flight.tasks ≡ o
      → IsSoundWith r.owned r.flight
      → IsSoundWith (reserve_one dec key o r).owned (reserve_one dec key o r).flight
  unfolding reserve_one reserved
  reserve_one-IsSound r key none e h = reserved-IsSound r.owned r.flight h key e
  reserve_one-IsSound r key (some f) e h = h

  reserve_all-IsSound :
      (keys : List K) (r : Reservation K T)
      → IsSoundWith r.owned r.flight
      → IsSoundWith (reserve_all dec keys r).owned (reserve_all dec keys r).flight
  unfolding reserve_all
  reserve_all-IsSound [] r h = h
  reserve_all-IsSound (key ∷ keys) r h =
      let o = lookup dec key r.flight.tasks in
      reserve_all-IsSound keys (reserve_one dec key o r) (reserve_one-IsSound r key o refl h)

  -- The same with none owned but by producers.
  abbrev pub IsSound : SingleFlight K T → Type 0
  IsSound s = IsSoundWith [] s

  start_producer-IsSound :
      (s : SingleFlight K T) (owned : List K)
      → IsSoundWith owned s
      → IsSound (start_producer dec s owned)
  unfolding start_producer contains
  start_producer-IsSound s [] h = h
  start_producer-IsSound s (k ∷ owned) h = record {
    fresh = h.fresh;
    created = h.created;
    pending = h.pending;
    covered = λ q f e. ground (arith, h.covered q f e);
    distinct = h.distinct;
    waited = h.waited;
  }

  pub run_many-IsSound :
      (keys : List K) (s : SingleFlight K T) → IsSound s → IsSound (run_many dec keys s).0
  unfolding run_many
  run_many-IsSound keys s h =
      let r = reserve_all dec (unique dec keys) (record { flight = s; tickets = []; owned = [] }) in
      start_producer-IsSound r.flight r.owned
        (reserve_all-IsSound (unique dec keys) (record { flight = s; tickets = []; owned = [] }) h)

  -- the producers of a state, where no key in flight loses its producer
  pub recovered :
      (s : SingleFlight K T) (ps : List (Producer K T))
      → ((q : K) → any (covers dec q) s.producers ≡ true → any (covers dec q) ps ≡ true)
      → IsSound s
      → IsSound (record s { producers = ps })
  unfolding contains
  recovered s ps keep h = record {
    fresh = h.fresh;
    created = h.created;
    pending = h.pending;
    covered = λ q f e. ground (arith, h.covered q f e, keep q);
    distinct = h.distinct;
    waited = h.waited;
  }
