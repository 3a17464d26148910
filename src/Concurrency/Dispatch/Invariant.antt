-- ===== src/Concurrency/Dispatch/Invariant.antt =====
-- concurrency/dispatch.py: the indices that workers take.
use coalestra.Prelude.{
  ℕ, ◌≤◌, ◌<◌, ◌≡◌, refl, zero, suc, Bool, true, false, ◌||◌, Option, none, some, List, [], ◌∷◌,
  arith, any, ltb, length, ℕ_discrete, ◌==◌, Bool-cases, inl, inr,
}
use coalestra.Dict.{lookup}
use coalestra.Dict.Laws.{lookup-put}
use coalestra.Core.Errors.{Error, Result, ok, raise}
use coalestra.Concurrency.Dispatch.{
  Worker, looking, working, finished, Dispatch, get_elem?, set, Event, looks, ends, look,
  outcome_at, end_operation, look_if, end_if, step_on, run,
}

length-set : (ws : List Worker) (i : ℕ) (w : Worker) → length (set ws i w) ≡ length ws
length-set [] i w = refl
length-set (x ∷ ws) zero w = omega arith
length-set (x ∷ ws) (suc i) w = omega (arith, length-set ws i w)

module _ (f : Worker → Bool) where
  any-set :
      (ws : List Worker) (i : ℕ) (old new : Worker)
      → get_elem? ws i ≡ some old
      → (f old ≡ true → f new ≡ true)
      → any f ws ≡ true
      → any f (set ws i new) ≡ true
  any-set [] i old new e h a = cc
  any-set (w ∷ ws) zero old new e h a = ground arith
  any-set (w ∷ ws) (suc i) old new e h a = ground (arith, any-set ws i old new e h)

  any-set_new :
      (ws : List Worker) (i : ℕ) (old new : Worker)
      → get_elem? ws i ≡ some old
      → f new ≡ true
      → any f (set ws i new) ≡ true
  any-set_new [] i old new e h = cc
  any-set_new (w ∷ ws) zero old new e h = ground (arith, h)
  any-set_new (w ∷ ws) (suc i) old new e h = ground (arith, any-set_new ws i old new e h)

  any-set_old :
      (ws : List Worker) (i : ℕ) (new : Worker)
      → f new ≡ false
      → any f (set ws i new) ≡ true
      → any f ws ≡ true
  any-set_old [] i new h a = cc a
  any-set_old (w ∷ ws) zero new h a = ground arith
  any-set_old (w ∷ ws) (suc i) new h a = ground (arith, any-set_old ws i new h)

-- the worker is in the operation for the index
abbrev pub works : ℕ → Worker → Bool
works index (working j) = j == index
works index _ = false

abbrev pub is_finished : Worker → Bool
is_finished finished = true
is_finished _ = false

abbrev is_some : {R : Type 0} → Option R → Bool
is_some none = false
is_some (some _) = true

module _ {D R : Type 0} (operation : D → Result R) (ordered : List D) where
  -- Each index that is taken has its result or a worker, each result is the operation's, a worker
  -- that is done leaves no index to take, and items have workers.
  pub record IsSound (s : Dispatch R) : Type 0 where
    pub right :
        (index : ℕ) (r : R)
        → lookup ℕ_discrete index s.results ≡ some r
        → outcome_at operation ordered index ≡ ok r
    pub taken :
        (index : ℕ)
        → index < s.next_index
        → (is_some (lookup ℕ_discrete index s.results) || any (works index) s.workers) ≡ true
    pub exhausted : any is_finished s.workers ≡ true → length ordered ≤ s.next_index
    pub staffed : 0 < length ordered → 0 < length s.workers

  look-IsSound :
      (s : Dispatch R) (i : ℕ)
      → get_elem? s.workers i ≡ some looking
      → IsSound s
      → IsSound (look operation ordered s i)
  unfolding look
  look-IsSound s i e h = elim (Bool-cases (ltb s.next_index (length ordered))) [
    | inl more ↦ rw more (record {
      right = h.right;
      taken = λ index l. ground (
        arith,
        l,
        h.taken index,
        any-set (works index) s.workers i looking (working s.next_index) e (λ x. cc x),
        any-set_new (works index) s.workers i looking (working s.next_index) e,
      );
      exhausted = λ a.
          ground
            (arith, h.exhausted, any-set_old is_finished s.workers i (working s.next_index) refl a);
      staffed = λ l. omega (arith, h.staffed l, length-set s.workers i (working s.next_index));
    })
    | inr none_left ↦ rw none_left (record {
      right = h.right;
      taken = λ index l. ground (
        arith,
        h.taken index l,
        any-set (works index) s.workers i looking finished e (λ x. cc x),
      );
      exhausted = λ a. ground (arith, none_left);
      staffed = λ l. omega (arith, h.staffed l, length-set s.workers i finished);
    })
  ]

  end_operation-IsSound :
      (s : Dispatch R) (i index : ℕ) (r : Result R)
      → outcome_at operation ordered index ≡ r
      → get_elem? s.workers i ≡ some (working index)
      → IsSound s
      → IsSound (end_operation operation ordered s i index r)
  unfolding end_operation
  end_operation-IsSound s i index (raise x) o e h = record {
    right = h.right;
    taken = h.taken;
    exhausted = h.exhausted;
    staffed = h.staffed;
  }
  end_operation-IsSound s i index (ok r) o e h = record {
    right = λ k v l. ground (arith, o, h.right k v, lookup-put ℕ_discrete index k r s.results, l);
    taken = λ k l. elim (ℕ_discrete index k) [
      | yes same ↦ ground (arith, same, lookup-put ℕ_discrete index k r s.results)
      | no other ↦ ground (
        arith,
        lookup-put ℕ_discrete index k r s.results,
        other,
        h.taken k l,
        any-set (works k) s.workers i (working index) looking e
            (λ x. absurd (other (ground (arith, x)))),
      )
    ];
    exhausted = λ a. h.exhausted (any-set_old is_finished s.workers i looking refl a);
    staffed = λ l. omega (arith, h.staffed l, length-set s.workers i looking);
  }

  look_if-IsSound :
      (s : Dispatch R) (i : ℕ) (o : Option Worker)
      → get_elem? s.workers i ≡ o
      → IsSound s
      → IsSound (look_if operation ordered s i o)
  unfolding look_if
  look_if-IsSound s i none e h = h
  look_if-IsSound s i (some looking) e h = look-IsSound s i e h
  look_if-IsSound s i (some (working index)) e h = h
  look_if-IsSound s i (some finished) e h = h

  end_if-IsSound :
      (s : Dispatch R) (i : ℕ) (o : Option Worker)
      → get_elem? s.workers i ≡ o
      → IsSound s
      → IsSound (end_if operation ordered s i o)
  unfolding end_if
  end_if-IsSound s i none e h = h
  end_if-IsSound s i (some looking) e h = h
  end_if-IsSound s i (some (working index)) e h =
      end_operation-IsSound s i index (outcome_at operation ordered index) refl e h
  end_if-IsSound s i (some finished) e h = h

  step_on-IsSound :
      (s : Dispatch R) (e : Event) (o : Option Error)
      → IsSound s
      → IsSound (step_on operation ordered s e o)
  unfolding step_on
  step_on-IsSound s e (some x) h = h
  step_on-IsSound s (looks i) none h = look_if-IsSound s i (get_elem? s.workers i) refl h
  step_on-IsSound s (ends i) none h = end_if-IsSound s i (get_elem? s.workers i) refl h

  pub run-IsSound :
      (events : List Event) (s : Dispatch R) → IsSound s → IsSound (run operation ordered s events)
  unfolding run
  run-IsSound [] s h = h
  run-IsSound (e ∷ events) s h =
      run-IsSound events (step_on operation ordered s e s.failure) (step_on-IsSound s e s.failure h)
