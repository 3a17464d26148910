-- ===== src/Concurrency/Dispatch/Done.antt =====
-- concurrency/dispatch.py: the end of all workers.
use coalestra.Prelude.{
  ℕ, ℤ, pos, ltb_ℤ, min, subst, ap, ◌∙◌, Bool-cases, ◌+◌, ◌<◌, ◌≡◌, refl, zero, suc, true, false,
  none, some, List, [], ◌∷◌, arith, any, All, length, ℕ_discrete, Option-cases, inl, inr,
}
use coalestra.Dict.{lookup}
use coalestra.Core.Errors.{Result, ok, each}
use coalestra.Core.Numbers.{finite, count}
use coalestra.Concurrency.Dispatch.{
  Worker, looking, working, finished, Dispatch, get_elem?, Event, outcome_at, start, new_workers,
  run, results_from, result_at, answer_on, answer,
}
use coalestra.Concurrency.Dispatch.Invariant.{works, is_finished, IsSound, run-IsSound}

abbrev pub IsDone : Worker → Type 0
IsDone finished = Unit
IsDone _ = ⊥

nobody_works : (index : ℕ) (ws : List Worker) → All IsDone ws → any (works index) ws ≡ false
nobody_works index [] h = refl
nobody_works index (finished ∷ ws) (d, h) = nobody_works index ws h
nobody_works index (looking ∷ ws) (d, h) = absurd d
nobody_works index (working j ∷ ws) (d, h) = absurd d

somebody_finished : (ws : List Worker) → 0 < length ws → All IsDone ws → any is_finished ws ≡ true
somebody_finished [] n h = absurd (omega (arith, n))
somebody_finished (finished ∷ ws) n (d, h) = refl
somebody_finished (looking ∷ ws) n (d, h) = absurd d
somebody_finished (working j ∷ ws) n (d, h) = absurd d

module _ {D R : Type 0} (operation : D → Result R) (ordered : List D) where
  -- where all are done, each index has the result of its operation
  known :
      (s : Dispatch R)
      → IsSound operation ordered s
      → All IsDone s.workers
      → (index : ℕ) → index < length ordered
      → result_at operation ordered s.results index ≡ outcome_at operation ordered index
  unfolding result_at
  known s h d index l = elim (Option-cases (lookup ℕ_discrete index s.results)) [
    | inl e ↦ ground (
      arith,
      e,
      h.taken index,
      h.exhausted (somebody_finished s.workers (h.staffed (omega (arith, l))) d),
      nobody_works index s.workers d,
      l,
    )
    | inr (r, e) ↦ ground (arith, e, h.right index r e)
  ]

  get_elem?-length : (i : ℕ) (ds : List D) (d : D) → get_elem? ds i ≡ some d → i < length ds
  get_elem?-length i [] d e = cc e
  get_elem?-length zero (x ∷ ds) d e = omega arith
  get_elem?-length (suc i) (x ∷ ds) d e = omega (arith, get_elem?-length i ds d e)

  results_from-each :
      (results : List (ℕ × R)) (index : ℕ) (ds : List D)
      → ((i : ℕ) (d : D)
          → get_elem? ds i ≡ some d
          → result_at operation ordered results (index + i) ≡ operation d)
      → results_from operation ordered results index ds ≡ each operation ds
  unfolding results_from each
  results_from-each results index [] h = refl
  results_from-each results index (d ∷ ds) h =
      let first : result_at operation ordered results index ≡ operation d =
        subst (λ k. result_at operation ordered results k ≡ operation d) (omega arith)
          (h zero d refl) in
      let rest = results_from-each results (index + 1) ds (λ i e l.
        subst (λ k. result_at operation ordered results k ≡ operation e) (omega arith)
          (h (suc i) e l)) in
      ground (arith, first, rest)

  new_workers-look : (n : ℕ) → any is_finished (new_workers n) ≡ false
  unfolding new_workers
  new_workers-look zero = refl
  new_workers-look (suc n) = new_workers-look n

  length-new_workers : (n : ℕ) → length (new_workers n) ≡ n
  unfolding new_workers
  length-new_workers zero = refl
  length-new_workers (suc n) = omega (arith, length-new_workers n)

  begun : ℤ → Dispatch R
  begun max_tasks = record {
    next_index = 0;
    results = [];
    workers = new_workers (min (count (finite max_tasks)) (length ordered));
    failure = none;
  }

  begun-IsSound :
      (max_tasks : ℤ)
      → ltb_ℤ max_tasks (pos 1) ≡ false
      → IsSound operation ordered (begun max_tasks)
  unfolding begun lookup
  begun-IsSound max_tasks m =
      let workers = min (count (finite max_tasks)) (length ordered) in
      record {
        right = λ index r e. cc e;
        taken = λ index l. absurd (omega (arith, l));
        exhausted = λ a. cc (a, new_workers-look workers);
        staffed = λ l. ground (arith, l, m, length-new_workers workers);
      }

  at_item :
      (i : ℕ) (item : D)
      → get_elem? ordered i ≡ some item
      → outcome_at operation ordered i ≡ operation item
  unfolding outcome_at
  at_item i item e = rw e refl

  -- However the workers take turns, once all of them are done and none has failed the answer is that
  -- of running the operation on the items one after the other: each item has its result, in order.
  pub run-answer :
      (max_tasks : ℤ) (events : List Event) {s : Dispatch R}
      → start operation ordered max_tasks ≡ ok s
      → All IsDone (run operation ordered s events).workers
      → (run operation ordered s events).failure ≡ none
      → answer operation ordered (run operation ordered s events) ≡ each operation ordered
  unfolding start answer answer_on begun
  run-answer max_tasks events {s} b d f = elim (Bool-cases (ltb_ℤ max_tasks (pos 1))) [
    | inl refused ↦ absurd (ground (arith, b, refused))
    | inr allowed ↦
        let same : begun max_tasks ≡ s = ground (arith, b, allowed) in
        let last = run operation ordered s events in
        let sound =
          run-IsSound operation ordered events s
            (subst (IsSound operation ordered) same (begun-IsSound max_tasks allowed)) in
        ap (answer_on operation ordered last) f
        ∙ results_from-each last.results 0 ordered (λ i item e.
          subst (λ k. result_at operation ordered last.results k ≡ operation item) (omega arith)
            (known last sound d i (get_elem?-length i ordered item e) ∙ at_item i item e))
  ]
