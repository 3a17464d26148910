-- ===== src/Orchestration/SingleFlight/Tickets.antt =====
-- orchestration/singleflight.py: what callers are told when they ask.
use coalestra.Prelude.{
  ℕ, ◌+◌, ◌≤◌, ◌≡◌, ◌∙◌, refl, sym, ap, Bool, true, false, Option, none, some, List, [], ◌∷◌, ◌++◌,
  arith, All,
}
use coalestra.Dict.{lookup, put, contains, unique, Distinct}
use coalestra.Dict.Laws.{lookup-put}
use coalestra.Dict.Keys.{unique-Distinct}
use coalestra.Orchestration.SingleFlight.{
  SingleFlight, Reservation, Ticket, reserve_one, reserve_all, run_many, start_producer,
}

All-snoc :
    {A : Type 0} (P : A → Type 0) (xs : List A) (x : A) → All P xs → P x → All P (xs ++ x ∷ [])
All-snoc P [] x h p = (p, tt)
All-snoc P (y ∷ xs) x (q, h) p = (q, All-snoc P xs x h p)

All-imp :
    {A : Type 0} (P Q : A → Type 0) → ((x : A) → P x → Q x) → (xs : List A) → All P xs → All Q xs
All-imp P Q f [] h = tt
All-imp P Q f (x ∷ xs) (p, h) = (f x p, All-imp P Q f xs h)

abbrev pub ticket_keys : {K : Type 0} → List (Ticket K) → List K
ticket_keys [] = []
ticket_keys (t ∷ ts) = t.key ∷ ticket_keys ts

ticket_keys-snoc :
    {K : Type 0} (ts : List (Ticket K)) (t : Ticket K) (ks : List K)
    → ticket_keys (ts ++ t ∷ []) ++ ks ≡ ticket_keys ts ++ t.key ∷ ks
ticket_keys-snoc [] t ks = refl
ticket_keys-snoc (u ∷ ts) t ks = ap (λ l. u.key ∷ l) (ticket_keys-snoc ts t ks)

append-nil : {A : Type 0} (xs : List A) → xs ++ [] ≡ xs
append-nil [] = refl
append-nil (x ∷ xs) = ap (λ l. x ∷ l) (append-nil xs)

module _ {K T : Type 0} (dec : Discrete K) where
  reserve_one-keys :
      (key : K) (keys : List K) (o : Option ℕ) (r : Reservation K T)
      → ticket_keys (reserve_one dec key o r).tickets ++ keys ≡ ticket_keys r.tickets ++ key ∷ keys
  unfolding reserve_one
  reserve_one-keys key keys none r =
      ticket_keys-snoc r.tickets (record { key = key; future = r.flight.next; joined = false }) keys
  reserve_one-keys key keys (some f) r =
      ticket_keys-snoc r.tickets (record { key = key; future = f; joined = true }) keys

  reserve_all-keys :
      (keys : List K) (r : Reservation K T)
      → ticket_keys (reserve_all dec keys r).tickets ≡ ticket_keys r.tickets ++ keys
  unfolding reserve_all
  reserve_all-keys [] r = sym (append-nil (ticket_keys r.tickets))
  reserve_all-keys (key ∷ keys) r =
      let o = lookup dec key r.flight.tasks in
      reserve_all-keys keys (reserve_one dec key o r) ∙ reserve_one-keys key keys o r

module _ {K T : Type 0} (dec : Discrete K) (s : SingleFlight K T) where
  abbrev AnsweredBy : K → ℕ → Bool → Type 0
  AnsweredBy key future true = lookup dec key s.tasks ≡ some future
  AnsweredBy key future false = (lookup dec key s.tasks ≡ none) × (s.next ≤ future)

  -- After the call, in `s'`, the key is in flight with the future of the ticket. That is the future
  -- that the key had before, if the caller joined; if not, the key had none, and the future is new.
  abbrev pub IsAnswered : SingleFlight K T → Ticket K → Type 0
  IsAnswered s' t = (lookup dec t.key s'.tasks ≡ some t.future) × AnsweredBy t.key t.future t.joined

  -- the keys that the loop has not come to are as they were
  record Agrees (keys : List K) (r : Reservation K T) : Type 0 where
    same : (k : K) → contains dec k keys ≡ true → lookup dec k r.flight.tasks ≡ lookup dec k s.tasks
    later : s.next ≤ r.flight.next
    told : All (IsAnswered r.flight) r.tickets

  reserve_one-Agrees :
      (key : K) (keys : List K) (o : Option ℕ) (r : Reservation K T)
      → contains dec key keys ≡ false
      → lookup dec key r.flight.tasks ≡ o
      → Agrees (key ∷ keys) r
      → Agrees keys (reserve_one dec key o r)
  unfolding reserve_one contains
  reserve_one-Agrees key keys none r d e a = record {
    same = λ k i. ground (arith, lookup-put dec key k r.flight.next r.flight.tasks, a.same k, i);
    later = omega (arith, a.later);
    told =
        All-snoc
          (IsAnswered (record r.flight {
            tasks = put dec key r.flight.next r.flight.tasks;
            next = r.flight.next + 1;
          }))
          r.tickets (record { key = key; future = r.flight.next; joined = false })
          (All-imp (IsAnswered r.flight)
            (IsAnswered (record r.flight {
              tasks = put dec key r.flight.next r.flight.tasks;
              next = r.flight.next + 1;
            }))
            (λ t h.
              (ground (arith, h.0, e, lookup-put dec key t.key r.flight.next r.flight.tasks), h.1))
            r.tickets a.told)
          (
            ground (arith, lookup-put dec key key r.flight.next r.flight.tasks),
            (ground (arith, e, a.same key), a.later),
          );
  }
  reserve_one-Agrees key keys (some f) r d e a = record {
    same = λ k i. ground (arith, a.same k, i);
    later = a.later;
    told =
        All-snoc (IsAnswered r.flight) r.tickets (record { key = key; future = f; joined = true })
          a.told (e, ground (arith, e, a.same key));
  }

  reserve_all-Agrees :
      (keys : List K) (r : Reservation K T)
      → Distinct dec keys
      → Agrees keys r
      → Agrees [] (reserve_all dec keys r)
  unfolding reserve_all
  reserve_all-Agrees [] r d a = a
  reserve_all-Agrees (key ∷ keys) r (n, d) a =
      let o = lookup dec key r.flight.tasks in
      reserve_all-Agrees keys (reserve_one dec key o r) d (reserve_one-Agrees key keys o r n refl a)

  start_producer-tasks :
      (t : SingleFlight K T) (owned : List K) → (start_producer dec t owned).tasks ≡ t.tasks
  unfolding start_producer
  start_producer-tasks t [] = refl
  start_producer-tasks t (k ∷ owned) = refl

  -- A caller has a ticket for each key that it asks for, once and in order, and after the call the key
  -- is in flight with the future of its ticket: the future that the key had before, if the caller
  -- joined it, and else a new one, where the key had none.
  pub run_many-IsAnswered :
      (keys : List K)
      → let (s', tickets) = run_many dec keys s in
        (ticket_keys tickets ≡ unique dec keys) × All (IsAnswered s') tickets
  unfolding run_many
  run_many-IsAnswered keys =
      let r : Reservation K T = record { flight = s; tickets = []; owned = [] } in
      let r' = reserve_all dec (unique dec keys) r in
      let done =
        reserve_all-Agrees (unique dec keys) r (unique-Distinct dec keys)
          (record { same = λ k i. refl; later = omega arith; told = tt }) in
      (
        reserve_all-keys dec (unique dec keys) r,
        All-imp (IsAnswered r'.flight) (IsAnswered (start_producer dec r'.flight r'.owned))
            (λ t h.
              (ap (λ d. lookup dec t.key d) (start_producer-tasks r'.flight r'.owned) ∙ h.0, h.1))
            r'.tickets done.told,
      )
