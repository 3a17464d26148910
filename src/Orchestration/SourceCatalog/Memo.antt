-- ===== src/Orchestration/SourceCatalog/Memo.antt =====
-- orchestration/source_catalog.py: the memo beside the sources that it stands for.
use coalestra.Prelude.{
  ℕ, ◌+◌, ◌≤◌, ◌<◌, ◌≡◌, refl, sym, Bool, true, false, Option, none, some, List, [], ◌∷◌, ◌++◌,
  arith, length, length-append, ◌&&◌, All,
}
use coalestra.Dict.{lookup, put, pop, to_end}
use coalestra.Dict.Laws.{length-pop-le}
use coalestra.Core.Errors.{Result, ok, raise}
use coalestra.Orchestration.SourceCatalog.{
  CacheKey, CacheKey-discrete, SourceCatalog, SupportCounts, drop_over, limit_support_cache,
  remember, supports_hit, supports_miss, remembered, supports_from, supports, Supports,
  clear_support_cache,
}

abbrev pub Fits : Option ℕ → ℕ → Type 0
Fits none n = Unit
Fits (some limit) n = n ≤ limit

-- A question to a source, or the memo is cleared.
pub data Event : Type 0 where
  asks : CacheKey → Bool → Event
  clears : Event

module _ (behaviour : CacheKey → Result Bool) where
  -- What is remembered is what the sources answer, and it is within the limit.
  pub record IsFaithful (c : SourceCatalog) : Type 0 where
    pub answers : All (λ e. behaviour e.0 ≡ ok e.1) c.support_cache
    pub bounded : Fits c.support_cache_max_entries (length c.support_cache)

  abbrev Answers : List (CacheKey × Bool) → Type 0
  Answers memo = All (λ e. behaviour e.0 ≡ ok e.1) memo

  lookup-Answers :
      (k : CacheKey) (b : Bool) (memo : List (CacheKey × Bool))
      → Answers memo
      → lookup CacheKey-discrete k memo ≡ some b
      → behaviour k ≡ ok b
  unfolding lookup
  lookup-Answers k b [] h e = cc e
  lookup-Answers k b ((j, w) ∷ memo) (x, h) e = ground (arith, x, e, lookup-Answers k b memo h)

  pop-Answers :
      (k : CacheKey) (memo : List (CacheKey × Bool))
      → Answers memo
      → Answers (pop CacheKey-discrete k memo)
  unfolding pop
  pop-Answers k [] h = tt
  pop-Answers k ((j, w) ∷ memo) (x, h) = ground (arith, x, pop-Answers k memo h)

  put-Answers :
      (k : CacheKey) (b : Bool) (memo : List (CacheKey × Bool))
      → behaviour k ≡ ok b
      → Answers memo
      → Answers (put CacheKey-discrete k b memo)
  unfolding put
  put-Answers k b [] e h = (e, tt)
  put-Answers k b ((j, w) ∷ memo) e (x, h) = ground (arith, x, e, h, put-Answers k b memo e h)

  append-Answers : (xs ys : List (CacheKey × Bool)) → Answers xs → Answers ys → Answers (xs ++ ys)
  append-Answers [] ys h k = k
  append-Answers (x ∷ xs) ys (e, h) k = (e, append-Answers xs ys h k)

  drop_over-Answers :
      (limit : ℕ) (memo : List (CacheKey × Bool)) → Answers memo → Answers (drop_over limit memo)
  unfolding drop_over
  drop_over-Answers limit [] h = tt
  drop_over-Answers limit (e ∷ memo) (x, h) = ground (arith, x, h, drop_over-Answers limit memo h)

  length-drop_over :
      (limit : ℕ) (memo : List (CacheKey × Bool)) → length (drop_over limit memo) ≤ limit
  unfolding drop_over
  length-drop_over limit [] = omega arith
  length-drop_over limit (e ∷ memo) = ground (arith, length-drop_over limit memo)

  limited-Answers :
      (limit : Option ℕ) (memo : List (CacheKey × Bool))
      → Answers memo
      → Answers (limit_support_cache limit memo)
  unfolding limit_support_cache
  limited-Answers none memo h = h
  limited-Answers (some limit) memo h = drop_over-Answers limit memo h

  limited-Fits :
      (limit : Option ℕ) (memo : List (CacheKey × Bool))
      → Fits limit (length (limit_support_cache limit memo))
  unfolding limit_support_cache
  limited-Fits none memo = tt
  limited-Fits (some limit) memo = length-drop_over limit memo

  moved-Answers :
      (k : CacheKey) (b : Bool) (memo : List (CacheKey × Bool))
      → behaviour k ≡ ok b
      → Answers memo
      → Answers (to_end CacheKey-discrete k b memo)
  unfolding to_end
  moved-Answers k b memo e h =
      append-Answers (pop CacheKey-discrete k memo) ((k, b) ∷ []) (pop-Answers k memo h) (e, tt)

  remember-IsFaithful :
      (c : SourceCatalog) (k : CacheKey) (b : Bool)
      → behaviour k ≡ ok b
      → IsFaithful c
      → IsFaithful (remember c k b)
  unfolding remember
  remember-IsFaithful c k b e h =
      let memo = to_end CacheKey-discrete k b (put CacheKey-discrete k b c.support_cache) in
      record {
        answers = limited-Answers c.support_cache_max_entries memo (
            moved-Answers k b (put CacheKey-discrete k b c.support_cache) e
              (put-Answers k b c.support_cache e h.answers));
        bounded = limited-Fits c.support_cache_max_entries memo;
      }

  Fits-le : (limit : Option ℕ) (m n : ℕ) → m ≤ n → Fits limit n → Fits limit m
  Fits-le none m n l f = tt
  Fits-le (some limit) m n l f = omega (arith, l, f)

  length-pop-lt :
      (k : CacheKey) (w : Bool) (memo : List (CacheKey × Bool))
      → lookup CacheKey-discrete k memo ≡ some w
      → length (pop CacheKey-discrete k memo) < length memo
  unfolding lookup pop
  length-pop-lt k w [] e = cc e
  length-pop-lt k w ((j, v) ∷ memo) e =
      ground (arith, e, length-pop-le CacheKey-discrete k memo, length-pop-lt k w memo)

  length-moved :
      (k : CacheKey) (b w : Bool) (memo : List (CacheKey × Bool))
      → lookup CacheKey-discrete k memo ≡ some w
      → length (to_end CacheKey-discrete k b memo) ≤ length memo
  unfolding to_end
  length-moved k b w memo e =
      omega (
        arith,
        length-append (pop CacheKey-discrete k memo) ((k, b) ∷ []),
        length-pop-lt k w memo e,
      )

  -- What a call answers and leaves.
  abbrev pub IsSupported : SupportCounts → CacheKey → Supports → Type 0
  IsSupported n k (c, n', answer) =
      IsFaithful c
      × (answer ≡ behaviour k)
      × (n'.support_cache_hits + n'.support_cache_misses
          ≡ n.support_cache_hits + n.support_cache_misses + 1)

  supports_miss-IsSupported :
      (c : SourceCatalog) (n : SupportCounts) (k : CacheKey) (cacheable : Bool) (r : Result Bool)
      → behaviour k ≡ r
      → IsFaithful c
      → IsSupported n k (supports_miss c n k cacheable r)
  unfolding supports_miss
  supports_miss-IsSupported c n k cacheable (raise e) same h = (h, sym same, omega arith)
  supports_miss-IsSupported c n k true (ok b) same h =
      (remember-IsFaithful c k b same h, sym same, omega arith)
  supports_miss-IsSupported c n k false (ok b) same h = (h, sym same, omega arith)

  remembered_answer :
      (c : SourceCatalog) (k : CacheKey) (cacheable b : Bool)
      → remembered c k cacheable ≡ some b
      → lookup CacheKey-discrete k c.support_cache ≡ some b
  unfolding remembered
  remembered_answer c k true b e = e
  remembered_answer c k false b e = cc e

  supports_from-IsSupported :
      (c : SourceCatalog) (n : SupportCounts) (k : CacheKey) (cacheable : Bool) (o : Option Bool)
      → remembered c k cacheable ≡ o
      → IsFaithful c
      → IsSupported n k (supports_from c n k cacheable (behaviour k) o)
  unfolding supports_from supports_hit
  supports_from-IsSupported c n k cacheable none e h =
      supports_miss-IsSupported c n k cacheable (behaviour k) refl h
  supports_from-IsSupported c n k cacheable (some b) e h =
      let found = remembered_answer c k cacheable b e in
      let known = lookup-Answers k b c.support_cache h.answers found in
      (
        record {
          answers = moved-Answers k b c.support_cache known h.answers;
          bounded =
              Fits-le c.support_cache_max_entries
                (length (to_end CacheKey-discrete k b c.support_cache)) (length c.support_cache)
                (length-moved k b b c.support_cache found) h.bounded;
        },
        sym known,
        omega arith,
      )

  -- A call answers what the source does.
  supports-IsSupported :
      (c : SourceCatalog) (n : SupportCounts) (k : CacheKey) (declared : Bool)
      → IsFaithful c
      → IsSupported n k (supports behaviour c n k declared)
  unfolding supports
  supports-IsSupported c n k declared h =
      supports_from-IsSupported c n k (c.cache_supports && declared)
        (remembered c k (c.cache_supports && declared)) refl h

  unfoldable pub run :
      SourceCatalog
      → SupportCounts
      → List Event
      → SourceCatalog × SupportCounts × List (Result Bool)
  run c n [] = (c, n, [])
  run c n (asks k declared ∷ events) =
      let (c', n', answer) = supports behaviour c n k declared in
      let (c'', n'', answers) = run c' n' events in (c'', n'', answer ∷ answers)
  run c n (clears ∷ events) = run (clear_support_cache c) n events

  -- what the sources answer when each is asked anew
  abbrev pub answers_to : List Event → List (Result Bool)
  answers_to [] = []
  answers_to (asks k declared ∷ events) = behaviour k ∷ answers_to events
  answers_to (clears ∷ events) = answers_to events

  zero-Fits : (limit : Option ℕ) → Fits limit 0
  zero-Fits none = tt
  zero-Fits (some limit) = omega arith

  -- The memo of a catalog shows in no answer: where what is remembered is what the sources answer and
  -- is within the limit, any questions are answered as if the sources were asked each time, each is
  -- counted once, as a hit or as a miss, and what is remembered stays so.
  pub run-answers :
      (events : List Event) (c : SourceCatalog) (n : SupportCounts)
      → IsFaithful c
      → let (c', n', answers) = run c n events in
        IsFaithful c'
        × (answers ≡ answers_to events)
        × (n'.support_cache_hits + n'.support_cache_misses
            ≡ n.support_cache_hits + n.support_cache_misses + length (answers_to events))
  unfolding run clear_support_cache
  run-answers [] c n h = (h, refl, omega arith)
  run-answers (asks k declared ∷ events) c n h =
      let (c', n', answer) = supports behaviour c n k declared in
      let (f, e, counted) = supports-IsSupported c n k declared h in
      let (f', e', counted') = run-answers events c' n' f in
      (f', cc (e, e'), omega (arith, counted, counted'))
  run-answers (clears ∷ events) c n h =
      run-answers events (clear_support_cache c) n
        (record { answers = tt; bounded = zero-Fits c.support_cache_max_entries })
