-- ===== src/Orchestration/SingleFlight/Run.antt =====
-- orchestration/singleflight.py: callers and producers, one step after the other.
use coalestra.Prelude.{ℕ, zero, suc, ◌≡◌, Bool, true, Option, none, some, List, [], ◌∷◌, arith, any}
use coalestra.Dict.{contains}
use coalestra.Core.Errors.{Result}
use coalestra.Orchestration.SingleFlight.{
  Producer, running, completing, SingleFlight, key_list, run_many, produced, complete_next,
  interrupt,
}

-- A caller asks for keys, or the producer at a place of the list goes on.
pub data Event (K T : Type 0) : Type 0 where
  asks : List K → Event K T
  produces : ℕ → Result (List (K × T)) → Event K T
  completes interrupts : ℕ → Event K T

abbrev pub get_elem? {ℓ} : {A : Type ℓ} → List A → ℕ → Option A
get_elem? [] i = none
get_elem? (x ∷ xs) zero = some x
get_elem? (x ∷ xs) (suc i) = get_elem? xs i

abbrev pub set {ℓ} : {A : Type ℓ} → List A → ℕ → A → List A
set [] i v = []
set (x ∷ xs) zero v = v ∷ xs
set (x ∷ xs) (suc i) v = x ∷ set xs i v

module _ {K T : Type 0} (dec : Discrete K) where
  abbrev pub with_producer : SingleFlight K T → ℕ → Producer K T → SingleFlight K T
  with_producer s i p = record s { producers = set s.producers i p }

  abbrev pub go_on : SingleFlight K T → ℕ → Option (Producer K T) → SingleFlight K T
  go_on s i none = s
  go_on s i (some p) = let done = complete_next dec p s in with_producer done.0 i done.1

  abbrev pub change :
      SingleFlight K T
      → ℕ
      → (Producer K T → Producer K T)
      → Option (Producer K T)
      → SingleFlight K T
  change s i f none = s
  change s i f (some p) = with_producer s i (f p)

  abbrev pub step : SingleFlight K T → Event K T → SingleFlight K T
  step s (asks keys) = (run_many dec keys s).0
  step s (produces i result) = change s i (λ p. produced dec p result) (get_elem? s.producers i)
  step s (completes i) = go_on s i (get_elem? s.producers i)
  step s (interrupts i) = change s i (λ p. interrupt dec p) (get_elem? s.producers i)

  unfoldable pub run : SingleFlight K T → List (Event K T) → SingleFlight K T
  run s [] = s
  run s (e ∷ events) = run (step s e) events

  -- the producer has the key still to complete
  abbrev pub covers : K → Producer K T → Bool
  covers k (running owned) = contains dec k owned
  covers k (completing owned left) = contains dec k (key_list left)

  pub covers-set :
      (k : K) (i : ℕ) (ps : List (Producer K T)) (p q : Producer K T)
      → get_elem? ps i ≡ some p
      → (covers k p ≡ true → covers k q ≡ true)
      → any (covers k) ps ≡ true
      → any (covers k) (set ps i q) ≡ true
  covers-set k i [] p q e h c = cc
  covers-set k zero (x ∷ ps) p q e h c = ground arith
  covers-set k (suc i) (x ∷ ps) p q e h c = ground (arith, covers-set k i ps p q e h)
