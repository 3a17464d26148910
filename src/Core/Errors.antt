-- ===== src/Core/Errors.antt =====
-- Exceptions: the classes that the modelled code raises, Python's own and those of core/errors.py.
-- The texts that they carry are left out. A fallible call returns a `Result`.
use coalestra.Prelude.{◌≡◌, refl, ◌⊎◌, inl, inr, Bool, true, false, List, [], ◌∷◌}

pub data Error : Type 0 where
  value_error type_error key_error runtime_error assertion_error : Error
  queue_full_error cancelled_error circuit_open_error payload_isolation_error
        source_protocol_error :
      Error
  snapshot_deadline_exceeded_error : Error

-- isinstance(error, Exception): asyncio's CancelledError is a BaseException only
abbrev pub is_exception : Error → Bool
is_exception cancelled_error = false
is_exception _ = true

pub data Result {ℓ} (T : Type ℓ) : Type ℓ where
  ok : T → Result T
  raise : Error → Result T

-- `if test: raise e`
abbrev pub reject_if : Bool → Error → Result (Unit {0})
reject_if test e = elim test [ true ↦ raise e | false ↦ ok tt ]

infixl 5 ◌>>◌
module _ {ℓ κ} {S : Type ℓ} {T : Type κ} where
  infixl 5 ◌>>=◌
  -- the statements after one that may raise
  abbrev pub ◌>>=◌ : Result S → (S → Result T) → Result T
  (ok s) >>= next = next s
  (raise e) >>= next = raise e

  -- An exception passes each statement that it meets, and a value needs all to succeed.
  pub >>=-eq-raise :
      (first : Result S) (next : S → Result T) {e : Error}
      → (first >>= next) ≡ raise e
      → (first ≡ raise e) ⊎ ((s : S) × (first ≡ ok s) × (next s ≡ raise e))
  >>=-eq-raise (raise x) next h = inl cc
  >>=-eq-raise (ok s) next h = inr (s, refl, h)

  pub >>=-eq-ok :
      (first : Result S) (next : S → Result T) {t : T}
      → (first >>= next) ≡ ok t
      → (s : S) × (first ≡ ok s) × (next s ≡ ok t)
  >>=-eq-ok (raise x) next h = cc
  >>=-eq-ok (ok s) next h = (s, refl, h)

abbrev pub ◌>>◌ {ℓ} : {T : Type ℓ} → Result (Unit {0}) → Result T → Result T
check >> next = check >>= λ _. next

-- The first failure ends the loop.
unfoldable pub each {ℓ κ} : {S : Type ℓ} {T : Type κ} → (S → Result T) → List S → Result (List T)
each f [] = ok []
each f (x ∷ xs) = do y ← f x; ys ← each f xs; ok (y ∷ ys)

-- To split on a computed result and keep the equation.
pub Result-cases {ℓ} :
    {T : Type ℓ} (r : Result T) → ((e : Error) × (r ≡ raise e)) ⊎ ((x : T) × (r ≡ ok x))
Result-cases (raise e) = inl (e, refl)
Result-cases (ok x) = inr (x, refl)
