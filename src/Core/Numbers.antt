-- ===== src/Core/Numbers.antt =====
-- The floats that configuration takes. Seconds are counted in a fixed tick, so a finite float is an
-- integer here; no modelled code rounds.
use coalestra.Prelude.{ℕ, ℤ, pos, negsuc, ◌≤◌, Bool, true, false, ltb, ltb_ℤ}

-- An argument of type float, as the caller passes it.
pub data Number : Type 0 where
  nan neg_infinity infinity : Number
  finite : ℤ → Number

-- isfinite(x)
abbrev pub is_finite : Number → Bool
is_finite (finite _) = true
is_finite _ = false

-- isnan(x)
abbrev pub is_nan : Number → Bool
is_nan nan = true
is_nan _ = false

-- x < y; nan is below nothing and above nothing
abbrev pub lt_number : Number → Number → Bool
lt_number nan _ = false
lt_number neg_infinity nan = false
lt_number neg_infinity neg_infinity = false
lt_number neg_infinity _ = true
lt_number infinity _ = false
lt_number (finite a) nan = false
lt_number (finite a) neg_infinity = false
lt_number (finite a) infinity = true
lt_number (finite a) (finite b) = ltb_ℤ a b

-- A number of seconds that was checked to be nonnegative and not nan.
pub data Limit : Type 0 where
  seconds : ℕ → Limit
  unlimited : Limit

-- age > limit
abbrev pub exceeds : ℕ → Limit → Bool
exceeds age (seconds n) = ltb n age
exceeds age unlimited = false

infix 50 ◌≤Limit◌
abbrev pub ◌≤Limit◌ : Limit → Limit → Type 0
◌≤Limit◌ _ unlimited = Unit
◌≤Limit◌ unlimited (seconds _) = ⊥
◌≤Limit◌ (seconds m) (seconds n) = m ≤ n

-- The limit that a checked number stands for.
abbrev pub limit : Number → Limit
limit (finite (pos n)) = seconds n
limit (finite (negsuc n)) = seconds 0
limit _ = unlimited

-- The number of seconds that a checked finite number stands for.
abbrev pub count : Number → ℕ
count (finite (pos n)) = n
count _ = 0
