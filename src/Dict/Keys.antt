-- ===== src/Dict/Keys.antt =====
-- The keys that `dict.fromkeys` leaves.
use coalestra.Prelude.{◌≡◌, refl, false, ◌||◌, List, [], ◌∷◌, ◌++◌, arith}
use coalestra.Dict.{contains, without, unique, Distinct}

module _ {ℓ} {K : Type ℓ} (dec : Discrete K) where
  pub contains-without :
      (k q : K) (ks : List K)
      → contains dec q (without dec k ks)
        ≡ elim (dec k q) [ yes _ ↦ false | no _ ↦ contains dec q ks ]
  unfolding contains without
  contains-without k q [] = ground arith
  contains-without k q (j ∷ ks) = ground (arith, contains-without k q ks)

  pub contains-unique : (q : K) (ks : List K) → contains dec q (unique dec ks) ≡ contains dec q ks
  unfolding contains unique
  contains-unique q [] = refl
  contains-unique q (k ∷ ks) =
      ground (arith, contains-without k q (unique dec ks), contains-unique q ks)

  pub contains-append :
      (q : K) (ks js : List K)
      → contains dec q (ks ++ js) ≡ (contains dec q ks || contains dec q js)
  unfolding contains
  contains-append q [] js = refl
  contains-append q (k ∷ ks) js = ground (arith, contains-append q ks js)

  without-Distinct : (k : K) (ks : List K) → Distinct dec ks → Distinct dec (without dec k ks)
  unfolding without
  without-Distinct k [] h = h
  without-Distinct k (j ∷ ks) h = ground (arith, without-Distinct k ks, contains-without k j ks)

  pub unique-Distinct : (ks : List K) → Distinct dec (unique dec ks)
  unfolding unique
  unique-Distinct [] = tt
  unique-Distinct (k ∷ ks) = ground (
    arith,
    unique-Distinct ks,
    without-Distinct k (unique dec ks),
    contains-without k k (unique dec ks),
  )
