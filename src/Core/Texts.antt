-- ===== src/Core/Texts.antt =====
-- The order of Python's texts, which is that of their characters' numbers.
use Prim.Native.Nat.{Ordering}
use Prim.Native.String.{String, [], ◌∷◌, compare}
use Prim.Native.String.compare
use text.Mathlib.TextEquality.{path_by_compare}
use coalestra.Prelude.{◌≡◌, refl, Bool, true, false, arith}

abbrev at_most : Ordering → Bool
at_most Ordering.gt = false
at_most _ = true

-- a <= b
unfoldable pub text_le : String → String → Bool
text_le a b = at_most (compare a b)

opposite : Ordering → Ordering
opposite Ordering.lt = Ordering.gt
opposite Ordering.eq = Ordering.eq
opposite Ordering.gt = Ordering.lt

compare-opposite : (a b : String) → compare b a ≡ opposite (compare a b)
unfolding opposite
compare-opposite [] [] = rw (compare.nil-nil) refl
compare-opposite [] (d ∷ t) = rw (compare.nil-cons d t, compare.cons-nil d t) refl
compare-opposite (c ∷ s) [] = rw (compare.nil-cons c s, compare.cons-nil c s) refl
compare-opposite (c ∷ s) (d ∷ t) =
    ground (arith, compare.cons-cons c d s t, compare.cons-cons d c t s, compare-opposite s t)

text_le_trans : (a b c : String) → text_le a b ≡ true → text_le b c ≡ true → text_le a c ≡ true
unfolding text_le
text_le_trans [] b [] h k = refl
text_le_trans [] b (f ∷ u) h k = rw (compare.nil-cons f u) refl
text_le_trans (c ∷ s) [] x h k = ground (arith, compare.cons-nil c s, h)
text_le_trans (c ∷ s) (d ∷ t) [] h k = ground (arith, compare.cons-nil d t, k)
text_le_trans (c ∷ s) (d ∷ t) (f ∷ u) h k = ground (
  arith,
  compare.cons-cons c d s t,
  compare.cons-cons d f t u,
  compare.cons-cons c f s u,
  text_le_trans s t u,
  h,
  k,
)

text_lt_trans :
    (a b c : String) → compare a b ≡ Ordering.lt → text_le b c ≡ true → compare a c ≡ Ordering.lt
unfolding text_le opposite
text_lt_trans a b c h k =
    ground (arith, text_le_trans a b c, path_by_compare a c, compare-opposite b c, h, k)

-- (a, v) <= (b, w)
unfoldable pub pair_le : String × String → String × String → Bool
unfolding text_le
pair_le (a, v) (b, w) = elim (compare a b) [
  | Ordering.lt ↦ true
  | Ordering.eq ↦ text_le v w
  | Ordering.gt ↦ false
]

pub pair_le_total : (x y : String × String) → pair_le x y ≡ false → pair_le y x ≡ true
unfolding pair_le text_le opposite
pair_le_total (a, v) (b, w) h = ground (arith, compare-opposite a b, compare-opposite v w, h)

pub pair_le_antisym : (x y : String × String) → pair_le x y ≡ true → pair_le y x ≡ true → x ≡ y
unfolding pair_le text_le opposite
pair_le_antisym (a, v) (b, w) h k = ground (
  arith,
  compare-opposite a b,
  compare-opposite v w,
  path_by_compare a b,
  path_by_compare v w,
  h,
  k,
)

pub pair_le_trans :
    (x y z : String × String) → pair_le x y ≡ true → pair_le y z ≡ true → pair_le x z ≡ true
unfolding pair_le text_le
pair_le_trans (a, v) (b, w) (c, u) h k = ground (
  arith,
  path_by_compare a b,
  path_by_compare b c,
  text_lt_trans a b c,
  text_le_trans v w u,
  h,
  k,
)
