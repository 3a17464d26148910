-- ===== src/Core/KeyBuild/Sorted.antt =====
-- core/keys.py: sorting does not see the order that it is given.
use coalestra.Prelude.{String, ◌≡◌, List, [], ◌∷◌, arith}
use coalestra.Core.Texts.{pair_le_total, pair_le_antisym, pair_le_trans}
use coalestra.Core.KeyBuild.{insert}

pub insert-insert :
    (x y : String × String) (zs : List (String × String))
    → insert x (insert y zs) ≡ insert y (insert x zs)
unfolding insert
insert-insert x y [] = ground (arith, pair_le_total x y, pair_le_total y x, pair_le_antisym x y)
insert-insert x y (z ∷ zs) = ground (
  arith,
  insert-insert x y zs,
  pair_le_total x y,
  pair_le_total y x,
  pair_le_antisym x y,
  pair_le_trans x y z,
  pair_le_trans y x z,
  pair_le_total x z,
  pair_le_total y z,
  pair_le_trans x z y,
  pair_le_trans y z x,
)
