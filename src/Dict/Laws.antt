-- ===== src/Dict/Laws.antt =====
-- The laws of `lookup`, in the form that has no side condition, and what keeps the keys distinct.
use coalestra.Prelude.{
  ◌+◌, ◌≤◌, ◌≡◌, refl, none, some, List, [], ◌∷◌, ◌++◌, ite, arith, length, length-append,
}
use coalestra.Dict.{lookup, pop, put, to_end, IsDict}

module _ {ℓ} {K V : Type ℓ} (dec : Discrete K) where
  pub lookup-pop :
      (k q : K) (d : List (K × V))
      → lookup dec q (pop dec k d) ≡ ite (dec k q) none (lookup dec q d)
  unfolding lookup pop
  lookup-pop k q [] = ground arith
  lookup-pop k q ((j, v) ∷ d) = ground (arith, lookup-pop k q d)

  pub lookup-put :
      (k q : K) (v : V) (d : List (K × V))
      → lookup dec q (put dec k v d) ≡ ite (dec k q) (some v) (lookup dec q d)
  unfolding lookup put
  lookup-put k q v [] = refl
  lookup-put k q v ((j, w) ∷ d) = ground (arith, lookup-put k q v d)

  pub lookup-append :
      (q : K) (d e : List (K × V))
      → lookup dec q (d ++ e) ≡ elim (lookup dec q d) [ none ↦ lookup dec q e | some v ↦ some v ]
  unfolding lookup
  lookup-append q [] e = refl
  lookup-append q ((j, w) ∷ d) e = ground (arith, lookup-append q d e)

  pub lookup-to_end :
      (k q : K) (v : V) (d : List (K × V))
      → lookup dec q (to_end dec k v d) ≡ ite (dec k q) (some v) (lookup dec q d)
  unfolding to_end lookup
  lookup-to_end k q v d =
      ground (arith, lookup-append q (pop dec k d) ((k, v) ∷ []), lookup-pop k q d)

  pub pop-IsDict : (k : K) (d : List (K × V)) → IsDict dec d → IsDict dec (pop dec k d)
  unfolding pop
  pop-IsDict k [] h = h
  pop-IsDict k ((j, v) ∷ d) h = ground (arith, pop-IsDict k d, lookup-pop k j d)

  pub put-IsDict : (k : K) (v : V) (d : List (K × V)) → IsDict dec d → IsDict dec (put dec k v d)
  unfolding put lookup
  put-IsDict k v [] h = (refl, tt)
  put-IsDict k v ((j, w) ∷ d) h = ground (arith, put-IsDict k v d, lookup-put k j v d)

  append-IsDict :
      (k : K) (v : V) (d : List (K × V))
      → lookup dec k d ≡ none
      → IsDict dec d
      → IsDict dec (d ++ (k, v) ∷ [])
  unfolding lookup
  append-IsDict k v [] h i = (refl, tt)
  append-IsDict k v ((j, w) ∷ d) h i =
      ground (arith, append-IsDict k v d, lookup-append j d ((k, v) ∷ []))

  lookup-pop_self : (k : K) (d : List (K × V)) → lookup dec k (pop dec k d) ≡ none
  lookup-pop_self k d = ground (arith, lookup-pop k k d)

  pub to_end-IsDict :
      (k : K) (v : V) (d : List (K × V)) → IsDict dec d → IsDict dec (to_end dec k v d)
  unfolding to_end
  to_end-IsDict k v d h = append-IsDict k v (pop dec k d) (lookup-pop_self k d) (pop-IsDict k d h)

  pub pop_absent : (k : K) (d : List (K × V)) → lookup dec k d ≡ none → pop dec k d ≡ d
  unfolding lookup pop
  pop_absent k [] h = refl
  pop_absent k ((j, v) ∷ d) h = ground (arith, pop_absent k d)

  pub length-pop-le : (k : K) (d : List (K × V)) → length (pop dec k d) ≤ length d
  unfolding pop
  length-pop-le k [] = omega arith
  length-pop-le k ((j, v) ∷ d) = ground (arith, length-pop-le k d)

  pub length-pop :
      (k : K) (v : V) (d : List (K × V))
      → IsDict dec d
      → lookup dec k d ≡ some v
      → length (pop dec k d) + 1 ≡ length d
  unfolding lookup pop
  length-pop k v [] i h = cc
  length-pop k v ((j, w) ∷ d) i h = ground (arith, length-pop k v d, pop_absent k d)

  pub length-to_end :
      (k : K) (v w : V) (d : List (K × V))
      → IsDict dec d
      → lookup dec k d ≡ some w
      → length (to_end dec k v d) ≡ length d
  unfolding to_end
  length-to_end k v w d i h =
      omega (arith, length-append (pop dec k d) ((k, v) ∷ []), length-pop k w d i h)

  pub put_self : (k : K) (v : V) (d : List (K × V)) → lookup dec k d ≡ some v → put dec k v d ≡ d
  unfolding lookup put
  put_self k v [] h = cc
  put_self k v ((j, w) ∷ d) h = ground (arith, put_self k v d)

  pub put-put : (k : K) (v w : V) (d : List (K × V)) → put dec k v (put dec k w d) ≡ put dec k v d
  unfolding put
  put-put k v w [] = ground arith
  put-put k v w ((j, x) ∷ d) = ground (arith, put-put k v w d)
