-- ===== src/Observability/Buffer/Follows.antt =====
-- observability/buffered.py: queues before and after, by the records that were handed over and
-- offered in between.
use mathlib.Core.List.{append-nil, append_assoc}
use coalestra.Prelude.{◌≡◌, refl, sym, List, [], ◌∷◌, ◌++◌, arith}
use coalestra.Observability.Buffer.{Entry, entry, sentinel}
use coalestra.Observability.Buffer.Run.{records}

-- The first list comes of the second by leaving elements out.
pub data Subsequence {T : Type 0} : List T → List T → Type 0 where
  nil : Subsequence [] []
  keep : (x : T) {xs ys : List T} → Subsequence xs ys → Subsequence (x ∷ xs) (x ∷ ys)
  skip : (x : T) {xs ys : List T} → Subsequence xs ys → Subsequence xs (x ∷ ys)

module _ {T : Type 0} where
  keep_last :
      (r : T) {xs ys : List T} → Subsequence xs ys → Subsequence (xs ++ r ∷ []) (ys ++ r ∷ [])
  keep_last r nil = keep r nil
  keep_last r (keep x s) = keep x (keep_last r s)
  keep_last r (skip x s) = skip x (keep_last r s)

  skip_last : (r : T) {xs ys : List T} → Subsequence xs ys → Subsequence xs (ys ++ r ∷ [])
  skip_last r nil = skip r nil
  skip_last r (keep x s) = keep x (skip_last r s)
  skip_last r (skip x s) = skip x (skip_last r s)

  whole : (xs : List T) → Subsequence xs xs
  whole [] = nil
  whole (x ∷ xs) = keep x (whole xs)

  without_inner : (hs : List T) (x : T) (xs : List T) → Subsequence (hs ++ xs) (hs ++ x ∷ xs)
  without_inner [] x xs = skip x (whole xs)
  without_inner (h ∷ hs) x xs = keep h (without_inner hs x xs)

  trans :
      {ys zs : List T} → Subsequence ys zs → (xs : List T) → Subsequence xs ys → Subsequence xs zs
  trans nil xs s = s
  trans (keep x t) (_ ∷ xs) (keep _ s) = keep x (trans t xs s)
  trans (keep x t) xs (skip _ s) = skip x (trans t xs s)
  trans (skip x t) xs s = skip x (trans t xs s)

  records-put : (q : List (Entry T)) (r : T) → records (q ++ entry r ∷ []) ≡ records q ++ r ∷ []
  records-put [] r = refl
  records-put (entry x ∷ q) r = ground (arith, records-put q r)
  records-put (sentinel ∷ q) r = records-put q r

  pub records-sentinel : (q : List (Entry T)) → records (q ++ sentinel ∷ []) ≡ records q
  records-sentinel [] = refl
  records-sentinel (entry x ∷ q) = ground (arith, records-sentinel q)
  records-sentinel (sentinel ∷ q) = records-sentinel q

  -- What was handed over, then what is queued, is a subsequence of what was offered; `hs` is handed
  -- over and `os` is offered from the one queue to the other.
  abbrev pub Follows : List (Entry T) → List T → List T → List (Entry T) → Type 0
  Follows q hs os q' =
      (xs ys : List T)
      → Subsequence (xs ++ records q) ys
      → Subsequence ((xs ++ hs) ++ records q') (ys ++ os)

  pub Follows-same : (q q' : List (Entry T)) → records q' ≡ records q → Follows q [] [] q'
  Follows-same q q' e xs ys s = simp (append-nil, e) s

  pub Follows-put : (q : List (Entry T)) (r : T) → Follows q [] (r ∷ []) (q ++ entry r ∷ [])
  Follows-put q r xs ys s =
      simp (append-nil, records-put q r, sym (append_assoc xs (records q) (r ∷ []))) (keep_last r s)

  pub Follows-hand : (r : T) (q : List (Entry T)) → Follows (entry r ∷ q) (r ∷ []) [] q
  Follows-hand r q xs ys s = simp (append-nil, append_assoc) s

  pub Follows-lose : (r : T) (q : List (Entry T)) → Follows (entry r ∷ q) [] [] q
  Follows-lose r q xs ys s =
      simp append-nil (trans s (xs ++ records q) (without_inner xs r (records q)))

  pub Follows-refuse :
      (q q' : List (Entry T)) (r : T) → records q' ≡ records q → Follows q [] (r ∷ []) q'
  Follows-refuse q q' r e xs ys s = simp (append-nil, e) (skip_last r s)

  pub Follows-trans :
      (p q t : List (Entry T)) (hs os : List T)
      → Follows p hs [] q
      → Follows q [] os t
      → Follows p hs os t
  Follows-trans p q t hs os f g xs ys s =
      let first = f xs ys s in
      let second = g (xs ++ hs) (ys ++ []) first in simp append-nil at second
