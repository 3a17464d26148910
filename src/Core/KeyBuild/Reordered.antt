-- ===== src/Core/KeyBuild/Reordered.antt =====
-- core/keys.py: the order in which qualifiers are given.
use coalestra.Prelude.{
  String, String-discrete, ◌≡◌, refl, sym, ap, ◌∙◌, List, [], ◌∷◌, arith, if◌then◌else◌,
}
use coalestra.Dict.{contains}
use coalestra.Core.Errors.{value_error, Result, ok, raise, reject_if, ◌>>=◌, ◌>>◌}
use coalestra.Core.Keys.{ResourceKey}
use coalestra.Core.KeyBuild.{
  KeyNormalizer, normalize_qualifier, insert, sort, is_refused, is_empty, normalize_qualifiers,
  resource_key,
}
use coalestra.Core.KeyBuild.Sorted.{insert-insert}

-- The same qualifiers in another order.
pub data Reordered : List (String × String) → List (String × String) → Type 0 where
  nil : Reordered [] []
  skip :
      (x : String × String) {xs ys : List (String × String)}
      → Reordered xs ys
      → Reordered (x ∷ xs) (x ∷ ys)
  swap : (x y : String × String) (zs : List (String × String)) → Reordered (x ∷ y ∷ zs) (y ∷ x ∷ zs)
  chain : {xs ys zs : List (String × String)} → Reordered xs ys → Reordered ys zs → Reordered xs zs

inserted : String × String → Result (List (String × String)) → Result (List (String × String))
inserted x (raise e) = raise e
inserted x (ok ys) = ok (insert x ys)

inserted-inserted :
    (x y : String × String) (r : Result (List (String × String)))
    → inserted x (inserted y r) ≡ inserted y (inserted x r)
unfolding inserted
inserted-inserted x y (raise e) = refl
inserted-inserted x y (ok zs) = ap ok (insert-insert x y zs)

module _ (n : KeyNormalizer) where
  -- the qualifiers normalized and sorted at once
  sorted_from : List String → List (String × String) → Result (List (String × String))
  sorted_from seen [] = ok []
  sorted_from seen (raw ∷ rest) =
      let q = normalize_qualifier n raw in
      let others = inserted q (sorted_from (q.0 ∷ seen) rest) in
      if is_refused seen q.0 then raise value_error else others

  sorted_from-eq :
      (seen : List String) (qs : List (String × String))
      → (normalize_qualifiers n seen qs >>= λ xs. ok (sort xs)) ≡ sorted_from seen qs
  unfolding sorted_from normalize_qualifiers sort inserted
  sorted_from-eq seen [] = refl
  sorted_from-eq seen (raw ∷ rest) =
      ground (arith, sorted_from-eq ((normalize_qualifier n raw).0 ∷ seen) rest)

  sorted_from-cong :
      (qs : List (String × String)) (seen seen' : List String)
      → ((q : String) → contains String-discrete q seen ≡ contains String-discrete q seen')
      → sorted_from seen qs ≡ sorted_from seen' qs
  unfolding sorted_from is_refused contains
  sorted_from-cong [] seen seen' same = refl
  sorted_from-cong (raw ∷ rest) seen seen' same =
      let name = (normalize_qualifier n raw).0 in
      ground (
        arith,
        same name,
        sorted_from-cong rest (name ∷ seen) (name ∷ seen') (λ q. ground (arith, same q)),
      )

  sorted_from-swap :
      (x y : String × String) (zs : List (String × String)) (seen : List String)
      → sorted_from seen (x ∷ y ∷ zs) ≡ sorted_from seen (y ∷ x ∷ zs)
  unfolding sorted_from is_refused contains inserted
  sorted_from-swap x y zs seen =
      let a = normalize_qualifier n x in
      let b = normalize_qualifier n y in
      ground (
        arith,
        sorted_from-cong zs (b.0 ∷ a.0 ∷ seen) (a.0 ∷ b.0 ∷ seen) (λ q. ground arith),
        inserted-inserted a b (sorted_from (a.0 ∷ b.0 ∷ seen) zs),
      )

  sorted_from-Reordered :
      (qs rs : List (String × String))
      → Reordered qs rs
      → (seen : List String) → sorted_from seen qs ≡ sorted_from seen rs
  unfolding sorted_from
  sorted_from-Reordered qs rs nil seen = refl
  sorted_from-Reordered qs rs (skip x {xs} {ys} h) seen =
      let a = normalize_qualifier n x in
      ap (λ r. if is_refused seen a.0 then raise value_error else inserted a r)
        (sorted_from-Reordered xs ys h (a.0 ∷ seen))
  sorted_from-Reordered qs rs (swap x y zs) seen = sorted_from-swap x y zs seen
  sorted_from-Reordered qs rs (chain {xs} {ys} {zs} h k) seen =
      sorted_from-Reordered xs ys h seen ∙ sorted_from-Reordered ys zs k seen

  sorted_first :
      (r : Result (List (String × String))) (f : List (String × String) → ResourceKey)
      → (r >>= λ xs. ok (f (sort xs))) ≡ ((r >>= λ xs. ok (sort xs)) >>= λ xs. ok (f xs))
  sorted_first (raise e) f = refl
  sorted_first (ok xs) f = refl

  -- The order in which the qualifiers of a key are given changes neither whether the key is accepted
  -- nor which key it is.
  pub resource_key-Reordered :
      (namespace name subject : String) {qs rs : List (String × String)}
      → Reordered qs rs
      → resource_key n namespace name subject qs ≡ resource_key n namespace name subject rs
  unfolding resource_key
  resource_key-Reordered namespace name subject {qs} {rs} h =
      let key : List (String × String) → ResourceKey = λ xs. record {
        namespace = n.namespace namespace;
        name = n.name name;
        subject = n.subject subject;
        qualifiers = xs;
      } in
      let accepted : Result ResourceKey → Result ResourceKey = λ built.
        reject_if (is_empty (n.namespace namespace)) value_error
        >> (reject_if (is_empty (n.name name)) value_error >> built) in
      let same : (normalize_qualifiers n [] qs >>= λ xs. ok (key (sort xs)))
          ≡ (normalize_qualifiers n [] rs >>= λ xs. ok (key (sort xs))) =
        sorted_first (normalize_qualifiers n [] qs) key
        ∙ ap (λ r. r >>= λ xs. ok (key xs))
            (sorted_from-eq [] qs ∙ sorted_from-Reordered qs rs h [] ∙ sym (sorted_from-eq [] rs))
        ∙ sym (sorted_first (normalize_qualifiers n [] rs) key) in
      ap accepted same
