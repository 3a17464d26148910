-- ===== src/Cache/Commit/Total.antt =====
-- cache/memory.py: the rounds of the loop of `set_many_if_newer`, measured by the candidates that
-- are not copied yet.
use coalestra.Prelude.{
  ℕ, zero, suc, ◌≤◌, ◌<◌, ◌≡◌, ◌≢◌, refl, Bool, true, false, Option, none, some, List, [], ◌∷◌,
  arith, length, inl, inr, List-cases, if◌then◌else◌,
}
use coalestra.Dict.{lookup, put}
use coalestra.Dict.Laws.{lookup-put}
use coalestra.Core.Errors.{Result, ok, raise, >>=-eq-ok}
use coalestra.Core.Keys.{ResourceKey, ResourceKey-discrete}
use coalestra.Core.Models.{SnapshotValue}
use coalestra.Cache.State.{Cache, Copier, clone_snapshot_value}
use coalestra.Cache.Writes.{judge, missing_from, select_candidates}
use coalestra.Cache.Commit.{
  prepare, attempt, go_on, Attempt, answer_of, write_candidates, set_many_if_newer,
}

module _ {A : Type 0} where
  abbrev is_some : Option (SnapshotValue A) → Bool
  is_some none = false
  is_some (some _) = true

  -- the key has been prepared
  pub has : List (ResourceKey × SnapshotValue A) → ResourceKey → Bool
  has prepared k = is_some (lookup ResourceKey-discrete k prepared)

  has-put :
      (p : List (ResourceKey × SnapshotValue A)) (k q : ResourceKey) (v : SnapshotValue A)
      → has p q ≡ true
      → has (put ResourceKey-discrete k v p) q ≡ true
  unfolding has
  has-put p k q v h = ground (arith, lookup-put ResourceKey-discrete k q v p)

  has-put_self :
      (p : List (ResourceKey × SnapshotValue A)) (k : ResourceKey) (v : SnapshotValue A)
      → has (put ResourceKey-discrete k v p) k ≡ true
  unfolding has
  has-put_self p k v = ground (arith, lookup-put ResourceKey-discrete k k v p)

  abbrev IsKept :
      List (ResourceKey × SnapshotValue A) → List (ResourceKey × SnapshotValue A) → Type 0
  IsKept p p' = (q : ResourceKey) → has p q ≡ true → has p' q ≡ true

  -- the candidates that are not prepared
  unprepared : List (ResourceKey × SnapshotValue A) → List (ResourceKey × SnapshotValue A) → ℕ
  unprepared p [] = 0
  unprepared p ((k, v) ∷ rest) =
      let others = unprepared p rest in if has p v.key then others else suc others

  unprepared-le :
      (p p' cs : List (ResourceKey × SnapshotValue A))
      → IsKept p p'
      → unprepared p' cs ≤ unprepared p cs
  unfolding unprepared
  unprepared-le p p' [] kept = omega arith
  unprepared-le p p' ((k, v) ∷ rest) kept = ground (arith, kept v.key, unprepared-le p p' rest kept)

  unprepared-length : (p cs : List (ResourceKey × SnapshotValue A)) → unprepared p cs ≤ length cs
  unfolding unprepared
  unprepared-length p [] = omega arith
  unprepared-length p ((k, v) ∷ rest) = ground (arith, unprepared-length p rest)

  module _ (entries : List (ResourceKey × SnapshotValue A)) (force replace_equal : Bool) where
    unprepared-lt :
        (p p' cs : List (ResourceKey × SnapshotValue A)) (u : SnapshotValue A)
        (missing : List (SnapshotValue A))
        → missing_from p (judge entries force replace_equal cs) ≡ u ∷ missing
        → has p' u.key ≡ true
        → IsKept p p'
        → unprepared p' cs < unprepared p cs
    unfolding missing_from judge unprepared has
    unprepared-lt p p' [] u missing e h kept = cc
    unprepared-lt p p' ((k, v) ∷ rest) u missing e h kept =
        ground (arith, unprepared-lt p p' rest u missing, unprepared-le p p' rest kept, kept v.key)

  prepare-has :
      (copier : Copier A) (p p' : List (ResourceKey × SnapshotValue A))
      (vs : List (SnapshotValue A)) (q : ResourceKey)
      → prepare copier p vs ≡ ok p'
      → has p q ≡ true
      → has p' q ≡ true
  unfolding prepare
  prepare-has copier p p' [] q e h = ground arith
  prepare-has copier p p' (v ∷ rest) q e h =
      let (v', _, later) = >>=-eq-ok (clone_snapshot_value copier v) _ e in
      prepare-has copier (put ResourceKey-discrete v.key v' p) p' rest q later
        (has-put p v.key q v' h)

  prepare-has_first :
      (copier : Copier A) (p p' : List (ResourceKey × SnapshotValue A)) (u : SnapshotValue A)
      (vs : List (SnapshotValue A))
      → prepare copier p (u ∷ vs) ≡ ok p'
      → has p' u.key ≡ true
  unfolding prepare
  prepare-has_first copier p p' u vs e =
      let (u', _, later) = >>=-eq-ok (clone_snapshot_value copier u) _ e in
      prepare-has copier (put ResourceKey-discrete u.key u' p) p' vs u.key later
        (has-put_self p u.key u')

module _ {A : Type 0} (copier : Copier A) (force replace_equal : Bool)
    (others : ℕ → Cache A → Cache A) where
  abbrev retry :
      ℕ
      → ℕ
      → Cache A
      → List (ResourceKey × SnapshotValue A)
      → List (ResourceKey × SnapshotValue A)
      → Attempt A
  retry fuel wait c cs p = attempt copier force replace_equal others fuel wait c p cs

  go_on-total :
      (again : List (ResourceKey × SnapshotValue A) → Attempt A) (c : Cache A)
      (r : Result (List (ResourceKey × SnapshotValue A)))
      → ((p : List (ResourceKey × SnapshotValue A)) → r ≡ ok p → again p ≢ none)
      → go_on again c r ≢ none
  unfolding go_on
  go_on-total again c (raise e) h = λ q. cc
  go_on-total again c (ok p) h = h p refl

  attempt_total :
      (fuel wait : ℕ) (c : Cache A) (p cs : List (ResourceKey × SnapshotValue A))
      → unprepared p cs < fuel
      → attempt copier force replace_equal others fuel wait c p cs ≢ none
  unfolding attempt
  attempt_total zero wait c p cs h = absurd (omega arith)
  attempt_total (suc fuel) wait c p cs h =
      elim (List-cases (missing_from p (judge c.entries force replace_equal cs))) [
        | inl e ↦ rw (e, attempt) (λ q. cc)
        | inr (u, rest, e) ↦
            rw (e, attempt)
              (go_on-total (retry fuel (suc wait) (others wait c) cs) (others wait c)
                (prepare copier p (u ∷ rest))
                (λ p' done. attempt_total fuel (suc wait) (others wait c) p' cs (
                  omega (
                    arith,
                    unprepared-lt c.entries force replace_equal p p' cs u rest e
                        (prepare-has_first copier p p' u rest done)
                        (λ q. prepare-has copier p p' (u ∷ rest) q done),
                  ))))
      ]

  -- Whatever other tasks do to the cache while candidates are copied, `set_many_if_newer` ends,
  -- with at most one round more than there are keys to write.
  pub set_many_if_newer_total :
      (c : Cache A) (values : List (SnapshotValue A))
      → set_many_if_newer copier force replace_equal others c values ≢ none
  unfolding set_many_if_newer
  set_many_if_newer_total c values = written (select_candidates values)
    where
      answered : (a : Attempt A) → a ≢ none → answer_of copier a ≢ none
      answered none h = λ _. h refl
      answered (some done) h = λ q. cc

      written :
          (cs : List (ResourceKey × SnapshotValue A))
          → write_candidates copier force replace_equal others c cs ≢ none
      written [] = λ q. cc
      written (e ∷ rest) =
          answered
            (attempt copier force replace_equal others (suc (length (e ∷ rest))) 0 c [] (e ∷ rest))
            (attempt_total (suc (length (e ∷ rest))) 0 c [] (e ∷ rest)
              (omega (arith, unprepared-length [] (e ∷ rest))))
