-- ===== src/Cache/Publisher/Kept.antt =====
-- cache/publisher.py, cache/memory.py: the keys that a write answers for.
use coalestra.Prelude.{
  ℕ, zero, suc, ◌≡◌, ◌≢◌, ◌∙◌, inl, inr, refl, Bool, true, none, some, List, [], ◌∷◌, arith, length,
  All, List-cases,
}
use coalestra.Dict.{lookup, contains}
use coalestra.Core.Errors.{Result, ok, raise, each, >>=-eq-ok}
use coalestra.Core.Keys.{ResourceKey, ResourceKey-discrete}
use coalestra.Core.Models.{SnapshotValue, CacheWriteStatus, CacheWriteResult}
use coalestra.Cache.State.{Cache, Copier, clone_snapshot_value}
use coalestra.Cache.Writes.{judge, missing_from, select_candidates}
use coalestra.Cache.Writes.Select.{select_candidates_lem, IsCovered}
use coalestra.Cache.WriteLaws.{select_candidates_labels}
use coalestra.Cache.Commit.{
  Attempt, commit_one, commit_all, finish, go_on, prepare, clone_previous, clone_result,
  copy_results, answer_of, attempt, write_candidates, set_many_if_newer,
}

abbrev pub keys_of : {V : Type 0} → List (ResourceKey × V) → List ResourceKey
keys_of [] = []
keys_of ((k, _) ∷ d) = k ∷ keys_of d

abbrev pub value_keys : {A : Type 0} → List (SnapshotValue A) → List ResourceKey
value_keys [] = []
value_keys (v ∷ vs) = v.key ∷ value_keys vs

-- A loop that keeps the key of each item keeps the keys.
pub each-keys :
    {V W : Type 0} (f : ResourceKey × V → Result (ResourceKey × W))
    → ((x : ResourceKey × V) (y : ResourceKey × W) → f x ≡ ok y → y.0 ≡ x.0)
    → (xs : List (ResourceKey × V)) (ys : List (ResourceKey × W)) → each f xs ≡ ok ys
    → keys_of ys ≡ keys_of xs
unfolding each
each-keys f keep [] ys e = ground (arith, e)
each-keys f keep ((k, v) ∷ xs) ys e =
    let ((j, w), first, others) = >>=-eq-ok (f (k, v)) _ e in
    let (rest, later, last) = >>=-eq-ok (each f xs) _ others in
    ground (arith, keep (k, v) (j, w) first, each-keys f keep xs rest later, last)

pub lookup-keys :
    {V : Type 0} (d : List (ResourceKey × V)) (q : ResourceKey)
    → lookup ResourceKey-discrete q d ≢ none
    → contains ResourceKey-discrete q (keys_of d) ≡ true
unfolding lookup contains
lookup-keys [] q n = absurd (n refl)
lookup-keys ((k, v) ∷ d) q n = ground (arith, lookup-keys d q, n)

module _ {A : Type 0} where
  -- the keys of judged candidates
  abbrev judged_keys : List (SnapshotValue A × CacheWriteStatus) → List ResourceKey
  judged_keys [] = []
  judged_keys ((v, _) ∷ js) = v.key ∷ judged_keys js

  judge-keys :
      (entries : List (ResourceKey × SnapshotValue A)) (force replace_equal : Bool)
      (cs : List (ResourceKey × SnapshotValue A))
      → All (λ e. e.1.key ≡ e.0) cs
      → judged_keys (judge entries force replace_equal cs) ≡ keys_of cs
  unfolding judge
  judge-keys entries force replace_equal [] l = refl
  judge-keys entries force replace_equal ((k, v) ∷ cs) (l, ls) =
      cc (l, judge-keys entries force replace_equal cs ls)

  commit_all-keys :
      (js : List (SnapshotValue A × CacheWriteStatus)) (p : List (ResourceKey × SnapshotValue A))
      (s s' : Cache A) (rs : List (ResourceKey × CacheWriteResult A))
      → commit_all p s js ≡ ok (s', rs)
      → keys_of rs ≡ judged_keys js
  unfolding commit_all
  commit_all-keys [] p s s' rs e = ground (arith, e)
  commit_all-keys ((v, status) ∷ js) p s s' rs e =
      let ((s1, r), _, others) = >>=-eq-ok (commit_one p s v status) _ e in
      let ((s2, rest), later, last) = >>=-eq-ok (commit_all p s1 js) _ others in
      ground (arith, commit_all-keys js p s1 s2 rest later, last)

  -- what an attempt answers is for the candidates
  abbrev pub AnswersFor : List ResourceKey → Attempt A → Type 0
  AnswersFor ks none = Unit
  AnswersFor ks (some (s, raise e)) = Unit
  AnswersFor ks (some (s, ok rs)) = keys_of rs ≡ ks

  finish-AnswersFor :
      (ks : List ResourceKey) (s : Cache A)
      (r : Result (Cache A × List (ResourceKey × CacheWriteResult A)))
      → ((s' : Cache A) (rs : List (ResourceKey × CacheWriteResult A))
          → r ≡ ok (s', rs)
          → keys_of rs ≡ ks)
      → AnswersFor ks (some (finish s r))
  unfolding finish
  finish-AnswersFor ks s (raise e) h = tt
  finish-AnswersFor ks s (ok (s', rs)) h = h s' rs refl

  go_on-AnswersFor :
      (ks : List ResourceKey) (again : List (ResourceKey × SnapshotValue A) → Attempt A)
      (s : Cache A) (r : Result (List (ResourceKey × SnapshotValue A)))
      → ((p : List (ResourceKey × SnapshotValue A)) → AnswersFor ks (again p))
      → AnswersFor ks (go_on again s r)
  unfolding go_on
  go_on-AnswersFor ks again s (raise e) h = tt
  go_on-AnswersFor ks again s (ok p) h = h p

  module _ (c : Copier A) (force replace_equal : Bool) (others : ℕ → Cache A → Cache A) where
    attempt-AnswersFor :
        (fuel wait : ℕ) (s : Cache A) (p cs : List (ResourceKey × SnapshotValue A))
        → All (λ e. e.1.key ≡ e.0) cs
        → AnswersFor (keys_of cs) (attempt c force replace_equal others fuel wait s p cs)
    unfolding attempt
    attempt-AnswersFor zero wait s p cs l = tt
    attempt-AnswersFor (suc fuel) wait s p cs l =
        let judged = judge s.entries force replace_equal cs in
        elim (List-cases (missing_from p judged)) [
          | inl e ↦
              rw (e, attempt)
                (finish-AnswersFor (keys_of cs) s (commit_all p s judged) (λ s' rs r.
                  commit_all-keys judged p s s' rs r
                  ∙ judge-keys s.entries force replace_equal cs l))
          | inr (v, rest, e) ↦
              rw (e, attempt)
                (go_on-AnswersFor (keys_of cs)
                  (λ q. attempt c force replace_equal others fuel (suc wait) (others wait s) q cs)
                  (others wait s) (prepare c p (v ∷ rest))
                  (λ q. attempt-AnswersFor fuel (suc wait) (others wait s) q cs l))
        ]

    clone_result-key :
        (x y : ResourceKey × CacheWriteResult A) → clone_result c x ≡ ok y → y.0 ≡ x.0
    unfolding clone_result
    clone_result-key (k, w) y e =
        let (_, _, others) = >>=-eq-ok (clone_snapshot_value c w.value) _ e in
        let (_, _, last) = >>=-eq-ok (clone_previous c w.previous) _ others in ground (arith, last)

    copied-AnswersFor :
        (ks : List ResourceKey) (s : Cache A) (rs : List (ResourceKey × CacheWriteResult A))
        (r : Result (List (ResourceKey × CacheWriteResult A)))
        → each (clone_result c) rs ≡ r
        → keys_of rs ≡ ks
        → AnswersFor ks (some (s, r))
    copied-AnswersFor ks s rs (raise e) h k = tt
    copied-AnswersFor ks s rs (ok ws) h k = each-keys (clone_result c) clone_result-key rs ws h ∙ k

    answer_of-AnswersFor :
        (ks : List ResourceKey) (a : Attempt A) → AnswersFor ks a → AnswersFor ks (answer_of c a)
    unfolding answer_of copy_results
    answer_of-AnswersFor ks none h = tt
    answer_of-AnswersFor ks (some (s, raise e)) h = tt
    answer_of-AnswersFor ks (some (s, ok rs)) h =
        copied-AnswersFor ks s rs (each (clone_result c) rs) refl h

    pub set_many_if_newer-AnswersFor :
        (s : Cache A) (values : List (SnapshotValue A))
        → AnswersFor
            (keys_of (select_candidates values))
            (set_many_if_newer c force replace_equal others s values)
    unfolding set_many_if_newer
    set_many_if_newer-AnswersFor s values =
        written (select_candidates values) (select_candidates_labels values)
      where
        written :
            (cs : List (ResourceKey × SnapshotValue A))
            → All (λ e. e.1.key ≡ e.0) cs
            → AnswersFor (keys_of cs) (write_candidates c force replace_equal others s cs)
        written [] l = refl
        written (x ∷ cs) l =
            answer_of-AnswersFor (keys_of (x ∷ cs))
              (attempt c force replace_equal others (suc (length (x ∷ cs))) 0 s [] (x ∷ cs))
              (attempt-AnswersFor (suc (length (x ∷ cs))) 0 s [] (x ∷ cs) l)

  -- a key that is selected
  abbrev pub Selected : List (ResourceKey × SnapshotValue A) → ResourceKey → Type 0
  Selected cs q = contains ResourceKey-discrete q (keys_of cs) ≡ true

  covered-Selected :
      (cs : List (ResourceKey × SnapshotValue A)) (vs : List (SnapshotValue A))
      → All (IsCovered cs) vs
      → All (Selected cs) (value_keys vs)
  covered-Selected cs [] h = tt
  covered-Selected cs (v ∷ vs) ((w, found, _), h) =
      (lookup-keys cs v.key (λ e. cc (e, found)), covered-Selected cs vs h)

  any_values : (vs : List (SnapshotValue A)) → All (λ v. Unit {0}) vs
  any_values [] = tt
  any_values (v ∷ vs) = (tt, any_values vs)

  -- The key of each value to write is selected.
  pub select_candidates-Selected :
      (values : List (SnapshotValue A))
      → All (Selected (select_candidates values)) (value_keys values)
  select_candidates-Selected values =
      covered-Selected (select_candidates values) values
        (select_candidates_lem (λ v. Unit {0}) values (any_values values)).2
