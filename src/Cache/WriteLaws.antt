-- ===== src/Cache/WriteLaws.antt =====
-- cache/memory.py: what may come of a write, also when other tasks intervene.
use coalestra.Prelude.{
  ℕ, suc, ◌-◌, ◌≡◌, ◌⊎◌, refl, sym, ap, subst, Bool, Option, none, some, List, [], ◌∷◌, arith, inl,
  inr, length, All,
}
use coalestra.Dict.{lookup, IsDict}
use coalestra.Core.Errors.{Error, payload_isolation_error, Result, ok, raise, each, >>=-eq-raise}
use coalestra.Core.Keys.{ResourceKey, ResourceKey-discrete}
use coalestra.Core.Models.{SnapshotValue, CacheWriteResult}
use coalestra.Cache.State.{Cache, Copier, clone_snapshot_value}
use coalestra.Cache.Writes.{limit_to, select_candidates}
use coalestra.Cache.Writes.Evict.{evict_oldest-drop}
use coalestra.Cache.Writes.Select.{select_candidates_lem}
use coalestra.Cache.Commit.{
  attempt, Attempt, answer_of, copy_results, clone_result, clone_previous, write_candidates,
  set_many_if_newer,
}
use coalestra.Cache.Commit.Prepared.{clone_error, nil-IsPrepared}
use coalestra.Cache.Invariant.{IsValid, Fits}
use coalestra.Cache.Invariant.Writes.{IsCommit, IsOutcome, attempt-IsOutcome, limit_to-IsValid}

module _ {A : Type 0} where
  -- A commit leaves a valid cache.
  commit-IsValid :
      (force replace_equal : Bool) (cs : List (ResourceKey × SnapshotValue A)) (c c' : Cache A)
      → IsCommit force replace_equal cs c c'
      → IsValid c'
  commit-IsValid force replace_equal cs c c' (p, c1, prepared, s, e, at) =
      subst IsValid (sym e) (limit_to-IsValid c.max_entries c1 s)

  limit_to_id : (c : Cache A) (l : Option ℕ) → Fits l (length c.entries) → c ≡ limit_to c l
  unfolding limit_to
  limit_to_id c none f = refl
  limit_to_id c (some l) f =
      let zero_over : length c.entries - l ≡ 0 = omega arith in
      rw (evict_oldest-drop, zero_over) (ap (λ n. record c { evictions = n }) (omega arith))

  empty-IsCommit :
      (force replace_equal : Bool) (c : Cache A) → IsValid c → IsCommit force replace_equal [] c c
  unfolding lookup
  empty-IsCommit force replace_equal c v = (
    [],
    c,
    nil-IsPrepared [],
    record { distinct = v.distinct; keyed = v.keyed; counted = v.counted; limited = refl },
    limit_to_id c c.max_entries v.bounded,
    λ q. refl,
  )

  copy_errors :
      (copier : Copier A) (r : ResourceKey × CacheWriteResult A) (e : Error)
      → clone_result copier r ≡ raise e
      → e ≡ payload_isolation_error
  unfolding clone_result
  copy_errors copier (k, r) e h = elim (>>=-eq-raise (clone_snapshot_value copier r.value) _ h) [
    | inl failed ↦ clone_error copier r.value e failed
    | inr (_, _, later) ↦ elim (>>=-eq-raise (clone_previous copier r.previous) _ later) [
      | inl failed ↦ previous_errors r.previous failed
      | inr (_, _, done) ↦ cc
    ]
  ]
    where
      previous_errors :
          (o : Option (SnapshotValue A))
          → clone_previous copier o ≡ raise e
          → e ≡ payload_isolation_error
      previous_errors none f = cc
      previous_errors (some v) f = elim (>>=-eq-raise (clone_snapshot_value copier v) _ f) [
        | inl failed ↦ clone_error copier v e failed
        | inr (_, _, done) ↦ cc
      ]

  each_errors :
      (copier : Copier A) (rs : List (ResourceKey × CacheWriteResult A)) (e : Error)
      → each (clone_result copier) rs ≡ raise e
      → e ≡ payload_isolation_error
  unfolding each
  each_errors copier [] e h = cc
  each_errors copier (r ∷ rs) e h = elim (>>=-eq-raise (clone_result copier r) _ h) [
    | inl failed ↦ copy_errors copier r e failed
    | inr (_, _, later) ↦ elim (>>=-eq-raise (each (clone_result copier) rs) _ later) [
      | inl failed ↦ each_errors copier rs e failed
      | inr (_, _, done) ↦ cc
    ]
  ]

module _ {A : Type 0} where
  any_values : (vs : List (SnapshotValue A)) → All (λ v. Unit {0}) vs
  any_values [] = tt
  any_values (v ∷ vs) = (tt, any_values vs)

  labels_of :
      (cs : List (ResourceKey × SnapshotValue A))
      → All (λ e. (e.1.key ≡ e.0) × Unit {0}) cs
      → All (λ e. e.1.key ≡ e.0) cs
  labels_of [] a = tt
  labels_of (e ∷ cs) ((l, _), a) = (l, labels_of cs a)

  pub select_candidates_labels :
      (values : List (SnapshotValue A)) → All (λ e. e.1.key ≡ e.0) (select_candidates values)
  select_candidates_labels values =
      labels_of (select_candidates values)
        (select_candidates_lem (λ v. Unit {0}) values (any_values values)).1

module _ {A : Type 0} (copier : Copier A) (force replace_equal : Bool)
    (others : ℕ → Cache A → Cache A) where
  -- What a write may have done when it ends: committed the selected candidates to a state that the
  -- lock showed, where `Q` holds of such states, or, when a copy failed, nothing. The answer is
  -- an exception only if a copy failed.
  abbrev pub IsWritten :
      (Cache A → Type 0)
      → List (ResourceKey × SnapshotValue A)
      → Cache A × Result (List (ResourceKey × CacheWriteResult A))
      → Type 0
  IsWritten Q cs (c', ok rs) = (c : Cache A) × Q c × IsCommit force replace_equal cs c c'
  IsWritten Q cs (c', raise e) =
      (e ≡ payload_isolation_error)
      × (Q c' ⊎ ((c : Cache A) × Q c × IsCommit force replace_equal cs c c'))

  module _ (Q : Cache A → Type 0) (cs : List (ResourceKey × SnapshotValue A)) where
    copied_answer :
        (out : Cache A × Result (List (ResourceKey × CacheWriteResult A)))
        → IsOutcome force replace_equal cs Q out
        → IsWritten Q cs (copy_results copier out)
    unfolding copy_results
    copied_answer (c', raise e) (q, h) = (h, inl q)
    copied_answer (c', ok rs) commit = answered (each (clone_result copier) rs) refl
      where
        answered :
            (r : Result (List (ResourceKey × CacheWriteResult A)))
            → each (clone_result copier) rs ≡ r
            → IsWritten Q cs (c', r)
        answered (ok rs') e = commit
        answered (raise x) e = (each_errors copier rs x e, inr commit)

    copied_attempt :
        (a : Attempt A) (out : Cache A × Result (List (ResourceKey × CacheWriteResult A)))
        → ((o : Cache A × Result (List (ResourceKey × CacheWriteResult A)))
            → a ≡ some o
            → IsOutcome force replace_equal cs Q o)
        → answer_of copier a ≡ some out
        → IsWritten Q cs out
    unfolding answer_of
    copied_attempt none out outcome h = cc
    copied_attempt (some o) out outcome h =
        let same : copy_results copier o ≡ out = cc in
        subst (IsWritten Q cs) same (copied_answer o (outcome o refl))

  pub set_many_if_newer-IsWritten :
      (Q : Cache A → Type 0) (c : Cache A) (values : List (SnapshotValue A))
      {out : Cache A × Result (List (ResourceKey × CacheWriteResult A))}
      → ((n : ℕ) (x : Cache A) → Q x → Q (others n x))
      → ((x : Cache A) → Q x → IsValid x)
      → Q c
      → set_many_if_newer copier force replace_equal others c values ≡ some out
      → IsWritten Q (select_candidates values) out
  unfolding set_many_if_newer write_candidates
  set_many_if_newer-IsWritten Q c values {out} keeps valid q h =
      written (select_candidates values)
        (select_candidates_lem (λ v. Unit {0}) values (any_values values)).0
        (select_candidates_labels values) h
    where
      written :
          (cs : List (ResourceKey × SnapshotValue A))
          → IsDict ResourceKey-discrete cs
          → All (λ e. e.1.key ≡ e.0) cs
          → write_candidates copier force replace_equal others c cs ≡ some out
          → IsWritten Q cs out
      written [] i l e =
          let same : (c, ok []) ≡ out = cc in
          subst (IsWritten Q []) same (c, q, empty-IsCommit force replace_equal c (valid c q))
      written (x ∷ cs) i l e =
          copied_attempt Q (x ∷ cs)
            (attempt copier force replace_equal others (suc (length (x ∷ cs))) 0 c [] (x ∷ cs)) out
            (λ o at.
              attempt-IsOutcome force replace_equal (x ∷ cs) i l copier others Q keeps valid
                (suc (length (x ∷ cs))) 0 c [] o q (nil-IsPrepared (x ∷ cs)) at)
            e

  -- If what other tasks do keeps the cache valid, so does a write, however it ends.
  pub set_many_if_newer-IsValid :
      (c : Cache A) (values : List (SnapshotValue A))
      {out : Cache A × Result (List (ResourceKey × CacheWriteResult A))}
      → ((n : ℕ) (x : Cache A) → IsValid x → IsValid (others n x))
      → IsValid c
      → set_many_if_newer copier force replace_equal others c values ≡ some out
      → IsValid out.0
  set_many_if_newer-IsValid c values {out} keeps v h =
      ended out (set_many_if_newer-IsWritten IsValid c values keeps (λ _ w. w) v h)
    where
      ended :
          (o : Cache A × Result (List (ResourceKey × CacheWriteResult A)))
          → IsWritten IsValid (select_candidates values) o
          → IsValid o.0
      ended (c', ok rs) (x, _, commit) =
          commit-IsValid force replace_equal (select_candidates values) x c' commit
      ended (c', raise e) (_, inl w) = w
      ended (c', raise e) (_, inr (x, _, commit)) =
          commit-IsValid force replace_equal (select_candidates values) x c' commit
