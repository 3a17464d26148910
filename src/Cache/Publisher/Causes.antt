-- ===== src/Cache/Publisher/Causes.antt =====
-- cache/publisher.py, cache/memory.py: exceptions on the way of a publication.
use coalestra.Prelude.{
  All, ℕ, zero, suc, ◌≡◌, ◌⊎◌, inl, inr, refl, Bool, Option, none, some, List, [], ◌∷◌, arith,
  length, Option-cases, List-cases,
}
use coalestra.Dict.{put}
use coalestra.Core.Errors.{
  Error, payload_isolation_error, assertion_error, key_error, Result, ok, raise, each, >>=-eq-raise,
}
use coalestra.Core.Keys.{ResourceKey, ResourceKey-discrete}
use coalestra.Core.Models.{SnapshotValue, CacheWriteStatus, CacheWriteResult}
use coalestra.Cache.State.{Cache, Copier, copy, copy_metadata, clone_snapshot_value}
use coalestra.Cache.Writes.{judge, missing_from, select_candidates}
use coalestra.Cache.Commit.{
  Attempt, ignore, accept, commit_one, commit_all, finish, go_on, prepare, clone_previous,
  clone_result, copy_results, answer_of, attempt, write_candidates, set_many_if_newer,
}

-- What a loop raises, one of its items raises.
pub each-raise_from :
    {S T : Type 0} (Q : S → Type 0) (P : Error → Type 0) (f : S → Result T)
    → ((x : S) → Q x → (e : Error) → f x ≡ raise e → P e)
    → (xs : List S) (e : Error) → All Q xs
    → each f xs ≡ raise e
    → P e
unfolding each
each-raise_from Q P f h [] e q r = cc r
each-raise_from Q P f h (x ∷ xs) e (q, qs) r = elim (>>=-eq-raise (f x) _ r) [
  | inl failed ↦ h x q e failed
  | inr (_, _, later) ↦ elim (>>=-eq-raise (each f xs) _ later) [
    | inl failed ↦ each-raise_from Q P f h xs e qs failed
    | inr (_, _, done) ↦ cc done
  ]
]

any_items : {S : Type 0} (xs : List S) → All (λ x. Unit {0}) xs
any_items [] = tt
any_items (x ∷ xs) = (tt, any_items xs)

pub each-raise :
    {S T : Type 0} (P : Error → Type 0) (f : S → Result T)
    → ((x : S) (e : Error) → f x ≡ raise e → P e)
    → (xs : List S) (e : Error) → each f xs ≡ raise e
    → P e
each-raise P f h xs e r =
    each-raise_from (λ x. Unit {0}) P f (λ x _ e r. h x e r) xs e (any_items xs) r

module _ {A : Type 0} (c : Copier A) where
  -- Some value cannot be copied, or its copy is no mapping.
  abbrev pub IsUncopied : Error → Type 0
  IsUncopied e =
      (e ≡ payload_isolation_error) × ((a : A) × ((c.copier a ≡ none) ⊎ (c.as_mapping a ≡ none)))

  pub copy-raise : (a : A) (e : Error) → copy c a ≡ raise e → IsUncopied e
  unfolding copy
  copy-raise a e r = elim (Option-cases (c.copier a)) [
    | inl failed ↦ (ground (arith, r, failed), (a, inl failed))
    | inr (b, found) ↦ absurd (ground (arith, r, found))
  ]

  pub copy_metadata-raise : (a : A) (e : Error) → copy_metadata c a ≡ raise e → IsUncopied e
  unfolding copy_metadata
  copy_metadata-raise a e r = elim (>>=-eq-raise (copy c a) _ r) [
    | inl failed ↦ copy-raise a e failed
    | inr (b, _, later) ↦ elim (Option-cases (c.as_mapping b)) [
      | inl failed ↦ (ground (arith, later, failed), (b, inr failed))
      | inr (d, found) ↦ absurd (ground (arith, later, found))
    ]
  ]

  pub clone-raise :
      (v : SnapshotValue A) (e : Error) → clone_snapshot_value c v ≡ raise e → IsUncopied e
  unfolding clone_snapshot_value
  clone-raise v e r = elim (>>=-eq-raise (copy c v.value) _ r) [
    | inl failed ↦ copy-raise v.value e failed
    | inr (_, _, later) ↦ elim (>>=-eq-raise (copy_metadata c v.metadata) _ later) [
      | inl failed ↦ copy_metadata-raise v.metadata e failed
      | inr (_, _, done) ↦ cc done
    ]
  ]

  prepare-raise :
      (vs : List (SnapshotValue A)) (p : List (ResourceKey × SnapshotValue A)) (e : Error)
      → prepare c p vs ≡ raise e
      → IsUncopied e
  unfolding prepare
  prepare-raise [] p e r = cc r
  prepare-raise (v ∷ vs) p e r = elim (>>=-eq-raise (clone_snapshot_value c v) _ r) [
    | inl failed ↦ clone-raise v e failed
    | inr (v', _, later) ↦ prepare-raise vs (put ResourceKey-discrete v.key v' p) e later
  ]

  clone_previous-raise :
      (o : Option (SnapshotValue A)) (e : Error) → clone_previous c o ≡ raise e → IsUncopied e
  unfolding clone_previous
  clone_previous-raise none e r = cc r
  clone_previous-raise (some v) e r = elim (>>=-eq-raise (clone_snapshot_value c v) _ r) [
    | inl failed ↦ clone-raise v e failed
    | inr (_, _, done) ↦ cc done
  ]

  clone_result-raise :
      (x : ResourceKey × CacheWriteResult A) (e : Error) → clone_result c x ≡ raise e → IsUncopied e
  unfolding clone_result
  clone_result-raise (k, w) e r = elim (>>=-eq-raise (clone_snapshot_value c w.value) _ r) [
    | inl failed ↦ clone-raise w.value e failed
    | inr (_, _, later) ↦ elim (>>=-eq-raise (clone_previous c w.previous) _ later) [
      | inl failed ↦ clone_previous-raise w.previous e failed
      | inr (_, _, done) ↦ cc done
    ]
  ]

  -- the exceptions of a commit, which are no failed copies
  abbrev pub IsBroken : Error → Type 0
  IsBroken e = (e ≡ key_error) ⊎ (e ≡ assertion_error)

  commit_one-raise :
      (p : List (ResourceKey × SnapshotValue A)) (s : Cache A) (v : SnapshotValue A)
      (status : CacheWriteStatus) (e : Error)
      → commit_one p s v status ≡ raise e
      → IsBroken e
  unfolding commit_one ignore accept
  commit_one-raise p s v status e r = ground (arith, r)

  commit_all-raise :
      (js : List (SnapshotValue A × CacheWriteStatus)) (p : List (ResourceKey × SnapshotValue A))
      (s : Cache A) (e : Error)
      → commit_all p s js ≡ raise e
      → IsBroken e
  unfolding commit_all
  commit_all-raise [] p s e r = cc r
  commit_all-raise ((v, status) ∷ js) p s e r = elim (>>=-eq-raise (commit_one p s v status) _ r) [
    | inl failed ↦ commit_one-raise p s v status e failed
    | inr ((s', _), _, later) ↦ elim (>>=-eq-raise (commit_all p s' js) _ later) [
      | inl failed ↦ commit_all-raise js p s' e failed
      | inr (_, _, done) ↦ cc done
    ]
  ]

  -- an attempt that raises was broken or could not copy
  abbrev pub Explained : Attempt A → Type 0
  Explained none = Unit
  Explained (some (s, ok _)) = Unit
  Explained (some (s, raise e)) = IsBroken e ⊎ IsUncopied e

  finish-Explained :
      (s : Cache A) (r : Result (Cache A × List (ResourceKey × CacheWriteResult A)))
      → ((e : Error) → r ≡ raise e → IsBroken e)
      → Explained (some (finish s r))
  unfolding finish
  finish-Explained s (raise e) h = inl (h e refl)
  finish-Explained s (ok (s', rs)) h = tt

  go_on-Explained :
      (again : List (ResourceKey × SnapshotValue A) → Attempt A) (s : Cache A)
      (r : Result (List (ResourceKey × SnapshotValue A)))
      → ((p : List (ResourceKey × SnapshotValue A)) → Explained (again p))
      → ((e : Error) → r ≡ raise e → IsUncopied e)
      → Explained (go_on again s r)
  unfolding go_on
  go_on-Explained again s (raise e) h k = inr (k e refl)
  go_on-Explained again s (ok p) h k = h p

  module _ (force replace_equal : Bool) (others : ℕ → Cache A → Cache A) where
    attempt-Explained :
        (fuel wait : ℕ) (s : Cache A) (p cs : List (ResourceKey × SnapshotValue A))
        → Explained (attempt c force replace_equal others fuel wait s p cs)
    unfolding attempt
    attempt-Explained zero wait s p cs = tt
    attempt-Explained (suc fuel) wait s p cs =
        let judged = judge s.entries force replace_equal cs in
        elim (List-cases (missing_from p judged)) [
          | inl e ↦
              rw (e, attempt)
                (finish-Explained s (commit_all p s judged)
                  (λ x r. commit_all-raise judged p s x r))
          | inr (v, rest, e) ↦
              rw (e, attempt)
                (go_on-Explained
                  (λ q. attempt c force replace_equal others fuel (suc wait) (others wait s) q cs)
                  (others wait s) (prepare c p (v ∷ rest))
                  (λ q. attempt-Explained fuel (suc wait) (others wait s) q cs)
                  (λ x r. prepare-raise (v ∷ rest) p x r))
        ]

    copied-Explained :
        (s : Cache A) (r : Result (List (ResourceKey × CacheWriteResult A)))
        → ((e : Error) → r ≡ raise e → IsUncopied e)
        → Explained (some (s, r))
    copied-Explained s (raise e) h = inr (h e refl)
    copied-Explained s (ok rs) h = tt

    answer_of-Explained : (a : Attempt A) → Explained a → Explained (answer_of c a)
    unfolding answer_of copy_results
    answer_of-Explained none h = tt
    answer_of-Explained (some (s, raise e)) h = h
    answer_of-Explained (some (s, ok rs)) h =
        copied-Explained s (each (clone_result c) rs)
          (λ e r. each-raise IsUncopied (clone_result c) clone_result-raise rs e r)

    pub set_many_if_newer-Explained :
        (s : Cache A) (values : List (SnapshotValue A))
        → Explained (set_many_if_newer c force replace_equal others s values)
    unfolding set_many_if_newer
    set_many_if_newer-Explained s values = written (select_candidates values)
      where
        written :
            (cs : List (ResourceKey × SnapshotValue A))
            → Explained (write_candidates c force replace_equal others s cs)
        written [] = tt
        written (x ∷ cs) =
            answer_of-Explained
              (attempt c force replace_equal others (suc (length (x ∷ cs))) 0 s [] (x ∷ cs))
              (attempt-Explained (suc (length (x ∷ cs))) 0 s [] (x ∷ cs))
