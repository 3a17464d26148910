-- ===== src/Cache/Invariant/Writes.antt =====
-- cache/memory.py: writes, with the invariant of the cache, their errors and their effect.
use coalestra.Prelude.{
  ℕ, zero, suc, ◌-◌, ◌≡◌, refl, sym, ap, ◌∙◌, subst, Bool, Option, none, some, List, [], ◌∷◌, arith,
  inl, inr, length, drop, length-drop, List-cases, All,
}
use coalestra.Dict.{lookup, IsDict}
use coalestra.Core.Errors.{Error, payload_isolation_error, Result, ok, raise}
use coalestra.Core.Keys.{ResourceKey, ResourceKey-discrete}
use coalestra.Core.Models.{SnapshotValue, CacheWriteResult}
use coalestra.Cache.State.{Cache, Copier}
use coalestra.Cache.Dependencies.Spec.{IsKeyed}
use coalestra.Cache.Writes.{judge, missing_from, enforce_limit, limit_to}
use coalestra.Cache.Writes.Evict.{evict_oldest-drop, drop-IsDict, lookup-drop}
use coalestra.Cache.Commit.{prepare, attempt, go_on, finish, Attempt, commit_all}
use coalestra.Cache.Commit.Effect.{IsSound}
use coalestra.Cache.Commit.Fold.{committed, commit-AllDone, Agrees}
use coalestra.Cache.Commit.Prepared.{
  IsPrepared, prepare-IsPrepared, prepare_error, items_found_in, missing-AreCandidates,
}
use coalestra.Cache.Invariant.{IsValid, Fits}

module _ {A : Type 0} where
  drop-IsKeyed :
      (n : ℕ) (d : List (ResourceKey × SnapshotValue A))
      → IsDict ResourceKey-discrete d
      → IsKeyed d
      → IsKeyed (drop n d)
  drop-IsKeyed n d i h k v found = h k v (lookup-drop n d k v i found)

  -- what the limit leaves of a sound cache
  pub limit_to-IsValid :
      (limit : Option ℕ) (c : Cache A) → IsSound limit c → IsValid (limit_to c limit)
  unfolding limit_to
  limit_to-IsValid none c s = record {
    distinct = s.distinct;
    keyed = s.keyed;
    bounded = subst (λ l. Fits l (length c.entries)) (sym s.limited) tt;
    counted = s.counted;
  }
  limit_to-IsValid (some limit) c s =
      let n = length c.entries - limit in
      rw evict_oldest-drop (record {
        distinct = drop-IsDict n c.entries s.distinct;
        keyed = drop-IsKeyed n c.entries s.distinct s.keyed;
        bounded =
            subst (λ l. Fits l (length (drop n c.entries))) (sym s.limited)
              (omega (arith, length-drop n c.entries));
        counted = s.counted;
      })

  pub lookup-limit_to :
      (limit : Option ℕ) (c : Cache A) (q : ResourceKey) (w : SnapshotValue A)
      → IsDict ResourceKey-discrete c.entries
      → lookup ResourceKey-discrete q (limit_to c limit).entries ≡ some w
      → lookup ResourceKey-discrete q c.entries ≡ some w
  unfolding limit_to
  lookup-limit_to none c q w i h = h
  lookup-limit_to (some limit) c q w i h =
      lookup-drop (length c.entries - limit) c.entries q w i (rw evict_oldest-drop at h)

module _ {A : Type 0} (force replace_equal : Bool) (cs : List (ResourceKey × SnapshotValue A)) where
  -- `c'` is what one commit of copies `p` of candidates makes of `c`: under each key stands what
  -- the commit put there, and then the oldest entries over the limit go
  abbrev pub IsCommit : Cache A → Cache A → Type 0
  IsCommit c c' =
      (p : List (ResourceKey × SnapshotValue A)) × (c1 : Cache A) × IsPrepared cs p
      × IsSound c.max_entries c1
      × (c' ≡ limit_to c1 c.max_entries)
      × ((q : ResourceKey)
          → lookup ResourceKey-discrete q c1.entries
            ≡ committed c.entries p force replace_equal q (lookup ResourceKey-discrete q cs)
                (lookup ResourceKey-discrete q c.entries))

  -- What may come of a write, where `Q` holds of each state that the lock shows.
  abbrev pub IsOutcome :
      (Cache A → Type 0) → Cache A × Result (List (ResourceKey × CacheWriteResult A)) → Type 0
  IsOutcome Q (c', raise e) = Q c' × (e ≡ payload_isolation_error)
  IsOutcome Q (c', ok rs) = (c : Cache A) × Q c × IsCommit c c'

  labelled :
      (p : List (ResourceKey × SnapshotValue A))
      → IsPrepared cs p
      → (d : List (ResourceKey × SnapshotValue A)) → All (λ e. e.1.key ≡ e.0) d
      → All (λ e. lookup ResourceKey-discrete e.0 cs ≡ some e.1) d
      → All
          (λ e.
            (e.1.key ≡ e.0)
            × ((w : SnapshotValue A) → lookup ResourceKey-discrete e.0 p ≡ some w → w.key ≡ e.0))
          d
  labelled p prepared [] ls fs = tt
  labelled p prepared ((k, v) ∷ d) (l, ls) (f, fs) = (
    (
      l,
      λ w found.
          let (u, same_key, same) = prepared k w found in
          let e : u ≡ v = ground arith in same.key ∙ ap (λ x. x.key) e ∙ l,
    ),
    labelled p prepared d ls fs,
  )

  agrees :
      (c : Cache A) (p d : List (ResourceKey × SnapshotValue A))
      → Agrees c.entries p force replace_equal c d
  agrees c p [] = tt
  agrees c p (e ∷ d) = (refl, agrees c p d)

  module _ (i : IsDict ResourceKey-discrete cs) (l : All (λ e. e.1.key ≡ e.0) cs)
      (copier : Copier A) (others : ℕ → Cache A → Cache A) (Q : Cache A → Type 0)
      (keeps : (n : ℕ) (c : Cache A) → Q c → Q (others n c))
      (valid : (c : Cache A) → Q c → IsValid c) where
    finish-IsOutcome :
        (c : Cache A) (p : List (ResourceKey × SnapshotValue A))
        → Q c
        → IsPrepared cs p
        → missing_from p (judge c.entries force replace_equal cs) ≡ []
        → IsOutcome Q (finish c (commit_all p c (judge c.entries force replace_equal cs)))
    unfolding finish enforce_limit
    finish-IsOutcome c p q prepared none_missing =
        let v = valid c q in
        let (c1, rs, e, s, at) =
          commit-AllDone c.entries p force replace_equal c.max_entries c cs i
            (labelled p prepared cs l (items_found_in cs cs i (λ k w h. h))) none_missing
            (agrees c p cs)
            (record {
              distinct = v.distinct;
              keyed = v.keyed;
              counted = v.counted;
              limited = refl;
            }) in
        rw (e, finish) (c, q, (p, c1, prepared, s, ap (limit_to c1) s.limited, at))

    go_on-IsOutcome :
        (again : List (ResourceKey × SnapshotValue A) → Attempt A) (c : Cache A)
        (r : Result (List (ResourceKey × SnapshotValue A)))
        (out : Cache A × Result (List (ResourceKey × CacheWriteResult A)))
        → Q c
        → ((e : Error) → r ≡ raise e → e ≡ payload_isolation_error)
        → ((p : List (ResourceKey × SnapshotValue A))
            → r ≡ ok p
            → again p ≡ some out
            → IsOutcome Q out)
        → go_on again c r ≡ some out
        → IsOutcome Q out
    unfolding go_on
    go_on-IsOutcome again c (raise e) out q errs go h =
        let same : (c, raise e) ≡ out = ground arith in subst (IsOutcome Q) same (q, errs e refl)
    go_on-IsOutcome again c (ok p) out q errs go h = go p refl h

    pub attempt-IsOutcome :
        (fuel wait : ℕ) (c : Cache A) (p : List (ResourceKey × SnapshotValue A))
        (out : Cache A × Result (List (ResourceKey × CacheWriteResult A)))
        → Q c
        → IsPrepared cs p
        → attempt copier force replace_equal others fuel wait c p cs ≡ some out
        → IsOutcome Q out
    unfolding attempt
    attempt-IsOutcome zero wait c p out q prepared h = cc
    attempt-IsOutcome (suc fuel) wait c p out q prepared h =
        elim (List-cases (missing_from p (judge c.entries force replace_equal cs))) [
          | inl e ↦
              let whole : some (finish c (commit_all p c (judge c.entries force replace_equal cs)))
                  ≡ some out =
                rw (e, attempt) at h in
              let same : finish c (commit_all p c (judge c.entries force replace_equal cs)) ≡ out =
                cc in
              subst (IsOutcome Q) same (finish-IsOutcome c p q prepared e)
          | inr (u, rest, e) ↦
              go_on-IsOutcome
                (λ p'.
                  attempt copier force replace_equal others fuel (suc wait) (others wait c) p' cs)
                (others wait c) (prepare copier p (u ∷ rest)) out (keeps wait c q)
                (λ x failed. prepare_error copier p (u ∷ rest) x failed)
                (λ p' done again.
                  attempt-IsOutcome fuel (suc wait) (others wait c) p' out (keeps wait c q)
                    (prepare-IsPrepared copier cs p p' (u ∷ rest)
                      (subst (λ m. All (λ v. lookup ResourceKey-discrete v.key cs ≡ some v) m) e
                        (missing-AreCandidates c.entries cs cs p force replace_equal
                          (items_found_in cs cs i (λ k w x. x)) l))
                      done prepared)
                    again)
                (rw (e, attempt) at h)
        ]
