-- ===== src/Cache/Monotone.antt =====
-- cache/memory.py: unforced writes, against the order in which values take precedence.
use coalestra.Prelude.{
  ◌≡◌, ◌⊎◌, refl, sym, ap, ◌∙◌, subst, Bool, true, false, Option, none, some, List, [], ◌∷◌, arith,
  inl, inr, Bool-cases, All, ◌<ℤ◌, ◌≤ℤ◌,
}
use mathlib.Core.Path.{subst₂}
use coalestra.Dict.{lookup}
use coalestra.Core.Errors.{Result, ok, raise}
use coalestra.Core.Keys.{ResourceKey, ResourceKey-discrete}
use coalestra.Core.Models.{SnapshotValue, CacheWriteResult, CacheWriteStatus, stored}
use coalestra.Cache.State.{Cache, Copier}
use coalestra.Cache.Writes.{select_candidates, write_status}
use coalestra.Cache.Writes.Order.{◌≼◌, ≼_refl, stored→≼}
use coalestra.Cache.Commit.{set_many_if_newer}
use coalestra.Cache.Commit.Effect.{is_stored}
use coalestra.Cache.Commit.Fold.{committed, judged}
use coalestra.Cache.Invariant.{IsValid}
use coalestra.Cache.WriteLaws.{IsWritten, set_many_if_newer-IsWritten, select_candidates_labels}
use coalestra.Cache.Invariant.Writes.{IsCommit, lookup-limit_to}

module _ {A : Type 0} (replace_equal : Bool) (cs : List (ResourceKey × SnapshotValue A)) where
  lookup_label :
      (d : List (ResourceKey × SnapshotValue A)) (q : ResourceKey) (v : SnapshotValue A)
      → All (λ e. e.1.key ≡ e.0) d
      → lookup ResourceKey-discrete q d ≡ some v
      → v.key ≡ q
  unfolding lookup
  lookup_label [] q v l h = cc
  lookup_label ((k, u) ∷ d) q v (l, ls) h = ground (arith, lookup_label d q v ls)

  stored_of : (status : CacheWriteStatus) → is_stored status ≡ true → status ≡ stored
  stored_of status h = ground arith

  -- An entry that survives an unforced commit takes precedence over what it replaced, or equals it
  -- in authority and time, or is the one that stood there.
  pub IsCommit_monotone :
      (c c' : Cache A) (q : ResourceKey) (old new : SnapshotValue A)
      → All (λ e. e.1.key ≡ e.0) cs
      → IsCommit false replace_equal cs c c'
      → lookup ResourceKey-discrete q c.entries ≡ some old
      → lookup ResourceKey-discrete q c'.entries ≡ some new
      → old ≼ new
  IsCommit_monotone c c' q old new labels (p, c1, prepared, s, e, at) before after =
      let kept =
        lookup-limit_to c.max_entries c1 q new s.distinct
          (subst (λ x. lookup ResourceKey-discrete q x.entries ≡ some new) e after) in
      by_candidate (lookup ResourceKey-discrete q cs) refl (sym (at q) ∙ kept)
    where
      kept_old : lookup ResourceKey-discrete q c.entries ≡ some new → old ≼ new
      kept_old h = let same : old ≡ new = cc in subst (λ x. old ≼ x) same (≼_refl old)

      replaced :
          (v : SnapshotValue A)
          → lookup ResourceKey-discrete q cs ≡ some v
          → is_stored (judged c.entries p false replace_equal v) ≡ true
          → lookup ResourceKey-discrete q p ≡ some new
          → old ≼ new
      replaced v found st copied =
          let (u, found', same) = prepared q new copied in
          let eq : u ≡ v = cc in
          let own : v.key ≡ q = lookup_label cs q v labels found in
          let prior : lookup ResourceKey-discrete v.key c.entries ≡ some old =
            ap (λ x. lookup ResourceKey-discrete x c.entries) own ∙ before in
          let above = stored→≼ old v replace_equal (
            ap (λ o. write_status o v false replace_equal) (sym prior)
            ∙ stored_of (judged c.entries p false replace_equal v) st) in
          let rank : new.authority_rank ≡ v.authority_rank =
            same.authority_rank ∙ ap (λ x. x.authority_rank) eq in
          let time : new.observed_at ≡ v.observed_at =
            same.observed_at ∙ ap (λ x. x.observed_at) eq in
          subst₂
            (λ r t. (old.authority_rank <ℤ r) ⊎ ((old.authority_rank ≡ r) × (old.observed_at ≤ℤ t)))
            (sym rank) (sym time) above

      by_candidate :
          (o : Option (SnapshotValue A))
          → lookup ResourceKey-discrete q cs ≡ o
          → committed c.entries p false replace_equal q o (lookup ResourceKey-discrete q c.entries)
            ≡ some new
          → old ≼ new
      by_candidate none found h = kept_old h
      by_candidate (some v) found h =
          by_status (Bool-cases (is_stored (judged c.entries p false replace_equal v)))
        where
          by_status :
              (is_stored (judged c.entries p false replace_equal v) ≡ true)
                ⊎ (is_stored (judged c.entries p false replace_equal v) ≡ false)
              → old ≼ new
          by_status (inl st) = replaced v found st (rw st at h)
          by_status (inr no_store) = kept_old (rw no_store at h)

module _ {A : Type 0} (copier : Copier A) (replace_equal : Bool) where
  -- A write that is not forced and that no other task interrupts never makes a cached entry give
  -- way to one of lower authority, or of the same authority and an earlier observation: whatever
  -- is cached for a key before and after, the later takes precedence or they agree in both.
  pub set_many_if_newer_monotone :
      (c : Cache A) (values : List (SnapshotValue A))
      {out : Cache A × Result (List (ResourceKey × CacheWriteResult A))} (q : ResourceKey)
      (old new : SnapshotValue A)
      → IsValid c
      → set_many_if_newer copier false replace_equal (λ _ x. x) c values ≡ some out
      → lookup ResourceKey-discrete q c.entries ≡ some old
      → lookup ResourceKey-discrete q out.0.entries ≡ some new
      → old ≼ new
  set_many_if_newer_monotone c values {out} q old new v h before after =
      let written =
        set_many_if_newer-IsWritten copier false replace_equal (λ _ x. x) (λ x. c ≡ x) c values
          (λ _ _ e. e) (λ x e. subst IsValid e v) refl h in
      ended out written after
    where
      cs : List (ResourceKey × SnapshotValue A)
      cs = select_candidates values

      labels : All (λ e. e.1.key ≡ e.0) cs
      labels = select_candidates_labels values

      committed_to :
          (c0 c' : Cache A)
          → c ≡ c0
          → IsCommit false replace_equal cs c0 c'
          → lookup ResourceKey-discrete q c'.entries ≡ some new
          → old ≼ new
      committed_to c0 c' e commit late =
          IsCommit_monotone replace_equal cs c0 c' q old new labels commit
            (subst (λ x. lookup ResourceKey-discrete q x.entries ≡ some old) e before) late

      unwritten :
          (c' : Cache A) → c ≡ c' → lookup ResourceKey-discrete q c'.entries ≡ some new → old ≼ new
      unwritten c' e late =
          let same : old ≡ new =
            cc (before, ap (λ x. lookup ResourceKey-discrete q x.entries) e, late) in
          subst (λ x. old ≼ x) same (≼_refl old)

      ended :
          (o : Cache A × Result (List (ResourceKey × CacheWriteResult A)))
          → IsWritten copier false replace_equal (λ _ x. x) (λ x. c ≡ x) cs o
          → lookup ResourceKey-discrete q o.0.entries ≡ some new
          → old ≼ new
      ended (c', ok rs) (c0, e, commit) late = committed_to c0 c' e commit late
      ended (c', raise x) (_, inl e) late = unwritten c' e late
      ended (c', raise x) (_, inr (c0, e, commit)) late = committed_to c0 c' e commit late
