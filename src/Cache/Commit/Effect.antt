-- ===== src/Cache/Commit/Effect.antt =====
-- cache/memory.py: what one step of a commit does to the entries.
use coalestra.Prelude.{
  ℕ, ◌+◌, ◌≡◌, ◌≢◌, refl, sym, ap, ◌∙◌, Bool, true, false, Option, none, some, List, arith, inl,
  inr, Option-cases, ite, if◌then◌else◌,
}
use coalestra.Dict.{lookup, put, IsDict}
use coalestra.Dict.Laws.{lookup-put, lookup-to_end, put-IsDict, to_end-IsDict}
use coalestra.Core.Errors.{ok}
use coalestra.Core.Keys.{ResourceKey, ResourceKey-discrete}
use coalestra.Core.Models.{
  SnapshotValue, CacheWriteStatus, stored, ignored_lower_authority, ignored_older,
  ignored_duplicate, CacheWriteResult,
}
use coalestra.Cache.State.{Cache}
use coalestra.Cache.Dependencies.Spec.{IsKeyed}
use coalestra.Cache.Commit.{store, outcome, ignore, accept, commit_one}
use coalestra.Cache.Invariant.{put-IsKeyed, to_end-IsKeyed}

abbrev pub is_stored : CacheWriteStatus → Bool
is_stored stored = true
is_stored _ = false

module _ {A : Type 0} where
  -- the entries form a keyed dictionary, hits are counted, and the limit is `limit`
  pub record IsSound (limit : Option ℕ) (c : Cache A) : Type 0 where
    pub distinct : IsDict ResourceKey-discrete c.entries
    pub keyed : IsKeyed c.entries
    pub counted : c.hits ≡ c.fresh_hits + c.stale_hits
    pub limited : c.max_entries ≡ limit

  abbrev pub Done :
      Option ℕ
      → Cache A
      → List (ResourceKey × SnapshotValue A)
      → SnapshotValue A
      → CacheWriteStatus
      → Type 0
  Done limit c p v status =
      (c' : Cache A) × (r : CacheWriteResult A) × (commit_one p c v status ≡ ok (c', r))
      × IsSound limit c'
      × ((q : ResourceKey)
          → lookup ResourceKey-discrete q c'.entries ≡ (
              if is_stored status
              then ite (ResourceKey-discrete v.key q) (lookup ResourceKey-discrete v.key p)
                  (lookup ResourceKey-discrete q c.entries)
              else lookup ResourceKey-discrete q c.entries))

  store-IsSound :
      (limit : Option ℕ) (c : Cache A) (k : ResourceKey) (w : SnapshotValue A)
      → w.key ≡ k
      → IsSound limit c
      → IsSound limit (store c k w)
  store-IsSound limit c k w e s =
      let entries = put ResourceKey-discrete k w c.entries in
      record {
        distinct =
            to_end-IsDict ResourceKey-discrete k w entries
              (put-IsDict ResourceKey-discrete k w c.entries s.distinct);
        keyed = to_end-IsKeyed k w entries e (put-IsKeyed k w c.entries e s.keyed);
        counted = s.counted;
        limited = s.limited;
      }

  lookup-store :
      (c : Cache A) (k q : ResourceKey) (w : SnapshotValue A)
      → lookup ResourceKey-discrete q (store c k w).entries
        ≡ ite (ResourceKey-discrete k q) (some w) (lookup ResourceKey-discrete q c.entries)
  lookup-store c k q w = ground (
    arith,
    lookup-to_end ResourceKey-discrete k q w (put ResourceKey-discrete k w c.entries),
    lookup-put ResourceKey-discrete k q w c.entries,
  )

  module _ (limit : Option ℕ) (c : Cache A) (p : List (ResourceKey × SnapshotValue A))
      (v : SnapshotValue A) (s : IsSound limit c) where
    store-Done :
        (w : SnapshotValue A)
        → lookup ResourceKey-discrete v.key p ≡ some w
        → w.key ≡ v.key
        → Done limit c p v stored
    unfolding commit_one
    store-Done w found same =
        let previous = lookup ResourceKey-discrete v.key c.entries in
        (
          store c v.key w,
          outcome stored w previous,
          rw (found, accept),
          store-IsSound limit c v.key w same s,
          λ q.
              lookup-store c v.key q w
              ∙ ap
                  (λ o.
                    ite (ResourceKey-discrete v.key q) o (lookup ResourceKey-discrete q c.entries))
                  (sym found),
        )

    ignored :
        (status : CacheWriteStatus) (old : SnapshotValue A)
        → lookup ResourceKey-discrete v.key c.entries ≡ some old
        → is_stored status ≡ false
        → Done limit c p v status
    unfolding commit_one
    ignored stored old found h = cc
    ignored ignored_older old found h =
        (c, outcome ignored_older old (some old), rw (found, ignore), s, λ q. refl)
    ignored ignored_lower_authority old found h =
        (c, outcome ignored_lower_authority old (some old), rw (found, ignore), s, λ q. refl)
    ignored ignored_duplicate old found h =
        (c, outcome ignored_duplicate old (some old), rw (found, ignore), s, λ q. refl)

    -- One candidate is committed: it replaces the entry under its key if it is to be stored.
    pub commit_one-Done :
        (status : CacheWriteStatus)
        → (is_stored status ≡ true
            → (w : SnapshotValue A) × (lookup ResourceKey-discrete v.key p ≡ some w)
              × (w.key ≡ v.key))
        → (is_stored status ≡ false → lookup ResourceKey-discrete v.key c.entries ≢ none)
        → Done limit c p v status
    commit_one-Done stored copied held =
        let (w, found, same) = copied refl in store-Done w found same
    commit_one-Done status copied held =
        elim (Option-cases (lookup ResourceKey-discrete v.key c.entries)) [
          | inl missing ↦ absurd (held refl missing)
          | inr (old, found) ↦ ignored status old found refl
        ]
