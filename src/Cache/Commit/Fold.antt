-- ===== src/Cache/Commit/Fold.antt =====
-- cache/memory.py: the whole commit, and what stands under each key afterwards.
use coalestra.Prelude.{
  ℕ, ◌≡◌, ◌≢◌, refl, sym, ap, ◌∙◌, Bool, true, false, Option, none, some, List, [], ◌∷◌, arith, inl,
  inr, Option-cases, ite, if_pos, if_neg, if◌then◌else◌, All,
}
use coalestra.Dict.{lookup, IsDict}
use coalestra.Core.Errors.{ok}
use coalestra.Core.Keys.{ResourceKey, ResourceKey-discrete}
use coalestra.Core.Models.{SnapshotValue, CacheWriteStatus, CacheWriteResult}
use coalestra.Cache.State.{Cache}
use coalestra.Cache.Writes.{judge, missing_from, write_status}
use coalestra.Cache.Commit.{commit_all}
use coalestra.Cache.Commit.Effect.{is_stored, IsSound, commit_one-Done}

module _ {A : Type 0} (entries p : List (ResourceKey × SnapshotValue A))
    (force replace_equal : Bool) where
  -- the status of a candidate against the entries at the start of the commit
  abbrev pub judged : SnapshotValue A → CacheWriteStatus
  judged v = write_status (lookup ResourceKey-discrete v.key entries) v force replace_equal

  -- what stands under a key after the commit, where `old` stood before and `o` is its candidate
  abbrev pub committed :
      ResourceKey → Option (SnapshotValue A) → Option (SnapshotValue A) → Option (SnapshotValue A)
  committed q none old = old
  committed q (some v) old = if is_stored (judged v) then lookup ResourceKey-discrete q p else old

  -- the candidate stands under its own key, and its copy, if there is one, too
  abbrev pub IsLabelled : ResourceKey → SnapshotValue A → Type 0
  IsLabelled k v =
      (v.key ≡ k) × ((w : SnapshotValue A) → lookup ResourceKey-discrete k p ≡ some w → w.key ≡ k)

  abbrev pub AllDone : Option ℕ → Cache A → List (ResourceKey × SnapshotValue A) → Type 0
  AllDone limit c cs =
      (c' : Cache A) × (rs : List (ResourceKey × CacheWriteResult A)) × (commit_all p c
          (judge entries force replace_equal cs)
        ≡ ok (c', rs))
      × IsSound limit c'
      × ((q : ResourceKey)
          → lookup ResourceKey-discrete q c'.entries
            ≡ committed q (lookup ResourceKey-discrete q cs)
                (lookup ResourceKey-discrete q c.entries))

  ready :
      (v : SnapshotValue A) (rest : List (ResourceKey × SnapshotValue A)) (k : ResourceKey)
      → missing_from p (judge entries force replace_equal ((k, v) ∷ rest)) ≡ []
      → (is_stored (judged v) ≡ true → lookup ResourceKey-discrete v.key p ≢ none)
        × (missing_from p (judge entries force replace_equal rest) ≡ [])
  unfolding missing_from judge
  ready v rest k h = ground arith

  held :
      (v : SnapshotValue A)
      → is_stored (judged v) ≡ false
      → lookup ResourceKey-discrete v.key entries ≢ none
  unfolding write_status
  held v h = ground arith

  copied :
      (k : ResourceKey) (v : SnapshotValue A)
      → IsLabelled k v
      → lookup ResourceKey-discrete v.key p ≢ none
      → (w : SnapshotValue A) × (lookup ResourceKey-discrete v.key p ≡ some w) × (w.key ≡ v.key)
  copied k v (e, copy) h = elim (Option-cases (lookup ResourceKey-discrete v.key p)) [
    | inl missing ↦ absurd (h missing)
    | inr (w, found) ↦ (w, found, ground (arith, copy w))
  ]

  abbrev pub Agrees : Cache A → List (ResourceKey × SnapshotValue A) → Type 0
  Agrees c cs =
      All (λ e. lookup ResourceKey-discrete e.0 c.entries ≡ lookup ResourceKey-discrete e.0 entries)
        cs

  still-Agrees :
      (c c' : Cache A) (k : ResourceKey)
      → ((q : ResourceKey)
          → k ≢ q
          → lookup ResourceKey-discrete q c'.entries ≡ lookup ResourceKey-discrete q c.entries)
      → (rest : List (ResourceKey × SnapshotValue A)) → lookup ResourceKey-discrete k rest ≡ none
      → Agrees c rest
      → Agrees c' rest
  unfolding lookup
  still-Agrees c c' k same [] h a = tt
  still-Agrees c c' k same ((j, u) ∷ rest) h (a, later_ones) = elim (ResourceKey-discrete j k) [
    | yes e ↦ absurd (ground arith)
    | no other ↦
        (same j (λ e. other (sym e)) ∙ a, still-Agrees c c' k same rest (ground arith) later_ones)
  ]

  if_same : (b : Bool) (o : Option (SnapshotValue A)) → (if b then o else o) ≡ o
  if_same true o = refl
  if_same false o = refl

  abbrev replaced :
      ResourceKey → SnapshotValue A → Option (SnapshotValue A) → Option (SnapshotValue A)
  replaced q v before =
      if is_stored (judged v)
      then ite (ResourceKey-discrete v.key q) (lookup ResourceKey-discrete v.key p) before
      else before

  lookup-cons :
      (q k : ResourceKey) (v : SnapshotValue A) (rest : List (ResourceKey × SnapshotValue A))
      → lookup ResourceKey-discrete q ((k, v) ∷ rest)
        ≡ ite (ResourceKey-discrete k q) (some v) (lookup ResourceKey-discrete q rest)
  unfolding lookup
  lookup-cons q k v rest = refl

  -- The first candidate's effect and that of the others, together.
  combine :
      (q k : ResourceKey) (v : SnapshotValue A) (rest : List (ResourceKey × SnapshotValue A))
      (before between after : Option (SnapshotValue A))
      → v.key ≡ k
      → lookup ResourceKey-discrete k rest ≡ none
      → between ≡ replaced q v before
      → after ≡ committed q (lookup ResourceKey-discrete q rest) between
      → after ≡ committed q (lookup ResourceKey-discrete q ((k, v) ∷ rest)) before
  combine q k v rest before between after e new h1 h2 = elim (ResourceKey-discrete k q) [
    | yes same ↦
        let here : v.key ≡ q = e ∙ same in
        let absent : lookup ResourceKey-discrete q rest ≡ none =
          ap (λ x. lookup ResourceKey-discrete x rest) (sym same) ∙ new in
        let value =
          if_pos (ResourceKey-discrete v.key q) here (lookup ResourceKey-discrete v.key p) before
          ∙ ap (λ x. lookup ResourceKey-discrete x p) here in
        rw (lookup-cons, if_pos _ same)
          (h2
            ∙ ap (λ o. committed q o between) absent
            ∙ h1
            ∙ ap (λ o. if is_stored (judged v) then o else before) value)
    | no other ↦
        let elsewhere : v.key ≢ q = λ x. other (sym e ∙ x) in
        let unchanged =
          if_neg (ResourceKey-discrete v.key q) elsewhere (lookup ResourceKey-discrete v.key p)
            before in
        rw (lookup-cons, if_neg _ other)
          (h2
            ∙ ap (committed q (lookup ResourceKey-discrete q rest)) (
                h1
                ∙ ap (λ o. if is_stored (judged v) then o else before) unchanged
                ∙ if_same (is_stored (judged v)) before))
  ]

  pub commit-AllDone :
      (limit : Option ℕ) (c : Cache A) (cs : List (ResourceKey × SnapshotValue A))
      → IsDict ResourceKey-discrete cs
      → All (λ e. IsLabelled e.0 e.1) cs
      → missing_from p (judge entries force replace_equal cs) ≡ []
      → Agrees c cs
      → IsSound limit c
      → AllDone limit c cs
  unfolding commit_all judge
  commit-AllDone limit c [] d l m a s = (c, [], refl, s, λ q. unfold lookup in refl)
  commit-AllDone limit c ((k, v) ∷ rest) (new, d) (label, labels) m (a, later_ones) s =
      let (present, later) = ready v rest k m in
      let (c1, r1, e1, s1, at1) =
        commit_one-Done limit c p v s (judged v) (λ h. copied k v label (present h))
          (λ h e. held v h (ground arith)) in
      let (c2, rs, e2, s2, at2) =
        commit-AllDone limit c1 rest d labels later
          (still-Agrees c c1 k (λ q other. ground (arith, at1 q)) rest new later_ones) s1 in
      (
        c2,
        (v.key, r1) ∷ rs,
        rw (e1, e2),
        s2,
        λ q.
            combine q k v rest (lookup ResourceKey-discrete q c.entries)
              (lookup ResourceKey-discrete q c1.entries) (lookup ResourceKey-discrete q c2.entries)
              label.0 new (at1 q) (at2 q),
      )
