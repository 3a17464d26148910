-- ===== src/Cache/Publisher/Precedence.antt =====
-- cache/publisher.py: the selection among updates of one key, beside `_select_candidates`.
use coalestra.Prelude.{
  ℤ, ◌≡◌, ◌∙◌, refl, sym, ap, Bool, true, false, Option, none, some, List, [], ◌∷◌, arith, All,
  if◌then◌else◌,
}
use coalestra.Dict.{lookup, put}
use coalestra.Dict.Laws.{lookup-put}
use coalestra.Core.Errors.{ok, >>=-eq-ok}
use coalestra.Core.Keys.{ResourceKey, ResourceKey-discrete}
use coalestra.Core.Models.{SnapshotValue}
use coalestra.Core.Authority.{rank_for}
use coalestra.Cache.Writes.{candidate_precedes, replaces, select_from, select_candidates}
use coalestra.Cache.Update.{
  ResourceUpdate, Selection, no_updates, choose, takes_precedence, observed_or,
  validate_observed_at,
}
use coalestra.Cache.Publisher.{Publisher, select_updates}

module _ {A : Type 0} (p : Publisher A) (now : ℤ)
    (candidate : ResourceUpdate A → SnapshotValue A) where
  -- The candidate has the key, the time and the rank of the update.
  abbrev pub IsCandidate : ResourceUpdate A → Type 0
  IsCandidate u =
      ((candidate u).key ≡ u.key)
      × ((candidate u).observed_at ≡ observed_or now u.observed_at)
      × (rank_for p.strip p.authority u.key u.source ≡ ok (candidate u).authority_rank)

  abbrev pub candidates :
      List (ResourceKey × ResourceUpdate A) → List (ResourceKey × SnapshotValue A)
  candidates [] = []
  candidates ((k, u) ∷ rest) = (k, candidate u) ∷ candidates rest

  abbrev precedence : Option (ResourceUpdate A) → Option (ℤ × ℤ)
  precedence none = none
  precedence (some u) = some ((candidate u).authority_rank, (candidate u).observed_at)

  abbrev valued : Option (ResourceUpdate A) → Option (SnapshotValue A)
  valued none = none
  valued (some u) = some (candidate u)

  -- The precedence that is kept for a key is that of the update that is kept.
  Agrees : Selection A → Type 0
  Agrees s =
      (k : ResourceKey)
      → lookup ResourceKey-discrete k s.effective_precedence
        ≡ precedence (lookup ResourceKey-discrete k s.unique_updates)

  lookup-candidates :
      (k : ResourceKey) (d : List (ResourceKey × ResourceUpdate A))
      → lookup ResourceKey-discrete k (candidates d) ≡ valued (lookup ResourceKey-discrete k d)
  unfolding lookup
  lookup-candidates k [] = refl
  lookup-candidates k ((j, u) ∷ d) = ground (arith, lookup-candidates k d)

  put-candidates :
      (k : ResourceKey) (u : ResourceUpdate A) (d : List (ResourceKey × ResourceUpdate A))
      → put ResourceKey-discrete k (candidate u) (candidates d)
        ≡ candidates (put ResourceKey-discrete k u d)
  unfolding put
  put-candidates k u [] = refl
  put-candidates k u ((j, w) ∷ d) = ground (arith, put-candidates k u d)

  same_test :
      (o : Option (ResourceUpdate A)) (u : ResourceUpdate A)
      → takes_precedence (precedence o) (candidate u).authority_rank (candidate u).observed_at
        ≡ replaces (valued o) (candidate u)
  unfolding candidate_precedes
  same_test none u = refl
  same_test (some w) u = refl

  -- one round of each loop
  stored_by : Bool → ResourceUpdate A → Selection A → Selection A
  stored_by b u s =
      if b
      then record {
        unique_updates = put ResourceKey-discrete u.key u s.unique_updates;
        effective_precedence =
            put ResourceKey-discrete u.key
              ((candidate u).authority_rank, observed_or now u.observed_at) s.effective_precedence;
      }
      else s

  test : Selection A → ResourceUpdate A → Bool
  test s u =
      takes_precedence (lookup ResourceKey-discrete u.key s.effective_precedence)
        (candidate u).authority_rank (observed_or now u.observed_at)

  choose-eq :
      (s : Selection A) (u : ResourceUpdate A)
      → choose now u (candidate u).authority_rank s ≡ stored_by (test s u) u s
  unfolding choose stored_by test
  choose-eq s u = refl

  test-eq :
      (s : Selection A) (u : ResourceUpdate A)
      → Agrees s
      → IsCandidate u
      → test s u
        ≡ replaces
            (lookup ResourceKey-discrete (candidate u).key (candidates s.unique_updates))
            (candidate u)
  unfolding test Agrees
  test-eq s u a (k, t, r) =
      let c = candidate u in
      let held = lookup ResourceKey-discrete u.key s.unique_updates in
      ap (λ o. takes_precedence o c.authority_rank (observed_or now u.observed_at)) (a u.key)
      ∙ ap (λ x. takes_precedence (precedence held) c.authority_rank x) (sym t)
      ∙ same_test held u
      ∙ ap (λ o. replaces o c) (sym (lookup-candidates u.key s.unique_updates))
      ∙ ap (λ j. replaces (lookup ResourceKey-discrete j (candidates s.unique_updates)) c) (sym k)

  stored_by-Agrees :
      (b : Bool) (u : ResourceUpdate A) (s : Selection A)
      → IsCandidate u
      → Agrees s
      → Agrees (stored_by b u s)
  unfolding stored_by Agrees
  stored_by-Agrees false u s i a = a
  stored_by-Agrees true u s (k, t, r) a = λ q. elim (ResourceKey-discrete u.key q) [
    | yes same ↦ ground (
      arith,
      t,
      same,
      lookup-put ResourceKey-discrete u.key q
          ((candidate u).authority_rank, observed_or now u.observed_at) s.effective_precedence,
      lookup-put ResourceKey-discrete u.key q u s.unique_updates,
    )
    | no other ↦ ground (
      arith,
      other,
      a q,
      lookup-put ResourceKey-discrete u.key q
          ((candidate u).authority_rank, observed_or now u.observed_at) s.effective_precedence,
      lookup-put ResourceKey-discrete u.key q u s.unique_updates,
    )
  ]

  stored_by-candidates :
      (b : Bool) (u : ResourceUpdate A) (s : Selection A)
      → IsCandidate u
      → (if b
          then put ResourceKey-discrete
              (candidate u).key
              (candidate u)
              (candidates s.unique_updates)
          else candidates s.unique_updates)
        ≡ candidates (stored_by b u s).unique_updates
  unfolding stored_by
  stored_by-candidates false u s i = refl
  stored_by-candidates true u s (k, t, r) =
      ap (λ j. put ResourceKey-discrete j (candidate u) (candidates s.unique_updates)) k
      ∙ put-candidates u.key u s.unique_updates

  abbrev pub candidate_list : List (ResourceUpdate A) → List (SnapshotValue A)
  candidate_list [] = []
  candidate_list (u ∷ us) = candidate u ∷ candidate_list us

  select_updates-from :
      (us : List (ResourceUpdate A)) (s s' : Selection A)
      → All IsCandidate us
      → Agrees s
      → select_updates p now s us ≡ ok s'
      → select_from (candidates s.unique_updates) (candidate_list us) ≡ candidates s'.unique_updates
  unfolding select_updates select_from
  select_updates-from [] s s' i a e = ground (arith, e)
  select_updates-from (u ∷ us) s s' (i, is) a e =
      let (_, _, ranked) =
        >>=-eq-ok (validate_observed_at p.observation_policy (observed_or now u.observed_at) now) _
          e in
      let (rank, r, later) = >>=-eq-ok (rank_for p.strip p.authority u.key u.source) _ ranked in
      let c = candidate u in
      let next = stored_by (test s u) u s in
      let same : rank ≡ c.authority_rank = ground (arith, r, i.2) in
      let later' : select_updates p now next us ≡ ok s' =
        ap (λ n. select_updates p now n us)
          (sym (choose-eq s u) ∙ ap (λ n. choose now u n s) (sym same))
        ∙ later in
      ap (λ d. select_from d (candidate_list us))
        (ap
            (λ b.
              if b
              then put ResourceKey-discrete c.key c (candidates s.unique_updates)
              else candidates s.unique_updates)
            (sym (test-eq s u a i))
          ∙ stored_by-candidates (test s u) u s i)
      ∙ select_updates-from us next s' is (stored_by-Agrees (test s u) u s i a) later'

  -- The publisher and the cache choose alike: where `candidate` gives each update a value with its
  -- key, its time and the rank of its source, the values of the updates that the publisher selects
  -- are the ones, in order, that the cache would select among the values of all updates.
  pub select_updates-select_candidates :
      (updates : List (ResourceUpdate A)) (s : Selection A)
      → All IsCandidate updates
      → select_updates p now no_updates updates ≡ ok s
      → select_candidates (candidate_list updates) ≡ candidates s.unique_updates
  unfolding select_candidates no_updates Agrees lookup
  select_updates-select_candidates updates s i e =
      select_updates-from updates no_updates s i (λ k. refl) e
