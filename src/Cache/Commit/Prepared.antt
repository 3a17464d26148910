-- ===== src/Cache/Commit/Prepared.antt =====
-- Copies: a cloned value is the same revision, and what is prepared are copies of candidates.
use coalestra.Prelude.{
  ◌≡◌, refl, sym, ap, ◌∙◌, subst, Bool, true, false, some, List, [], ◌∷◌, arith, inl, inr, if_pos,
  if◌then◌else◌, All,
}
use coalestra.Dict.{lookup, put, IsDict}
use coalestra.Dict.Laws.{lookup-put}
use coalestra.Core.Errors.{Error, payload_isolation_error, ok, raise, >>=-eq-ok, >>=-eq-raise}
use coalestra.Core.Keys.{ResourceKey, ResourceKey-discrete}
use coalestra.Core.Models.{SnapshotValue}
use coalestra.Cache.State.{Copier, clone_snapshot_value}
use coalestra.Cache.Writes.{judge, missing_from, needs_copy, write_status}
use coalestra.Cache.Commit.{prepare}

module _ {A : Type 0} where
  -- the two differ in payload and metadata at most
  pub record SameRevision (v w : SnapshotValue A) : Type 0 where
    pub key : w.key ≡ v.key
    pub authority_rank : w.authority_rank ≡ v.authority_rank
    pub observed_at : w.observed_at ≡ v.observed_at
    pub source : w.source ≡ v.source
    pub version : w.version ≡ v.version
    pub dependency_versions : w.dependency_versions ≡ v.dependency_versions

  pub clone-SameRevision :
      (copier : Copier A) (v w : SnapshotValue A)
      → clone_snapshot_value copier v ≡ ok w
      → SameRevision v w
  unfolding clone_snapshot_value
  clone-SameRevision copier v w h = ground arith

  -- Copying fails in one way only.
  pub clone_error :
      (copier : Copier A) (v : SnapshotValue A) (e : Error)
      → clone_snapshot_value copier v ≡ raise e
      → e ≡ payload_isolation_error
  unfolding clone_snapshot_value
  clone_error copier v e h = ground arith

  pub prepare_error :
      (copier : Copier A) (p : List (ResourceKey × SnapshotValue A)) (vs : List (SnapshotValue A))
      (e : Error)
      → prepare copier p vs ≡ raise e
      → e ≡ payload_isolation_error
  unfolding prepare
  prepare_error copier p [] e h = cc
  prepare_error copier p (v ∷ rest) e h = elim (>>=-eq-raise (clone_snapshot_value copier v) _ h) [
    | inl failed ↦ clone_error copier v e failed
    | inr (v', _, later) ↦ prepare_error copier (put ResourceKey-discrete v.key v' p) rest e later
  ]

  abbrev pub IsPrepared :
      List (ResourceKey × SnapshotValue A) → List (ResourceKey × SnapshotValue A) → Type 0
  IsPrepared cs p =
      (k : ResourceKey) (w : SnapshotValue A)
      → lookup ResourceKey-discrete k p ≡ some w
      → (v : SnapshotValue A) × (lookup ResourceKey-discrete k cs ≡ some v) × SameRevision v w

  pub nil-IsPrepared : (cs : List (ResourceKey × SnapshotValue A)) → IsPrepared cs []
  unfolding lookup
  nil-IsPrepared cs k w h = cc

  put-IsPrepared :
      (cs p : List (ResourceKey × SnapshotValue A)) (v w : SnapshotValue A)
      → lookup ResourceKey-discrete v.key cs ≡ some v
      → SameRevision v w
      → IsPrepared cs p
      → IsPrepared cs (put ResourceKey-discrete v.key w p)
  put-IsPrepared cs p v w found same h k u e = elim (ResourceKey-discrete v.key k) [
    | yes here ↦
        let eq : w ≡ u = ground (arith, lookup-put ResourceKey-discrete v.key k w p) in
        (
          v,
          ap (λ x. lookup ResourceKey-discrete x cs) (sym here) ∙ found,
          subst (SameRevision v) eq same,
        )
    | no other ↦ h k u (ground (arith, lookup-put ResourceKey-discrete v.key k w p))
  ]

  -- each of these values is the candidate for its key
  abbrev pub AreCandidates : List (ResourceKey × SnapshotValue A) → List (SnapshotValue A) → Type 0
  AreCandidates cs vs = All (λ v. lookup ResourceKey-discrete v.key cs ≡ some v) vs

  pub prepare-IsPrepared :
      (copier : Copier A) (cs p p' : List (ResourceKey × SnapshotValue A))
      (vs : List (SnapshotValue A))
      → AreCandidates cs vs
      → prepare copier p vs ≡ ok p'
      → IsPrepared cs p
      → IsPrepared cs p'
  unfolding prepare
  prepare-IsPrepared copier cs p p' [] a e h =
      let eq : p ≡ p' = ground arith in subst (IsPrepared cs) eq h
  prepare-IsPrepared copier cs p p' (v ∷ rest) (found, a) e h =
      let (w, cloned, later) = >>=-eq-ok (clone_snapshot_value copier v) _ e in
      prepare-IsPrepared copier cs (put ResourceKey-discrete v.key w p) p' rest a later
        (put-IsPrepared cs p v w found (clone-SameRevision copier v w cloned) h)

  pub items_found_in :
      (d cs : List (ResourceKey × SnapshotValue A))
      → IsDict ResourceKey-discrete d
      → ((q : ResourceKey) (w : SnapshotValue A)
          → lookup ResourceKey-discrete q d ≡ some w
          → lookup ResourceKey-discrete q cs ≡ some w)
      → All (λ e. lookup ResourceKey-discrete e.0 cs ≡ some e.1) d
  unfolding lookup
  items_found_in [] cs i sub = tt
  items_found_in ((k, v) ∷ d) cs (new, i) sub = (
    sub k v (if_pos (ResourceKey-discrete k k) refl _ _),
    items_found_in d cs i (λ q w h. sub q w (ground arith)),
  )

  cons_if :
      (cs : List (ResourceKey × SnapshotValue A)) (b : Bool) (v : SnapshotValue A)
      (vs : List (SnapshotValue A))
      → lookup ResourceKey-discrete v.key cs ≡ some v
      → AreCandidates cs vs
      → AreCandidates cs (if b then v ∷ vs else vs)
  cons_if cs true v vs h hs = (h, hs)
  cons_if cs false v vs h hs = hs

  pub missing-AreCandidates :
      (entries cs d p : List (ResourceKey × SnapshotValue A)) (force replace_equal : Bool)
      → All (λ e. lookup ResourceKey-discrete e.0 cs ≡ some e.1) d
      → All (λ e. e.1.key ≡ e.0) d
      → AreCandidates cs (missing_from p (judge entries force replace_equal d))
  unfolding missing_from judge
  missing-AreCandidates entries cs [] p force replace_equal f l = tt
  missing-AreCandidates entries cs ((k, v) ∷ d) p force replace_equal (f, fs) (l, ls) =
      cons_if cs
        (needs_copy (write_status (lookup ResourceKey-discrete v.key entries) v force replace_equal)
          (lookup ResourceKey-discrete v.key p))
        v (missing_from p (judge entries force replace_equal d))
        (ap (λ x. lookup ResourceKey-discrete x cs) l ∙ f)
        (missing-AreCandidates entries cs d p force replace_equal fs ls)
