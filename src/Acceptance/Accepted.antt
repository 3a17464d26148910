-- ===== src/Acceptance/Accepted.antt =====
-- core/acceptance.py: the whole evaluation, against what a policy asks of a snapshot.
use coalestra.Prelude.{
  ℕ, zero, suc, ℤ, ◌≤◌, ◌≡◌, ap, ◌↔◌, inl, inr, refl, Bool, true, false, ◌||◌, List, [], ◌∷◌, ◌++◌,
  arith, All, Bool-cases, leb, if◌then◌else◌,
}
use coalestra.Dict.{contains}
use coalestra.Dict.Keys.{contains-unique, contains-append}
use coalestra.Core.Errors.{ok}
use coalestra.Core.Keys.{ResourceKey, ResourceKey-discrete}
use coalestra.Core.Numbers.{finite}
use coalestra.Core.Models.{FreshnessPolicy, SnapshotValue}
use coalestra.Acceptance.{SnapshotRequirement, SnapshotAcceptancePolicy, requirement_keys}
use coalestra.Acceptance.Evaluate.{
  Verdict, accepts, verdicts, verdict_of, enforced, shortfall, accepted_among, indirect,
  requirement_violations, all_requirement_violations, directly_enforced, participating_keys,
  find_snapshot_acceptance_violations,
}
use coalestra.Acceptance.Spec.{AtLeast, IsTolerated, IsAcceptable, IsMet, append_nil}
use coalestra.Acceptance.Verdicts.{
  IsTolerated-iff, IsAcceptable-iff, verdict_of-verdicts, enforced_sound, enforced_complete,
}

guard_nil :
    {T : Type 0} (test : Bool) (xs : List T) (x : T)
    → ((if test then [] else xs ++ x ∷ []) ≡ []) ↔ (test ≡ true)
guard_nil true xs x = ground arith
guard_nil false xs x = ground (arith, append_nil xs (x ∷ []))

module _ (P : ResourceKey → Type 0) (found : List (ResourceKey × Verdict)) where
  -- The dictionaries decide `P` for each of the keys.
  Decides : List ResourceKey → Type 0
  Decides keys =
      (q : ResourceKey)
      → contains ResourceKey-discrete q keys ≡ true
      → (accepts (verdict_of found q) ≡ true) ↔ P q

  Decides-head :
      (k : ResourceKey) (keys : List ResourceKey)
      → Decides (k ∷ keys)
      → (accepts (verdict_of found k) ≡ true) ↔ P k
  unfolding Decides contains
  Decides-head k keys h = h k (ground arith)

  Decides-tail : (k : ResourceKey) (keys : List ResourceKey) → Decides (k ∷ keys) → Decides keys
  unfolding Decides contains
  Decides-tail k keys h q i = h q (ground (arith, i))

  AtLeast-counted :
      (keys : List ResourceKey) (n : ℕ)
      → Decides keys
      → AtLeast P n keys
      → n ≤ accepted_among found keys
  unfolding accepted_among
  AtLeast-counted keys zero d h = omega arith
  AtLeast-counted [] (suc n) d h = elim h [ ]
  AtLeast-counted (k ∷ keys) (suc n) d (inl (p, h)) =
      ground (arith, (Decides-head k keys d).1 p, AtLeast-counted keys n (Decides-tail k keys d) h)
  AtLeast-counted (k ∷ keys) (suc n) d (inr h) =
      ground (arith, AtLeast-counted keys (suc n) (Decides-tail k keys d) h)

  counted-AtLeast :
      (keys : List ResourceKey) (n : ℕ)
      → Decides keys
      → n ≤ accepted_among found keys
      → AtLeast P n keys
  unfolding accepted_among
  counted-AtLeast keys zero d h = tt
  counted-AtLeast [] (suc n) d h = omega arith
  counted-AtLeast (k ∷ keys) (suc n) d h = elim (Bool-cases (accepts (verdict_of found k))) [
    | inl e ↦ inl (
      (Decides-head k keys d).0 e,
      counted-AtLeast keys n (Decides-tail k keys d) (ground (arith, e, h)),
    )
    | inr e ↦ inr (counted-AtLeast keys (suc n) (Decides-tail k keys d) (ground (arith, e, h)))
  ]

  reported_iff :
      (direct : List ResourceKey) (r : SnapshotRequirement)
      → (requirement_violations direct found r ≡ [])
        ↔ (r.minimum_count ≤ accepted_among found r.keys)
  unfolding requirement_violations
  reported_iff direct r =
      let accepted = accepted_among found r.keys in
      ground (
        arith,
        guard_nil (leb r.minimum_count accepted) (indirect direct found r.keys)
            (shortfall r accepted),
      )

  requirement_iff :
      (direct : List ResourceKey) (r : SnapshotRequirement)
      → Decides r.keys
      → (requirement_violations direct found r ≡ []) ↔ AtLeast P r.minimum_count r.keys
  requirement_iff direct r d = (
    λ h. counted-AtLeast r.keys r.minimum_count d ((reported_iff direct r).0 h),
    λ h. (reported_iff direct r).1 (AtLeast-counted r.keys r.minimum_count d h),
  )

  Decides-left : (ks js : List ResourceKey) → Decides (ks ++ js) → Decides ks
  unfolding Decides
  Decides-left ks js d q i = d q (ground (arith, contains-append ResourceKey-discrete q ks js, i))

  Decides-right : (ks js : List ResourceKey) → Decides (ks ++ js) → Decides js
  unfolding Decides
  Decides-right ks js d q i = d q (
      ground (
        arith,
        contains-append ResourceKey-discrete q ks js,
        i,
        Bool-cases (contains ResourceKey-discrete q ks),
      ))

  requirements_iff :
      (direct : List ResourceKey) (rs : List SnapshotRequirement)
      → Decides (requirement_keys rs)
      → (all_requirement_violations direct found rs ≡ [])
        ↔ All (λ r. AtLeast P r.minimum_count r.keys) rs
  unfolding all_requirement_violations
  requirements_iff direct [] d = (λ _. tt, λ _. refl)
  requirements_iff direct (r ∷ rs) d =
      let nil =
        append_nil (requirement_violations direct found r)
          (all_requirement_violations direct found rs) in
      let first = requirement_iff direct r (Decides-left r.keys (requirement_keys rs) d) in
      let others = requirements_iff direct rs (Decides-right r.keys (requirement_keys rs) d) in
      (λ h. (first.0 (nil.0 h).0, others.0 (nil.0 h).1), λ (a, b). nil.1 (first.1 a, others.1 b))

module _ {A : Type 0} (resources : List (ResourceKey × SnapshotValue A))
    (required optional : List ResourceKey) (policy : SnapshotAcceptancePolicy)
    (freshness : ResourceKey → FreshnessPolicy) (now : ℤ) where
  participates : (ks : List ResourceKey) → List (ResourceKey × Verdict)
  participates ks = verdicts resources policy freshness now (participating_keys ks policy)

  contains_participating :
      (direct : List ResourceKey) (q : ResourceKey)
      → contains ResourceKey-discrete q (participating_keys direct policy) ≡ (
          contains ResourceKey-discrete q direct
          || contains ResourceKey-discrete q (requirement_keys policy.requirements))
  contains_participating direct q = ground (
    arith,
    contains-unique ResourceKey-discrete q (direct ++ requirement_keys policy.requirements),
    contains-append ResourceKey-discrete q direct (requirement_keys policy.requirements),
  )

  participating-Decides :
      (direct : List ResourceKey)
      → Decides
          (IsAcceptable resources policy freshness now)
          (participates direct)
          (requirement_keys policy.requirements)
  unfolding Decides participates
  participating-Decides direct q i =
      let in_all : contains ResourceKey-discrete q (participating_keys direct policy) ≡ true =
        ground (
          arith,
          contains_participating direct q,
          i,
          Bool-cases (contains ResourceKey-discrete q direct),
        ) in
      rw
        (verdict_of-verdicts resources policy freshness now (participating_keys direct policy) q
          in_all)
        (IsAcceptable-iff resources policy freshness now q)

  direct_iff :
      (direct : List ResourceKey)
      → (enforced direct (participates direct) ≡ []) ↔ (
          (q : ResourceKey)
          → contains ResourceKey-discrete q direct ≡ true
          → IsTolerated resources policy freshness now q)
  unfolding participates
  direct_iff direct = (
    λ h q i. (IsTolerated-iff resources policy freshness now q).0 (
        enforced_sound resources policy freshness now direct (participating_keys direct policy) h q
          (ground (arith, contains_participating direct q, i)) i),
    λ h.
        enforced_complete resources policy freshness now direct (participating_keys direct policy)
          (λ q i. (IsTolerated-iff resources policy freshness now q).1 (h q i)),
  )

  -- What the policy asks: the required resources, those with a rule of their own, and the optional
  -- ones if the policy says so satisfy their rule wherever they are resolved, and each requirement
  -- has its number of resolved resources that do.
  abbrev pub IsAccepted : Type 0
  IsAccepted =
      ((q : ResourceKey)
        → contains ResourceKey-discrete q (directly_enforced required optional policy) ≡ true
        → IsTolerated resources policy freshness now q)
      × All (IsMet resources policy freshness now) policy.requirements

  -- At a finite time the evaluation answers no violation exactly when the snapshot is accepted.
  pub no_violations_iff :
      (find_snapshot_acceptance_violations resources required optional policy (finite now) freshness
        ≡ ok [])
      ↔ IsAccepted
  unfolding find_snapshot_acceptance_violations participates
  no_violations_iff =
      let direct = directly_enforced required optional policy in
      let found = participates direct in
      let nil =
        append_nil (enforced direct found)
          (all_requirement_violations direct found policy.requirements) in
      let keys = direct_iff direct in
      let groups =
        requirements_iff (IsAcceptable resources policy freshness now) found direct
          policy.requirements (participating-Decides direct) in
      (
        λ h. let parts = nil.0 (ground (arith, h)) in (keys.0 parts.0, groups.0 parts.1),
        λ (a, b). ap ok (nil.1 (keys.1 a, groups.1 b)),
      )
