-- ===== src/Acceptance/Verdicts.antt =====
-- core/acceptance.py: the loop over the participating keys, against what a policy asks of a key.
use coalestra.Prelude.{ℤ, ◌≡◌, ◌↔◌, inl, inr, refl, true, some, List, [], ◌∷◌, arith, Option-cases}
use coalestra.Dict.{lookup, contains}
use coalestra.Core.Keys.{ResourceKey, ResourceKey-discrete}
use coalestra.Core.Models.{FreshnessPolicy, SnapshotValue}
use coalestra.Acceptance.{SnapshotAcceptancePolicy, SnapshotAcceptanceViolation}
use coalestra.Acceptance.Evaluate.{
  Verdict, accepts, found_violations, key_violations, verdict, verdicts, verdict_of, enforced,
}
use coalestra.Acceptance.Spec.{IsTolerated, IsAcceptable, append_nil, key_nil}

accepts_nil :
    (v : Verdict) (vs : List SnapshotAcceptanceViolation) → v ≡ some vs → accepts v ≡ true → vs ≡ []
accepts_nil v [] e h = refl
accepts_nil v (x ∷ vs) e h = ground (arith, e, h)

module _ {A : Type 0} (resources : List (ResourceKey × SnapshotValue A))
    (policy : SnapshotAcceptancePolicy) (freshness : ResourceKey → FreshnessPolicy) (now : ℤ) where
  verdict-found :
      (key : ResourceKey) (value : SnapshotValue A)
      → lookup ResourceKey-discrete key resources ≡ some value
      → verdict resources policy freshness now key
        ≡ some (key_violations resources policy freshness now key value)
  unfolding verdict
  verdict-found key value e = ground (arith, e)

  pub IsTolerated-iff :
      (key : ResourceKey)
      → (found_violations (verdict resources policy freshness now key) ≡ [])
        ↔ IsTolerated resources policy freshness now key
  unfolding verdict
  IsTolerated-iff key = elim (Option-cases (lookup ResourceKey-discrete key resources)) [
    | inl e ↦ ground (arith, e)
    | inr (v, e) ↦ (
      λ h w f. (key_nil resources policy freshness now key w).0 (ground (arith, e, f, h)),
      λ s. ground (arith, e, (key_nil resources policy freshness now key v).1 (s v e)),
    )
  ]

  pub IsAcceptable-iff :
      (key : ResourceKey)
      → (accepts (verdict resources policy freshness now key) ≡ true)
        ↔ IsAcceptable resources policy freshness now key
  unfolding verdict
  IsAcceptable-iff key = elim (Option-cases (lookup ResourceKey-discrete key resources)) [
    | inl e ↦ (λ h. ground (arith, e, h), λ (v, f, s). ground (arith, e, f))
    | inr (v, e) ↦ (
      λ h. (
        v,
        e,
        (key_nil resources policy freshness now key v).0 (
            accepts_nil (verdict resources policy freshness now key)
              (key_violations resources policy freshness now key v) (verdict-found key v e) h),
      ),
      λ (w, f, s). ground (arith, e, f, (key_nil resources policy freshness now key w).1 s),
    )
  ]

  pub verdict_of-verdicts :
      (keys : List ResourceKey) (q : ResourceKey)
      → contains ResourceKey-discrete q keys ≡ true
      → verdict_of (verdicts resources policy freshness now keys) q
        ≡ verdict resources policy freshness now q
  unfolding verdicts lookup contains
  verdict_of-verdicts [] q h = cc
  verdict_of-verdicts (k ∷ keys) q h = ground (arith, verdict_of-verdicts keys q)

  pub enforced_sound :
      (direct keys : List ResourceKey)
      → enforced direct (verdicts resources policy freshness now keys) ≡ []
      → (q : ResourceKey) → contains ResourceKey-discrete q keys ≡ true
      → contains ResourceKey-discrete q direct ≡ true
      → found_violations (verdict resources policy freshness now q) ≡ []
  unfolding verdicts enforced contains
  enforced_sound direct [] h q i j = cc
  enforced_sound direct (k ∷ keys) h q i j =
      let vs = found_violations (verdict resources policy freshness now k) in
      let earlier = enforced direct (verdicts resources policy freshness now keys) in
      let rest : earlier ≡ []
          → contains ResourceKey-discrete q keys ≡ true
          → found_violations (verdict resources policy freshness now q) ≡ [] =
        λ p r. enforced_sound direct keys p q r j in
      ground (
        arith,
        rest,
        append_nil vs (enforced direct (verdicts resources policy freshness now keys)),
      )

  pub enforced_complete :
      (direct keys : List ResourceKey)
      → ((q : ResourceKey)
          → contains ResourceKey-discrete q direct ≡ true
          → found_violations (verdict resources policy freshness now q) ≡ [])
      → enforced direct (verdicts resources policy freshness now keys) ≡ []
  unfolding verdicts enforced
  enforced_complete direct [] h = refl
  enforced_complete direct (k ∷ keys) h = ground (arith, enforced_complete direct keys h, h k)
