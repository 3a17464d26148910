-- ===== src/Tests/Consistency.antt =====
-- Consistency: a balance observed at 100 and prices observed at 104.
use coalestra.Prelude.{ℕ, pos, ◌≤◌, ◌≡◌, ◌↔◌, true, none, List, [], ◌∷◌, monus}
use coalestra.Consistency.{
  SnapshotConsistencyPolicy, Item, observed, find_observation_skew_violation,
}
use coalestra.Consistency.Skew.{IsResolved, no_violation_iff}
use coalestra.Tests.Cache.{account, prices, balance, market}

abbrev resources : List (Item ℕ)
resources = (account, balance) ∷ (prices, record market { observed_at = pos 104 }) ∷ []

abbrev policy : SnapshotConsistencyPolicy
policy = record { max_observation_skew_seconds = 4; include_optional_resources = true }

no_violation_iff_example :
    (find_observation_skew_violation resources (account ∷ prices ∷ []) policy ≡ none) ↔ (
      (e f : Item ℕ)
      → IsResolved resources (account ∷ prices ∷ []) e
      → IsResolved resources (account ∷ prices ∷ []) f
      → monus (observed e) (observed f) ≤ 4)
no_violation_iff_example = no_violation_iff policy resources (account ∷ prices ∷ [])
