-- ===== src/Acceptance/Requirements.antt =====
-- core/acceptance.py: what the constructor of a requirement checks.
use coalestra.Prelude.{ℤ, String, ◌≤◌, ◌≡◌, List, arith, length}
use coalestra.Dict.{Distinct}
use coalestra.Dict.Keys.{unique-Distinct}
use coalestra.Core.Errors.{ok}
use coalestra.Core.Keys.{ResourceKey, ResourceKey-discrete}
use coalestra.Acceptance.{SnapshotRequirement, snapshot_requirement}

module _ (strip : String → String) (keys : List ResourceKey) where
  -- A requirement that was built has each of its keys once, and its minimum is between one and the
  -- number of keys.
  pub snapshot_requirement-ok :
      (minimum : ℤ) (name : String) (r : SnapshotRequirement)
      → snapshot_requirement strip keys minimum name ≡ ok r
      → Distinct ResourceKey-discrete r.keys
        × (1 ≤ r.minimum_count)
        × (r.minimum_count ≤ length r.keys)
  unfolding snapshot_requirement
  snapshot_requirement-ok minimum name r h =
      ground (arith, unique-Distinct ResourceKey-discrete keys)
