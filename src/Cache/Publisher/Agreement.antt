-- ===== src/Cache/Publisher/Agreement.antt =====
-- cache/publisher.py: `_ignored_status` beside the cache's own `_write_status`.
use coalestra.Prelude.{◌≡◌, Bool, Option, none, some, arith}
use coalestra.Core.Models.{SnapshotValue}
use coalestra.Cache.Writes.{write_status}
use coalestra.Cache.Update.{PublishStatus, published, provisional, publish_status}

module _ {A : Type 0} where
  abbrev pub current : PublishStatus → SnapshotValue A → Option (SnapshotValue A) → SnapshotValue A
  current published candidate previous = candidate
  current _ candidate none = candidate
  current _ candidate (some previous) = previous

  -- The publisher's provisional result agrees with the cache: its status is what the cache would
  -- answer for the same values and flags, its value is the candidate if that is published and the
  -- previous value otherwise, and it names the previous value.
  pub provisional_lem :
      (previous : Option (SnapshotValue A)) (candidate : SnapshotValue A)
      (force replace_equal : Bool)
      → let result = provisional previous candidate force replace_equal in
        (result.status ≡ publish_status (write_status previous candidate force replace_equal))
        × (result.value ≡ current result.status candidate previous)
        × (result.previous ≡ previous)
  unfolding provisional publish_status write_status
  provisional_lem none candidate force replace_equal = ground arith
  provisional_lem (some previous) candidate force replace_equal = ground arith
