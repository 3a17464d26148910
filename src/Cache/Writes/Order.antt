-- ===== src/Cache/Writes/Order.antt =====
-- The order in which values take precedence: by authority, then by observation time.
use coalestra.Prelude.{
  ◌≡◌, ◌↔◌, ◌⊎◌, inr, refl, Bool, true, false, some, arith, ◌≤ℤ◌, ◌<ℤ◌, eq_of_parts,
}
use coalestra.Core.Models.{
  SnapshotValue, stored, ignored_lower_authority, ignored_older, ignored_duplicate,
}
use coalestra.Cache.Writes.{candidate_precedes, write_status}

module _ {A : Type 0} where
  -- `b` may stand where `a` stood
  infix 50 ◌≼◌
  abbrev pub ◌≼◌ : SnapshotValue A → SnapshotValue A → Type 0
  a ≼ b =
      (a.authority_rank <ℤ b.authority_rank)
      ⊎ ((a.authority_rank ≡ b.authority_rank) × (a.observed_at ≤ℤ b.observed_at))

  pub ≼_refl : (a : SnapshotValue A) → a ≼ a
  ≼_refl a = inr (refl, omega arith)

  pub ≼_trans : (a b c : SnapshotValue A) → a ≼ b → b ≼ c → a ≼ c
  ≼_trans a b c h k = ground arith

  pub precedes→≼ :
      (current candidate : SnapshotValue A)
      → candidate_precedes current candidate ≡ true
      → current ≼ candidate
  unfolding candidate_precedes
  precedes→≼ current candidate h =
      ground (arith, eq_of_parts current.authority_rank candidate.authority_rank)

  pub not_precedes→≼ :
      (current candidate : SnapshotValue A)
      → candidate_precedes current candidate ≡ false
      → candidate ≼ current
  unfolding candidate_precedes
  not_precedes→≼ current candidate h =
      ground (arith, eq_of_parts candidate.authority_rank current.authority_rank)

  abbrev IsStrictlyAfter : SnapshotValue A → SnapshotValue A → Type 0
  IsStrictlyAfter previous value =
      (previous.authority_rank <ℤ value.authority_rank)
      ⊎ ((previous.authority_rank ≡ value.authority_rank)
          × (previous.observed_at <ℤ value.observed_at))

  -- An unforced write over a cached value is refused for its authority exactly when it ranks
  -- lower, as older exactly when it ranks the same and was observed before, and as a duplicate
  -- exactly when rank and time agree and equal values are not to be replaced.
  pub write_status_refusals :
      (previous value : SnapshotValue A) (replace_equal : Bool)
      → let status = write_status (some previous) value false replace_equal in
        ((status ≡ ignored_lower_authority) ↔ (value.authority_rank <ℤ previous.authority_rank))
        × ((status ≡ ignored_older) ↔ (
            (value.authority_rank ≡ previous.authority_rank)
            × (value.observed_at <ℤ previous.observed_at)))
        × ((status ≡ ignored_duplicate) ↔ (
            (value.authority_rank ≡ previous.authority_rank)
            × (value.observed_at ≡ previous.observed_at)
            × (replace_equal ≡ false)))
  unfolding write_status
  write_status_refusals previous value replace_equal = ground (
    arith,
    eq_of_parts value.authority_rank previous.authority_rank,
    eq_of_parts value.observed_at previous.observed_at,
  )

  pub stored→≼ :
      (previous value : SnapshotValue A) (replace_equal : Bool)
      → write_status (some previous) value false replace_equal ≡ stored
      → previous ≼ value
  unfolding write_status
  stored→≼ previous value replace_equal h =
      ground (arith, eq_of_parts previous.authority_rank value.authority_rank)
