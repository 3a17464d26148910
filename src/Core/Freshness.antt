-- ===== src/Core/Freshness.antt =====
-- core/models.py: what the constructor of a freshness policy checks.
use coalestra.Prelude.{ℕ, ◌≡◌, Bool}
use coalestra.Prelude.{arith}
use coalestra.Core.Errors.{ok}
use coalestra.Core.Numbers.{Number, Limit, seconds, ◌≤Limit◌}
use coalestra.Core.Models.{
  RefreshMode, blocking, stale_while_revalidate, refresh_ahead, FreshnessPolicy, freshness_policy,
}

-- The proactive window of a policy, by its mode.
abbrev pub WindowFits : RefreshMode → Limit → ℕ → Type 0
WindowFits refresh_ahead ttl ahead = seconds ahead ≤Limit ttl
WindowFits _ ttl ahead = ahead ≡ 0

-- A policy that was built lets a value be stale at least as long as it is fresh, and has a
-- proactive window, within the time to live, only in the refresh-ahead mode.
pub freshness_policy-ok :
    (ttl max_stale ahead : Number) (allow_stale : Bool) (mode : RefreshMode) (p : FreshnessPolicy)
    → freshness_policy ttl max_stale allow_stale mode ahead ≡ ok p
    → (p.ttl_seconds ≤Limit p.max_stale_seconds)
      × WindowFits p.refresh_mode p.ttl_seconds p.refresh_ahead_seconds
unfolding freshness_policy
freshness_policy-ok ttl max_stale ahead allow_stale blocking p h = ground arith
freshness_policy-ok ttl max_stale ahead allow_stale stale_while_revalidate p h = ground arith
freshness_policy-ok ttl max_stale ahead allow_stale refresh_ahead p h = ground arith
