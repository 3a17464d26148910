-- ===== src/Cache/State.antt =====
-- cache/memory.py: the state of an `AsyncMemoryCache`, and the user-supplied payload copier as
-- core/isolation.py calls it. Each operation holds the lock from its first access of the state to
-- its last, so it is one step; where the code lets go of the lock in between, the model says so.
use coalestra.Prelude.{ℕ, Option, none, some, List, [], ltb}
use coalestra.Core.Errors.{
  value_error, payload_isolation_error, Result, ok, raise, reject_if, ◌>>=◌, ◌>>◌,
}
use coalestra.Core.Keys.{ResourceKey}
use coalestra.Core.Models.{SnapshotValue}

pub record Cache (A : Type 0) : Type 0 where
  pub max_entries : Option ℕ
  pub entries : List (ResourceKey × SnapshotValue A)
  pub hits : ℕ
  pub misses : ℕ
  pub fresh_hits : ℕ
  pub stale_hits : ℕ
  pub sets : ℕ
  pub invalidations : ℕ
  pub evictions : ℕ
  pub expirations : ℕ

check_max_entries : Option ℕ → Result (Unit {0})
check_max_entries none = ok tt
check_max_entries (some n) = reject_if (ltb n 1) value_error

-- AsyncMemoryCache(max_entries=..., max_copy_concurrency=...)
unfoldable pub init : {A : Type 0} → Option ℕ → ℕ → Result (Cache A)
unfolding check_max_entries
init max_entries max_copy_concurrency = do
  check_max_entries max_entries
  reject_if (ltb max_copy_concurrency 1) value_error
  ok (record {
    max_entries = max_entries;
    entries = [];
    hits = 0;
    misses = 0;
    fresh_hits = 0;
    stale_hits = 0;
    sets = 0;
    invalidations = 0;
    evictions = 0;
    expirations = 0;
  })

-- What the caller supplies: `copier` fails where the Python callable raises, and `as_mapping` is
-- the test that the copied metadata is a mapping, with the conversion to a plain dictionary.
pub record Copier (A : Type 0) : Type 0 where
  pub copier : A → Option A
  pub as_mapping : A → Option A

abbrev or_raise {ℓ} : {A : Type ℓ} → Option A → Result A
or_raise none = raise payload_isolation_error
or_raise (some a) = ok a

module _ {A : Type 0} (c : Copier A) where
  -- PayloadIsolator.copy
  unfoldable pub copy : A → Result A
  copy a = or_raise (c.copier a)

  -- PayloadIsolator.copy_metadata
  unfoldable pub copy_metadata : A → Result A
  unfolding copy
  copy_metadata a = do b ← copy a; or_raise (c.as_mapping b)

  -- PayloadIsolator.clone_snapshot_value, with no field replaced by the caller
  unfoldable pub clone_snapshot_value : SnapshotValue A → Result (SnapshotValue A)
  unfolding copy copy_metadata
  clone_snapshot_value v = do
    value ← copy v.value
    metadata ← copy_metadata v.metadata
    ok (record v { value = value; metadata = metadata })
