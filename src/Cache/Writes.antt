-- ===== src/Cache/Writes.antt =====
-- cache/memory.py: `set_many_if_newer` and the writes built on it. The code copies candidates with
-- the lock let go, and takes the lock again to decide anew; what other tasks do to the cache in the
-- meantime is the argument `others`, by the number of the wait.
pub mod Order
pub mod Select
pub mod Evict
use coalestra.Prelude.{
  ℕ, ◌+◌, Bool, true, false, Option, none, some, List, [], ◌∷◌, ltb, length, ltb_ℤ, leb_ℤ, eqb_ℤ,
  not, ◌&&◌, if◌then◌else◌,
}
use coalestra.Dict.{lookup, put}
use coalestra.Core.Keys.{ResourceKey, ResourceKey-discrete}
use coalestra.Core.Models.{
  SnapshotValue, CacheWriteStatus, stored, ignored_lower_authority, ignored_older,
  ignored_duplicate,
}
use coalestra.Cache.State.{Cache}

module _ {A : Type 0} where
  unfoldable pub candidate_precedes : SnapshotValue A → SnapshotValue A → Bool
  candidate_precedes current candidate =
      if eqb_ℤ candidate.authority_rank current.authority_rank
      then leb_ℤ current.observed_at candidate.observed_at
      else ltb_ℤ current.authority_rank candidate.authority_rank

  abbrev pub replaces : Option (SnapshotValue A) → SnapshotValue A → Bool
  replaces none value = true
  replaces (some current) value = candidate_precedes current value

  -- the loop of `_select_candidates`
  unfoldable pub select_from :
      List (ResourceKey × SnapshotValue A)
      → List (SnapshotValue A)
      → List (ResourceKey × SnapshotValue A)
  unfolding candidate_precedes
  select_from selected [] = selected
  select_from selected (value ∷ rest) =
      select_from
        (if replaces (lookup ResourceKey-discrete value.key selected) value
          then put ResourceKey-discrete value.key value selected
          else selected)
        rest

  unfoldable pub select_candidates : List (SnapshotValue A) → List (ResourceKey × SnapshotValue A)
  unfolding select_from
  select_candidates = select_from []

  status_against : SnapshotValue A → SnapshotValue A → Bool → CacheWriteStatus
  status_against previous value replace_equal =
      if ltb_ℤ value.authority_rank previous.authority_rank
      then ignored_lower_authority
      else if ltb_ℤ previous.authority_rank value.authority_rank
      then stored
      else if ltb_ℤ value.observed_at previous.observed_at
      then ignored_older
      else if eqb_ℤ value.observed_at previous.observed_at && not replace_equal
      then ignored_duplicate
      else stored

  unfoldable pub write_status :
      Option (SnapshotValue A) → SnapshotValue A → Bool → Bool → CacheWriteStatus
  unfolding status_against
  write_status none value force replace_equal = stored
  write_status (some previous) value force replace_equal =
      if force then stored else status_against previous value replace_equal

  -- while len(entries) > max: popitem(last=False)
  unfoldable pub evict_oldest :
      ℕ → List (ResourceKey × SnapshotValue A) → ℕ → List (ResourceKey × SnapshotValue A) × ℕ
  evict_oldest limit [] evictions = ([], evictions)
  evict_oldest limit (e ∷ rest) evictions =
      let evicted = evict_oldest limit rest (evictions + 1) in
      if ltb limit (length (e ∷ rest)) then evicted else (e ∷ rest, evictions)

  unfoldable pub limit_to : Cache A → Option ℕ → Cache A
  unfolding evict_oldest
  limit_to c none = c
  limit_to c (some limit) =
      let (entries, evictions) = evict_oldest limit c.entries c.evictions in
      record c { entries = entries; evictions = evictions }

  unfoldable pub enforce_limit : Cache A → Cache A
  unfolding limit_to
  enforce_limit c = limit_to c c.max_entries

  -- the first loop under the lock: each candidate with its status
  unfoldable pub judge :
      List (ResourceKey × SnapshotValue A)
      → Bool
      → Bool
      → List (ResourceKey × SnapshotValue A)
      → List (SnapshotValue A × CacheWriteStatus)
  unfolding write_status
  judge entries force replace_equal [] = []
  judge entries force replace_equal ((k, v) ∷ rest) =
      (v, write_status (lookup ResourceKey-discrete v.key entries) v force replace_equal)
      ∷ judge entries force replace_equal rest

  abbrev pub needs_copy : CacheWriteStatus → Option (SnapshotValue A) → Bool
  needs_copy stored none = true
  needs_copy _ _ = false

  -- the candidates that are to be stored and have not been copied
  unfoldable pub missing_from :
      List (ResourceKey × SnapshotValue A)
      → List (SnapshotValue A × CacheWriteStatus)
      → List (SnapshotValue A)
  missing_from prepared [] = []
  missing_from prepared ((v, status) ∷ rest) =
      let others = missing_from prepared rest in
      if needs_copy status (lookup ResourceKey-discrete v.key prepared) then v ∷ others else others
