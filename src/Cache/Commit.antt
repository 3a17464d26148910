-- ===== src/Cache/Commit.antt =====
-- cache/memory.py: the loop of `set_many_if_newer`. The code copies candidates with the lock let
-- go, and takes the lock again to judge all of them anew. What other tasks do to the cache in the
-- meantime is the argument `others`, by the number of the wait; the fuel bounds the waits, and
-- `none` means that it ran out.
pub mod Total
pub mod Effect
pub mod Fold
pub mod Prepared
use coalestra.Prelude.{ℕ, zero, suc, ◌+◌, Bool, Option, none, some, List, [], ◌∷◌, length}
use coalestra.Dict.{lookup, put, to_end}
use coalestra.Core.Errors.{assertion_error, key_error, Result, ok, raise, each, ◌>>=◌}
use coalestra.Core.Keys.{ResourceKey, ResourceKey-discrete}
use coalestra.Core.Models.{SnapshotValue, CacheWriteStatus, stored, CacheWriteResult}
use coalestra.Cache.State.{Cache, Copier, clone_snapshot_value}
use coalestra.Cache.Writes.{select_candidates, judge, missing_from, enforce_limit}

-- what the loop answers: the cache, and the results or the exception
abbrev pub Attempt : Type 0 → Type 0
Attempt A = Option (Cache A × Result (List (ResourceKey × CacheWriteResult A)))

module _ {A : Type 0} where
  -- self._entries[key] = stored; self._entries.move_to_end(key); self._sets += 1
  abbrev store : Cache A → ResourceKey → SnapshotValue A → Cache A
  store c key v = record c {
    entries = to_end ResourceKey-discrete key v (put ResourceKey-discrete key v c.entries);
    sets = c.sets + 1;
  }

  abbrev outcome :
      CacheWriteStatus → SnapshotValue A → Option (SnapshotValue A) → CacheWriteResult A
  outcome status value previous = record { status = status; value = value; previous = previous }

  unfoldable pub ignore :
      Cache A → CacheWriteStatus → Option (SnapshotValue A) → Result (Cache A × CacheWriteResult A)
  ignore c status none = raise assertion_error
  ignore c status (some previous) = ok (c, outcome status previous (some previous))

  unfoldable pub accept :
      Cache A
      → ResourceKey
      → Option (SnapshotValue A)
      → Option (SnapshotValue A)
      → Result (Cache A × CacheWriteResult A)
  accept c key previous none = raise key_error
  accept c key previous (some v) = ok (store c key v, outcome stored v previous)

  -- the body of the loop that commits
  unfoldable pub commit_one :
      List (ResourceKey × SnapshotValue A)
      → Cache A
      → SnapshotValue A
      → CacheWriteStatus
      → Result (Cache A × CacheWriteResult A)
  unfolding ignore accept
  commit_one prepared c v stored =
      accept c v.key (lookup ResourceKey-discrete v.key c.entries)
        (lookup ResourceKey-discrete v.key prepared)
  commit_one prepared c v status = ignore c status (lookup ResourceKey-discrete v.key c.entries)

  unfoldable pub commit_all :
      List (ResourceKey × SnapshotValue A)
      → Cache A
      → List (SnapshotValue A × CacheWriteStatus)
      → Result (Cache A × List (ResourceKey × CacheWriteResult A))
  unfolding commit_one
  commit_all prepared c [] = ok (c, [])
  commit_all prepared c ((v, status) ∷ rest) = do
    (c', result) ← commit_one prepared c v status
    (c'', results) ← commit_all prepared c' rest
    ok (c'', (v.key, result) ∷ results)

  -- the last statements under the lock
  unfoldable pub finish :
      Cache A
      → Result (Cache A × List (ResourceKey × CacheWriteResult A))
      → Cache A × Result (List (ResourceKey × CacheWriteResult A))
  finish c (raise e) = (c, raise e)
  finish c (ok (c', results)) = (enforce_limit c', ok results)

  unfoldable pub go_on :
      (List (ResourceKey × SnapshotValue A) → Attempt A)
      → Cache A
      → Result (List (ResourceKey × SnapshotValue A))
      → Attempt A
  go_on again c (raise e) = some (c, raise e)
  go_on again c (ok prepared) = again prepared

  module _ (copier : Copier A) where
    -- `prepare_candidate` for each missing candidate, added to what is prepared
    unfoldable pub prepare :
        List (ResourceKey × SnapshotValue A)
        → List (SnapshotValue A)
        → Result (List (ResourceKey × SnapshotValue A))
    prepare prepared [] = ok prepared
    prepare prepared (v ∷ rest) = do
      v' ← clone_snapshot_value copier v
      prepare (put ResourceKey-discrete v.key v' prepared) rest

    unfoldable pub clone_previous : Option (SnapshotValue A) → Result (Option (SnapshotValue A))
    clone_previous none = ok none
    clone_previous (some v) = do v' ← clone_snapshot_value copier v; ok (some v')

    unfoldable pub clone_result :
        ResourceKey × CacheWriteResult A → Result (ResourceKey × CacheWriteResult A)
    unfolding clone_previous
    clone_result (key, r) = do
      value ← clone_snapshot_value copier r.value
      previous ← clone_previous r.previous
      ok (key, outcome r.status value previous)

    -- What was stored stays stored when a result cannot be copied.
    unfoldable pub copy_results :
        Cache A × Result (List (ResourceKey × CacheWriteResult A))
        → Cache A × Result (List (ResourceKey × CacheWriteResult A))
    copy_results (c, results) = (c, results >>= each clone_result)

    unfoldable pub answer_of : Attempt A → Attempt A
    unfolding copy_results
    answer_of none = none
    answer_of (some done) = some (copy_results done)

  module _ (copier : Copier A) (force replace_equal : Bool) (others : ℕ → Cache A → Cache A) where
    -- the `while True` loop
    unfoldable pub attempt :
        ℕ
        → ℕ
        → Cache A
        → List (ResourceKey × SnapshotValue A)
        → List (ResourceKey × SnapshotValue A)
        → Attempt A
    unfolding finish go_on
    attempt zero wait c prepared candidates = none
    attempt (suc fuel) wait c prepared candidates =
        let judged = judge c.entries force replace_equal candidates in
        let c' = others wait c in
        let again =
          λ (p : List (ResourceKey × SnapshotValue A)). attempt fuel (suc wait) c' p candidates in
        elim (missing_from prepared judged) [
          | [] ↦ some (finish c (commit_all prepared c judged))
          | v ∷ rest ↦ go_on again c' (prepare copier prepared (v ∷ rest))
        ]

    unfoldable pub write_candidates : Cache A → List (ResourceKey × SnapshotValue A) → Attempt A
    unfolding attempt answer_of
    write_candidates c [] = some (c, ok [])
    write_candidates c (e ∷ rest) =
        answer_of copier (attempt (suc (length (e ∷ rest))) 0 c [] (e ∷ rest))

    unfoldable pub set_many_if_newer : Cache A → List (SnapshotValue A) → Attempt A
    unfolding write_candidates select_candidates
    set_many_if_newer c values = write_candidates c (select_candidates values)
