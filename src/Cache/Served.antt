-- ===== src/Cache/Served.antt =====
-- cache/memory.py: what a read serves.
use coalestra.Prelude.{ℤ, ◌≡◌, ◌≢◌, ◌↔◌, refl, true, false, some, arith, monus, subst}
use coalestra.Dict
use coalestra.Dict.{lookup}
use coalestra.Dict.Laws.{lookup-pop, lookup-to_end}
use coalestra.Core.Keys.{ResourceKey, ResourceKey-discrete}
use coalestra.Core.Numbers.{exceeds}
use coalestra.Core.Models.{FreshnessPolicy, SnapshotValue}
use coalestra.Cache.State.{Cache}
use coalestra.Cache.Dependencies.{dependencies_current}
use coalestra.Cache.Dependencies.Spec.{Current}
use coalestra.Cache.Dependencies.Complete.{dependencies_current_iff}
use coalestra.Cache.Invariant.{IsValid}
use coalestra.Cache.Reads.{read_one}
use coalestra.Cache.Reads.Cases.{read_one_cases}

module _ {A : Type 0} (c : Cache A) (now : ℤ) (policy : FreshnessPolicy) (k : ResourceKey) where
  -- what may be served for the key
  abbrev pub IsServable : SnapshotValue A → Type 0
  IsServable w =
      (lookup ResourceKey-discrete k c.entries ≡ some w)
      × Current c.entries w
      × (exceeds (monus now w.observed_at) policy.max_stale_seconds ≡ false)

  decided :
      IsValid c
      → (w : SnapshotValue A) → lookup ResourceKey-discrete k c.entries ≡ some w
      → (dependencies_current c.entries w ≡ some true) ↔ Current c.entries w
  decided valid w found =
      (dependencies_current_iff c.entries valid.keyed w (ground (arith, valid.keyed k w found))).1

  served_sound :
      IsValid c → (w : SnapshotValue A) → (read_one c now policy k).1.value ≡ some w → IsServable w
  served_sound valid w =
      read_one_cases c now policy k (λ r. r.1.value ≡ some w → IsServable w) (λ _ h. cc)
        (λ _ _ _ h. cc) (λ _ _ _ _ h. cc)
        (λ u found deps young h.
          let e : u ≡ w = ground arith in
          subst (λ x. IsServable x) e (found, (decided valid u found).0 deps, young))

  served_complete :
      IsValid c → (w : SnapshotValue A) → IsServable w → (read_one c now policy k).1.value ≡ some w
  served_complete valid w (found, deps, young) =
      let ok = (decided valid w found).1 deps in
      read_one_cases c now policy k (λ r. r.1.value ≡ some w) (λ e. cc)
        (λ u e bad. let same : u ≡ w = ground arith in absurd (bad (rw same ok)))
        (λ u e _ old. ground arith) (λ u e _ _. ground arith)

  -- In a valid cache a read returns an entry exactly when it stands under the key, all that it
  -- depends on is still cached at the recorded versions, and its age is within the stale window.
  pub read_one-IsServable :
      IsValid c
      → (w : SnapshotValue A) → ((read_one c now policy k).1.value ≡ some w) ↔ IsServable w
  read_one-IsServable valid w = (served_sound valid w, served_complete valid w)

  -- Reading one key changes nothing that is cached under another.
  pub lookup-read_one_ne :
      (q : ResourceKey)
      → k ≢ q
      → lookup ResourceKey-discrete q (read_one c now policy k).0.entries
        ≡ lookup ResourceKey-discrete q c.entries
  lookup-read_one_ne q other =
      read_one_cases c now policy k
        (λ r. lookup ResourceKey-discrete q r.0.entries ≡ lookup ResourceKey-discrete q c.entries)
        (λ _. refl) (λ _ _ _. dropped) (λ _ _ _ _. dropped)
        (λ w _ _ _. ground (arith, lookup-to_end ResourceKey-discrete k q w c.entries))
    where
      dropped :
          lookup ResourceKey-discrete q (Dict.pop ResourceKey-discrete k c.entries)
          ≡ lookup ResourceKey-discrete q c.entries
      dropped = ground (arith, lookup-pop ResourceKey-discrete k q c.entries)
