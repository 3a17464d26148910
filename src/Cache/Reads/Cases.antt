-- ===== src/Cache/Reads/Cases.antt =====
-- The four outcomes of reading one key, as a rule: what holds of each outcome where its guards do
-- holds of `read_one`.
use coalestra.Prelude.{
  ℕ, ℤ, ◌+◌, ◌≡◌, ◌≢◌, Bool, true, false, Option, none, some, monus, not, inl, inr, Option-cases,
  Bool-cases,
}
use coalestra.Dict.{lookup}
use coalestra.Core.Keys.{ResourceKey, ResourceKey-discrete}
use coalestra.Core.Numbers.{exceeds}
use coalestra.Core.Models.{FreshnessPolicy, SnapshotValue, CacheLookup}
use coalestra.Cache.State.{Cache}
use coalestra.Cache.Dependencies.{dependencies_current}
use coalestra.Cache.Reads.{
  no_value, cached, drop_invalid, drop_expired, touch, read_current, read_present, read_one,
}

module _ {A : Type 0} (c : Cache A) (now : ℤ) (policy : FreshnessPolicy) (key : ResourceKey) where
  -- the guards of an outcome, for the entry `w`
  abbrev pub IsEntry : SnapshotValue A → Type 0
  IsEntry w = lookup ResourceKey-discrete key c.entries ≡ some w

  abbrev pub age_of : SnapshotValue A → ℕ
  age_of w = monus now w.observed_at

  pub read_one_cases {ℓ} :
      (P : Cache A × CacheLookup A → Type ℓ)
      → (lookup ResourceKey-discrete key c.entries ≡ none
          → P (record c { misses = c.misses + 1 }, no_value none))
      → ((w : SnapshotValue A)
          → IsEntry w
          → dependencies_current c.entries w ≢ some true
          → P (drop_invalid c key, no_value (some (age_of w))))
      → ((w : SnapshotValue A)
          → IsEntry w
          → dependencies_current c.entries w ≡ some true
          → exceeds (age_of w) policy.max_stale_seconds ≡ true
          → P (drop_expired c key, no_value (some (age_of w))))
      → ((w : SnapshotValue A)
          → IsEntry w
          → dependencies_current c.entries w ≡ some true
          → exceeds (age_of w) policy.max_stale_seconds ≡ false
          → (let fresh = not (exceeds (age_of w) policy.ttl_seconds) in
              P (touch c key w fresh, cached w fresh (age_of w))))
      → P (read_one c now policy key)
  unfolding read_one
  read_one_cases P missing invalid expired found =
      elim (Option-cases (lookup ResourceKey-discrete key c.entries)) [
        | inl e ↦ rw (e, read_one) (missing e)
        | inr (w, e) ↦ rw (e, read_one) (present w e)
      ]
    where
      aged :
          (w : SnapshotValue A)
          → IsEntry w
          → dependencies_current c.entries w ≡ some true
          → P (read_current c key w (age_of w) policy)
      aged w e d = elim (Bool-cases (exceeds (age_of w) policy.max_stale_seconds)) [
        | inl old ↦ rw old (expired w e d old)
        | inr young ↦ rw young (found w e d young)
      ]

      judged :
          (w : SnapshotValue A) (d : Option Bool)
          → IsEntry w
          → dependencies_current c.entries w ≡ d
          → P (read_present c key w (age_of w) policy d)
      judged w (some true) e p = aged w e p
      judged w (some false) e p = invalid w e (λ q. cc)
      judged w none e p = invalid w e (λ q. cc)

      present :
          (w : SnapshotValue A)
          → IsEntry w
          → P (read_present c key w (age_of w) policy (dependencies_current c.entries w))
      present w e =
          judged w (dependencies_current c.entries w) e (λ i. dependencies_current c.entries w)
