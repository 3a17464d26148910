-- ===== src/Core/Authority.antt =====
-- core/authority.py: the ranks of sources, by resource.
use coalestra.Prelude.{
  ℤ, pos, String, String-discrete, Bool, true, false, Option, none, some, List, [], ◌∷◌, eqb_ℤ, not,
  ◌||◌,
}
use coalestra.Dict.{lookup, put}
use coalestra.Core.Errors.{value_error, Result, ok, raise, ◌>>=◌}
use coalestra.Core.Keys.{ResourceKey, ResourceKey-discrete}

pub record SourceAuthorityPolicy : Type 0 where
  pub source_ranks : List (String × ℤ)
  pub default_rank : ℤ

pub record AuthorityPolicyResolver : Type 0 where
  pub default_policy : SourceAuthorityPolicy
  pub overrides : List (ResourceKey × SourceAuthorityPolicy)
  pub dynamic : Option (ResourceKey → Result SourceAuthorityPolicy)

abbrev pub rank_or : ℤ → Option ℤ → ℤ
rank_or default none = default
rank_or default (some rank) = rank

abbrev pub is_filled {ℓ} : {A : Type ℓ} → List A → Bool
is_filled [] = false
is_filled (_ ∷ _) = true

-- `strip` is `str.strip`
module _ (strip : String → String) where
  -- a name without blanks around it, which is not to be empty
  unfoldable pub stripped : String → Result String
  stripped name = elim (String-discrete (strip name) "") [
    | yes _ ↦ raise value_error
    | no _ ↦ ok (strip name)
  ]

  -- one more name with its rank, unless it is there
  unfoldable pub add_rank : List (String × ℤ) → String → ℤ → Result (List (String × ℤ))
  add_rank normalized name rank = elim (lookup String-discrete name normalized) [
    | none ↦ ok (put String-discrete name rank normalized)
    | some _ ↦ raise value_error
  ]

  unfoldable pub normalize_ranks :
      List (String × ℤ) → List (String × ℤ) → Result (List (String × ℤ))
  unfolding stripped add_rank
  normalize_ranks normalized [] = ok normalized
  normalize_ranks normalized ((source, rank) ∷ rest) = do
    name ← stripped source
    extended ← add_rank normalized name rank
    normalize_ranks extended rest

  -- SourceAuthorityPolicy(source_ranks, default_rank) with its `__post_init__`
  unfoldable pub source_authority_policy : List (String × ℤ) → ℤ → Result SourceAuthorityPolicy
  unfolding normalize_ranks
  source_authority_policy source_ranks default_rank = do
    normalized ← normalize_ranks [] source_ranks
    ok (record { source_ranks = normalized; default_rank = default_rank })

  -- SourceAuthorityPolicy.rank_for
  unfoldable pub policy_rank_for : SourceAuthorityPolicy → String → Result ℤ
  unfolding stripped
  policy_rank_for p source = do
    name ← stripped source
    ok (rank_or p.default_rank (lookup String-discrete name p.source_ranks))

  unfoldable pub resolve_dynamic :
      Option (ResourceKey → Result SourceAuthorityPolicy)
      → SourceAuthorityPolicy
      → ResourceKey
      → Result SourceAuthorityPolicy
  resolve_dynamic none default key = ok default
  resolve_dynamic (some dynamic) default key = dynamic key

  -- AuthorityPolicyResolver.resolve
  unfoldable pub resolve_policy :
      AuthorityPolicyResolver → ResourceKey → Result SourceAuthorityPolicy
  unfolding resolve_dynamic
  resolve_policy r key = elim (lookup ResourceKey-discrete key r.overrides) [
    | none ↦ resolve_dynamic r.dynamic r.default_policy key
    | some policy ↦ ok policy
  ]

  -- AuthorityPolicyResolver.rank_for
  unfoldable pub rank_for : AuthorityPolicyResolver → ResourceKey → String → Result ℤ
  unfolding resolve_policy policy_rank_for
  rank_for r key source = do policy ← resolve_policy r key; policy_rank_for policy source

abbrev has_dynamic : Option (ResourceKey → Result SourceAuthorityPolicy) → Bool
has_dynamic none = false
has_dynamic (some _) = true

unfoldable pub has_rules : AuthorityPolicyResolver → Bool
has_rules r =
    is_filled r.default_policy.source_ranks
    || not (eqb_ℤ r.default_policy.default_rank (pos 0))
    || is_filled r.overrides
    || has_dynamic r.dynamic
