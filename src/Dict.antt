-- ===== src/Dict.antt =====
-- Python's `dict` and `OrderedDict`, as the list of its items in insertion order, oldest first.
-- The keys' equality is decided by the argument `dec`.
pub mod Laws
pub mod Keys
use coalestra.Prelude.{
  ◌≡◌, Bool, true, false, Option, none, some, List, [], ◌∷◌, ◌++◌, ite, if◌then◌else◌, map,
}

module _ {ℓ} {K V : Type ℓ} (dec : Discrete K) where
  -- d.get(k)
  unfoldable pub lookup : K → List (K × V) → Option V
  lookup k [] = none
  lookup k ((j, v) ∷ d) = ite (dec j k) (some v) (lookup k d)

  -- d.pop(k, None), for its effect
  unfoldable pub pop : K → List (K × V) → List (K × V)
  pop k [] = []
  pop k ((j, v) ∷ d) = let rest = pop k d in ite (dec j k) rest ((j, v) ∷ rest)

  -- d[k] = v: an old key keeps its place, a new one comes last
  unfoldable pub put : K → V → List (K × V) → List (K × V)
  put k v [] = (k, v) ∷ []
  put k v ((j, w) ∷ d) = let rest = put k v d in ite (dec j k) ((k, v) ∷ d) ((j, w) ∷ rest)

  -- the end of an OrderedDict after d.move_to_end(k), where k has the value v
  unfoldable pub to_end : K → V → List (K × V) → List (K × V)
  to_end k v d = pop k d ++ (k, v) ∷ []

  -- No key occurs twice.
  abbrev pub IsDict : List (K × V) → Type ℓ
  IsDict [] = Unit
  IsDict ((k, v) ∷ d) = (lookup k d ≡ none) × IsDict d

module _ {ℓ} {K : Type ℓ} (dec : Discrete K) where
  -- k in keys
  unfoldable pub contains : K → List K → Bool
  contains k [] = false
  contains k (j ∷ ks) = elim (dec j k) [ yes _ ↦ true | no _ ↦ contains k ks ]

  -- the keys other than k
  unfoldable pub without : K → List K → List K
  without k [] = []
  without k (j ∷ ks) = let rest = without k ks in ite (dec j k) rest (j ∷ rest)

  -- tuple(dict.fromkeys(keys)): each key once, in the order of first occurrence
  unfoldable pub unique : List K → List K
  unique [] = []
  unique (k ∷ ks) = k ∷ without k (unique ks)

  -- No element occurs twice.
  abbrev pub Distinct : List K → Type 0
  Distinct [] = Unit
  Distinct (k ∷ ks) = (contains k ks ≡ false) × Distinct ks
