-- ===== src/Core/Keys.antt =====
-- core/keys.py: the identity of a resource. Two keys are equal when these four fields are.
use coalestra.Prelude.{String, String-discrete, List}

pub record ResourceKey : Type 0 where
  pub namespace : String
  pub name : String
  pub subject : String
  pub qualifiers : List (String × String)

unfoldable pub ResourceKey-discrete : Discrete ResourceKey
unfolding String-discrete
ResourceKey-discrete = hlevel String-discrete
