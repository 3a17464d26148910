-- ===== src/Tests/KeyBuild.antt =====
-- Keys: two orders of the same qualifiers.
use coalestra.Prelude.{String, String-discrete, ◌≡◌, refl, [], ◌∷◌}
use coalestra.Dict.{contains}
use coalestra.Core.Errors.{raise, value_error}
use coalestra.Core.KeyBuild.{preserve_key_normalizer, resource_key, sort}
use coalestra.Core.KeyBuild.Reordered.{swap, resource_key-Reordered}
use coalestra.Core.Texts.{pair_le}

abbrev page : String × String
page = ("page", "2")

abbrev limit : String × String
limit = ("limit", "50")

sorted_qualifiers : sort (page ∷ limit ∷ []) ≡ limit ∷ page ∷ []
unfolding sort pair_le
sorted_qualifiers = refl

twice :
    resource_key (preserve_key_normalizer (λ s. s)) "orders" "open" "" (page ∷ page ∷ [])
    ≡ raise value_error
unfolding resource_key contains String-discrete
twice = refl

resource_key-Reordered_example :
    resource_key (preserve_key_normalizer (λ s. s)) "orders" "open" "" (page ∷ limit ∷ [])
    ≡ resource_key (preserve_key_normalizer (λ s. s)) "orders" "open" "" (limit ∷ page ∷ [])
resource_key-Reordered_example =
    resource_key-Reordered (preserve_key_normalizer (λ s. s)) "orders" "open" ""
      (swap page limit [])
