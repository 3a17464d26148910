-- ===== src/Core/KeyBuild.antt =====
-- core/keys.py: how keys are built. A key is kept by its compared fields, so the normalizer that it
-- was built with is an argument of its methods.
pub mod Sorted
pub mod Reordered
use coalestra.Prelude.{
  String, String-discrete, Bool, true, false, Option, none, some, List, [], ◌∷◌, ◌||◌, not,
  if◌then◌else◌,
}
use coalestra.Dict.{lookup, put, contains}
use coalestra.Core.Errors.{value_error, Result, ok, raise, reject_if, ◌>>=◌, ◌>>◌}
use coalestra.Core.Keys.{ResourceKey}
use coalestra.Core.Texts.{pair_le}

pub record KeyNormalizer : Type 0 where
  pub namespace : String → String
  pub name : String → String
  pub subject : String → String
  pub qualifier_name : String → String
  pub qualifier_value : String → String

-- the normalizers of the module, over Python's `strip`, `lower`, `upper` and `casefold`
abbrev pub preserve_key_normalizer : (String → String) → KeyNormalizer
preserve_key_normalizer strip = record {
  namespace = strip;
  name = strip;
  subject = strip;
  qualifier_name = strip;
  qualifier_value = strip;
}

abbrev pub legacy_key_normalizer :
    (String → String) → (String → String) → (String → String) → KeyNormalizer
legacy_key_normalizer strip lower upper = record {
  namespace = λ s. lower (strip s);
  name = λ s. lower (strip s);
  subject = λ s. upper (strip s);
  qualifier_name = λ s. lower (strip s);
  qualifier_value = strip;
}

abbrev pub case_insensitive_key_normalizer : (String → String) → (String → String) → KeyNormalizer
case_insensitive_key_normalizer strip casefold = record {
  namespace = λ s. casefold (strip s);
  name = λ s. casefold (strip s);
  subject = λ s. casefold (strip s);
  qualifier_name = λ s. casefold (strip s);
  qualifier_value = λ s. casefold (strip s);
}

unfoldable pub normalize_qualifier : KeyNormalizer → String × String → String × String
normalize_qualifier n (name, value) = (n.qualifier_name name, n.qualifier_value value)

abbrev pub is_empty : String → Bool
is_empty s = elim (String-discrete s "") [ yes _ ↦ true | no _ ↦ false ]

-- sorted(pairs)
unfoldable pub insert : String × String → List (String × String) → List (String × String)
insert x [] = x ∷ []
insert x (y ∷ ys) = let rest = insert x ys in if pair_le x y then x ∷ y ∷ ys else y ∷ rest

unfoldable pub sort : List (String × String) → List (String × String)
unfolding insert
sort [] = []
sort (x ∷ xs) = insert x (sort xs)

-- not qualifier_name, or qualifier_name in seen
unfoldable pub is_refused : List String → String → Bool
is_refused seen name = is_empty name || contains String-discrete name seen

unfoldable pub normalize_qualifiers :
    KeyNormalizer → List String → List (String × String) → Result (List (String × String))
unfolding normalize_qualifier is_refused
normalize_qualifiers n seen [] = ok []
normalize_qualifiers n seen (raw ∷ rest) =
    let qualifier = normalize_qualifier n raw in
    do
      reject_if (is_refused seen qualifier.0) value_error
      others ← normalize_qualifiers n (qualifier.0 ∷ seen) rest
      ok (qualifier ∷ others)

-- ResourceKey(namespace, name, subject, qualifiers, normalizer=...)
unfoldable pub resource_key :
    KeyNormalizer → String → String → String → List (String × String) → Result ResourceKey
unfolding normalize_qualifiers sort
resource_key n namespace name subject qualifiers = do
  reject_if (is_empty (n.namespace namespace)) value_error
  reject_if (is_empty (n.name name)) value_error
  normalized ← normalize_qualifiers n [] qualifiers
  ok (record {
    namespace = n.namespace namespace;
    name = n.name name;
    subject = n.subject subject;
    qualifiers = sort normalized;
  })

unfoldable pub legacy :
    (String → String)
    → (String → String)
    → (String → String)
    → String
    → String
    → String
    → List (String × String)
    → Result ResourceKey
unfolding resource_key
legacy strip lower upper namespace name subject qualifiers =
    resource_key (legacy_key_normalizer strip lower upper) namespace name subject qualifiers

unfoldable pub normalized : ResourceKey → KeyNormalizer → Result ResourceKey
unfolding resource_key
normalized key n = resource_key n key.namespace key.name key.subject key.qualifiers

-- the value of the qualifier of a name, or none where the source has its default
unfoldable pub qualifier : KeyNormalizer → ResourceKey → String → Option String
qualifier n key name = lookup String-discrete (n.qualifier_name name) key.qualifiers

-- merged.update(items)
unfoldable pub update_all : List (String × String) → List (String × String) → List (String × String)
update_all merged [] = merged
update_all merged ((name, value) ∷ rest) = update_all (put String-discrete name value merged) rest

unfoldable pub with_qualifiers :
    KeyNormalizer
    → ResourceKey
    → List (String × String)
    → List (String × String)
    → Result ResourceKey
unfolding resource_key update_all
with_qualifiers n key qualifiers additional =
    resource_key n key.namespace key.name key.subject
      (update_all (update_all (update_all [] key.qualifiers) qualifiers) additional)

unfoldable pub names_of : KeyNormalizer → List String → List String
names_of n [] = []
names_of n (name ∷ names) = n.qualifier_name name ∷ names_of n names

unfoldable pub keep_others : List String → List (String × String) → List (String × String)
keep_others removed [] = []
keep_others removed ((name, value) ∷ rest) =
    let others = keep_others removed rest in
    if contains String-discrete name removed then others else (name, value) ∷ others

unfoldable pub without_qualifiers : KeyNormalizer → ResourceKey → List String → Result ResourceKey
unfolding resource_key names_of keep_others
without_qualifiers n key names =
    resource_key n key.namespace key.name key.subject
      (keep_others (names_of n names) key.qualifiers)
