-- ===== src/Protogen/Names.antt =====
-- The names that src/entity_parser.cpp of the code generator makes.
use a_social.Base.{
  ℕ, ◌-◌, Bool, true, false, not, ◌&&◌, ◌||◌, List, [], ◌∷◌, ◌++◌, map, Text, length, take,
  if◌then◌else◌, ends_with, split_nonempty, codes,
}

-- What the generator uses of QChar; the last two also on a QString, letter by letter.
pub record Cases : Type 0 where
  pub is_upper : ℕ → Bool
  pub is_space : ℕ → Bool
  pub to_lower : ℕ → ℕ
  pub to_upper : ℕ → ℕ

module _ (u : Cases) where
  -- The loop of toSnakeCase, from the index at which it stands on.
  snake_from : Bool → Text → Text
  snake_from first [] = []
  snake_from first (c ∷ name) =
      let rest = snake_from false name in
      if u.is_upper c
      then (if first then u.to_lower c ∷ rest else b'_' ∷ u.to_lower c ∷ rest)
      else c ∷ rest

  pub to_snake_case : Text → Text
  to_snake_case name = snake_from true name

  pub to_upper_case : Text → Text
  to_upper_case name = map u.to_upper (to_snake_case name)

  -- `p[0].toUpper() + p.mid(1)`
  abbrev capitalise : Text → Text
  capitalise [] = []
  capitalise (c ∷ part) = u.to_upper c ∷ part

  abbrev concat_capitalised : List Text → Text
  concat_capitalised [] = []
  concat_capitalised (p ∷ ps) = capitalise p ++ concat_capitalised ps

  abbrev camel : Text → List Text → Text
  camel name [] = name
  camel name (p ∷ ps) = p ++ concat_capitalised ps

  pub to_camel_case : Text → Text
  to_camel_case name = camel name (split_nonempty b'_' [] name)

  pub to_pascal_case : Text → Text
  to_pascal_case name = concat_capitalised (split_nonempty b'_' [] name)

pub pluralize : Text → Text
pluralize name =
    if ends_with name (codes "y") && not (ends_with name (codes "ey"))
    then take (length name - 1) name ++ codes "ies"
    else if ends_with name (codes "s")
        || (ends_with name (codes "x")
            || (ends_with name (codes "sh") || ends_with name (codes "ch")))
    then name ++ codes "es"
    else name ++ codes "s"
