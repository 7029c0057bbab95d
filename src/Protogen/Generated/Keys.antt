-- ===== src/Protogen/Generated/Keys.antt =====
-- The keys of the generated functions of libs/asocial_proto/libs/asocial_protogen.
use a_social.Base.{
  ◌≡◌, ◌≢◌, ◌↔◌, refl, ◌∙◌, arith, true, List, [], ◌∷◌, ◌++◌, Text, text_eq, codes, join,
  starts_with, text_eq_iff,
}
use a_social.Protogen.Descriptors.{EntityInfo}
use a_social.Protogen.Generated.{key, prefix, segments}

-- A segment without the separator, such as a UUID.
abbrev pub NoSlash : Text → Type 0
NoSlash [] = Unit
NoSlash (c ∷ t) = (c ≢ b'/') × NoSlash t

pub starts_with-common : (p xs ys : Text) → starts_with (p ++ xs) (p ++ ys) ≡ starts_with xs ys
unfolding starts_with
starts_with-common [] xs ys = refl
starts_with-common (c ∷ p) xs ys = ground (arith, starts_with-common p xs ys)

starts_with-segment :
    (a b xs : Text)
    → NoSlash a
    → NoSlash b
    → starts_with (b ++ b'/' ∷ xs) (a ++ b'/' ∷ []) ≡ text_eq a b
unfolding starts_with text_eq
starts_with-segment [] [] xs na nb = refl
starts_with-segment [] (d ∷ b) xs na nb = ground (arith, nb.0)
starts_with-segment (c ∷ a) [] xs na nb = ground (arith, na.0)
starts_with-segment (c ∷ a) (d ∷ b) xs na nb = ground (arith, starts_with-segment a b xs na.1 nb.1)

starts_with-key :
    (e : EntityInfo) (a b c : Text) (rest : List Text)
    → NoSlash a
    → NoSlash b
    → starts_with (key e (b ∷ c ∷ rest)) (prefix e (a ∷ [])) ≡ text_eq a b
unfolding key prefix segments join starts_with
starts_with-key e a b c rest na nb =
    starts_with-common e.key_prefix _ _
    ∙ starts_with-segment a b (join (codes "/") (c ∷ rest)) na nb

-- Of the keys with two segments or more the prefix function of one segment finds exactly those
-- whose first segment it is, where segments hold no separator: the records of two personas are
-- kept apart.
pub starts_with-key_iff :
    (e : EntityInfo) (a b c : Text) (rest : List Text)
    → NoSlash a
    → NoSlash b
    → (starts_with (key e (b ∷ c ∷ rest)) (prefix e (a ∷ [])) ≡ true) ↔ (a ≡ b)
starts_with-key_iff e a b c rest na nb = rw (starts_with-key e a b c rest na nb) (text_eq_iff a b)
