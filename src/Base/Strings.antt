-- ===== src/Base/Strings.antt =====
-- Texts from literals, and the tests on texts that the program takes from QString.
use Prim.Native.Char.{code}
use Prim.Native.String.{String}
use Prim.Native.Nat.{ℕ}
use mathlib.Core.Path.{◌≡◌, refl}
use mathlib.Core.Bool.{Bool, true, false, ◌&&◌}
use mathlib.Core.List.{List, [], ◌∷◌, ◌++◌}
use native.Mathlib.Omega.{arith}
use a_social.Base.Tests.{Text, ◌==◌, text_eq}

abbrev pub codes : String → Text
codes String.[] = []
codes (String.◌∷◌ c s) = code c ∷ codes s

-- `text.startsWith(prefix)`
unfoldable pub starts_with : Text → Text → Bool
starts_with text [] = true
starts_with [] (p ∷ prefix) = false
starts_with (c ∷ text) (p ∷ prefix) = c == p && starts_with text prefix

-- `text.endsWith(suffix)`
unfoldable pub ends_with : Text → Text → Bool
ends_with [] suffix = text_eq [] suffix
ends_with (c ∷ text) suffix = elim (text_eq (c ∷ text) suffix) [
  | true ↦ true
  | false ↦ ends_with text suffix
]

-- `list.join(separator)`
unfoldable pub join : Text → List Text → Text
join sep [] = []
join sep (t ∷ []) = t
join sep (t ∷ ts) = t ++ (sep ++ join sep ts)

-- `list.contains(text)`
unfoldable pub contains : Text → List Text → Bool
contains t [] = false
contains t (u ∷ us) = elim (text_eq u t) [ true ↦ true | false ↦ contains t us ]

abbrev unless_empty : Text → List Text → List Text
unless_empty [] parts = parts
unless_empty (c ∷ part) parts = (c ∷ part) ∷ parts

-- `text.split(sep, Qt::SkipEmptyParts)`, with the part that is being read
unfoldable pub split_nonempty : ℕ → Text → Text → List Text
split_nonempty sep [] [] = []
split_nonempty sep (c ∷ part) [] = (c ∷ part) ∷ []
split_nonempty sep part (c ∷ text) =
    let more = split_nonempty sep (part ++ c ∷ []) text in
    let next = split_nonempty sep [] text in
    elim (c == sep) [ true ↦ unless_empty part next | false ↦ more ]

pub starts_with-append : (prefix rest : Text) → starts_with (prefix ++ rest) prefix ≡ true
unfolding starts_with
starts_with-append [] rest = refl
starts_with-append (p ∷ prefix) rest = ground (arith, starts_with-append prefix rest)
