-- ===== src/Core/Laws/Keys.antt =====
-- Keys and prefixes, and what becomes of the value of a key that is deleted or not.
use a_social.Base.{
  ◌++◌, ◌==◌, append_assoc, ◌≡◌, ◌≢◌, ◌↔◌, ◌⊎◌, inl, inr, refl, sym, ap, ◌∙◌, Bool, true, false,
  ◌&&◌, ◌||◌, Option, none, some, List, [], ◌∷◌, Text, text_eq, if◌then◌else◌, if-true, if-false,
  starts_with, contains,
}
use a_social.Protogen.Descriptors.{EntityInfo}
use a_social.Protogen.Generated.{prefix, segments}

pub merge {ℓ} :
    {A : Type ℓ} (a b : Bool) (o : Option A)
    → (if b then none else if a then none else o)
      ≡ (if elim a [ true ↦ true | false ↦ b ] then none else o)
merge true true o = refl
merge true false o = refl
merge false true o = refl
merge false false o = refl

pub absent_or {ℓ} :
    {A : Type ℓ} (b : Bool) (o : Option A)
    → (o ≡ none) ⊎ (b ≡ true)
    → (if b then none else o) ≡ none
absent_or true o e = refl
absent_or false o (inl e) = e
absent_or false o (inr e) = absurd (cc e)

pub present {ℓ} : {A : Type ℓ} (b : Bool) (o : Option A) → b ≡ false → (if b then none else o) ≡ o
present b o e = if-false b none o e

pub listed {ℓ} :
    {A : Type ℓ} (a b : Bool) (o : Option A)
    → (a ≡ true) ↔ ((b ≡ true) × (o ≢ none))
    → (if a then none else o) ≡ (if b then none else o)
listed true b o e = sym (if-true b none o (e.0 refl).0)
listed false false o e = refl
listed false true none e = refl
listed false true (some x) e = absurd (cc (e.1 (refl, λ bad. cc bad)))

either : (a b : Bool) → (a || b) ≡ true → (a ≡ true) ⊎ (b ≡ true)
either true b e = inl refl
either false b e = inr e

neither : (a b : Bool) → (a || b) ≡ false → (a ≡ false) × (b ≡ false)
neither true b e = absurd (cc e)
neither false b e = (refl, e)

-- What becomes of one key through the five deletions, each of which may reach it.
pub through {ℓ} :
    {A : Type ℓ} (o1 o2 o3 o4 o5 o6 : Option A) (a b c d e : Bool)
    → o2 ≡ (if a then none else o1)
    → ((o2 ≡ none) ⊎ (b ≡ true) → o3 ≡ none)
    → o4 ≡ (if c then none else o3)
    → o5 ≡ (if d then none else o4)
    → o6 ≡ (if e then none else o5)
    → (a || (b || (c || (d || e)))) ≡ true
    → o6 ≡ none
through o1 o2 o3 o4 o5 o6 a b c d e p q r s t reached = elim (either a _ reached) [
  | inl x ↦ last (inl (fifth (inl (fourth (inl (q (inl (p ∙ absent_or a o1 (inr x)))))))))
  | inr f ↦ elim (either b _ f) [
    | inl x ↦ last (inl (fifth (inl (fourth (inl (q (inr x)))))))
    | inr g ↦ elim (either c _ g) [
      | inl x ↦ last (inl (fifth (inl (fourth (inr x)))))
      | inr i ↦ elim (either d e i) [ inl x ↦ last (inl (fifth (inr x))) | inr x ↦ last (inr x) ]
    ]
  ]
]
  where
    last : (o5 ≡ none) ⊎ (e ≡ true) → o6 ≡ none
    last x = t ∙ absent_or e o5 x

    fifth : (o4 ≡ none) ⊎ (d ≡ true) → o5 ≡ none
    fifth x = s ∙ absent_or d o4 x

    fourth : (o3 ≡ none) ⊎ (c ≡ true) → o4 ≡ none
    fourth x = r ∙ absent_or c o3 x

pub past {ℓ} :
    {A : Type ℓ} (o1 o2 o3 o4 o5 o6 : Option A) (a b c d e : Bool)
    → o2 ≡ (if a then none else o1)
    → (b ≡ false → o3 ≡ o2)
    → o4 ≡ (if c then none else o3)
    → o5 ≡ (if d then none else o4)
    → o6 ≡ (if e then none else o5)
    → (a || (b || (c || (d || e)))) ≡ false
    → o6 ≡ o1
past o1 o2 o3 o4 o5 o6 a b c d e p q r s t missed =
    let (na, f) = neither a _ missed in
    let (nb, g) = neither b _ f in
    let (nc, i) = neither c _ g in
    let (nd, ne) = neither d e i in
    t ∙ present e o5 ne ∙ s ∙ present d o4 nd ∙ r ∙ present c o3 nc ∙ q nb ∙ p ∙ present a o1 na

starts_with-shorter : (t p q : Text) → starts_with t p ≡ false → starts_with t (p ++ q) ≡ false
unfolding starts_with
starts_with-shorter [] [] q e = absurd (cc e)
starts_with-shorter (d ∷ t) [] q e = absurd (cc e)
starts_with-shorter [] (c ∷ p) q e = refl
starts_with-shorter (d ∷ t) (c ∷ p) q e =
    longer (d == c) (starts_with t p) (starts_with t (p ++ q)) (starts_with-shorter t p q) e
  where
    longer : (a b x : Bool) → (b ≡ false → x ≡ false) → (a && b) ≡ false → (a && x) ≡ false
    longer true b x f g = f g
    longer false b x f g = refl

-- A key of no member of a group is none of a member of this one.
pub starts_with-member :
    (e : EntityInfo) (j uid : Text)
    → starts_with j (prefix e []) ≡ false
    → starts_with j (prefix e (uid ∷ [])) ≡ false
unfolding prefix segments
starts_with-member e j uid no_member =
    ap (starts_with j) (sym (append_assoc e.key_prefix (b'/' ∷ []) (uid ++ b'/' ∷ [])))
    ∙ starts_with-shorter j (e.key_prefix ++ b'/' ∷ []) (uid ++ b'/' ∷ []) no_member

pub contains_empty : (j : Text) → contains j [] ≡ false
unfolding contains
contains_empty j = refl

-- A key among others or the first of them.
pub contains_cases :
    (k : Text) (ks : List Text) (j : Text)
    → (contains j (k ∷ ks) ≡ true)
    → (text_eq k j ≡ true) ⊎ (contains j ks ≡ true)
unfolding contains
contains_cases k ks j e = first (text_eq k j) e
  where
    first :
        (b : Bool)
        → (elim b [ true ↦ true | false ↦ contains j ks ]) ≡ true
        → (b ≡ true) ⊎ (contains j ks ≡ true)
    first true f = inl refl
    first false f = inr f

pub contains_neither :
    (k : Text) (ks : List Text) (j : Text)
    → (contains j (k ∷ ks) ≡ false)
    → (text_eq k j ≡ false) × (contains j ks ≡ false)
unfolding contains
contains_neither k ks j e = first (text_eq k j) e
  where
    first :
        (b : Bool)
        → (elim b [ true ↦ true | false ↦ contains j ks ]) ≡ false
        → (b ≡ false) × (contains j ks ≡ false)
    first true f = absurd (cc f)
    first false f = (refl, f)
