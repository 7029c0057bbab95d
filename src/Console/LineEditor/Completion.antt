-- ===== src/Console/LineEditor/Completion.antt =====
-- handleTab of plugins/ui-console/src/console/LineEditor.cpp: what Tab does to the line.
use a_social.Base.{
  ℕ, zero, suc, ◌≤◌, ◌≡◌, inl, inr, refl, sym, ap, ◌∙◌, arith, true, List, [], ◌∷◌, ◌++◌, Text,
  length, take, ltb, ◌==◌, Bool-cases, length-take, take_all,
}
use a_social.Console.LineEditor.{
  Letters, LineEditor, common_left, common_prefix, matches_of, complete, handle_tab,
}

-- What the documentation of QString::startsWith says, `fold` being QString::toCaseFolded.
pub record Lawful (u : Letters) (fold : Text → Text) : Type 0 where
  pub length-starts :
      (text prefix : Text)
      → u.starts_with_insensitive text prefix ≡ true
      → length prefix ≤ length text
  pub fold-starts :
      (text prefix : Text)
      → u.starts_with_insensitive text prefix ≡ true
      → fold (take (length prefix) text) ≡ fold prefix

-- A text begins another one.
abbrev pub Begins : Text → Text → Type 0
Begins xs ys = take (length xs) ys ≡ xs

-- Every candidate is one that the line begins.
abbrev pub AllMatch : Letters → Text → List Text → Type 0
AllMatch u buffer [] = Unit
AllMatch u buffer (m ∷ ms) = (u.starts_with_insensitive m buffer ≡ true) × AllMatch u buffer ms

AllMatch-matches_of :
    (u : Letters) (buffer : Text) (cs : List Text) → AllMatch u buffer (matches_of u buffer cs)
unfolding matches_of
AllMatch-matches_of u buffer [] = tt
AllMatch-matches_of u buffer (c ∷ cs) = elim (Bool-cases (u.starts_with_insensitive c buffer)) [
  | inl starts ↦ rw starts (starts, AllMatch-matches_of u buffer cs)
  | inr differs ↦ rw differs (AllMatch-matches_of u buffer cs)
]

Begins-common_left : (u : Letters) (xs ys : Text) → Begins (common_left u xs ys) xs
unfolding common_left
Begins-common_left u [] ys = refl
Begins-common_left u (x ∷ xs) [] = refl
Begins-common_left u (x ∷ xs) (y ∷ ys) = elim (Bool-cases (u.to_lower x == u.to_lower y)) [
  | inl same ↦ rw same (ap (λ t. x ∷ t) (Begins-common_left u xs ys))
  | inr differs ↦ rw differs refl
]

take-take : (m n : ℕ) (xs : Text) → m ≤ n → take m (take n xs) ≡ take m xs
take-take zero n xs h = refl
take-take (suc m) zero xs h = absurd (omega arith)
take-take (suc m) (suc n) [] h = refl
take-take (suc m) (suc n) (x ∷ xs) h = ap (λ t. x ∷ t) (take-take m n xs (omega arith))

Begins-trans : (xs ys zs : Text) → Begins xs ys → Begins ys zs → Begins xs zs
Begins-trans xs ys zs p q =
    let short : length xs ≤ length ys = omega (arith, length-take (length xs) ys, ap length p) in
    sym (take-take (length xs) (length ys) zs short) ∙ ap (take (length xs)) q ∙ p

Begins-common_prefix : (u : Letters) (m : Text) (ms : List Text) → Begins (common_prefix u m ms) m
unfolding common_prefix
Begins-common_prefix u m [] = take_all (length m) m (omega arith)
Begins-common_prefix u m (n ∷ ms) =
    Begins-trans (common_prefix u (common_left u m n) ms) (common_left u m n) m
      (Begins-common_prefix u (common_left u m n) ms) (Begins-common_left u m n)

take-append_short : (n : ℕ) (xs ys : Text) → n ≤ length xs → take n (xs ++ ys) ≡ take n xs
take-append_short zero xs ys h = refl
take-append_short (suc n) [] ys h = absurd (omega arith)
take-append_short (suc n) (x ∷ xs) ys h = ap (λ t. x ∷ t) (take-append_short n xs ys (omega arith))

fold-complete :
    (u : Letters) (fold : Text → Text) (ms : List Text) (e : LineEditor)
    → Lawful u fold
    → AllMatch u e.buffer ms
    → fold (take (length e.buffer) (complete u ms e).buffer) ≡ fold e.buffer
unfolding complete
fold-complete u fold [] e w all = ap fold (take_all (length e.buffer) e.buffer (omega arith))
fold-complete u fold (m ∷ []) e w all =
    ap fold (take-append_short (length e.buffer) m (b' ' ∷ []) (w.length-starts m e.buffer all.0))
    ∙ w.fold-starts m e.buffer all.0
fold-complete u fold (m ∷ n ∷ ms) e w all =
    let common = common_prefix u m (n ∷ ms) in
    elim (Bool-cases (ltb (length e.buffer) (length common))) [
      | inl longer ↦
          let short : length e.buffer ≤ length common = ground arith in
          rw longer (
            ap fold (
              ap (take (length e.buffer)) (sym (Begins-common_prefix u m (n ∷ ms)))
              ∙ take-take (length e.buffer) (length common) m short)
            ∙ w.fold-starts m e.buffer all.0)
      | inr shorter ↦ rw shorter (ap fold (take_all (length e.buffer) e.buffer (omega arith)))
    ]

-- Where startsWith does what its documentation says, Tab never loses what was typed: up to case, the line after it begins with the line before it.
pub fold-handle_tab :
    (u : Letters) (fold : Text → Text) (completions : List Text) (e : LineEditor)
    → Lawful u fold
    → fold (take (length e.buffer) (handle_tab u completions e).buffer) ≡ fold e.buffer
unfolding handle_tab
fold-handle_tab u fold completions e w =
    fold-complete u fold (matches_of u e.buffer completions) e w
      (AllMatch-matches_of u e.buffer completions)
