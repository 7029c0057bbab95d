-- ===== src/Console/LineEditor/History.antt =====
-- Typing, erasing and browsing in plugins/ui-console/src/console/LineEditor.cpp, and what its
-- history keeps.
use a_social.Base.{
  ℕ, zero, suc, ◌+◌, ◌-◌, ◌<◌, ◌≡◌, ◌≢◌, ◌↔◌, ◌⊎◌, text_eq, text_eq_refl, text_eq_sound, List, inl,
  inr, refl, sym, ap, ap₂, ◌∙◌, arith, true, false, none, some, [], ◌∷◌, ◌++◌, map, Text, length,
  take, drop, replicate, ltb, ◌==◌, Bool-cases, length-append, append-nil, append_assoc,
  take-append_length, drop-append_length,
}
use a_social.Console.LineEditor.{
  Letters, Key, char, up, down, enter, LineEditor, go_up, go_down, reading, show_entry, next, press,
  read_keys, read_line, trim_history, add_to_history, all_spaces, ends_with_line,
}

-- The editor with `before` in front of the cursor and `behind` after it.
abbrev pub split_at : Text → Text → LineEditor → LineEditor
split_at before behind e = record e { buffer = before ++ behind; cursor = length before }

inserted :
    (c : ℕ) (before behind : Text)
    → take (length before) (before ++ behind) ++ c ∷ drop (length before) (before ++ behind)
      ≡ (before ++ c ∷ []) ++ behind
inserted c before behind =
    ap₂ (λ s t. s ++ c ∷ t) (take-append_length before behind (length before) refl)
      (drop-append_length before behind (length before) refl)
    ∙ sym (append_assoc before (c ∷ []) behind)

press-char :
    (u : Letters) (cs : List Text) (c : ℕ) (before behind : Text) (e : LineEditor)
    → press u cs (char c) (split_at before behind e)
      ≡ reading (split_at (before ++ c ∷ []) behind e)
unfolding press
press-char u cs c before behind e =
    ap₂ (λ b n. reading (record e { buffer = b; cursor = n })) (inserted c before behind)
      (sym (length-append before (c ∷ [])))

pub read_keys-type :
    (u : Letters) (cs : List Text) (text before behind : Text) (ks : List Key) (e : LineEditor)
    → read_keys u cs (map char text ++ ks) (split_at before behind e)
      ≡ read_keys u cs ks (split_at (before ++ text) behind e)
unfolding read_keys
read_keys-type u cs [] before behind ks e =
    ap (λ b. read_keys u cs ks (split_at b behind e)) (sym (append-nil before))
read_keys-type u cs (c ∷ text) before behind ks e =
    ap (λ o. next (read_keys u cs (map char text ++ ks)) o) (press-char u cs c before behind e)
    ∙ read_keys-type u cs text (before ++ c ∷ []) behind ks e
    ∙ ap (λ b. read_keys u cs ks (split_at b behind e)) (append_assoc before (c ∷ []) text)

-- Typing a text and Enter into a fresh line returns that text, whatever line was read before, and
-- leaves the history as it was.
pub read_line-type :
    (u : Letters) (completions : List Text) (text : Text) (ks : List Key) (e : LineEditor)
    → (e' : LineEditor) × (read_line u completions (map char text ++ enter ∷ ks) e
        ≡ some (text, e'))
      × (e'.history ≡ e.history)
unfolding read_line read_keys press
read_line-type u completions text ks e =
    let fresh : LineEditor = record e {
      buffer = [];
      cursor = 0;
      history_idx = none;
      saved_buffer = [];
    } in
    (
      split_at text [] fresh,
      read_keys-type u completions text [] [] (enter ∷ ks) fresh
          ∙ ap (λ t. some (t, split_at text [] fresh)) (append-nil text),
      refl,
    )

-- Browsing: `Up` from an entry of the history goes to the one before it, `Down` to the one after.
read_keys-ups :
    (u : Letters) (cs : List Text) (n i : ℕ) (ks : List Key) (e : LineEditor)
    → 0 < length e.history
    → read_keys u cs (replicate n up ++ ks) (show_entry i e)
      ≡ read_keys u cs ks (show_entry (i - n) e)
unfolding read_keys press go_up
read_keys-ups u cs zero i ks e h = ap (λ m. read_keys u cs ks (show_entry m e)) (omega arith)
read_keys-ups u cs (suc n) i ks e h =
    let some_history : (length e.history == 0) ≡ false = ground arith in
    rw some_history (
      read_keys-ups u cs n (i - 1) ks e h
      ∙ ap (λ m. read_keys u cs ks (show_entry m e)) (omega arith))

read_keys-downs :
    (u : Letters) (cs : List Text) (n i : ℕ) (ks : List Key) (e : LineEditor)
    → i + n < length e.history
    → read_keys u cs (replicate n down ++ ks) (show_entry i e)
      ≡ read_keys u cs ks (show_entry (i + n) e)
unfolding read_keys press go_down
read_keys-downs u cs zero i ks e h = ap (λ m. read_keys u cs ks (show_entry m e)) (omega arith)
read_keys-downs u cs (suc n) i ks e h =
    let more : ltb i (length e.history - 1) ≡ true = ground arith in
    rw more (
      read_keys-downs u cs n (i + 1) ks e (omega arith)
      ∙ ap (λ m. read_keys u cs ks (show_entry m e)) (omega arith))

replicate_back :
    {A : Type 0} (n : ℕ) (a : A) (ks : List A)
    → replicate (suc n) a ++ ks ≡ replicate n a ++ (a ∷ ks)
replicate_back zero a ks = refl
replicate_back (suc n) a ks = ap (λ t. a ∷ t) (replicate_back n a ks)

abbrev saved : LineEditor → LineEditor
saved e = record e { saved_buffer = e.buffer }

first_up :
    (u : Letters) (cs : List Text) (ks : List Key) (e : LineEditor)
    → e.history_idx ≡ none
    → 0 < length e.history
    → read_keys u cs (up ∷ ks) e ≡ read_keys u cs ks (show_entry (length e.history - 1) (saved e))
unfolding read_keys press go_up
first_up u cs ks e idle h =
    let some_history : (length e.history == 0) ≡ false = ground arith in
    rw (some_history, idle) refl

last_down :
    (u : Letters) (cs : List Text) (ks : List Key) (e : LineEditor)
    → read_keys u cs (down ∷ ks) (show_entry (length e.history - 1) e)
      ≡ read_keys u cs ks
          (record e { buffer = e.saved_buffer; cursor = length e.saved_buffer; history_idx = none })
unfolding read_keys press go_down
last_down u cs ks e =
    let newest : ltb (length e.history - 1) (length e.history - 1) ≡ false = ground arith in
    rw newest refl

-- From a line that is being typed, `Up` once or more and at most as often as the history is long shows the entry that far
-- from its end, and `Down` as often brings the line back, with the cursor behind it.
pub read_keys-up_down :
    (u : Letters) (completions : List Text) (n : ℕ) (ks : List Key) (e : LineEditor)
    → e.history_idx ≡ none
    → n < length e.history
    → (read_keys u completions (replicate (suc n) up ++ ks) e
        ≡ read_keys u completions ks
            (show_entry (length e.history - suc n) (record e { saved_buffer = e.buffer })))
      × (read_keys u completions (replicate (suc n) up ++ (replicate (suc n) down ++ ks)) e
          ≡ read_keys u completions ks
              (record e { cursor = length e.buffer; history_idx = none; saved_buffer = e.buffer }))
read_keys-up_down u completions n ks e idle h =
    let ups : (ks : List Key)
        → read_keys u completions (replicate (suc n) up ++ ks) e
          ≡ read_keys u completions ks (show_entry (length e.history - suc n) (saved e)) =
      λ ks.
        first_up u completions (replicate n up ++ ks) e idle (omega arith)
        ∙ read_keys-ups u completions n (length e.history - 1) ks (saved e) (omega arith)
        ∙ ap (λ m. read_keys u completions ks (show_entry m (saved e))) (omega arith) in
    (
      ups ks,
      ups (replicate (suc n) down ++ ks)
          ∙ ap (λ t. read_keys u completions t (show_entry (length e.history - suc n) (saved e)))
              (replicate_back n down ks)
          ∙ read_keys-downs u completions n (length e.history - suc n) (down ∷ ks) (saved e)
              (omega arith)
          ∙ ap (λ m. read_keys u completions (down ∷ ks) (show_entry m (saved e))) (omega arith)
          ∙ last_down u completions ks (saved e),
    )

drop_nil : (m : ℕ) → drop {A = Text} m [] ≡ []
drop_nil zero = refl
drop_nil (suc m) = refl

-- The `while` that trims the history drops as many of the oldest entries as there are too many.
trim_history-drop : (n : ℕ) (h : List Text) → trim_history n h ≡ drop (length h - n) h
unfolding trim_history
trim_history-drop n [] = sym (drop_nil (0 - n))
trim_history-drop n (x ∷ xs) = elim (Bool-cases (ltb n (suc (length xs)))) [
  | inl over ↦
      let more : suc (length xs - n) ≡ length (x ∷ xs) - n = ground arith in
      rw over (trim_history-drop n xs ∙ ap (λ m. drop m (x ∷ xs)) more)
  | inr fits ↦
      let none_over : 0 ≡ length (x ∷ xs) - n = ground arith in
      rw fits (ap (λ m. drop m (x ∷ xs)) none_over)
]

-- The last line of the history, by its end.
ends_with_line_iff :
    (hs : List Text) (line : Text)
    → (ends_with_line hs line ≡ true) ↔ ((older : List Text) × (hs ≡ older ++ line ∷ []))
unfolding ends_with_line
ends_with_line_iff [] line = (λ h. cc, λ (older, e). absurd (nil older e))
  where
    nil : (older : List Text) → [] ≡ older ++ line ∷ [] → ⊥
    nil [] e = cc
    nil (h ∷ hs) e = cc
ends_with_line_iff (h ∷ []) line =
    (λ e. ([], ap (λ x. x ∷ []) (text_eq_sound h line e)), λ (older, e). only older e)
  where
    only : (older : List Text) → h ∷ [] ≡ older ++ line ∷ [] → text_eq h line ≡ true
    only [] e = ap (λ x. text_eq h x) (cc e) ∙ text_eq_refl h
    only (x ∷ []) e = absurd (omega (arith, ap length e))
    only (x ∷ y ∷ xs) e = absurd (omega (arith, ap length e))
ends_with_line_iff (h ∷ g ∷ hs) line =
    let ih = ends_with_line_iff (g ∷ hs) line in
    (
      λ e. let (older, q) = ih.0 e in (h ∷ older, ap (λ xs. h ∷ xs) q),
      λ (older, e). longer ih older e,
    )
  where
    longer :
        ((ends_with_line (g ∷ hs) line ≡ true)
          ↔ ((older : List Text) × (g ∷ hs ≡ older ++ line ∷ [])))
        → (older : List Text) → h ∷ g ∷ hs ≡ older ++ line ∷ []
        → ends_with_line (g ∷ hs) line ≡ true
    longer ih [] e = absurd (omega (arith, ap length e))
    longer ih (x ∷ xs) e = ih.1 (xs, cc e)

-- addToHistory ignores a blank line and a repetition of the last one; after any other line the
-- history is the newest max_history entries of the old ones and that line.
pub add_to_history_lem :
    (u : Letters) (text : Text) (e : LineEditor)
    → ((all_spaces u text ≡ true) × (add_to_history u text e ≡ e))
      ⊎ ((all_spaces u text ≡ false)
          × ((older : List Text) × (e.history ≡ older ++ text ∷ []))
          × (add_to_history u text e ≡ e))
      ⊎ ((all_spaces u text ≡ false)
          × ((older : List Text) → e.history ≢ older ++ text ∷ [])
          × ((add_to_history u text e).history
              ≡ drop (length e.history + 1 - e.max_history) (e.history ++ text ∷ [])))
unfolding add_to_history
add_to_history_lem u text e =
    let last = ends_with_line_iff e.history text in
    elim (Bool-cases (all_spaces u text)) [
      | inl blank ↦ inl (blank, rw blank refl)
      | inr not_blank ↦ elim (Bool-cases (ends_with_line e.history text)) [
        | inl same ↦ inr (inl (not_blank, last.0 same, rw (not_blank, same) refl))
        | inr new ↦ inr (
            inr (
              not_blank,
              λ older q. cc (last.1 (older, q)),
              rw (not_blank, new)
                  (trim_history-drop e.max_history (e.history ++ text ∷ [])
                    ∙ ap (λ m. drop m (e.history ++ text ∷ []))
                        (omega (arith, length-append e.history (text ∷ [])))),
            ))
      ]
    ]
