-- ===== src/Console/LineEditor/Examples.antt =====
-- Runs of the line editor of plugins/ui-console/src/console/LineEditor.cpp.
use a_social.Base.{
  List, ◌≡◌, ◌≢◌, ◌⊎◌, ◌+◌, ◌-◌, refl, arith, Bool, true, false, ◌&&◌, some, none, [], ◌∷◌, ◌++◌,
  map, Text, ◌==◌, length, drop, take, replicate, ◌≤◌,
}
use a_social.Console.LineEditor.{
  Letters, LineEditor, char, backspace, up, down, enter, press, read_line, read_keys,
  add_to_history, show_entry, handle_tab, all_spaces,
}
use a_social.Console.LineEditor.Cursor.{IsValid, after, press-IsValid}
use a_social.Console.LineEditor.History.{read_line-type, read_keys-up_down, add_to_history_lem}
use a_social.Console.LineEditor.Completion.{Lawful, fold-handle_tab}

abbrev begins : Text → Text → Bool
begins text [] = true
begins [] (y ∷ ys) = false
begins (x ∷ xs) (y ∷ ys) = x == y && begins xs ys

-- Letters of which only the blank counts as white space, and which have one case.
abbrev ascii : Letters
ascii = record {
  is_space = λ c. c == b' ';
  to_lower = λ c. c;
  starts_with_insensitive = λ text prefix. begins text prefix;
}

abbrev editor : LineEditor
editor = record {
  history = (b'l' ∷ b's' ∷ []) ∷ (b'c' ∷ b'd' ∷ []) ∷ [];
  max_history = 200;
  buffer = b'a' ∷ b'b' ∷ [];
  cursor = 1;
  history_idx = none;
  saved_buffer = [];
}

press-IsValid_example : IsValid (after (press ascii [] backspace editor))
press-IsValid_example =
    press-IsValid ascii [] backspace editor
      (record { cursor_in_buffer = omega arith; idx_in_history = tt })

length-begins : (text prefix : Text) → begins text prefix ≡ true → length prefix ≤ length text
length-begins text [] h = omega arith
length-begins [] (y ∷ ys) h = cc
length-begins (x ∷ xs) (y ∷ ys) h = ground (arith, length-begins xs ys)

take-begins : (text prefix : Text) → begins text prefix ≡ true → take (length prefix) text ≡ prefix
take-begins text [] h = refl
take-begins [] (y ∷ ys) h = cc
take-begins (x ∷ xs) (y ∷ ys) h = ground (arith, take-begins xs ys)

ascii-Lawful : Lawful ascii (λ t. t)
ascii-Lawful = record { length-starts = length-begins; fold-starts = take-begins }

abbrev typed : Text
typed = b'l' ∷ b's' ∷ b' ' ∷ b'-' ∷ []

read_line-type_example :
    (e' : LineEditor) × (read_line ascii [] (map char typed ++ enter ∷ []) editor
      ≡ some (typed, e'))
    × (e'.history ≡ editor.history)
read_line-type_example = read_line-type ascii [] typed [] editor

read_keys-up_down_example :
    (read_keys ascii [] (replicate 2 up ++ enter ∷ []) editor
      ≡ read_keys ascii []
          (enter ∷ [])
          (show_entry 0 (record editor { saved_buffer = editor.buffer })))
    × (read_keys ascii [] (replicate 2 up ++ (replicate 2 down ++ enter ∷ [])) editor
        ≡ read_keys ascii []
            (enter ∷ [])
            (record editor { cursor = 2; history_idx = none; saved_buffer = editor.buffer }))
read_keys-up_down_example = read_keys-up_down ascii [] 1 (enter ∷ []) editor refl (omega arith)

add_to_history_lem_example :
    ((all_spaces ascii typed ≡ true) × (add_to_history ascii typed editor ≡ editor))
    ⊎ ((all_spaces ascii typed ≡ false)
        × ((older : List Text) × (editor.history ≡ older ++ typed ∷ []))
        × (add_to_history ascii typed editor ≡ editor))
    ⊎ ((all_spaces ascii typed ≡ false)
        × ((older : List Text) → editor.history ≢ older ++ typed ∷ [])
        × ((add_to_history ascii typed editor).history
            ≡ drop (length editor.history + 1 - 200) (editor.history ++ typed ∷ [])))
add_to_history_lem_example = add_to_history_lem ascii typed editor

fold-handle_tab_example :
    take (length editor.buffer) (handle_tab ascii ((b'a' ∷ b'b' ∷ b'c' ∷ []) ∷ []) editor).buffer
    ≡ editor.buffer
fold-handle_tab_example =
    fold-handle_tab ascii (λ t. t) ((b'a' ∷ b'b' ∷ b'c' ∷ []) ∷ []) editor ascii-Lawful
