-- ===== src/Console/LineEditor/Cursor.antt =====
-- The cursor of plugins/ui-console/src/console/LineEditor.cpp stays inside the buffer, and the
-- history index inside the history.
use a_social.Base.{
  ℕ, ◌+◌, ◌-◌, ◌≤◌, ◌<◌, ◌≡◌, arith, Option, none, some, List, [], ◌∷◌, Text, length, take, drop,
  length-append, length-take, length-drop,
}
use a_social.Console.LineEditor.{
  Letters, Key, char, backspace, delete, left, right, home, end, up, down, tab, enter, ctrl_c,
  ctrl_d, other, LineEditor, go_up, go_down, complete, handle_tab, matches_of, remove_char, Outcome,
  reading, line, press,
}

abbrev pub InHistory : Option ℕ → List Text → Type 0
InHistory none h = Unit
InHistory (some i) h = i < length h

pub record IsValid (e : LineEditor) : Type 0 where
  pub cursor_in_buffer : e.cursor ≤ length e.buffer
  pub idx_in_history : InHistory e.history_idx e.history

-- The state after a key, whether readLine goes on or returns.
abbrev pub after : Outcome → LineEditor
after (reading e) = e
after (line t e) = e

length-remove_char : (i : ℕ) (b : Text) → i < length b → length (remove_char i b) + 1 ≡ length b
length-remove_char i b h =
    omega (arith, length-append (take i b) (drop (i + 1) b), length-take i b, length-drop (i + 1) b)

complete-IsValid :
    (u : Letters) (ms : List Text) (e : LineEditor) → IsValid e → IsValid (complete u ms e)
unfolding complete
complete-IsValid u [] e v = v
complete-IsValid u (m ∷ []) e v = record {
  cursor_in_buffer = omega arith;
  idx_in_history = v.idx_in_history;
}
complete-IsValid u (m ∷ n ∷ ms) e v = ground arith

go_up-IsValid :
    (i : Option ℕ) (e : LineEditor)
    → InHistory i e.history
    → 0 < length e.history
    → IsValid (go_up i e)
unfolding go_up
go_up-IsValid none e h pos = record { cursor_in_buffer = omega arith; idx_in_history = omega arith }
go_up-IsValid (some i) e h pos = record {
  cursor_in_buffer = omega arith;
  idx_in_history = omega arith;
}

go_down-IsValid :
    (i : Option ℕ) (e : LineEditor) → IsValid e → InHistory i e.history → IsValid (go_down i e)
unfolding go_down
go_down-IsValid none e v h = v
go_down-IsValid (some i) e v h = ground arith

-- Every key keeps the cursor inside the buffer and the history index inside the history, where
-- they were there before it.
pub press-IsValid :
    (u : Letters) (completions : List Text) (k : Key) (e : LineEditor)
    → IsValid e
    → IsValid (after (press u completions k e))
unfolding press handle_tab
press-IsValid u completions (char c) e v = record {
  cursor_in_buffer = omega (
    arith,
    length-append (take e.cursor e.buffer) (c ∷ drop e.cursor e.buffer),
    length-take e.cursor e.buffer,
    length-drop e.cursor e.buffer,
    v.cursor_in_buffer,
  );
  idx_in_history = v.idx_in_history;
}
press-IsValid u completions backspace e v =
    ground (arith, v.cursor_in_buffer, v.idx_in_history, length-remove_char (e.cursor - 1) e.buffer)
press-IsValid u completions delete e v =
    ground (arith, v.cursor_in_buffer, v.idx_in_history, length-remove_char e.cursor e.buffer)
press-IsValid u completions left e v = ground arith
press-IsValid u completions right e v = ground arith
press-IsValid u completions home e v = ground arith
press-IsValid u completions end e v = ground arith
press-IsValid u completions up e v = ground (arith, go_up-IsValid e.history_idx e v.idx_in_history)
press-IsValid u completions down e v = go_down-IsValid e.history_idx e v v.idx_in_history
press-IsValid u completions tab e v = complete-IsValid u (matches_of u e.buffer completions) e v
press-IsValid u completions enter e v = v
press-IsValid u completions ctrl_c e v = record {
  cursor_in_buffer = omega arith;
  idx_in_history = v.idx_in_history;
}
press-IsValid u completions ctrl_d e v =
    ground (arith, v.cursor_in_buffer, v.idx_in_history, length-remove_char e.cursor e.buffer)
press-IsValid u completions other e v = v
