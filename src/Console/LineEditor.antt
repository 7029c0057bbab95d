-- ===== src/Console/LineEditor.antt =====
-- LineEditor of plugins/ui-console/src/console/LineEditor.cpp: the buffer, the cursor and the
-- history. What is written to the terminal is not modelled; keys come as a list of events.
pub mod Cursor
pub mod History
pub mod Completion
mod Examples
use a_social.Base.{
  ℕ, zero, suc, ◌+◌, ◌-◌, Bool, true, false, not, ◌&&◌, Option, none, some, List, [], ◌∷◌, ◌++◌,
  Text, text_eq, length, get_or, take, drop, ltb, leb, ◌==◌, min, if◌then◌else◌,
}

-- What the editor uses of QChar and QString on letters.
pub record Letters : Type 0 where
  pub is_space : ℕ → Bool
  pub to_lower : ℕ → ℕ
  -- `text.startsWith(prefix, Qt::CaseInsensitive)`
  pub starts_with_insensitive : Text → Text → Bool

pub data Key : Type 0 where
  char : ℕ → Key
  backspace delete left right home end up down tab enter ctrl_c ctrl_d other : Key

-- `history_idx` is `none` where the code has -1.
pub record LineEditor : Type 0 where
  pub history : List Text
  pub max_history : ℕ
  pub buffer : Text
  pub cursor : ℕ
  pub history_idx : Option ℕ
  pub saved_buffer : Text

-- `while( m_history.size() > m_maxHistory ) m_history.removeFirst();`
pub trim_history : ℕ → List Text → List Text
trim_history n [] = []
trim_history n (h ∷ hs) = if ltb n (length (h ∷ hs)) then trim_history n hs else h ∷ hs

abbrev all_spaces : Letters → Text → Bool
all_spaces u [] = true
all_spaces u (c ∷ cs) = u.is_space c && all_spaces u cs

-- `!m_history.isEmpty() && m_history.last() == line`
pub ends_with_line : List Text → Text → Bool
ends_with_line [] line = false
ends_with_line (h ∷ []) line = text_eq h line
ends_with_line (h ∷ hs) line = ends_with_line hs line

pub add_to_history : Letters → Text → LineEditor → LineEditor
add_to_history u line e =
    if all_spaces u line
    then e
    else if ends_with_line e.history line
    then e
    else record e { history = trim_history e.max_history (e.history ++ line ∷ []) }

pub set_history : List Text → LineEditor → LineEditor
set_history history e = record e { history = trim_history e.max_history history }

-- Tab completion: the candidates that the buffer begins.
pub matches_of : Letters → Text → List Text → List Text
matches_of u buffer [] = []
matches_of u buffer (c ∷ cs) =
    let rest = matches_of u buffer cs in
    if u.starts_with_insensitive c buffer then c ∷ rest else rest

-- The inner `while` of handleTab: the length of the common beginning, and `common.left(j)`.
pub common_left : Letters → Text → Text → Text
common_left u [] ys = []
common_left u (x ∷ xs) [] = []
common_left u (x ∷ xs) (y ∷ ys) =
    let rest = common_left u xs ys in if u.to_lower x == u.to_lower y then x ∷ rest else []

pub common_prefix : Letters → Text → List Text → Text
common_prefix u common [] = common
common_prefix u common (m ∷ ms) = common_prefix u (common_left u common m) ms

abbrev put_buffer : Text → LineEditor → LineEditor
put_buffer b e = record e { buffer = b; cursor = length b }

pub complete : Letters → List Text → LineEditor → LineEditor
complete u [] e = e
complete u (m ∷ []) e = put_buffer (m ++ b' ' ∷ []) e
complete u (m ∷ ms) e =
    let common = common_prefix u m ms in
    if ltb (length e.buffer) (length common) then put_buffer common e else e

pub handle_tab : Letters → List Text → LineEditor → LineEditor
handle_tab u completions e = complete u (matches_of u e.buffer completions) e

-- `m_buffer.remove(i, 1)`
abbrev pub remove_char : ℕ → Text → Text
remove_char i b = take i b ++ drop (i + 1) b

abbrev delete_at_cursor : LineEditor → LineEditor
delete_at_cursor e =
    if ltb e.cursor (length e.buffer)
    then record e { buffer = remove_char e.cursor e.buffer }
    else e

abbrev show_entry : ℕ → LineEditor → LineEditor
show_entry i e =
    let b = get_or e.history i [] in
    record e { buffer = b; cursor = length b; history_idx = some i }

pub go_up : Option ℕ → LineEditor → LineEditor
go_up none e = show_entry (length e.history - 1) (record e { saved_buffer = e.buffer })
go_up (some i) e = show_entry (i - 1) e

pub go_down : Option ℕ → LineEditor → LineEditor
go_down none e = e
go_down (some i) e =
    if ltb i (length e.history - 1)
    then show_entry (i + 1) e
    else record e { buffer = e.saved_buffer; cursor = length e.saved_buffer; history_idx = none }

-- The rest of the loop body's outcome: it goes on, or readLine returns a line.
pub data Outcome : Type 0 where
  reading : LineEditor → Outcome
  line : Text → LineEditor → Outcome

unfoldable pub press : Letters → List Text → Key → LineEditor → Outcome
press u completions (char c) e = reading (record e {
  buffer = take e.cursor e.buffer ++ c ∷ drop e.cursor e.buffer;
  cursor = e.cursor + 1;
})
press u completions backspace e = reading (
    if ltb 0 e.cursor
    then record e { buffer = remove_char (e.cursor - 1) e.buffer; cursor = e.cursor - 1 }
    else e)
press u completions delete e = reading (delete_at_cursor e)
press u completions left e =
    reading (if ltb 0 e.cursor then record e { cursor = e.cursor - 1 } else e)
press u completions right e =
    reading (if ltb e.cursor (length e.buffer) then record e { cursor = e.cursor + 1 } else e)
press u completions home e = reading (if ltb 0 e.cursor then record e { cursor = 0 } else e)
press u completions end e =
    reading (if ltb e.cursor (length e.buffer) then record e { cursor = length e.buffer } else e)
press u completions up e = reading (if length e.history == 0 then e else go_up e.history_idx e)
press u completions down e = reading (go_down e.history_idx e)
press u completions tab e = reading (handle_tab u completions e)
press u completions enter e = line e.buffer e
press u completions ctrl_c e = line [] (record e { buffer = []; cursor = 0 })
press u completions ctrl_d e =
    if length e.buffer == 0
    then line (b'e' ∷ b'x' ∷ b'i' ∷ b't' ∷ []) e
    else reading (delete_at_cursor e)
press u completions other e = reading e

-- What the loop does with the outcome of a key: it returns the line, or reads on.
abbrev pub next : (LineEditor → Option (Text × LineEditor)) → Outcome → Option (Text × LineEditor)
next read_on (reading e) = read_on e
next read_on (line text e) = some (text, e)

-- The `for( ;; )` of readLine over the keys to come; `none` where they run out and it would wait.
pub read_keys : Letters → List Text → List Key → LineEditor → Option (Text × LineEditor)
read_keys u completions [] e = none
read_keys u completions (k ∷ ks) e =
    next (λ e'. read_keys u completions ks e') (press u completions k e)

pub read_line : Letters → List Text → List Key → LineEditor → Option (Text × LineEditor)
read_line u completions keys e =
    read_keys u completions keys
      (record e { buffer = []; cursor = 0; history_idx = none; saved_buffer = [] })
