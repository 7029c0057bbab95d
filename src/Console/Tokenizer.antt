-- ===== src/Console/Tokenizer.antt =====
-- CommandRouter::tokenize of plugins/ui-console/src/console/CommandRouter.cpp.
pub mod Words
mod Examples
use a_social.Base.{
  ℕ, Bool, true, false, not, ◌&&◌, List, [], ◌∷◌, ◌++◌, Text, ◌==◌, length, if◌then◌else◌,
}
use a_social.Console.LineEditor.{Letters}

abbrev pub backslash : ℕ
backslash = 92

abbrev pub double_quote : ℕ
double_quote = 34

abbrev pub single_quote : ℕ
single_quote = 39

-- The locals of tokenize.
pub record Scan : Type 0 where
  pub tokens : List Text
  pub current : Text
  pub in_double : Bool
  pub in_single : Bool
  pub escaped : Bool

-- What a blank outside quotes does, and the end of the line.
abbrev pub flush : Scan → Scan
flush s =
    if length s.current == 0
    then s
    else record s { tokens = s.tokens ++ s.current ∷ []; current = [] }

abbrev pub append_char : ℕ → Scan → Scan
append_char ch s = record s { current = s.current ++ ch ∷ [] }

-- The body of the loop.
unfoldable pub scan_char : Letters → ℕ → Scan → Scan
scan_char u ch s =
    if s.escaped
    then record (append_char ch s) { escaped = false }
    else if ch == backslash && not s.in_single
    then record s { escaped = true }
    else if ch == double_quote && not s.in_single
    then record s { in_double = not s.in_double }
    else if ch == single_quote && not s.in_double
    then record s { in_single = not s.in_single }
    else if u.is_space ch && (not s.in_double && not s.in_single)
    then flush s
    else append_char ch s

unfoldable pub scan_line : Letters → Text → Scan → Scan
scan_line u [] s = s
scan_line u (ch ∷ line) s = scan_line u line (scan_char u ch s)

abbrev pub fresh : Scan
fresh = record { tokens = []; current = []; in_double = false; in_single = false; escaped = false }

unfoldable pub tokenize : Letters → Text → List Text
tokenize u line = (flush (scan_line u line fresh)).tokens
