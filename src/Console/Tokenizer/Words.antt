-- ===== src/Console/Tokenizer/Words.antt =====
-- The words that CommandRouter::tokenize finds in a line.
use a_social.Base.{
  ℕ, ◌≡◌, ◌<◌, refl, sym, ap, ◌∙◌, arith, true, false, List, [], ◌∷◌, ◌++◌, Text, ◌==◌, length,
  Bool-cases, inl, inr, append-nil, append_assoc,
}
use a_social.Console.LineEditor.{Letters}
use a_social.Console.Tokenizer.{backslash, Scan, flush, scan_char, scan_line, fresh, tokenize}

-- No word is empty.
abbrev pub NonEmpty : List Text → Type 0
NonEmpty [] = Unit
NonEmpty (w ∷ ws) = (0 < length w) × NonEmpty ws

NonEmpty-append : (ws : List Text) (w : Text) → NonEmpty ws → 0 < length w → NonEmpty (ws ++ w ∷ [])
NonEmpty-append [] w all h = (h, tt)
NonEmpty-append (v ∷ ws) w all h = (all.0, NonEmpty-append ws w all.1 h)

NonEmpty-flush : (s : Scan) → NonEmpty s.tokens → NonEmpty (flush s).tokens
NonEmpty-flush s all = elim (Bool-cases (length s.current == 0)) [
  | inl none_left ↦ rw none_left all
  | inr some_left ↦ rw some_left (NonEmpty-append s.tokens s.current all (ground arith))
]

NonEmpty-scan_char :
    (u : Letters) (ch : ℕ) (s : Scan) → NonEmpty s.tokens → NonEmpty (scan_char u ch s).tokens
unfolding scan_char
NonEmpty-scan_char u ch s all = ground (arith, all, NonEmpty-flush s all)

NonEmpty-scan_line :
    (u : Letters) (line : Text) (s : Scan)
    → NonEmpty s.tokens
    → NonEmpty (scan_line u line s).tokens
unfolding scan_line
NonEmpty-scan_line u [] s all = all
NonEmpty-scan_line u (ch ∷ line) s all =
    NonEmpty-scan_line u line (scan_char u ch s) (NonEmpty-scan_char u ch s all)

-- Whatever the line, tokenize yields no empty token.
NonEmpty-tokenize : (u : Letters) (line : Text) → NonEmpty (tokenize u line)
unfolding tokenize
NonEmpty-tokenize u line =
    NonEmpty-flush (scan_line u line fresh) (NonEmpty-scan_line u line fresh tt)

-- A word with a backslash before each letter, and words with a blank behind each.
abbrev pub escape_word : Text → Text
escape_word [] = []
escape_word (c ∷ w) = backslash ∷ c ∷ escape_word w

abbrev pub print_words : List Text → Text
print_words [] = []
print_words (w ∷ ws) = escape_word w ++ b' ' ∷ print_words ws

-- The scan outside quotes.
abbrev plain : List Text → Text → Scan
plain ts cur = record {
  tokens = ts;
  current = cur;
  in_double = false;
  in_single = false;
  escaped = false;
}

scan_line-escape_word :
    (u : Letters) (w rest cur : Text) (ts : List Text)
    → scan_line u (escape_word w ++ rest) (plain ts cur) ≡ scan_line u rest (plain ts (cur ++ w))
unfolding scan_line scan_char
scan_line-escape_word u [] rest cur ts =
    ap (λ c. scan_line u rest (plain ts c)) (sym (append-nil cur))
scan_line-escape_word u (c ∷ w) rest cur ts =
    scan_line-escape_word u w rest (cur ++ c ∷ []) ts
    ∙ ap (λ t. scan_line u rest (plain ts t)) (append_assoc cur (c ∷ []) w)

scan_line-blank :
    (u : Letters) (c : ℕ) (w rest : Text) (ts : List Text)
    → u.is_space b' ' ≡ true
    → scan_line u (b' ' ∷ rest) (plain ts (c ∷ w))
      ≡ scan_line u rest (plain (ts ++ (c ∷ w) ∷ []) [])
unfolding scan_line scan_char
scan_line-blank u c w rest ts blank =
    let word : (length (c ∷ w) == 0) ≡ false = ground arith in rw (blank, word) refl

scan_line-print_words :
    (u : Letters) (ws ts : List Text)
    → u.is_space b' ' ≡ true
    → NonEmpty ws
    → scan_line u (print_words ws) (plain ts []) ≡ plain (ts ++ ws) []
unfolding scan_line
scan_line-print_words u [] ts blank all = ap (λ t. plain t []) (sym (append-nil ts))
scan_line-print_words u ([] ∷ ws) ts blank all = absurd (omega (arith, all.0))
scan_line-print_words u ((c ∷ w) ∷ ws) ts blank all =
    scan_line-escape_word u (c ∷ w) (b' ' ∷ print_words ws) [] ts
    ∙ scan_line-blank u c w (print_words ws) ts blank
    ∙ scan_line-print_words u ws (ts ++ (c ∷ w) ∷ []) blank all.1
    ∙ ap (λ t. plain t []) (append_assoc ts ((c ∷ w) ∷ []) ws)

-- Words that are printed with a backslash before each letter and a blank behind each word are read
-- back as they were, provided that none is empty and that the blank counts as white space.
pub tokenize-print_words :
    (u : Letters) (ws : List Text)
    → u.is_space b' ' ≡ true
    → NonEmpty ws
    → tokenize u (print_words ws) ≡ ws
unfolding tokenize
tokenize-print_words u ws blank all =
    ap (λ s. (flush s).tokens) (scan_line-print_words u ws [] blank all)
