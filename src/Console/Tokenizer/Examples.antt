-- ===== src/Console/Tokenizer/Examples.antt =====
-- Lines that CommandRouter::tokenize takes apart.
use a_social.Base.{◌≡◌, refl, arith, true, List, [], ◌∷◌, Text, ◌==◌}
use a_social.Console.LineEditor.{Letters}
use a_social.Console.Tokenizer.{tokenize, scan_line, scan_char, double_quote}
use a_social.Console.Tokenizer.Words.{print_words, tokenize-print_words}

abbrev ascii : Letters
ascii = record {
  is_space = λ c. c == b' ';
  to_lower = λ c. c;
  starts_with_insensitive = λ t p. true;
}

abbrev words : List Text
words = (b'a' ∷ b' ' ∷ b'b' ∷ []) ∷ (double_quote ∷ []) ∷ []

tokenize-print_words_example : tokenize ascii (print_words words) ≡ words
tokenize-print_words_example =
    tokenize-print_words ascii words refl (omega arith, (omega arith, tt))

tokenize_quoted :
    tokenize ascii (b'x' ∷ double_quote ∷ b'a' ∷ b' ' ∷ b'b' ∷ double_quote ∷ b' ' ∷ b'c' ∷ [])
    ≡ (b'x' ∷ b'a' ∷ b' ' ∷ b'b' ∷ []) ∷ (b'c' ∷ []) ∷ []
unfolding tokenize scan_line scan_char
tokenize_quoted = refl
