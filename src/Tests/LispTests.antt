-- ===== src/Tests/LispTests.antt =====
-- The reader at work.
use lisp_machine.Common.{ℕ, ◌≡◌, refl, List, [], ◌∷◌, arith}
use lisp_machine.Num.Text.{str_to_num}
use lisp_machine.Lisp.{string, num, array, Tokens, nil, cons, in_ws, in_ops, word_token, kind}
use lisp_machine.Lisp.{tokenize, tokenize_rounds, on_char, word_chars}
use lisp_machine.Lisp.Rounds.{Scans, tokenize_rounds-enough}
use lisp_machine.Lisp.Grammar.{Spells, done, blank, quote, op, block, word, tokenize_lem}

-- ~[ab 'c d'] 1f
abbrev text : List ℕ
text =
    b'~' ∷ b'[' ∷ b'a' ∷ b'b' ∷ b' ' ∷ b'\'' ∷ b'c' ∷ b' ' ∷ b'd' ∷ b'\'' ∷ b']' ∷ b' ' ∷ b'1'
    ∷ b'f' ∷ []

abbrev inner : Tokens
inner = cons (word_token (b'a' ∷ b'b' ∷ [])) (cons (string (b'c' ∷ b' ' ∷ b'd' ∷ [])) nil)

abbrev tokens : Tokens
tokens = cons (string (b'~' ∷ [])) (cons (array inner) (cons (word_token (b'1' ∷ b'f' ∷ [])) nil))

inner-Spells : Spells (b'a' ∷ b'b' ∷ b' ' ∷ b'\'' ∷ b'c' ∷ b' ' ∷ b'd' ∷ b'\'' ∷ []) inner
inner-Spells =
    word b'a' (b'b' ∷ []) (b' ' ∷ b'\'' ∷ b'c' ∷ b' ' ∷ b'd' ∷ b'\'' ∷ []) _ refl (refl, tt) refl
      (blank b' ' (b'\'' ∷ b'c' ∷ b' ' ∷ b'd' ∷ b'\'' ∷ []) _ refl (
        quote (b'c' ∷ b' ' ∷ b'd' ∷ []) [] nil
          ((λ h. omega (arith, h)), ((λ h. omega (arith, h)), ((λ h. omega (arith, h)), tt))) done))

text-Spells : Spells text tokens
text-Spells = op b'~' _ _ refl (
    block (b'a' ∷ b'b' ∷ b' ' ∷ b'\'' ∷ b'c' ∷ b' ' ∷ b'd' ∷ b'\'' ∷ []) (b' ' ∷ b'1' ∷ b'f' ∷ [])
      inner _ inner-Spells
      (blank b' ' _ _ refl (word b'1' (b'f' ∷ []) [] nil refl (refl, tt) tt done)))

tokenize_lem_example : tokenize text ≡ tokens
tokenize_lem_example = tokenize_lem text tokens text-Spells

tokenize_rounds-enough_example :
    (tokenize_rounds 15 text ≡ tokenize_rounds 20 text)
    × Scans text (tokenize_rounds 15 text).0 (tokenize_rounds 15 text).1
tokenize_rounds-enough_example = tokenize_rounds-enough 15 20 text (omega arith) (omega arith)

-- A word of hexadecimal digits is a number.
number_read : word_token (b'1' ∷ b'f' ∷ []) ≡ num (31 ∷ 0 ∷ [])
unfolding word_token str_to_num
number_read = refl

-- A bracket that closes no block ends the reading.
bracket_ends : tokenize (b'x' ∷ b']' ∷ b'y' ∷ []) ≡ cons (string (b'x' ∷ [])) nil
unfolding tokenize tokenize_rounds on_char kind in_ws in_ops word_chars word_token str_to_num
bracket_ends = refl
