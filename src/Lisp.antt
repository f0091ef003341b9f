-- ===== src/Lisp.antt =====
-- The reader of lisp.c: `tokenize` and `_tokenize`. The text is a list of words; the index into it
-- is the suffix that is left. The sets of the white space and of the operators stand for their
-- members, strings of one character.
pub mod Chars
pub mod Grammar
pub mod Rounds
use lisp_machine.Common.{ℕ, zero, suc, ◌+◌, ◌==◌, ◌||◌, Bool, if◌then◌else◌, Option, none, some}
use lisp_machine.Common.{List, [], ◌∷◌, length}
use lisp_machine.Num.Text.{str_to_num}

-- Strings, numbers and arrays: what the reader makes.
mutual
  pub data Token : Type 0 where
    string : List ℕ → Token
    num : List ℕ → Token
    array : Tokens → Token

  pub data Tokens : Type 0 where
    nil : Tokens
    cons : Token → Tokens → Tokens

unfoldable pub in_ws : ℕ → Bool
in_ws c = c == b' ' || c == 10 || c == 9 || c == 0

unfoldable pub in_ops : ℕ → Bool
in_ops c =
    c == b'~'
    || c == b':'
    || c == b'>'
    || c == b'|'
    || c == b'<'
    || c == b'['
    || c == b']'
    || c == b'\''

-- The branches of the loop on a character.
pub data Kind : Type 0 where
  space str_delim blk_l_delim blk_r_delim operator other : Kind

unfoldable pub kind : ℕ → Kind
unfolding in_ws in_ops
kind c =
    if in_ws c
    then space
    else if in_ops c
    then (if c == b'\''
        then str_delim
        else if c == b'['
        then blk_l_delim
        else if c == b']'
        then blk_r_delim
        else operator)
    else other

-- The characters before the closing quote, and the text behind it.
unfoldable pub quoted : List ℕ → List ℕ × List ℕ
quoted [] = ([], [])
quoted (c ∷ code) =
    let rest = quoted code in if c == b'\'' then ([], code) else (c ∷ rest.0, rest.1)

-- The characters before white space or an operator, and the text from there on.
unfoldable pub word_chars : List ℕ → List ℕ × List ℕ
unfolding in_ws in_ops
word_chars [] = ([], [])
word_chars (c ∷ code) =
    let rest = word_chars code in
    if in_ws c || in_ops c then ([], c ∷ code) else (c ∷ rest.0, rest.1)

unfoldable pub word_token : List ℕ → Token
word_token tok = elim (str_to_num tok) [ none ↦ string tok | some b ↦ num b ]

-- A round of the loop, with `read` for what follows: the array, and the text that is left.
unfoldable pub on_char : (List ℕ → Tokens × List ℕ) → ℕ → List ℕ → Kind → Tokens × List ℕ
unfolding quoted word_chars word_token
on_char read c code space = read code
on_char read c code str_delim =
    let s = quoted code in let rest = read s.1 in (cons (string s.0) rest.0, rest.1)
on_char read c code blk_l_delim =
    let block = read code in let rest = read block.1 in (cons (array block.0) rest.0, rest.1)
on_char read c code blk_r_delim = (nil, code)
on_char read c code operator = let rest = read code in (cons (string (c ∷ [])) rest.0, rest.1)
on_char read c code other =
    let w = word_chars code in let rest = read w.1 in (cons (word_token (c ∷ w.0)) rest.0, rest.1)

-- `_tokenize`, with one round for each character or token.
unfoldable pub tokenize_rounds : ℕ → List ℕ → Tokens × List ℕ
unfolding kind on_char
tokenize_rounds zero code = (nil, code)
tokenize_rounds (suc rounds) [] = (nil, [])
tokenize_rounds (suc rounds) (c ∷ code) =
    on_char (λ rest. tokenize_rounds rounds rest) c code (kind c)

unfoldable pub tokenize : List ℕ → Tokens
unfolding tokenize_rounds
tokenize code = (tokenize_rounds (length code + 1) code).0
