-- ===== src/Lisp/Grammar.antt =====
-- The grammar that the reader of lisp.c implements.
use lisp_machine.Common.{ℕ, zero, suc, ◌+◌, ◌<◌, ◌≡◌, ◌≢◌, refl, sym, ap, ◌∙◌, arith}
use lisp_machine.Common.{
  true, false, List, [], ◌∷◌, ◌++◌, length, length-append, append_assoc, append-nil,
}
use lisp_machine.Common.{==_ne}
use lisp_machine.Lisp.{string, array, Tokens, nil, cons, in_ws, in_ops, word_token}
use lisp_machine.Lisp.{Kind, space, str_delim, blk_l_delim, operator, other, kind}
use lisp_machine.Lisp.Chars.{listed, spaces, signs, stops, stops_lem}
use lisp_machine.Lisp.Chars.{space_kind, sign_kind, other_kind}
use lisp_machine.Lisp.{quoted, word_chars, on_char, tokenize_rounds, tokenize}

abbrev pub NoQuote : List ℕ → Type 0
NoQuote [] = Unit
NoQuote (c ∷ cs) = (c ≢ b'\'') × NoQuote cs

-- Neither white space nor operators.
abbrev pub Letters : List ℕ → Type 0
Letters [] = Unit
Letters (c ∷ cs) = (listed c stops ≡ false) × Letters cs

-- What a word may be followed by.
abbrev pub Ends : List ℕ → Type 0
Ends [] = Unit
Ends (c ∷ cs) = listed c stops ≡ true

-- The texts of the arrays: words and operators, strings in quotes, blocks in brackets, and white
-- space anywhere between them.
pub data Spells : List ℕ → Tokens → Type 0 where
  done : Spells [] nil
  blank :
      (c : ℕ) (code : List ℕ) (ts : Tokens)
      → listed c spaces ≡ true
      → Spells code ts
      → Spells (c ∷ code) ts
  quote :
      (cs code : List ℕ) (ts : Tokens)
      → NoQuote cs
      → Spells code ts
      → Spells (b'\'' ∷ cs ++ b'\'' ∷ code) (cons (string cs) ts)
  op :
      (c : ℕ) (code : List ℕ) (ts : Tokens)
      → listed c signs ≡ true
      → Spells code ts
      → Spells (c ∷ code) (cons (string (c ∷ [])) ts)
  block :
      (body code : List ℕ) (bs ts : Tokens)
      → Spells body bs
      → Spells code ts
      → Spells (b'[' ∷ body ++ b']' ∷ code) (cons (array bs) ts)
  word :
      (c : ℕ) (cs code : List ℕ) (ts : Tokens)
      → listed c stops ≡ false
      → Letters cs
      → Ends code
      → Spells code ts
      → Spells (c ∷ cs ++ code) (cons (word_token (c ∷ cs)) ts)

-- The end of the text, or the bracket that closes the block, and what is left behind it.
pub data Closes : List ℕ → List ℕ → Type 0 where
  at_end : Closes [] []
  at_bracket : (code : List ℕ) → Closes (b']' ∷ code) code

quoted_lem : (cs code : List ℕ) → NoQuote cs → quoted (cs ++ b'\'' ∷ code) ≡ (cs, code)
unfolding quoted
quoted_lem [] code h = refl
quoted_lem (c ∷ cs) code (ne, h) =
    rw (==_ne c b'\'' ne, quoted) (ap (λ r. (c ∷ r.0, r.1)) (quoted_lem cs code h))

word_chars-Ends : (code : List ℕ) → Ends code → word_chars code ≡ ([], code)
unfolding word_chars
word_chars-Ends [] h = refl
word_chars-Ends (c ∷ code) h = rw (stops_lem c ∙ h, word_chars) refl

word_chars_lem : (cs code : List ℕ) → Letters cs → Ends code → word_chars (cs ++ code) ≡ (cs, code)
unfolding word_chars
word_chars_lem [] code h e = word_chars-Ends code e
word_chars_lem (c ∷ cs) code (out, h) e =
    rw (stops_lem c ∙ out, word_chars) (ap (λ r. (c ∷ r.0, r.1)) (word_chars_lem cs code h e))

Ends-append : (code after left : List ℕ) → Ends code → Closes after left → Ends (code ++ after)
Ends-append [] _ _ e at_end = tt
Ends-append [] _ _ e (at_bracket code) = refl
Ends-append (c ∷ code) _ _ e _ = e

-- One round, when the kind of the character is known.
round :
    (rounds c : ℕ) (code : List ℕ) (k : Kind)
    → kind c ≡ k
    → tokenize_rounds (suc rounds) (c ∷ code)
      ≡ on_char (λ rest. tokenize_rounds rounds rest) c code k
unfolding tokenize_rounds
round rounds c code k e = ap (λ t. on_char (λ rest. tokenize_rounds rounds rest) c code t) e

closed :
    (rounds : ℕ) (after left : List ℕ)
    → Closes after left
    → tokenize_rounds (suc rounds) after ≡ (nil, left)
unfolding tokenize_rounds kind in_ws in_ops on_char
closed rounds _ _ at_end = refl
closed rounds _ _ (at_bracket code) = refl

kind-str_delim : kind b'\'' ≡ str_delim
unfolding kind in_ws in_ops
kind-str_delim = refl

kind-blk_l_delim : kind b'[' ≡ blk_l_delim
unfolding kind in_ws in_ops
kind-blk_l_delim = refl

-- The text up to its end or to the closing bracket.
tokenize_rounds-Spells :
    (rounds : ℕ) (code : List ℕ) (ts : Tokens) (after left : List ℕ)
    → Spells code ts
    → Closes after left
    → length code + length after < rounds
    → tokenize_rounds rounds (code ++ after) ≡ (ts, left)
unfolding on_char
tokenize_rounds-Spells zero code ts after left s e h = absurd (omega arith)
tokenize_rounds-Spells (suc rounds) _ _ after left done e h = closed rounds after left e
tokenize_rounds-Spells (suc rounds) _ _ after left (blank c code ts k s) e h =
    round rounds c (code ++ after) space (space_kind c k)
    ∙ tokenize_rounds-Spells rounds code ts after left s e (omega arith)
tokenize_rounds-Spells (suc rounds) _ _ after left (op c code ts k s) e h =
    round rounds c (code ++ after) operator (sign_kind c k)
    ∙ ap (λ r. (cons (string (c ∷ [])) r.0, r.1))
        (tokenize_rounds-Spells rounds code ts after left s e (omega arith))
tokenize_rounds-Spells (suc rounds) _ _ after left (quote cs code ts n s) e h =
    let text = append_assoc cs (b'\'' ∷ code) after in
    let q = ap quoted text ∙ quoted_lem cs (code ++ after) n in
    let size = length-append cs (b'\'' ∷ code) in
    round rounds b'\'' ((cs ++ b'\'' ∷ code) ++ after) str_delim kind-str_delim
    ∙ ap (λ s. (cons (string s.0) (tokenize_rounds rounds s.1).0, (tokenize_rounds rounds s.1).1)) q
    ∙ ap (λ r. (cons (string cs) r.0, r.1))
        (tokenize_rounds-Spells rounds code ts after left s e (omega (arith, size)))
tokenize_rounds-Spells (suc rounds) _ _ after left (block body code bs ts s t) e h =
    let text = append_assoc body (b']' ∷ code) after in
    let size = length-append body (b']' ∷ code) in
    let more = length-append code after in
    let inner =
      ap (λ xs. tokenize_rounds rounds xs) text
      ∙ tokenize_rounds-Spells rounds body bs (b']' ∷ (code ++ after)) (code ++ after) s
          (at_bracket (code ++ after)) (omega (arith, size, more)) in
    round rounds b'[' ((body ++ b']' ∷ code) ++ after) blk_l_delim kind-blk_l_delim
    ∙ ap (λ b. (cons (array b.0) (tokenize_rounds rounds b.1).0, (tokenize_rounds rounds b.1).1))
        inner
    ∙ ap (λ r. (cons (array bs) r.0, r.1))
        (tokenize_rounds-Spells rounds code ts after left t e (omega (arith, size)))
tokenize_rounds-Spells (suc rounds) _ _ after left (word c cs code ts k l n s) e h =
    let text = append_assoc cs code after in
    let size = length-append cs code in
    let w =
      ap word_chars text ∙ word_chars_lem cs (code ++ after) l (Ends-append code after left n e) in
    round rounds c ((cs ++ code) ++ after) other (other_kind c k)
    ∙ ap
        (λ s. (
          cons (word_token (c ∷ s.0)) (tokenize_rounds rounds s.1).0,
          (tokenize_rounds rounds s.1).1,
        ))
        w
    ∙ ap (λ r. (cons (word_token (c ∷ cs)) r.0, r.1))
        (tokenize_rounds-Spells rounds code ts after left s e (omega (arith, size)))

-- `tokenize` reads a text that spells an array as that array.
pub tokenize_lem : (code : List ℕ) (ts : Tokens) → Spells code ts → tokenize code ≡ ts
unfolding tokenize
tokenize_lem code ts s =
    ap (λ xs. (tokenize_rounds (length code + 1) xs).0) (sym (append-nil code))
    ∙ ap (λ r. r.0) (tokenize_rounds-Spells (length code + 1) code ts [] [] s at_end (omega arith))
