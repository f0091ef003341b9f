-- ===== src/Lisp/Rounds.antt =====
-- The reader of lisp.c on any text: the rounds that it is given, and the way the text is read.
use mathlib.Core.Path.{subst}
use lisp_machine.Common.{◌⊎◌, ◌++◌, sym, true, false, ap₂, ==_iff, ◌≢◌}
use lisp_machine.Common.{ℕ, zero, suc, ◌<◌, ◌≤◌, ◌≡◌, refl, ap, ◌∙◌, arith, ◌==◌, ◌||◌}
use lisp_machine.Common.{Bool-cases, inl, inr, List, [], ◌∷◌, length}
use lisp_machine.Lisp.{string, array, Tokens, nil, cons, in_ws, in_ops, word_token}
use lisp_machine.Lisp.{Kind, space, str_delim, blk_l_delim, blk_r_delim, operator, other, kind}
use lisp_machine.Lisp.Grammar.{NoQuote, Letters, Ends}
use lisp_machine.Lisp.Chars.{listed, spaces, signs, stops, stops_lem}
use lisp_machine.Lisp.Chars.{kind_space, kind_sign, kind_other}
use lisp_machine.Lisp.{quoted, word_chars, on_char, tokenize_rounds}

length-quoted : (code : List ℕ) → length (quoted code).1 ≤ length code
unfolding quoted
length-quoted [] = omega arith
length-quoted (c ∷ code) = elim (Bool-cases (c == b'\'')) [
  | inl e ↦ rw (e, quoted) (omega arith)
  | inr e ↦ rw (e, quoted) (omega (arith, length-quoted code))
]

length-word_chars : (code : List ℕ) → length (word_chars code).1 ≤ length code
unfolding word_chars
length-word_chars [] = omega arith
length-word_chars (c ∷ code) = elim (Bool-cases (in_ws c || in_ops c)) [
  | inl e ↦ rw (e, word_chars) (omega arith)
  | inr e ↦ rw (e, word_chars) (omega (arith, length-word_chars code))
]

module _ (read : List ℕ → Tokens × List ℕ) where
  on_char-shorter :
      (c : ℕ) (code : List ℕ) (k : Kind)
      → ((xs : List ℕ) → length (read xs).1 ≤ length xs)
      → length (on_char read c code k).1 ≤ length code
  unfolding on_char
  on_char-shorter c code space h = h code
  on_char-shorter c code str_delim h = omega (arith, h (quoted code).1, length-quoted code)
  on_char-shorter c code blk_l_delim h = omega (arith, h code, h (read code).1)
  on_char-shorter c code blk_r_delim h = omega arith
  on_char-shorter c code operator h = h code
  on_char-shorter c code other h = omega (arith, h (word_chars code).1, length-word_chars code)

  on_char_eq :
      (read' : List ℕ → Tokens × List ℕ) (c : ℕ) (code : List ℕ) (k : Kind)
      → ((xs : List ℕ) → length (read xs).1 ≤ length xs)
      → ((xs : List ℕ) → length xs ≤ length code → read xs ≡ read' xs)
      → on_char read c code k ≡ on_char read' c code k
  unfolding on_char
  on_char_eq read' c code space h same = same code (omega arith)
  on_char_eq read' c code str_delim h same =
      ap (λ r. (cons (string (quoted code).0) r.0, r.1)) (same (quoted code).1 (length-quoted code))
  on_char_eq read' c code blk_l_delim h same =
      ap (λ b. (cons (array b.0) (read b.1).0, (read b.1).1)) (same code (omega arith))
      ∙ ap (λ r. (cons (array (read' code).0) r.0, r.1))
          (same (read' code).1
            (subst (λ b. length b.1 ≤ length code) (same code (omega arith)) (h code)))
  on_char_eq read' c code blk_r_delim h same = refl
  on_char_eq read' c code operator h same =
      ap (λ r. (cons (string (c ∷ [])) r.0, r.1)) (same code (omega arith))
  on_char_eq read' c code other h same =
      ap (λ r. (cons (word_token (c ∷ (word_chars code).0)) r.0, r.1))
        (same (word_chars code).1 (length-word_chars code))

pub length-rest :
    (rounds : ℕ) (code : List ℕ) → length (tokenize_rounds rounds code).1 ≤ length code
unfolding tokenize_rounds
length-rest zero code = omega arith
length-rest (suc rounds) [] = omega arith
length-rest (suc rounds) (c ∷ code) = omega (
  arith,
  on_char-shorter (λ rest. tokenize_rounds rounds rest) c code (kind c)
      (λ xs. length-rest rounds xs),
)

-- Any two numbers of rounds above the length of the text give the same.
tokenize_rounds-same :
    (rounds rounds' : ℕ) (code : List ℕ)
    → length code < rounds
    → length code < rounds'
    → tokenize_rounds rounds code ≡ tokenize_rounds rounds' code
unfolding tokenize_rounds
tokenize_rounds-same zero rounds' code h h' = absurd (omega arith)
tokenize_rounds-same (suc rounds) zero code h h' = absurd (omega arith)
tokenize_rounds-same (suc rounds) (suc rounds') [] h h' = refl
tokenize_rounds-same (suc rounds) (suc rounds') (c ∷ code) h h' =
    on_char_eq (λ rest. tokenize_rounds rounds rest) (λ rest. tokenize_rounds rounds' rest) c code
      (kind c) (λ xs. length-rest rounds xs)
      (λ xs le. tokenize_rounds-same rounds rounds' xs (omega arith) (omega arith))

-- How a text is read, up to its end or behind the bracket that closes the block: `rest` is left.
-- A quotation that is not closed goes to the end, and so does a block.
pub data Scans : List ℕ → Tokens → List ℕ → Type 0 where
  at_end : Scans [] nil []
  at_bracket : (code : List ℕ) → Scans (b']' ∷ code) nil code
  blank :
      (c : ℕ) (code : List ℕ) (ts : Tokens) (rest : List ℕ)
      → listed c spaces ≡ true
      → Scans code ts rest
      → Scans (c ∷ code) ts rest
  quote :
      (cs code : List ℕ) (ts : Tokens) (rest : List ℕ)
      → NoQuote cs
      → Scans code ts rest
      → Scans (b'\'' ∷ cs ++ b'\'' ∷ code) (cons (string cs) ts) rest
  open_quote :
      (cs : List ℕ) (ts : Tokens) (rest : List ℕ)
      → NoQuote cs
      → Scans [] ts rest
      → Scans (b'\'' ∷ cs) (cons (string cs) ts) rest
  op :
      (c : ℕ) (code : List ℕ) (ts : Tokens) (rest : List ℕ)
      → listed c signs ≡ true
      → Scans code ts rest
      → Scans (c ∷ code) (cons (string (c ∷ [])) ts) rest
  block :
      (code mid : List ℕ) (bs ts : Tokens) (rest : List ℕ)
      → Scans code bs mid
      → Scans mid ts rest
      → Scans (b'[' ∷ code) (cons (array bs) ts) rest
  word :
      (c : ℕ) (cs code : List ℕ) (ts : Tokens) (rest : List ℕ)
      → listed c stops ≡ false
      → Letters cs
      → Ends code
      → Scans code ts rest
      → Scans (c ∷ cs ++ code) (cons (word_token (c ∷ cs)) ts) rest

quoted-NoQuote :
    (code : List ℕ)
    → NoQuote (quoted code).0
      × ((code ≡ (quoted code).0 ++ b'\'' ∷ (quoted code).1)
          ⊎ ((code ≡ (quoted code).0) × ((quoted code).1 ≡ [])))
unfolding quoted
quoted-NoQuote [] = (tt, inr (refl, refl))
quoted-NoQuote (c ∷ code) = elim (Bool-cases (c == b'\'')) [
  | inl e ↦ rw (e, quoted) (tt, inl (ap (λ t. t ∷ code) ((==_iff c b'\'').0 e)))
  | inr e ↦
      let ne : c ≢ b'\'' = λ h. absurd (let bad = sym e ∙ (==_iff c b'\'').1 h in cc) in
      let r = quoted-NoQuote code in
      rw (e, quoted)
        (
          (ne, r.0),
          elim (r.1) [ inl p ↦ inl (ap (λ t. c ∷ t) p) | inr p ↦ inr (ap (λ t. c ∷ t) p.0, p.1) ],
        )
]

word_chars-Letters :
    (code : List ℕ)
    → Letters (word_chars code).0
      × (Ends (word_chars code).1 × (code ≡ (word_chars code).0 ++ (word_chars code).1))
unfolding word_chars
word_chars-Letters [] = (tt, (tt, refl))
word_chars-Letters (c ∷ code) = elim (Bool-cases (in_ws c || in_ops c)) [
  | inl e ↦ rw (e, word_chars) (tt, (sym (stops_lem c) ∙ e, refl))
  | inr e ↦
      let r = word_chars-Letters code in
      rw (e, word_chars) ((sym (stops_lem c) ∙ e, r.0), (r.1.0, ap (λ t. c ∷ t) r.1.1))
]

str_delim_char : (c : ℕ) → kind c ≡ str_delim → c ≡ b'\''
unfolding kind
str_delim_char c h = ground (arith, h)

blk_l_char : (c : ℕ) → kind c ≡ blk_l_delim → c ≡ b'['
unfolding kind
blk_l_char c h = ground (arith, h)

blk_r_char : (c : ℕ) → kind c ≡ blk_r_delim → c ≡ b']'
unfolding kind
blk_r_char c h = ground (arith, h)

on_char-Scans :
    (read : List ℕ → Tokens × List ℕ) (c : ℕ) (code : List ℕ) (k : Kind)
    → kind c ≡ k
    → ((xs : List ℕ) → length (read xs).1 ≤ length xs)
    → ((xs : List ℕ) → length xs ≤ length code → Scans xs (read xs).0 (read xs).1)
    → Scans (c ∷ code) (on_char read c code k).0 (on_char read c code k).1
unfolding on_char
on_char-Scans read c code space e h r =
    blank c code (read code).0 (read code).1 (kind_space c e) (r code (omega arith))
on_char-Scans read c code str_delim e h r =
    let q = quoted-NoQuote code in
    let cs = (quoted code).0 in
    let xs = (quoted code).1 in
    let ts = (read xs).0 in
    let rest = (read xs).1 in
    let s = r xs (length-quoted code) in
    let at = sym (str_delim_char c e) in
    elim (q.1) [
      | inl p ↦
          subst (λ t. Scans t (cons (string cs) ts) rest) (ap₂ (λ x t. x ∷ t) at (sym p))
            (quote cs xs ts rest q.0 s)
      | inr p ↦
          subst (λ t. Scans t (cons (string cs) ts) rest) (ap₂ (λ x t. x ∷ t) at (sym p.0))
            (open_quote cs ts rest q.0 (subst (λ t. Scans t ts rest) p.1 s))
    ]
on_char-Scans read c code blk_l_delim e h r =
    let mid = (read code).1 in
    subst (λ x. Scans (x ∷ code) (cons (array (read code).0) (read mid).0) (read mid).1)
      (sym (blk_l_char c e))
      (block code mid (read code).0 (read mid).0 (read mid).1 (r code (omega arith))
        (r mid (h code)))
on_char-Scans read c code blk_r_delim e h r =
    subst (λ x. Scans (x ∷ code) nil code) (sym (blk_r_char c e)) (at_bracket code)
on_char-Scans read c code operator e h r =
    op c code (read code).0 (read code).1 (kind_sign c e) (r code (omega arith))
on_char-Scans read c code other e h r =
    let w = word_chars-Letters code in
    let cs = (word_chars code).0 in
    let xs = (word_chars code).1 in
    subst (λ t. Scans (c ∷ t) (cons (word_token (c ∷ cs)) (read xs).0) (read xs).1) (sym w.1.1)
      (word c cs xs (read xs).0 (read xs).1 (kind_other c e) w.0 w.1.0
        (r xs (length-word_chars code)))

tokenize_rounds-Scans :
    (rounds : ℕ) (code : List ℕ)
    → length code < rounds
    → Scans code (tokenize_rounds rounds code).0 (tokenize_rounds rounds code).1
unfolding tokenize_rounds
tokenize_rounds-Scans zero code h = absurd (omega arith)
tokenize_rounds-Scans (suc rounds) [] h = at_end
tokenize_rounds-Scans (suc rounds) (c ∷ code) h =
    on_char-Scans (λ rest. tokenize_rounds rounds rest) c code (kind c) refl
      (λ xs. length-rest rounds xs) (λ xs le. tokenize_rounds-Scans rounds xs (omega arith))

-- With more rounds than the text has characters, `_tokenize` reads any text as `Scans` says, to its
-- end or behind the bracket that closes the block, and further rounds change nothing.
pub tokenize_rounds-enough :
    (rounds rounds' : ℕ) (code : List ℕ)
    → length code < rounds
    → length code < rounds'
    → (tokenize_rounds rounds code ≡ tokenize_rounds rounds' code)
      × Scans code (tokenize_rounds rounds code).0 (tokenize_rounds rounds code).1
tokenize_rounds-enough rounds rounds' code h h' =
    (tokenize_rounds-same rounds rounds' code h h', tokenize_rounds-Scans rounds code h)
