-- ===== src/Num/Text/Digits.antt =====
-- The digits of a big number in datastructures.c, against the number that they are read as.
use native.Mathlib.Nat.{mul-le-mul_left}
use lisp_machine.Common.{
  ℕ, ◌+◌, ◌*◌, ◌^◌, ◌<◌, ◌≤◌, ◌≡◌, arith, refl, ap, ◌∙◌, sym, zero, suc, Bool, Bool-cases, true,
  false, ◌&&◌, ◌==◌, ==_iff, ltb, ltb→lt, lt_trichotomy, if◌then◌else◌,
}
use lisp_machine.Common.{Option, none, some, Option-cases, inl, inr, List, [], ◌∷◌, ◌++◌}
use lisp_machine.Common.{bit_or}
use lisp_machine.Word.{shl}
use lisp_machine.Word.Bits.{bit_or_fields}
use lisp_machine.Num.Text.{hex_val, scan_word}

-- The hexadecimal digits and their values.
abbrev digits : List (ℕ × ℕ)
digits =
    (b'0', 0)
    ∷ (b'1', 1)
    ∷ (b'2', 2)
    ∷ (b'3', 3)
    ∷ (b'4', 4)
    ∷ (b'5', 5)
    ∷ (b'6', 6)
    ∷ (b'7', 7)
    ∷ (b'8', 8)
    ∷ (b'9', 9)
    ∷ (b'a', 10)
    ∷ (b'b', 11)
    ∷ (b'c', 12)
    ∷ (b'd', 13)
    ∷ (b'e', 14)
    ∷ (b'f', 15)
    ∷ (b'A', 10)
    ∷ (b'B', 11)
    ∷ (b'C', 12)
    ∷ (b'D', 13)
    ∷ (b'E', 14)
    ∷ (b'F', 15)
    ∷ []

abbrev lookup : List (ℕ × ℕ) → ℕ → Option ℕ
lookup [] c = none
lookup (e ∷ es) c = let rest = lookup es c in if e.0 == c then some e.1 else rest

unfoldable pub digit_value : ℕ → Option ℕ
digit_value c = lookup digits c

AllBelow : ℕ → List (ℕ × ℕ) → Type 0
AllBelow k [] = Unit
AllBelow k (e ∷ es) = (e.0 < k) × AllBelow k es

lookup-above : (k c : ℕ) (es : List (ℕ × ℕ)) → AllBelow k es → k ≤ c → lookup es c ≡ none
unfolding AllBelow
lookup-above k c [] h le = refl
lookup-above k c (e ∷ es) (lt, h) le =
    let other : (e.0 == c) ≡ false = ground arith in rw other (lookup-above k c es h le)

same : Option ℕ → Option ℕ → Bool
same none none = true
same none (some b) = false
same (some a) none = false
same (some a) (some b) = a == b

same-eq : (o p : Option ℕ) → same o p ≡ true → o ≡ p
unfolding same
same-eq none none h = refl
same-eq none (some b) h = absurd (cc)
same-eq (some a) none h = absurd (cc)
same-eq (some a) (some b) h = ap some ((==_iff a b).0 h)

all_same : ℕ → Bool
unfolding same hex_val digit_value
all_same zero = true
all_same (suc k) = same (hex_val k) (digit_value k) && all_same k

all_same-at : (k c : ℕ) → all_same k ≡ true → c < k → same (hex_val c) (digit_value c) ≡ true
unfolding all_same
all_same-at zero c h lt = absurd (omega arith)
all_same-at (suc k) c h lt = elim (Bool-cases (same (hex_val k) (digit_value k))) [
  | inr e ↦ absurd (let bad : false ≡ true = rw e at h in cc)
  | inl e ↦
      let rest : all_same k ≡ true = rw e at h in
      elim (lt_trichotomy c k) [
        | inl less ↦ all_same-at k c rest less
        | inr (inl here) ↦ rw here e
        | inr (inr more) ↦ absurd (omega arith)
      ]
]

below_128 : all_same 128 ≡ true
unfolding all_same same hex_val digit_value
below_128 = refl

-- The tests of the code are the table.
pub hex_val_lem : (c : ℕ) → hex_val c ≡ digit_value c
unfolding hex_val digit_value AllBelow
hex_val_lem c = elim (Bool-cases (ltb c 128)) [
  | inl lt ↦ same-eq (hex_val c) (digit_value c) (all_same-at 128 c below_128 (ltb→lt c 128 lt))
  | inr ge ↦
      let le : 128 ≤ c = ground arith in
      let out : hex_val c ≡ none = ground arith in
      out ∙ sym (lookup-above 128 c digits (omega arith) le)
]

-- The number that a text of hexadecimal digits continues `acc` to.
unfoldable pub hex_value : ℕ → List ℕ → Option ℕ
unfolding digit_value
hex_value acc [] = some acc
hex_value acc (c ∷ cs) = elim (digit_value c) [ none ↦ none | some d ↦ hex_value (acc * 16 + d) cs ]

abbrev pub pow16 : List ℕ → ℕ
pow16 [] = 1
pow16 (c ∷ cs) = 16 * pow16 cs

pub hex_val-lt : (c d : ℕ) → hex_val c ≡ some d → d < 16
unfolding hex_val
hex_val-lt c d h = ground arith

-- A text is read at once by both, or refused by both.
pub data Scanned (cur acc : ℕ) (cs : List ℕ) : Type 0 where
  read :
      (v : ℕ)
      → v < pow16 cs
      → scan_word cur cs ≡ some (cur * pow16 cs + v)
      → hex_value acc cs ≡ some (acc * pow16 cs + v)
      → Scanned cur acc cs
  refused : scan_word cur cs ≡ none → hex_value acc cs ≡ none → Scanned cur acc cs

-- A digit behind the ones that were read.
shl_digit : (cur d : ℕ) → cur < 2 ^ 60 → d < 16 → bit_or (shl cur 4) d ≡ cur * 16 + d
shl_digit cur d p q =
    let e : shl cur 4 ≡ cur * 2 ^ 4 = omega arith in
    ap (λ t. bit_or t d) e ∙ bit_or_fields 4 cur d (omega arith)

pow16_pos : (cs : List ℕ) → 1 ≤ pow16 cs
pow16_pos [] = omega arith
pow16_pos (c ∷ cs) = omega (arith, pow16_pos cs)

-- Room for the digits that are left keeps the shift from running over.
pub scan_word_lem :
    (cur acc : ℕ) (cs : List ℕ) → cur * pow16 cs + pow16 cs ≤ 2 ^ 64 → Scanned cur acc cs
unfolding scan_word hex_value
scan_word_lem cur acc [] h = read 0 (omega arith) (ap some (omega arith)) (ap some (omega arith))
scan_word_lem cur acc (c ∷ cs) h = elim (Option-cases (hex_val c)) [
  | inl e ↦
      let f = sym (hex_val_lem c) ∙ e in refused (rw (e, scan_word) refl) (rw (f, hex_value) refl)
  | inr (d, e) ↦
      let f = sym (hex_val_lem c) ∙ e in
      let dl = hex_val-lt c d e in
      let one : (cur + 1) * 1 ≤ (cur + 1) * pow16 cs = mul-le-mul_left (cur + 1) (pow16_pos cs) in
      let most : pow16 cs * (d + 1) ≤ pow16 cs * 16 = mul-le-mul_left (pow16 cs) (omega arith) in
      let s = shl_digit cur d (omega (arith, one)) dl in
      let more : (cur * 16 + d) * pow16 cs + pow16 cs ≤ 2 ^ 64 = omega (arith, most) in
      elim (scan_word_lem (cur * 16 + d) (acc * 16 + d) cs more) [
        | refused a b ↦
            refused (rw (e, scan_word) (ap (λ t. scan_word t cs) s ∙ a)) (rw (f, hex_value) b)
        | read v l a b ↦
            read (d * pow16 cs + v) (omega (arith, most))
              (rw (e, scan_word) (ap (λ t. scan_word t cs) s ∙ a ∙ ap some (omega arith)))
              (rw (f, hex_value) (b ∙ ap some (omega arith)))
      ]
]

-- Two texts, one behind the other.
pub hex_value-append :
    (acc : ℕ) (xs ys : List ℕ)
    → hex_value acc (xs ++ ys) ≡ elim (hex_value acc xs) [ none ↦ none | some v ↦ hex_value v ys ]
unfolding hex_value
hex_value-append acc [] ys = refl
hex_value-append acc (x ∷ xs) ys = elim (Option-cases (digit_value x)) [
  | inl e ↦ rw (e, hex_value) refl
  | inr (d, e) ↦ rw (e, hex_value) (hex_value-append (acc * 16 + d) xs ys)
]
