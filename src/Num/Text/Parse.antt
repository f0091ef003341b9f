-- ===== src/Num/Text/Parse.antt =====
-- `str_to_num` of datastructures.c, against the integer that its text stands for.
use native.Mathlib.Nat.{pow-suc}
use mathlib.Core.Path.{subst}
use lisp_machine.Common.{
  ℕ, zero, suc, ◌+◌, ◌*◌, ◌/◌, ◌%◌, ◌^◌, ◌<◌, ◌≤◌, ◌≡◌, arith, refl, ap, sym, ◌∙◌,
}
use lisp_machine.Common.{
  Option, Option-cases, none, some, inl, inr, ◌⊎◌, List, [], ◌∷◌, ◌++◌, length, take, drop,
}
use lisp_machine.Common.{
  ◌==◌, if◌then◌else◌, Bool-cases, not, ◌||◌, take-add, drop-add, length-take,
}
use lisp_machine.Common.{take-drop_all, take_all, length-drop, false, length-append}
use lisp_machine.Common.{==_iff}
use lisp_machine.Common.Int.{ℤ, pos, neg, sub_zero}
use lisp_machine.Num.{num_negate}
use lisp_machine.Num.Value.{value, base_pow, IsWords, last_word, signed, IsNum}
use lisp_machine.Num.Value.{signed-nonneg}
use lisp_machine.Num.Negate.{num_negate_lem}
use lisp_machine.Num.Add.Sign.{append_value, append-IsWords, append-IsNum}
use lisp_machine.Num.Text.{scan_word, scan_words, digits_to_num, str_to_num}
use lisp_machine.Num.Text.Digits.{hex_value, pow16, read, refused, scan_word_lem}
use lisp_machine.Num.Text.Digits.{hex_value-append}

pow16_le : (n : ℕ) (cs : List ℕ) → length cs ≤ n → pow16 cs ≤ 16 ^ n
pow16_le zero [] h = omega arith
pow16_le zero (c ∷ cs) h = absurd (omega arith)
pow16_le (suc n) [] h = omega (arith, pow16_le n [] (omega arith), pow-suc 16 n)
pow16_le (suc n) (c ∷ cs) h = omega (arith, pow16_le n cs (omega arith), pow-suc 16 n)

pub pow16_eq : (n : ℕ) (cs : List ℕ) → length cs ≡ n → pow16 cs ≡ 16 ^ n
pow16_eq zero [] h = omega arith
pow16_eq zero (c ∷ cs) h = absurd (omega arith)
pow16_eq (suc n) [] h = absurd (omega arith)
pow16_eq (suc n) (c ∷ cs) h = omega (arith, pow16_eq n cs (omega arith), pow-suc 16 n)

-- The words that some digits give behind the number `acc`.
data Parsed (acc k : ℕ) (out : Option (List ℕ)) (hex : Option ℕ) : Type 0 where
  parsed :
      (ws : List ℕ)
      → out ≡ some ws
      → length ws ≡ k
      → IsWords ws
      → hex ≡ some (acc * base_pow ws + value ws)
      → Parsed acc k out hex
  failed : out ≡ none → hex ≡ none → Parsed acc k out hex

scan_words_lem :
    (acc : ℕ) (arr : List ℕ) (os k : ℕ)
    → k * 16 + os ≤ length arr
    → Parsed acc k (scan_words arr os k) (hex_value acc (take (k * 16) (drop os arr)))
unfolding scan_words hex_value
scan_words_lem acc arr os zero h = parsed [] refl refl tt (ap some (omega arith))
scan_words_lem acc arr os (suc k) h =
    let seg : List ℕ = take 16 (drop (k * 16 + os) arr) in
    let rounds : suc k * 16 ≡ k * 16 + 16 = omega arith in
    let split : take (suc k * 16) (drop os arr) ≡ take (k * 16) (drop os arr) ++ seg =
      ap (λ n. take n (drop os arr)) rounds
      ∙ take-add (k * 16) 16 (drop os arr)
      ∙ ap (λ t. take (k * 16) (drop os arr) ++ take 16 t) (sym (drop-add (k * 16) os arr)) in
    let hexes = ap (hex_value acc) split ∙ hex_value-append acc (take (k * 16) (drop os arr)) seg in
    let left = length-drop (k * 16 + os) arr (omega arith) in
    let full : pow16 seg ≡ 2 ^ 64 =
      pow16_eq 16 seg (length-take 16 (drop (k * 16 + os) arr) (omega (arith, left))) in
    elim (scan_words_lem acc arr os k (omega arith)) [
      | failed a b ↦ elim (Option-cases (scan_word 0 seg)) [
        | inl c ↦ failed (rw (c, scan_words) refl) (hexes ∙ rw b refl)
        | inr (v, c) ↦ failed (rw (c, a, scan_words) refl) (hexes ∙ rw b refl)
      ]
      | parsed ws a l w b ↦
          elim (scan_word_lem 0 (acc * base_pow ws + value ws) seg (omega (arith, full))) [
            | refused c d ↦ failed (rw (c, scan_words) refl) (hexes ∙ rw b d)
            | read v lt c d ↦
                let c' : scan_word 0 seg ≡ some v = c ∙ ap some (omega arith) in
                parsed (v ∷ ws) (rw (c', a, scan_words) refl) (omega arith) (omega (arith, full), w)
                  (hexes
                    ∙ rw b (
                        d
                        ∙ ap some
                            (omega (arith, ap (λ t. (acc * base_pow ws + value ws) * t) full))))
          ]
    ]

-- The number that digits give: of either all, or none if one of them is none.
pub data Read (out : Option (List ℕ)) (hex : Option ℕ) : Type 0 where
  number :
      (n : List ℕ) → out ≡ some n → IsNum n → last_word n ≡ 0 → hex ≡ some (value n) → Read out hex
  no_number : out ≡ none → hex ≡ none → Read out hex

-- The words, with the part of a word in front of them and the sign word behind.
with_sign :
    (ws : List ℕ)
    → IsWords ws
    → 1 ≤ length ws
    → IsNum (ws ++ 0 ∷ []) × ((last_word (ws ++ 0 ∷ []) ≡ 0) × (value (ws ++ 0 ∷ []) ≡ value ws))
with_sign ws w l =
    let a = append-IsNum ws 0 w l (inl refl) in (a.0, (a.1, omega (arith, append_value ws 0)))

-- The word of the digits in front stands behind the others where it is not 0 or the only one.
with_front :
    (c size : ℕ) (ws : List ℕ)
    → length ws ≡ size
    → IsWords ws
    → c < 2 ^ 64
    → (n : List ℕ) × ((n
          ≡ (if not (c == 0) || not (not (size == 0) || not (c == 0)) then ws ++ c ∷ [] else ws)
            ++ 0 ∷ [])
        × (IsNum n × ((last_word n ≡ 0) × (value n ≡ c * base_pow ws + value ws))))
with_front c size ws l w h =
    elim (Bool-cases (not (c == 0) || not (not (size == 0) || not (c == 0)))) [
      | inl e ↦
          let s =
            with_sign (ws ++ c ∷ []) (append-IsWords ws c w h)
              (omega (arith, length-append ws (c ∷ []))) in
          (
            (ws ++ c ∷ []) ++ 0 ∷ [],
            (rw e refl, (s.0, (s.1.0, omega (arith, s.1.1, append_value ws c)))),
          )
      | inr e ↦
          let z : c ≡ 0 = ground (arith, e) in
          let more : 1 ≤ size = ground (arith, e) in
          let s = with_sign ws w (omega arith) in
          (
            ws ++ 0 ∷ [],
            (rw e refl, (s.0, (s.1.0, omega (arith, s.1.1, ap (λ t. t * base_pow ws) z)))),
          )
    ]

digits_to_num_lem : (arr : List ℕ) → Read (digits_to_num arr) (hex_value 0 arr)
unfolding digits_to_num
digits_to_num_lem arr =
    let os : ℕ = length arr % 16 in
    let size : ℕ = length arr / 16 in
    let head : List ℕ = take os arr in
    let left = length-drop os arr (omega arith) in
    let body : take (size * 16) (drop os arr) ≡ drop os arr =
      take_all (size * 16) (drop os arr) (omega (arith, left)) in
    let hexes : hex_value 0 arr ≡ elim (hex_value 0 head) [
      | none ↦ none
      | some v ↦ hex_value v (take (size * 16) (drop os arr))
    ] =
      ap (hex_value 0) (sym (take-drop_all os arr) ∙ ap (λ t. head ++ t) (sym body))
      ∙ hex_value-append 0 head (take (size * 16) (drop os arr)) in
    let room = pow16_le 16 head (omega (arith, length-take os arr (omega arith))) in
    elim (scan_word_lem 0 0 head (omega (arith, room))) [
      | refused a b ↦ no_number (rw (a, digits_to_num) refl) (hexes ∙ rw b refl)
      | read c lt a b ↦
          let a' : scan_word 0 head ≡ some c = a ∙ ap some (omega arith) in
          let b' : hex_value 0 head ≡ some c = b ∙ ap some (omega arith) in
          elim (scan_words_lem c arr os size (omega arith)) [
            | failed d e ↦ no_number (rw (a', d, digits_to_num) refl) (hexes ∙ rw b' e)
            | parsed ws d l w e ↦
                let f = with_front c size ws l w (omega (arith, room)) in
                number f.0 (rw (a', d, digits_to_num) (ap some (sym f.1.0))) f.1.1.0 f.1.1.1.0
                  (hexes ∙ rw b' (e ∙ ap some (sym f.1.1.1.1)))
          ]
    ]

-- The integer that a text stands for: hexadecimal digits in either case, at least one, behind a
-- sign.
unfoldable pub text_value : List ℕ → Option ℤ
unfolding hex_value
text_value [] = none
text_value (chr ∷ arr) =
    if chr == b'-'
    then (elim arr [
      | [] ↦ none
      | d ∷ ds ↦ elim (hex_value 0 (d ∷ ds)) [ none ↦ none | some v ↦ some (neg (pos v)) ]
    ])
    else (elim (hex_value 0 (chr ∷ arr)) [ none ↦ none | some v ↦ some (pos v) ])

-- What a reader of texts has to return for a text.
abbrev pub Reads : Option (List ℕ) → Option ℤ → Type 0
Reads out z =
    ((out ≡ none) × (z ≡ none))
    ⊎ ((n : List ℕ) × ((out ≡ some n) × (IsNum n × (z ≡ some (signed n)))))

negative_text : (arr : List ℕ) → Reads (str_to_num (b'-' ∷ arr)) (text_value (b'-' ∷ arr))
unfolding str_to_num text_value
negative_text [] = inl (refl, refl)
negative_text (d ∷ ds) = elim (digits_to_num_lem (d ∷ ds)) [
  | no_number a b ↦ inl (rw a refl, rw b refl)
  | number n a num z b ↦
      let m = num_negate_lem n num (λ least. absurd (omega (arith, least.0))) in
      inr (
        num_negate n,
        (
          rw a refl,
          (m.0, rw b (ap some (ap neg (sym (signed-nonneg n z ∙ sub_zero (value n))) ∙ sym m.1.1))),
        ),
      )
]

plain_text :
    (chr : ℕ) (arr : List ℕ)
    → (chr == b'-') ≡ false
    → Reads (str_to_num (chr ∷ arr)) (text_value (chr ∷ arr))
unfolding str_to_num text_value
plain_text chr arr e = elim (digits_to_num_lem (chr ∷ arr)) [
  | no_number a b ↦ inl (rw (e, a) refl, rw (e, b) refl)
  | number n a num z b ↦ inr (
    n,
    (rw (e, a) refl, (num, rw (e, b) (ap some (sym (signed-nonneg n z ∙ sub_zero (value n)))))),
  )
]

-- `str_to_num` reads exactly the texts of integers, of any length, and returns a number whose
-- integer is the one that the text stands for.
pub str_to_num_lem : (arr : List ℕ) → Reads (str_to_num arr) (text_value arr)
unfolding str_to_num text_value
str_to_num_lem [] = inl (refl, refl)
str_to_num_lem (chr ∷ arr) = elim (Bool-cases (chr == b'-')) [
  | inr e ↦ plain_text chr arr e
  | inl e ↦
      let c : chr ≡ b'-' = (==_iff chr b'-').0 e in
      subst (λ t. Reads (str_to_num (t ∷ arr)) (text_value (t ∷ arr))) (sym c) (negative_text arr)
]
