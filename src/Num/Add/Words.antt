-- ===== src/Num/Add/Words.antt =====
-- The loops of `num_add` of datastructures.c: the value of the digits.
use lisp_machine.Common.{ℕ, suc, ◌+◌, ◌*◌, ◌^◌, ◌<◌, ◌≤◌, ◌≡◌, arith, refl, ap}
use lisp_machine.Common.{List, [], ◌∷◌, length}
use lisp_machine.Word.{max_word}
use lisp_machine.Num.{adc, adc_lem, adc-lt}
use lisp_machine.Num.Value.{value, base_pow, IsWords}
use lisp_machine.Num.Add.{add_digit, add_words}

pub add_digit_lem :
    (x y c : ℕ)
    → x < 2 ^ 64
    → y < 2 ^ 64
    → c ≤ 1
    → ((add_digit x y c).0 + 2 ^ 64 * (add_digit x y c).1 ≡ x + y + c)
      × ((add_digit x y c).0 < 2 ^ 64)
unfolding add_digit
add_digit_lem x y c p q r =
    let l = adc-lt x c in
    let m = adc-lt (adc x c).0 y in
    (omega (arith, adc_lem x c p (omega arith), adc_lem (adc x c).0 y l q), m)

pub add_words_lem :
    (p pad c : ℕ) (xs ys : List ℕ)
    → p ≤ 1
    → pad ≡ p * max_word
    → c ≤ 1
    → length ys ≤ length xs
    → IsWords xs
    → IsWords ys
    → (k : ℕ) × ((k ≤ 1)
        × (value (add_words pad c xs ys) + k * base_pow xs + p * base_pow ys
            ≡ value xs + value ys + p * base_pow xs + c))
unfolding add_words
add_words_lem p pad c [] [] hp e hc l u v = (c, (hc, omega arith))
add_words_lem p pad c [] (y ∷ ys) hp e hc l u v = absurd (omega arith)
add_words_lem p pad c (x ∷ xs) [] hp e hc l u v =
    let d = add_digit_lem x pad c u.0 (omega arith) hc in
    let r =
      add_words_lem p pad (add_digit x pad c).1 xs [] hp e (omega (arith, d)) (omega arith) u.1
        tt in
    (r.0, (r.1.0, omega (arith, d, r.1.1)))
add_words_lem p pad c (x ∷ xs) (y ∷ ys) hp e hc l u v =
    let d = add_digit_lem x y c u.0 v.0 hc in
    let r =
      add_words_lem p pad (add_digit x y c).1 xs ys hp e (omega (arith, d)) (omega arith) u.1 v.1 in
    (r.0, (r.1.0, omega (arith, d, r.1.1)))

pub length-add_words : (pad c : ℕ) (xs ys : List ℕ) → length (add_words pad c xs ys) ≡ length xs
unfolding add_words
length-add_words pad c [] ys = refl
length-add_words pad c (x ∷ xs) [] = ap suc (length-add_words pad (add_digit x pad c).1 xs [])
length-add_words pad c (x ∷ xs) (y ∷ ys) = ap suc (length-add_words pad (add_digit x y c).1 xs ys)

pub add_words-IsWords : (pad c : ℕ) (xs ys : List ℕ) → IsWords (add_words pad c xs ys)
unfolding add_words add_digit
add_words-IsWords pad c [] ys = tt
add_words-IsWords pad c (x ∷ xs) [] =
    (adc-lt (adc x c).0 pad, add_words-IsWords pad (add_digit x pad c).1 xs [])
add_words-IsWords pad c (x ∷ xs) (y ∷ ys) =
    (adc-lt (adc x c).0 y, add_words-IsWords pad (add_digit x y c).1 xs ys)
