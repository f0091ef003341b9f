-- ===== src/Num/Add.antt =====
-- `num_add` of datastructures.c, on the contents of its operands. The object of the result has
-- room for one word more than the longer operand, so that the last word is appended in place.
pub mod Words
pub mod Trim
pub mod Sign
pub mod Laws
use lisp_machine.Common.{ℕ, zero, suc, ◌+◌, ◌-◌, ◌<◌, ◌≤◌, Bool, true, false, not, ◌&&◌, ltb, ◌==◌}
use lisp_machine.Common.{if◌then◌else◌, List, [], ◌∷◌, ◌++◌, length, get_or, take}
use lisp_machine.Word.{max_word, shr}
use lisp_machine.Num.{adc}
use lisp_machine.Num.Value.{last_word}

-- One digit of the sum: both additions together carry once at most.
unfoldable pub add_digit : ℕ → ℕ → ℕ → ℕ × ℕ
unfolding adc
add_digit x y carry = let s = adc x carry in let r = adc s.0 y in (r.0, s.1 + r.1)

-- Both loops: where the second number has ended, `padding` stands for its words.
unfoldable pub add_words : ℕ → ℕ → List ℕ → List ℕ → List ℕ
unfolding add_digit
add_words padding carry [] ys = []
add_words padding carry (x ∷ xs) [] =
    let d = add_digit x padding carry in d.0 ∷ add_words padding d.1 xs []
add_words padding carry (x ∷ xs) (y ∷ ys) =
    let d = add_digit x y carry in d.0 ∷ add_words padding d.1 xs ys

-- `for (; i > 1 && contents[i-1] == last; --i) --size`
unfoldable pub trim : ℕ → ℕ → List ℕ → List ℕ
trim last zero xs = xs
trim last (suc i) xs =
    let rest = trim last i (take (length xs - 1) xs) in
    if ltb 1 (suc i) && get_or xs i 0 == last then rest else xs

-- A sign word at the end: one more word where the sum of two numbers of one sign has run over,
-- and else no more than one word that repeats the sign.
unfoldable pub keep_sign : ℕ → ℕ → List ℕ → List ℕ
unfolding trim
keep_sign n1_sgn n2_sgn result =
    let last = last_word result in
    if not (n1_sgn == 0) && (not (n2_sgn == 0) && not (last == max_word))
    then result ++ max_word ∷ []
    else if n1_sgn == 0 && (n2_sgn == 0 && not (last == 0))
    then result ++ 0 ∷ []
    else trim last (length result - 1) result

-- With the shorter number last.
unfoldable pub add_sorted : List ℕ → List ℕ → List ℕ
unfolding add_words keep_sign
add_sorted n1 n2 =
    let n1_sgn = shr (last_word n1) 63 in
    let n2_sgn = shr (last_word n2) 63 in
    let padding = if n2_sgn == 0 then 0 else max_word in
    keep_sign n1_sgn n2_sgn (add_words padding 0 n1 n2)

unfoldable pub num_add : List ℕ → List ℕ → List ℕ
unfolding add_sorted
num_add n1 n2 = if ltb (length n1) (length n2) then add_sorted n2 n1 else add_sorted n1 n2
