-- ===== src/Num/Mul.antt =====
-- `num_mul` of datastructures.c, on the objects' contents by their addresses: the operands are
-- negated in place and negated back.
pub mod Row
pub mod Rows
pub mod Product
pub mod Laws
use lisp_machine.Common.{ℕ, zero, suc, ◌+◌, ◌-◌, ltb, ◌==◌, not, ◌&&◌, ◌||◌, if◌then◌else◌}
use lisp_machine.Common.{List, [], ◌∷◌, length, get_or, take, replicate, bit_and, bit_or, bit_xor}
use lisp_machine.Word.{shl, shr}
use lisp_machine.Num.Store.{negate_if, negate_at_if}
use lisp_machine.Num.Value.{last_word}
use lisp_machine.Num.Add.{add_digit, trim}

-- A word of the first number, shifted up by `nsh` bits, with the bits that the word before lost.
unfoldable pub shifted : ℕ → ℕ → ℕ → ℕ
shifted nsh n1_prev n1_curr =
    bit_or (if nsh == 0 then 0 else shr n1_prev (64 - nsh)) (shl n1_curr nsh)

-- The loop on `j`: the shifted number is added to the words behind `ptr`.
unfoldable pub add_row : ℕ → ℕ → ℕ → List ℕ → List ℕ → List ℕ
unfolding shifted add_digit
add_row nsh n1_prev carry [] ptr = ptr
add_row nsh n1_prev carry (n1_curr ∷ n1) [] = []
add_row nsh n1_prev carry (n1_curr ∷ n1) (w ∷ ptr) =
    let d = add_digit w (shifted nsh n1_prev n1_curr) carry in d.0 ∷ add_row nsh n1_curr d.1 n1 ptr

-- `while(n2_i)`, with the bits that are left.
unfoldable pub mul_bits : ℕ → ℕ → ℕ → List ℕ → List ℕ → List ℕ
unfolding add_row
mul_bits zero nsh n2_i n1 ptr = ptr
mul_bits (suc bits) nsh n2_i n1 ptr =
    let rest =
      mul_bits bits (suc nsh) (shr n2_i 1) n1
        (if bit_and n2_i 1 == 0 then ptr else add_row nsh 0 0 n1 ptr) in
    if n2_i == 0 then ptr else rest

-- The loop on `i`: the words of the result from `i` on.
unfoldable pub mul_rows : List ℕ → List ℕ → List ℕ → List ℕ
unfolding mul_bits
mul_rows n1 [] result = result
mul_rows n1 (n2_i ∷ n2) result = elim (mul_bits 64 0 n2_i n1 result) [
  | [] ↦ []
  | w ∷ ptr ↦ w ∷ mul_rows n1 n2 ptr
]

-- The product of the absolute values, without the sign word of the second one.
unfoldable pub mul_words : List ℕ → List ℕ → List ℕ
unfolding mul_rows
mul_words n1 n2 = mul_rows n1 (take (length n2 - 1) n2) (replicate (length n1 + length n2 - 1) 0)

-- With the longer number last: the result, and the contents afterwards. The test for 0 looks at
-- the first number twice.
unfoldable pub mul_sorted : (ℕ → List ℕ) → ℕ → ℕ → List ℕ × (ℕ → List ℕ)
unfolding negate_if negate_at_if mul_words trim
mul_sorted nums p q =
    let n1 = nums p in
    let n2 = nums q in
    let n1_sgn = last_word n1 in
    let n2_sgn = last_word n2 in
    let res_sgn = bit_xor n1_sgn n2_sgn in
    let there = negate_at_if n2_sgn (negate_at_if n1_sgn nums p) q in
    let result = negate_if res_sgn (mul_words (there p) (there q)) in
    if (length n1 == 2 && get_or n1 0 0 == 0) || (length n1 == 2 && get_or n1 0 0 == 0)
    then (0 ∷ 0 ∷ [], nums)
    else (
      trim res_sgn (length n1 + length n2 - 1 - 1) result,
      negate_at_if n2_sgn (negate_at_if n1_sgn there p) q,
    )

unfoldable pub num_mul : (ℕ → List ℕ) → ℕ → ℕ → List ℕ × (ℕ → List ℕ)
unfolding mul_sorted
num_mul nums num1 num2 =
    if ltb (length (nums num2)) (length (nums num1))
    then mul_sorted nums num2 num1
    else mul_sorted nums num1 num2
