-- ===== src/Num/Logic.antt =====
-- The bitwise operators on big numbers of datastructures.c, and the accesses to memory.
use lisp_machine.Common.{ℕ, ◌-◌, ltb, ◌==◌, if◌then◌else◌, List, [], ◌∷◌, ◌++◌, length}
use lisp_machine.Common.{take, get_or, map, bit_and, bit_or, bit_xor}
use lisp_machine.Word.{not_word}
use lisp_machine.Util.{umin}
use lisp_machine.Num.Shift.{drop_zeros}
use lisp_machine.Num.Text.{word_to_num}

-- The loop of the three operators: the words of the first number, up to the end of the second.
unfoldable pub combine : (ℕ → ℕ → ℕ) → List ℕ → List ℕ → List ℕ
combine op [] ys = []
combine op (x ∷ xs) [] = x ∷ xs
combine op (x ∷ xs) (y ∷ ys) = op x y ∷ combine op xs ys

unfoldable pub num_and : List ℕ → List ℕ → List ℕ
unfolding combine drop_zeros umin
num_and n1 n2 =
    let sz = umin (length n1) (length n2) in
    drop_zeros (combine bit_and (take sz n1) (take sz n2) ++ 0 ∷ [])

-- The exchange of a shorter first number: `n2 = n1` comes before `n1 = tmp`, so that both are the
-- first one. The result is the second operand of the loop.
unfoldable pub second_operand : List ℕ → List ℕ → List ℕ
second_operand n1 n2 = if ltb (length n1) (length n2) then n1 else n2

unfoldable pub num_or : List ℕ → List ℕ → List ℕ
unfolding combine second_operand
num_or n1 n2 = combine bit_or n1 (second_operand n1 n2)

unfoldable pub num_xor : List ℕ → List ℕ → List ℕ
unfolding combine second_operand
num_xor n1 n2 = combine bit_xor n1 (second_operand n1 n2)

unfoldable pub num_not : List ℕ → List ℕ
num_not n = map (λ w. not_word w) n

-- `num_ldr` and `num_store`, with memory by the address.
unfoldable pub num_ldr : (ℕ → ℕ) → List ℕ → List ℕ
unfolding word_to_num
num_ldr mem n = word_to_num (mem (get_or n 0 0))

unfoldable pub store_from : (ℕ → ℕ) → List ℕ → List ℕ → ℕ → ℕ
store_from mem [] ws = mem
store_from mem (a ∷ as') [] = mem
store_from mem (a ∷ as') (w ∷ ws) = store_from (λ j. if j == a then w else mem j) as' ws

-- The words of the second number without its sign word go to the addresses of the first one, which
-- has as many words.
unfoldable pub num_store : (ℕ → ℕ) → List ℕ → List ℕ → ℕ → ℕ
unfolding store_from
num_store mem n1 n2 = store_from mem n1 (take (length n2 - 1) n2)
