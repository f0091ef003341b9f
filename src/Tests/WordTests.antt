-- ===== src/Tests/WordTests.antt =====
-- The helpers on words, digits and big numbers at work.
use lisp_machine.Common.{ℕ, ◌*◌, ◌≡◌, List, [], ◌∷◌, some, arith}
use lisp_machine.Util.Digits.{uintn_to_str, uintn_to_str_lem, read_text}
use lisp_machine.Object.{Object}
use lisp_machine.Heap.Counts.{get_rc, get_tmp_rc, set_visited, reset_tmp_rc, visited, counts_apart}
use lisp_machine.Heap.Counts.{count_word}

-- Two blocks that differ at offset 5.
abbrev offsets : ℕ → ℕ
offsets i = i

abbrev squares : ℕ → ℕ
squares i = i * i

-- 255 in base 16.
uintn_to_str_lem_example :
    (t : List ℕ) × ((uintn_to_str 3 255 16 ≡ some t) × (read_text 16 t 0 ≡ 255))
uintn_to_str_lem_example =
    uintn_to_str_lem 16 (omega arith) (omega arith) 2 255 (omega arith) (omega arith)

-- A marked object with the counts 3 and 2.
counts_apart_example :
    (get_rc (set_visited (count_word 0 3 2) 1) ≡ 2)
    × ((get_tmp_rc (set_visited (count_word 0 3 2) 1) ≡ 3)
        × ((get_rc (reset_tmp_rc (count_word 0 3 2) 6) ≡ 2)
            × ((get_tmp_rc (reset_tmp_rc (count_word 0 3 2) 6) ≡ 6)
                × (visited (reset_tmp_rc (count_word 0 3 2) 6) ≡ 0))))
counts_apart_example =
    counts_apart 0 3 2 1 6 (omega arith) (omega arith) (omega arith) (omega arith)

-- Objects of two words that differ in the second one.
abbrev object : ℕ → Object
object w = record { max_sz = 6; refcount = 0; type = 0; contents = 1 ∷ w ∷ [] }
