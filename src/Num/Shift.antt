-- ===== src/Num/Shift.antt =====
-- The shifts of datastructures.c, on the contents of the number, which has room for the words that
-- a shift to the left adds; `num_shift_right` needs one word at most.
use lisp_machine.Common.{ℕ, zero, suc, ◌-◌, ◌*◌, ◌/◌, ◌%◌, ltb, leb, ◌==◌, not, ◌&&◌, ◌||◌}
use lisp_machine.Common.{if◌then◌else◌, List, [], ◌∷◌, ◌++◌, length, get_or, take, drop, replicate}
use lisp_machine.Common.{bit_or}
use lisp_machine.Word.{max_word, shl, shr}
use lisp_machine.Num.Store.{negate_at_if}
use lisp_machine.Num.Value.{last_word}
use lisp_machine.Num.Add.{trim}

-- The zeros behind the first one go, and then a zero behind a word of ones.
unfoldable pub drop_zeros : List ℕ → List ℕ
unfolding trim
drop_zeros n =
    let m = trim 0 (length n - 1) n in
    if ltb 2 (length m) && (last_word m == 0 && get_or m (length m - 2) 0 == max_word)
    then take (length m - 1) m
    else m

-- The words shifted up by less than a word; `below` is the word before.
unfoldable pub shift_up : ℕ → List ℕ → List ℕ
shift_up shf [] = []
shift_up shf (w ∷ []) = []
shift_up shf (below ∷ w ∷ ws) = bit_or (shr below (64 - shf)) (shl w shf) ∷ shift_up shf (w ∷ ws)

-- The last loop of a shift to the left, over words that are there.
unfoldable pub zero_first : ℕ → List ℕ → List ℕ
zero_first zero ws = ws
zero_first (suc k) [] = []
zero_first (suc k) (w ∷ ws) = 0 ∷ zero_first k ws

-- The words behind the number are `room`; while the zeros go, the lowest words are still the old ones.
unfoldable pub num_shift_left : List ℕ → List ℕ → ℕ → List ℕ
unfolding drop_zeros shift_up zero_first
num_shift_left n room shf =
    let n_sgn = last_word n in
    let div = shf / 64 in
    let rem = shf % 64 in
    if not (rem == 0)
    then zero_first div (
        drop_zeros (
          take div (n ++ room)
          ++ (shl (get_or n 0 0) rem ∷ shift_up rem n)
          ++ (shr n_sgn (64 - rem) ∷ (if n_sgn == 0 then [] else 0 ∷ []))))
    else replicate div 0 ++ n

-- The words shifted down by less than a word, with the sign word shifted by itself.
unfoldable pub shift_down : ℕ → List ℕ → List ℕ
shift_down shf [] = []
shift_down shf (w ∷ []) = shr w shf ∷ []
shift_down shf (w ∷ above ∷ ws) =
    bit_or (shr w shf) (shl above (64 - shf)) ∷ shift_down shf (above ∷ ws)

unfoldable pub num_shift_right : List ℕ → ℕ → List ℕ
unfolding drop_zeros shift_down
num_shift_right n shf =
    let n_sz = length n in
    let n_sgn = last_word n in
    let div = shf / 64 in
    let rem = shf % 64 in
    if leb (n_sz * 8 * 8) shf
    then 0 ∷ 0 ∷ []
    else if not (rem == 0)
    then drop_zeros (
        shift_down rem (drop div n)
        ++ (if not (n_sgn == 0) || leb (n_sz - 1) div then 0 ∷ [] else []))
    else drop div n

-- The second number is the count, to the left where it is below 0; it is negated in place and
-- negated back, and the first number is copied in between. Counts of 0 and of more than a word
-- leave the first number as it is. The words behind the copy are `room`.
unfoldable pub num_shift : (ℕ → List ℕ) → List ℕ → ℕ → ℕ → List ℕ × (ℕ → List ℕ)
unfolding num_shift_left num_shift_right negate_at_if
num_shift nums room num1 num2 =
    let n2 = nums num2 in
    let negated = negate_at_if 1 nums num2 in
    if leb (length n2) 2 && get_or n2 0 0 == 0
    then (nums num1, nums)
    else if ltb 2 (length n2)
    then (nums num1, nums)
    else if not (last_word n2 == 0)
    then (
      num_shift_left (negated num1) room (get_or (negated num2) 0 0),
      negate_at_if 1 negated num2,
    )
    else (num_shift_right (nums num1) (get_or n2 0 0), nums)
