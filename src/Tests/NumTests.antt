-- ===== src/Tests/NumTests.antt =====
-- The big numbers at work.
use lisp_machine.Common.{
  ℕ, ◌-◌, ◌*◌, ◌^◌, ◌≡◌, ◌≢◌, ◌↔◌, refl, List, [], ◌∷◌, length, arith, inl, inr,
}
use lisp_machine.Common.Int.{neg, ◌<ℤ◌}
use lisp_machine.Common.{if◌then◌else◌, ◌==◌}
use lisp_machine.Num.{num_negate}
use lisp_machine.Num.Store.{negate_if, negate_at_if}
use lisp_machine.Num.Mul.{mul_sorted, mul_words, mul_rows}
use lisp_machine.Num.Value.{IsNum, signed}
use lisp_machine.Num.Negate.{IsLeast, num_negate_lem}
use lisp_machine.Num.Add.{num_add}
use lisp_machine.Num.Add.Laws.{num_add_lem, IsSum}
use lisp_machine.Num.Le.{num_le, num_le_lem}
use lisp_machine.Num.Mul.{num_mul}
use lisp_machine.Num.Mul.Laws.{num_mul_lem, IsProduct}
use lisp_machine.Num.Text.{str_to_num, num_to_str}
use lisp_machine.Num.Text.Parse.{Reads, text_value, str_to_num_lem}
use lisp_machine.Num.Text.Print.{str_to_num-num_to_str}
use lisp_machine.Num.Shift.{num_shift_left, num_shift_right}
use lisp_machine.Num.Logic.{num_or}
use lisp_machine.Common.{some}

-- 7 * 2 ^ 64.
abbrev big : List ℕ
big = 0 ∷ 7 ∷ 0 ∷ []

-- -3.
abbrev minus_three : List ℕ
minus_three = (2 ^ 64 - 3) ∷ (2 ^ 64 - 1) ∷ []

big-IsNum : IsNum big
big-IsNum = record { words = omega arith; long = omega arith; sign = inl refl }

minus_three-IsNum : IsNum minus_three
minus_three-IsNum = record { words = omega arith; long = omega arith; sign = inr refl }

big-ne-IsLeast : ¬ IsLeast big
big-ne-IsLeast h = omega (arith, h)

minus_three-ne-IsLeast : ¬ IsLeast minus_three
minus_three-ne-IsLeast h = omega (arith, h)

num_negate_lem_example :
    IsNum (num_negate big)
    × ((length (num_negate big) ≡ length big) × (signed (num_negate big) ≡ neg (signed big)))
num_negate_lem_example = num_negate_lem big big-IsNum big-ne-IsLeast

num_add_lem_example : IsSum minus_three big (num_add minus_three big)
num_add_lem_example = num_add_lem minus_three big minus_three-IsNum big-IsNum

-- The big number at address 2, and -3 at all others.
abbrev nums : ℕ → List ℕ
nums p = if p == 2 then big else minus_three

one_ne_two : ◌≢◌ {A = ℕ} 1 2
one_ne_two h = omega (arith, h)

two_ne_one : ◌≢◌ {A = ℕ} 2 1
two_ne_one h = omega (arith, h)

num_le_lem_example :
    (((num_le nums 1 2).0 ≢ 0) ↔ (signed (nums 1) <ℤ signed (nums 2)))
    × ((x : ℕ) → (num_le nums 1 2).1 x ≡ nums x)
num_le_lem_example = num_le_lem nums 1 2 one_ne_two minus_three-IsNum big-IsNum big-ne-IsLeast

num_mul_lem_example :
    IsProduct (nums 2) (nums 1) (num_mul nums 2 1).0 × ((x : ℕ) → (num_mul nums 2 1).1 x ≡ nums x)
num_mul_lem_example =
    num_mul_lem nums 2 1 two_ne_one big-IsNum minus_three-IsNum big-ne-IsLeast
      minus_three-ne-IsLeast

-- One object twice: -3 is negated twice before the product is made, and 7 * 2 ^ 64 comes out as
-- less than itself.
squared : (num_mul nums 1 1).0 ≡ 9 ∷ (2 ^ 64 - 3) ∷ 0 ∷ []
unfolding num_mul mul_sorted negate_at_if negate_if num_negate mul_words mul_rows
squared = refl

less_than_itself : (num_le nums 2 2).0 ≡ 2 ^ 64 - 1
unfolding num_le num_add num_negate
less_than_itself = refl

-- "-1F".
abbrev text : List ℕ
text = b'-' ∷ b'1' ∷ b'F' ∷ []

str_to_num_lem_example : Reads (str_to_num text) (text_value text)
str_to_num_lem_example = str_to_num_lem text

text_read : str_to_num text ≡ some ((2 ^ 64 - 31) ∷ (2 ^ 64 - 1) ∷ [])
unfolding str_to_num num_negate
text_read = refl

str_to_num-num_to_str_example :
    (m : List ℕ) × ((str_to_num (num_to_str minus_three) ≡ some m)
      × (IsNum m × (signed m ≡ signed minus_three)))
str_to_num-num_to_str_example =
    str_to_num-num_to_str minus_three minus_three-IsNum minus_three-ne-IsLeast

-- 3 * 2 ^ 62 up by a word and two bits is 3 * 2 ^ 128, and back.
shift_up_and_down :
    (num_shift_left (3 * 2 ^ 62 ∷ 0 ∷ []) (9 ∷ 9 ∷ []) 66 ≡ 0 ∷ 0 ∷ 3 ∷ 0 ∷ [])
    × (num_shift_right (0 ∷ 0 ∷ 3 ∷ 0 ∷ []) 66 ≡ 3 * 2 ^ 62 ∷ 0 ∷ [])
unfolding num_shift_left num_shift_right
shift_up_and_down = (refl, refl)

-- 2 ^ 127 - 1, up by one bit: the word of ones becomes the sign.
shifted_negative :
    num_shift_left ((2 ^ 64 - 1) ∷ (2 ^ 63 - 1) ∷ 0 ∷ []) (0 ∷ 0 ∷ []) 1
    ≡ (2 ^ 64 - 2) ∷ (2 ^ 64 - 1) ∷ []
unfolding num_shift_left
shifted_negative = refl

-- The shorter number comes first, and the longer one is not looked at.
or_shorter : num_or (1 ∷ 0 ∷ []) (2 ∷ 4 ∷ 0 ∷ []) ≡ 1 ∷ 0 ∷ []
unfolding num_or
or_shorter = refl
