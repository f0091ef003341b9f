-- ===== src/Num/Text.antt =====
-- `str_to_num`, `num_to_str` and `word_to_num` of datastructures.c, on the contents of strings and
-- numbers. A string is a list of character codes, one to a word.
pub mod Digits
pub mod Parse
pub mod Print
use lisp_machine.Common.{ℕ, zero, suc, ◌+◌, ◌-◌, ◌*◌, ◌/◌, ◌%◌, Bool, leb, ◌==◌, not, ◌&&◌, ◌||◌}
use lisp_machine.Common.{if◌then◌else◌, Option, none, some, List, [], ◌∷◌, ◌++◌, length, get_or}
use lisp_machine.Common.{take, drop, replicate, bit_or}
use lisp_machine.Word.{shl}
use lisp_machine.Util.Digits.{uintn_to_str}
use lisp_machine.Num.{num_negate}
use lisp_machine.Num.Value.{last_word}

-- A hexadecimal digit in either case: `chr - offset`.
unfoldable pub hex_val : ℕ → Option ℕ
hex_val chr =
    if leb chr b'f' && leb b'a' chr
    then some (chr - (b'a' - 10))
    else if leb chr b'F' && leb b'A' chr
    then some (chr - (b'A' - 10))
    else if leb chr b'9' && leb b'0' chr
    then some (chr - b'0')
    else none

-- The loops on `os` and on `index`.
unfoldable pub scan_word : ℕ → List ℕ → Option ℕ
unfolding hex_val
scan_word current [] = some current
scan_word current (chr ∷ arr) = elim (hex_val chr) [
  | none ↦ none
  | some d ↦ scan_word (bit_or (shl current 4) d) arr
]

-- The loop on `i`, from the last 16 digits to the first: `rounds` words are left.
unfoldable pub scan_words : List ℕ → ℕ → ℕ → Option (List ℕ)
unfolding scan_word
scan_words arr os zero = some []
scan_words arr os (suc rounds) = elim (scan_word 0 (take 16 (drop (rounds * 16 + os) arr))) [
  | none ↦ none
  | some w ↦ elim (scan_words arr os rounds) [ none ↦ none | some ws ↦ some (w ∷ ws) ]
]

-- The digits behind the sign, at least one.
unfoldable pub digits_to_num : List ℕ → Option (List ℕ)
unfolding scan_words
digits_to_num arr =
    let size = length arr / 16 in
    let os = length arr % 16 in
    elim (scan_word 0 (take os arr)) [
      | none ↦ none
      | some c ↦ elim (scan_words arr os size) [
        | none ↦ none
        | some ws ↦ some (
            (if not (c == 0) || not (not (size == 0) || not (c == 0)) then ws ++ c ∷ [] else ws)
            ++ 0 ∷ [])
      ]
    ]

-- None for the result 0.
unfoldable pub str_to_num : List ℕ → Option (List ℕ)
unfolding digits_to_num
str_to_num [] = none
str_to_num (chr ∷ arr) =
    if chr == b'-'
    then (elim arr [
      | [] ↦ none
      | d ∷ ds ↦ elim (digits_to_num (d ∷ ds)) [ none ↦ none | some n ↦ some (num_negate n) ]
    ])
    else digits_to_num (chr ∷ arr)

unfoldable pub word_to_num : ℕ → List ℕ
word_to_num w = w ∷ 0 ∷ []

-- The text of one word. The buffer has 17 words, so that no word is refused.
unfoldable pub word_text : ℕ → List ℕ
word_text w = elim (uintn_to_str 17 w 16) [ none ↦ [] | some t ↦ t ]

unfoldable pub padded_text : ℕ → List ℕ
unfolding word_text
padded_text w = replicate (16 - length (word_text w)) b'0' ++ word_text w

-- The loop from the word below the highest one down.
unfoldable pub lower_text : List ℕ → ℕ → List ℕ
unfolding padded_text
lower_text n zero = []
lower_text n (suc i) = padded_text (get_or n i 0) ++ lower_text n i

unfoldable pub num_to_str : List ℕ → List ℕ
unfolding lower_text
num_to_str num =
    let last = last_word num in
    let n = if last == 0 then num else num_negate num in
    (if last == 0 then [] else b'-' ∷ [])
    ++ (word_text (get_or n (length n - 2) 0) ++ lower_text n (length n - 2))
