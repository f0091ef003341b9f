-- ===== src/Util.antt =====
-- The arithmetic helpers of util.c.
pub mod Strings
pub mod Digits
use lisp_machine.Common.{ℕ, zero, suc, ltb, ◌==◌}
use lisp_machine.Common.{if◌then◌else◌, bit_and, bit_or, ◌%◌, ◌/◌, ◌*◌, ◌+◌, ◌-◌, ◌^◌}
use lisp_machine.Word.{sub_word, mul_word, ltb_signed, shr, shl, max_word}

-- `max` and `min` take their arguments as `sword`.
unfoldable pub max : ℕ → ℕ → ℕ
max x y = if ltb_signed x y then y else x

unfoldable pub umax : ℕ → ℕ → ℕ
umax x y = if ltb x y then y else x

unfoldable pub min : ℕ → ℕ → ℕ
min x y = if ltb_signed x y then x else y

unfoldable pub umin : ℕ → ℕ → ℕ
umin x y = if ltb x y then x else y

unfoldable pub abs : ℕ → ℕ
abs x = if bit_and (shr x 63) 1 == 0 then x else sub_word 0 x

-- `for (; exp; --exp) res *= base`
unfoldable pub pow_loop : ℕ → ℕ → ℕ → ℕ
pow_loop base zero res = res
pow_loop base (suc exp) res = pow_loop base exp (mul_word res base)

unfoldable pub nat_pow : ℕ → ℕ → ℕ
nat_pow base exp = pow_loop base exp 1

-- `memset`: the byte `c` at every offset below `n`; `i` is the offset that comes next.
unfoldable pub fill_from : (ℕ → ℕ) → ℕ → ℕ → ℕ → ℕ → ℕ
fill_from str c i zero = str
fill_from str c i (suc n) = fill_from (λ j. if j == i then c % 256 else str j) c (suc i) n

unfoldable pub memset : (ℕ → ℕ) → ℕ → ℕ → ℕ → ℕ
unfolding fill_from
memset str c n = fill_from str c 0 n

-- The source tests bit 7, as `sizeof(word)-1` is 7. The count is above 0 and below 64.
unfoldable pub arithmetic_shift_right : ℕ → ℕ → ℕ
arithmetic_shift_right val n =
    if bit_and val (2 ^ 7) == 0 then shr val n else bit_or (shr val n) (shl max_word (64 - n))

-- `atomic_cas`: the result, which is the old item, and the item that is in memory behind it.
unfoldable pub atomic_cas : ℕ → ℕ → ℕ → ℕ × ℕ
atomic_cas old cmp new = (old, if old == cmp then new else old)

-- `memcpy` on the first word of the destination, the only one that its rounds write: the whole
-- words copy the first word of the source, the bytes that are left its lowest byte.
unfoldable pub memcpy : ℕ → ℕ → ℕ → ℕ
memcpy dest src n =
    let dest1 = if n / 8 == 0 then dest else src in
    if n % 8 == 0 then dest1 else dest1 / 256 * 256 + src % 256
