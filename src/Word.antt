-- ===== src/Word.antt =====
-- `word` of config.h: an unsigned 64-bit integer, kept as a number below `2 ^ 64`.
-- The operators of C that wrap or act on bits are written out.
pub mod Bits
use lisp_machine.Common.{ℕ, ◌+◌, ◌-◌, ◌*◌, ◌/◌, ◌%◌, ◌^◌, Bool, true, false, ltb, leb, ◌==◌}
use lisp_machine.Common.{if◌then◌else◌}

abbrev pub word_mod : ℕ
word_mod = 2 ^ 64

abbrev pub max_word : ℕ
max_word = 2 ^ 64 - 1

-- Wrapping addition and subtraction.
abbrev pub add_word : ℕ → ℕ → ℕ
add_word a b = (a + b) % word_mod

abbrev pub sub_word : ℕ → ℕ → ℕ
sub_word a b = (a + word_mod - b) % word_mod

abbrev pub mul_word : ℕ → ℕ → ℕ
mul_word a b = (a * b) % word_mod

-- `~a`
abbrev pub not_word : ℕ → ℕ
not_word a = max_word - a

-- `a << k` and `a >> k`, for `k` below 64.
abbrev pub shl : ℕ → ℕ → ℕ
shl a k = (a * 2 ^ k) % word_mod

abbrev pub shr : ℕ → ℕ → ℕ
shr a k = a / 2 ^ k

-- The sign of the word read as an `sword`.
abbrev pub is_neg : ℕ → Bool
is_neg a = leb (2 ^ 63) a

-- `x < y` on `sword` operands.
abbrev pub ltb_signed : ℕ → ℕ → Bool
ltb_signed a b = ltb ((a + 2 ^ 63) % word_mod) ((b + 2 ^ 63) % word_mod)
