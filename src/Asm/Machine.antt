-- ===== src/Asm/Machine.antt =====
-- The state of `run` of asm.c, and its accesses to registers and memory.
use lisp_machine.Common.{ℕ, ◌+◌, ◌*◌, ◌/◌, ◌%◌, ◌^◌, ◌==◌, if◌then◌else◌, List, get_or}
use lisp_machine.Common.{set, bit_or}
use lisp_machine.Word.{word_mod, mul_word, add_word, shr}
use lisp_machine.ConcurrentFifo.{ConcurrentFifo}

-- `regs` holds the registers and the secret one behind them, `args` the operands of the last
-- instruction, `exc_num` the buffer for an exception. Memory is addressed by the word: every
-- address that the interpreter forms is a multiple of 8.
pub record Machine : Type 0 where
  pub regs : List ℕ
  pub args : List ℕ
  pub exc_num : List ℕ
  pub mem : ℕ → ℕ
  pub fifo : ConcurrentFifo

abbrev pub reg : Machine → ℕ → ℕ
reg m i = get_or m.regs i 0

abbrev pub set_reg : Machine → ℕ → ℕ → Machine
set_reg m i v = record m { regs = set m.regs i v }

abbrev pub arg : Machine → ℕ → ℕ
arg m i = get_or m.args i 0

-- The value of the register that the `i`-th operand names.
abbrev pub operand : Machine → ℕ → ℕ
operand m i = reg m (arg m i)

-- The word at byte address `sizeof(word) * r`.
abbrev pub word_at : ℕ → ℕ
word_at r = mul_word 8 r / 8

unfoldable pub update : (ℕ → ℕ) → ℕ → ℕ → ℕ → ℕ
update mem a v j = if j == a then v else mem j

abbrev pub store : Machine → ℕ → ℕ → Machine
store m a v = record m { mem = update m.mem a v }

-- A word is read and written as two `uint32_t`, the lower one first.
unfoldable pub load_halves : (ℕ → ℕ) → ℕ → ℕ
load_halves mem a =
    let lower = mem a % 2 ^ 32 in
    let upper = mem a / 2 ^ 32 in bit_or lower (upper * 2 ^ 32 % word_mod)

abbrev pub store_low : (ℕ → ℕ) → ℕ → ℕ → ℕ → ℕ
store_low mem a l = update mem a (mem a / 2 ^ 32 * 2 ^ 32 + l)

abbrev pub store_high : (ℕ → ℕ) → ℕ → ℕ → ℕ → ℕ
store_high mem a u = update mem a (u * 2 ^ 32 + mem a % 2 ^ 32)

unfoldable pub store_halves : (ℕ → ℕ) → ℕ → ℕ → ℕ → ℕ
unfolding update
store_halves mem a v =
    let l = v % 2 ^ 32 in let u = shr v 32 % 2 ^ 32 in store_high (store_low mem a l) a u

-- The address of `ldr` and `str`, from two registers.
abbrev pub indexed : ℕ → ℕ → ℕ
indexed x y = add_word (mul_word 8 x) (mul_word 8 y) / 8
