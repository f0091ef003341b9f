-- ===== src/Asm.antt =====
-- The assembler and the bytecode interpreter of asm.c: what both share, which is the layout of
-- an instruction, the registers and the table of the instructions.
pub mod Reg
pub mod Lex
pub mod Encode
pub mod Compile
pub mod Machine
pub mod Run
use lisp_machine.Common.{ℕ, zero, suc, ◌+◌, ◌-◌, ◌*◌, ◌/◌, ◌^◌, Option, none, some, List, [], ◌∷◌}
use lisp_machine.Common.{get_elem?}
use lisp_machine.Word.{max_word, shr}

abbrev pub bits : ℕ
bits = 64

-- How many bits encode the opcode, and how many a register.
abbrev pub opcode_len : ℕ
opcode_len = 8

abbrev pub arg_size : ℕ
arg_size = 5

abbrev pub opcode_start : ℕ
opcode_start = bits - opcode_len

abbrev pub num_regs : ℕ
num_regs = 2 ^ arg_size

-- All bits of the opcode but the leftmost, which tells whether the last argument is a register.
abbrev pub inst_mask : ℕ
inst_mask = (2 ^ (opcode_len - 1) - 1) * 2 ^ opcode_start

abbrev pub sign_bit : ℕ
sign_bit = 2 ^ (bits - 1)

abbrev pub exc_cont_mask : ℕ
exc_cont_mask = sign_bit

abbrev pub instr_uses_reg : ℕ
instr_uses_reg = sign_bit

abbrev pub mx_reg_args : ℕ
mx_reg_args = opcode_start / arg_size - 1

-- `enum opcodes`
pub data Opcode : Type 0 where
  acx ads sbs mls mlu dvs dvu and orr xor nor shf ldr str jnc exc : Opcode

-- `op_data`, the name without its terminator.
pub record OpData : Type 0 where
  pub opcode : Opcode
  pub n_args : ℕ
  pub name : List ℕ

unfoldable pub op_data : Opcode → ℕ → ℕ → ℕ → ℕ → OpData
op_data o n a b c = record { opcode = o; n_args = n; name = a ∷ b ∷ c ∷ [] }

-- The table, in the order of the enumeration.
unfoldable pub instructions : List OpData
unfolding op_data
instructions =
    op_data acx 3 b'a' b'c' b'x'
    ∷ op_data ads 3 b'a' b'd' b's'
    ∷ op_data sbs 3 b's' b'b' b's'
    ∷ op_data mls 3 b'm' b'l' b's'
    ∷ op_data mlu 3 b'm' b'l' b'u'
    ∷ op_data dvs 3 b'd' b'v' b's'
    ∷ op_data dvu 3 b'd' b'v' b'u'
    ∷ op_data and 3 b'a' b'n' b'd'
    ∷ op_data orr 3 b'o' b'r' b'r'
    ∷ op_data xor 3 b'x' b'o' b'r'
    ∷ op_data nor 3 b'n' b'o' b'r'
    ∷ op_data shf 3 b's' b'h' b'f'
    ∷ op_data ldr 3 b'l' b'd' b'r'
    ∷ op_data str 3 b's' b't' b'r'
    ∷ op_data jnc 3 b'j' b'n' b'c'
    ∷ op_data exc 1 b'e' b'x' b'c'
    ∷ []

-- `none` for an index past the table's end.
abbrev pub instruction : ℕ → Option OpData
instruction i = get_elem? instructions i

-- The bits left for the last argument of an instruction with `n` arguments.
unfoldable pub get_flx_op_mask : ℕ → ℕ
get_flx_op_mask n = shr max_word (opcode_len + (n - 1) * arg_size)
