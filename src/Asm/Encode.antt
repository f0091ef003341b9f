-- ===== src/Asm/Encode.antt =====
-- How `compile` of asm.c builds an instruction word, and how `run` takes it apart.
pub mod Laws
pub mod Immediate
use lisp_machine.Common.{ℕ, zero, suc, ◌+◌, ◌-◌, ◌*◌, ◌/◌, ◌%◌, ◌^◌, Bool, true, false, ◌==◌, not}
use lisp_machine.Common.{if◌then◌else◌, bit_and, bit_or, List, [], ◌∷◌, set}
use lisp_machine.Word.{max_word, add_word, not_word, shl, shr}
use lisp_machine.Asm.{bits, opcode_len, arg_size, opcode_start, num_regs, inst_mask, sign_bit}
use lisp_machine.Asm.{instr_uses_reg, get_flx_op_mask}

-- An instruction under construction: the bits below `instr_idx` are still free.
pub record Partial : Type 0 where
  pub instr : ℕ
  pub instr_idx : ℕ

unfoldable pub place_opcode : ℕ → Partial
place_opcode opcode = record { instr = shl opcode opcode_start; instr_idx = opcode_start }

unfoldable pub place_reg : Partial → ℕ → Partial
place_reg p reg =
    let idx = p.instr_idx - arg_size in
    record { instr = bit_or p.instr (shl reg idx); instr_idx = idx }

-- The last argument as a register, or as an immediate value with its sign.
unfoldable pub place_last_reg : Partial → ℕ → ℕ
unfolding place_reg
place_last_reg p reg = bit_or (place_reg p reg).instr instr_uses_reg

unfoldable pub immediate : ℕ → Bool → ℕ → ℕ
immediate n_args neg output =
    if neg then bit_and (add_word (not_word output) 1) (get_flx_op_mask n_args) else output

unfoldable pub place_immediate : Partial → ℕ → ℕ
place_immediate p imm = bit_or p.instr imm

-- The parts of an instruction as the interpreter reads them.
unfoldable pub opcode_of : ℕ → ℕ
opcode_of instr = shr (bit_and instr inst_mask) opcode_start

unfoldable pub uses_reg : ℕ → Bool
uses_reg instr = not (bit_and instr instr_uses_reg == 0)

-- The immediate value of an instruction with `n_args` arguments, sign extended.
unfoldable pub immediate_of : ℕ → ℕ → ℕ
immediate_of instr n_args =
    let idx = opcode_len + (n_args - 1) * arg_size in
    let imm = bit_and instr (get_flx_op_mask n_args) in
    if bit_and imm (shr sign_bit idx) == 0 then imm else bit_or imm (shl max_word (bits - idx))

-- The loop that reads the `n` register arguments, the last one first: `args[i - 1]` takes the
-- lowest bits, for `i` from `n` down to 1.
unfoldable pub read_args : ℕ → ℕ → List ℕ → List ℕ
read_args zero instr args = args
read_args (suc i) instr args =
    read_args i (shr instr arg_size) (set args i (bit_and instr (2 ^ arg_size - 1)))

unfoldable pub args_of : ℕ → ℕ → List ℕ → List ℕ
args_of n_args instr args =
    read_args n_args (shr instr (bits - (opcode_len + n_args * arg_size))) args
