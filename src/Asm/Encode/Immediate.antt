-- ===== src/Asm/Encode/Immediate.antt =====
-- Immediate values: the assembler's two's complement and the interpreter's sign extension.
use lisp_machine.Common.{ℕ, ◌+◌, ◌-◌, ◌*◌, ◌/◌, ◌%◌, ◌^◌, ◌<◌, Bool, true, false}
use lisp_machine.Common.{ltb, if◌then◌else◌, List, ◌∷◌, ◌≡◌, refl, ◌∙◌}
use lisp_machine.Common.{arith}
use lisp_machine.Word.{add_word, sub_word, not_word}
use lisp_machine.Word.Bits.{bit_or_fields, bit_and_mask, bit_and_shifted, bit_or_comm}
use lisp_machine.Asm.{get_flx_op_mask}
use lisp_machine.Asm.Encode.{immediate, opcode_of, uses_reg, immediate_of, args_of, read_args}
use lisp_machine.Asm.Encode.Laws.{two_regs_imm, two_regs_imm_sum, opcode_of_lem, uses_reg_lem}

mask_of_three : get_flx_op_mask 3 ≡ 2 ^ 46 - 1
unfolding get_flx_op_mask
mask_of_three = refl

-- The 46 bits of the value.
immediate_lem :
    (neg : Bool) (v : ℕ)
    → v < 2 ^ 45
    → immediate 3 neg v ≡ (if neg then (2 ^ 64 - v) % 2 ^ 46 else v)
unfolding immediate get_flx_op_mask
immediate_lem true v h = omega (arith, bit_and_mask 46 (add_word (not_word v) 1))
immediate_lem false v h = refl

-- Sign extension of the 46 lowest bits.
immediate_of_lem :
    (w : ℕ)
    → immediate_of w 3
      ≡ (let imm = w % 2 ^ 46 in if ltb imm (2 ^ 45) then imm else 2 ^ 64 - 2 ^ 46 + imm)
unfolding immediate_of get_flx_op_mask
immediate_of_lem w = ground (
  arith,
  bit_and_mask 46 w,
  bit_and_shifted 45 (w % 2 ^ 46) 1,
  bit_and_mask 1 (w % 2 ^ 46 / 2 ^ 45),
  bit_or_comm (w % 2 ^ 46) ((2 ^ 18 - 1) * 2 ^ 46),
  bit_or_fields 46 (2 ^ 18 - 1) (w % 2 ^ 46) (omega arith),
)

read_two :
    (w x y : ℕ) (rest : List ℕ) → read_args 2 w (x ∷ y ∷ rest) ≡ w / 2 ^ 5 % 32 ∷ w % 32 ∷ rest
unfolding read_args
read_two w x y rest = ground (arith, bit_and_mask 5 w, bit_and_mask 5 (w / 2 ^ 5))

-- What the assembler builds from an opcode, two registers and a value of at most 45 bits with
-- its sign, the interpreter reads back, with the value as a 64-bit two's complement.
pub decode_two_regs_imm :
    (op a b : ℕ) (neg : Bool) (v x y : ℕ) (rest : List ℕ)
    → op < 128
    → a < 32
    → b < 32
    → v < 2 ^ 45
    → let w = two_regs_imm op a b (immediate 3 neg v) in
      (opcode_of w ≡ op)
      × (uses_reg w ≡ false)
      × (args_of 2 w (x ∷ y ∷ rest) ≡ a ∷ b ∷ rest)
      × (immediate_of w 3 ≡ (if neg then sub_word 0 v else v))
unfolding args_of
decode_two_regs_imm op a b neg v x y rest ho ha hb hv =
    let imm = immediate 3 neg v in
    let w = two_regs_imm op a b imm in
    let value = immediate_lem neg v hv in
    let small : imm < 2 ^ 46 = ground (arith, value) in
    let sum = two_regs_imm_sum op a b imm ho ha hb small in
    (
      omega (arith, opcode_of_lem w, sum),
      ground (arith, uses_reg_lem w, sum),
      read_two (w / 2 ^ 46) x y rest ∙ ground (arith, sum),
      ground (arith, immediate_of_lem w, sum, value),
    )
