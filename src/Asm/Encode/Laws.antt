-- ===== src/Asm/Encode/Laws.antt =====
-- The interpreter reads back what the assembler has put into an instruction word.
use lisp_machine.Common.{ℕ, ◌+◌, ◌*◌, ◌/◌, ◌%◌, ◌^◌, ◌<◌, true}
use lisp_machine.Common.{◌==◌, not, bit_or, List, ◌∷◌, ◌≡◌, ap, ◌∙◌, arith}
use lisp_machine.Word.{shl}
use lisp_machine.Word.Bits.{bit_or_fields, bit_and_mask, bit_and_shifted, bit_or_comm}
use lisp_machine.Asm.{instr_uses_reg}
use lisp_machine.Asm.Encode.{Partial, place_opcode, place_reg, place_last_reg}
use lisp_machine.Asm.Encode.{place_immediate, opcode_of, uses_reg, args_of, read_args}

-- The word of an instruction with register operands, and of one with an immediate value.
abbrev pub three_regs : ℕ → ℕ → ℕ → ℕ → ℕ
three_regs op a b c = place_last_reg (place_reg (place_reg (place_opcode op) a) b) c

abbrev pub two_regs_imm : ℕ → ℕ → ℕ → ℕ → ℕ
two_regs_imm op a b imm = place_immediate (place_reg (place_reg (place_opcode op) a) b) imm

-- A partial instruction whose fields so far make up the number `q`.
abbrev fields : ℕ → ℕ → Partial
fields q idx = record { instr = q * 2 ^ idx; instr_idx = idx }

place_opcode-fields : (op : ℕ) → op < 128 → place_opcode op ≡ fields op 56
unfolding place_opcode
place_opcode-fields op h = ap (λ t. record { instr = t; instr_idx = 56 }) (omega arith)

-- A field of `w` bits behind the others.
append_field :
    (k w q r : ℕ)
    → r * 2 ^ k < 2 ^ (w + k)
    → shl r k ≡ r * 2 ^ k
    → bit_or (q * 2 ^ (w + k)) (shl r k) ≡ q * 2 ^ (w + k) + r * 2 ^ k
append_field k w q r small fits =
    ap (λ t. bit_or (q * 2 ^ (w + k)) t) fits ∙ bit_or_fields (w + k) q (r * 2 ^ k) small

place_reg_first : (q r : ℕ) → r < 32 → place_reg (fields q 56) r ≡ fields (q * 32 + r) 51
unfolding place_reg
place_reg_first q r h =
    ap (λ t. record { instr = t; instr_idx = 51 })
      (append_field 51 5 q r (omega arith) (omega arith) ∙ omega arith)

place_reg_second : (q r : ℕ) → r < 32 → place_reg (fields q 51) r ≡ fields (q * 32 + r) 46
unfolding place_reg
place_reg_second q r h =
    ap (λ t. record { instr = t; instr_idx = 46 })
      (append_field 46 5 q r (omega arith) (omega arith) ∙ omega arith)

place_reg_third : (q r : ℕ) → r < 32 → place_reg (fields q 46) r ≡ fields (q * 32 + r) 41
unfolding place_reg
place_reg_third q r h =
    ap (λ t. record { instr = t; instr_idx = 41 })
      (append_field 41 5 q r (omega arith) (omega arith) ∙ omega arith)

two_regs_fields :
    (op a b : ℕ)
    → op < 128
    → a < 32
    → b < 32
    → place_reg (place_reg (place_opcode op) a) b ≡ fields ((op * 32 + a) * 32 + b) 46
two_regs_fields op a b ho ha hb =
    ap (λ p. place_reg (place_reg p a) b) (place_opcode-fields op ho)
    ∙ ap (λ p. place_reg p b) (place_reg_first op a ha)
    ∙ place_reg_second (op * 32 + a) b hb

three_regs_sum :
    (op a b c : ℕ)
    → op < 128
    → a < 32
    → b < 32
    → c < 32
    → three_regs op a b c ≡ 2 ^ 63 + ((((op * 32 + a) * 32 + b) * 32 + c) * 2 ^ 41)
unfolding place_last_reg
three_regs_sum op a b c ho ha hb hc =
    let q = ((op * 32 + a) * 32 + b) * 32 + c in
    ap (λ p. bit_or (place_reg p c).instr instr_uses_reg) (two_regs_fields op a b ho ha hb)
    ∙ ap (λ p. bit_or p.instr instr_uses_reg) (place_reg_third ((op * 32 + a) * 32 + b) c hc)
    ∙ bit_or_comm (q * 2 ^ 41) (2 ^ 63)
    ∙ bit_or_fields 63 1 (q * 2 ^ 41) (omega arith)

pub two_regs_imm_sum :
    (op a b imm : ℕ)
    → op < 128
    → a < 32
    → b < 32
    → imm < 2 ^ 46
    → two_regs_imm op a b imm ≡ ((op * 32 + a) * 32 + b) * 2 ^ 46 + imm
unfolding place_immediate
two_regs_imm_sum op a b imm ho ha hb hi =
    ap (λ p. bit_or p.instr imm) (two_regs_fields op a b ho ha hb)
    ∙ bit_or_fields 46 ((op * 32 + a) * 32 + b) imm hi

-- The interpreter's view of any word, as arithmetic.
pub opcode_of_lem : (w : ℕ) → opcode_of w ≡ w / 2 ^ 56 % 128
unfolding opcode_of
opcode_of_lem w = omega (arith, bit_and_shifted 56 w 127, bit_and_mask 7 (w / 2 ^ 56))

pub uses_reg_lem : (w : ℕ) → uses_reg w ≡ not (w / 2 ^ 63 % 2 == 0)
unfolding uses_reg
uses_reg_lem w = ground (arith, bit_and_shifted 63 w 1, bit_and_mask 1 (w / 2 ^ 63))

-- The three lowest fields of five bits.
read_three :
    (w x y z : ℕ) (rest : List ℕ)
    → read_args 3 w (x ∷ y ∷ z ∷ rest) ≡ w / 2 ^ 10 % 32 ∷ w / 2 ^ 5 % 32 ∷ w % 32 ∷ rest
unfolding read_args
read_three w x y z rest =
    ground (arith, bit_and_mask 5 w, bit_and_mask 5 (w / 2 ^ 5), bit_and_mask 5 (w / 2 ^ 5 / 2 ^ 5))

-- What the assembler builds from an opcode and three registers, the interpreter reads back.
pub decode_three_regs :
    (op a b c : ℕ) (x y z : ℕ) (rest : List ℕ)
    → op < 128
    → a < 32
    → b < 32
    → c < 32
    → let w = three_regs op a b c in
      (opcode_of w ≡ op) × (uses_reg w ≡ true) × (args_of 3 w (x ∷ y ∷ z ∷ rest) ≡ a ∷ b ∷ c ∷ rest)
unfolding args_of
decode_three_regs op a b c x y z rest ho ha hb hc =
    let w = three_regs op a b c in
    let sum = three_regs_sum op a b c ho ha hb hc in
    (
      omega (arith, opcode_of_lem w, sum),
      ground (arith, uses_reg_lem w, sum),
      read_three (w / 2 ^ 41) x y z rest ∙ ground (arith, sum),
    )
