-- ===== src/Tests/AsmTests.antt =====
-- The assembler at work.
use lisp_machine.Common.{ℕ, ◌+◌, ◌≤◌, ◌<◌, ◌≡◌, refl, some, Option, List, [], ◌∷◌}
use lisp_machine.Common.{true, false, arith}
use lisp_machine.Word.{sub_word}
use lisp_machine.Memory.{Block}
use lisp_machine.Memory.Bump.{bump}
use lisp_machine.Asm.Lex.{expect_hex_from_str, hex_digits, hex_digit}
use lisp_machine.Asm.Lex.Laws.{expect_hex_from_str_lem}
use lisp_machine.Asm.Encode.{immediate, opcode_of, uses_reg, immediate_of, args_of}
use lisp_machine.Asm.Encode.Laws.{three_regs, two_regs_imm, decode_three_regs}
use lisp_machine.Asm.Encode.Immediate.{decode_two_regs_imm}
use lisp_machine.Asm.Compile.{compile}
use lisp_machine.Asm.Compile.Total.{compile-returns}
use Prim.Native.String.{String}
use Prim.Native.Char.{code}

abbrev codes : String → List ℕ
codes String.[] = []
codes (String.◌∷◌ c s) = code c ∷ codes s

abbrev text : List ℕ
text = codes "ads r1 r2 r3 ads r1 r2 -1 foo 12 jnc r1f r0 foo "

compile-returns_example : (r : Option Block × ℕ) × compile bump text 48 100 ≡ some r
compile-returns_example = compile-returns bump text 48 100

expect_hex_from_str_lem_example :
    (0 < (expect_hex_from_str (codes "1f ") 3 0 255 0).idx)
    × ((expect_hex_from_str (codes "1f ") 3 0 255 0).idx ≤ 0 + 16)
    × ((expect_hex_from_str (codes "1f ") 3 0 255 0).output ≤ 255)
    × ((0 ≤ 3) → (expect_hex_from_str (codes "1f ") 3 0 255 0).idx ≤ 3)
unfolding expect_hex_from_str hex_digits hex_digit
expect_hex_from_str_lem_example = expect_hex_from_str_lem (codes "1f ") 3 0 255 0 refl

-- `ads r1 r2 r3`
decode_three_regs_example :
    (opcode_of (three_regs 1 1 2 3) ≡ 1)
    × (uses_reg (three_regs 1 1 2 3) ≡ true)
    × (args_of 3 (three_regs 1 1 2 3) (0 ∷ 0 ∷ 0 ∷ 0 ∷ []) ≡ 1 ∷ 2 ∷ 3 ∷ 0 ∷ [])
decode_three_regs_example =
    decode_three_regs 1 1 2 3 0 0 0 (0 ∷ []) (omega arith) (omega arith) (omega arith) (omega arith)

-- `ads r1 r2 -5`
decode_two_regs_imm_example :
    (opcode_of (two_regs_imm 1 1 2 (immediate 3 true 5)) ≡ 1)
    × (uses_reg (two_regs_imm 1 1 2 (immediate 3 true 5)) ≡ false)
    × (args_of 2 (two_regs_imm 1 1 2 (immediate 3 true 5)) (0 ∷ 0 ∷ 7 ∷ []) ≡ 1 ∷ 2 ∷ 7 ∷ [])
    × (immediate_of (two_regs_imm 1 1 2 (immediate 3 true 5)) 3 ≡ sub_word 0 5)
decode_two_regs_imm_example =
    decode_two_regs_imm 1 1 2 true 5 0 0 (7 ∷ []) (omega arith) (omega arith) (omega arith)
      (omega arith)
