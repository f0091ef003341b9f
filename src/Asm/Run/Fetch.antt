-- ===== src/Asm/Run/Fetch.antt =====
-- One round of `run` on an instruction that the assembler has built.
use lisp_machine.Common.{ℕ, ◌^◌, ◌<◌, ◌==◌, Bool, false}
use lisp_machine.Common.{none, some, List, ◌∷◌, set, bit_and, ◌≡◌, refl, ap, ◌∙◌}
use lisp_machine.Common.{if◌then◌else◌}
use lisp_machine.Word.{sub_word}
use lisp_machine.ConcurrentFifo.{fifo_pop}
use lisp_machine.Asm.{num_regs, exc_cont_mask, OpData, instruction}
use lisp_machine.Asm.Reg
use lisp_machine.Asm.Encode.{opcode_of, immediate}
use lisp_machine.Asm.Encode.Laws.{three_regs, two_regs_imm, decode_three_regs}
use lisp_machine.Asm.Encode.Immediate.{decode_two_regs_imm}
use lisp_machine.Asm.Machine.{Machine, reg, word_at}
use lisp_machine.Asm.Run.{execute, take_exception, decode, settle, step}

-- No exception waits.
abbrev pub Quiet : Machine → Type 0
Quiet m = (fifo_pop m.fifo).0 ≡ none

abbrev pub after_poll : Machine → Machine
after_poll m = record m { fifo = (fifo_pop m.fifo).1 }

take_exception-Quiet : (m : Machine) → Quiet m → take_exception m ≡ after_poll m
unfolding take_exception
take_exception-Quiet m quiet = rw (quiet, take_exception) refl

module _ (supervisor : ℕ → Machine → Machine) (z : Bool) where
  step_instr :
      (m : Machine) (w : ℕ) (op : OpData)
      → (bit_and (reg m Reg.sr) exc_cont_mask == 0) ≡ false
      → Quiet m
      → m.mem (word_at (reg m Reg.pc)) ≡ w
      → instruction (opcode_of w) ≡ some op
      → step supervisor z m
        ≡ settle supervisor z (execute z op.opcode (decode w op.n_args (after_poll m)))
  unfolding step
  step_instr m w op on quiet fetch known =
      let m1 = after_poll m in
      let polled = take_exception-Quiet m quiet in
      let found : instruction
            (opcode_of ((take_exception m).mem (word_at (reg (take_exception m) Reg.pc))))
          ≡ some op =
        ap (λ t. instruction (opcode_of (t.mem (word_at (reg t Reg.pc))))) polled
        ∙ ap (λ t. instruction (opcode_of t)) fetch
        ∙ known in
      rw (on, found, step)
        (ap
            (λ t.
              settle supervisor z
                (execute z op.opcode (decode (t.mem (word_at (reg t Reg.pc))) op.n_args t)))
            polled
          ∙ ap (λ t. settle supervisor z (execute z op.opcode (decode t op.n_args m1))) fetch)

  -- With the interpreter running, no exception waiting and a word at the program counter that
  -- the assembler has built from a table entry and three registers, one round executes the
  -- entry's operation on these registers.
  pub step-three_regs :
      (m : Machine) (i a b c x y t : ℕ) (rest : List ℕ) (op : OpData)
      → (bit_and (reg m Reg.sr) exc_cont_mask == 0) ≡ false
      → Quiet m
      → m.args ≡ x ∷ y ∷ t ∷ rest
      → m.mem (word_at (reg m Reg.pc)) ≡ three_regs i a b c
      → instruction i ≡ some op
      → op.n_args ≡ 3
      → i < 128
      → a < 32
      → b < 32
      → c < 32
      → step supervisor z m
        ≡ settle supervisor z
            (execute z op.opcode (record (after_poll m) { args = a ∷ b ∷ c ∷ rest }))
  unfolding decode
  step-three_regs m i a b c x y t rest op on quiet args fetch known n hi ha hb hc =
      let w = three_regs i a b c in
      let (opcode, uses, read) = decode_three_regs i a b c x y t rest hi ha hb hc in
      step_instr m w op on quiet fetch (ap (λ k. instruction k) opcode ∙ known)
      ∙ ap (λ k. settle supervisor z (execute z op.opcode (decode w k (after_poll m)))) n
      ∙ rw (uses, args, read, decode) refl

  -- The same with two registers and an immediate value of at most 45 bits and a sign: the
  -- operation gets the value in the secret register, which its last operand names.
  pub step-two_regs_imm :
      (m : Machine) (i a b : ℕ) (neg : Bool) (v x y t : ℕ) (rest : List ℕ) (op : OpData)
      → (bit_and (reg m Reg.sr) exc_cont_mask == 0) ≡ false
      → Quiet m
      → m.args ≡ x ∷ y ∷ t ∷ rest
      → m.mem (word_at (reg m Reg.pc)) ≡ two_regs_imm i a b (immediate 3 neg v)
      → instruction i ≡ some op
      → op.n_args ≡ 3
      → i < 128
      → a < 32
      → b < 32
      → v < 2 ^ 45
      → step supervisor z m
        ≡ settle supervisor z (
            execute z op.opcode (record (after_poll m) {
              regs = set m.regs num_regs (if neg then sub_word 0 v else v);
              args = a ∷ b ∷ num_regs ∷ rest;
            }))
  unfolding decode
  step-two_regs_imm m i a b neg v x y t rest op on quiet args fetch known n hi ha hb hv =
      let w = two_regs_imm i a b (immediate 3 neg v) in
      let (opcode, uses, read, value) =
        decode_two_regs_imm i a b neg v x y (num_regs ∷ rest) hi ha hb hv in
      step_instr m w op on quiet fetch (ap (λ k. instruction k) opcode ∙ known)
      ∙ ap (λ k. settle supervisor z (execute z op.opcode (decode w k (after_poll m)))) n
      ∙ rw (uses, args, read, value, decode) refl
