-- ===== src/Tests/RunTests.antt =====
-- The interpreter at work.
use lisp_machine.Common.{ℕ, ◌+◌, ◌^◌, ◌<◌, ◌≡◌, ◌≢◌, refl, [], ◌∷◌, true, arith}
use lisp_machine.Common.{get_or, set, replicate}
use lisp_machine.Word.{sub_word}
use lisp_machine.RingBuf.{RingBuf, isempty, ring_buf_item_sz}
use lisp_machine.ConcurrentFifo.{ConcurrentFifo, fifo_pop, next_source, fifo_item_sz}
use lisp_machine.Asm.{num_regs, exc_cont_mask, instructions, ads, op_data, OpData}
use lisp_machine.Memory.Words.{read_words}
use lisp_machine.Asm.Reg
use lisp_machine.Asm.Encode.{immediate}
use lisp_machine.Asm.Encode.Laws.{three_regs, two_regs_imm}
use lisp_machine.Asm.Machine.{Machine, reg, load_halves, store_halves}
use lisp_machine.Asm.Run.{execute, settle, step, enter_exception, leave_exception}
use lisp_machine.Asm.Run.Halves.{load-store_halves}
use lisp_machine.Asm.Run.Fetch.{after_poll, step-three_regs, step-two_regs_imm}
use lisp_machine.Asm.Run.Exception.{Entered, enter_exception_lem}
use lisp_machine.Asm.Run.Return.{return_from_exception}

abbrev ring : RingBuf
ring = record {
  rb_addr = 8;
  buf = record { addr = 16; words = 0 ∷ 2 ∷ 0 ∷ 0 ∷ 0 ∷ 0 ∷ [] };
  head = 0;
  tail = 0;
}

abbrev no_exceptions : ConcurrentFifo
no_exceptions = record {
  cf_addr = 1;
  a = ring;
  b = ring;
  a_lck = 0;
  b_lck = 0;
  tag = 0;
  curr_tag = 0;
}

-- The interpreter about to execute `w`, wherever the program counter is.
abbrev machine : ℕ → Machine
machine w = record {
  regs = set (set (replicate 33 3) Reg.sr exc_cont_mask) Reg.sp 40;
  args = replicate 10 0;
  exc_num = 0 ∷ 0 ∷ [];
  mem = λ a. w;
  fifo = no_exceptions;
}

-- `ads r1 r2 r3`
abbrev adds : OpData
adds = record { opcode = ads; n_args = 3; name = b'a' ∷ b'd' ∷ b's' ∷ [] }

abbrev no_supervisor : ℕ → Machine → Machine
no_supervisor n m = m

step-three_regs_example :
    step no_supervisor true (machine (three_regs 1 1 2 3))
    ≡ settle no_supervisor true (
        execute true ads
          (record (after_poll (machine (three_regs 1 1 2 3))) { args = 1 ∷ 2 ∷ 3 ∷ replicate 7 0 }))
unfolding instructions op_data fifo_pop next_source isempty
step-three_regs_example =
    step-three_regs no_supervisor true (machine (three_regs 1 1 2 3)) 1 1 2 3 0 0 0 (replicate 7 0)
      adds refl refl refl refl refl refl (omega arith) (omega arith) (omega arith) (omega arith)

step-two_regs_imm_example :
    step no_supervisor true (machine (two_regs_imm 1 1 2 (immediate 3 true 5)))
    ≡ settle no_supervisor true (
        execute true ads (record (after_poll (machine (two_regs_imm 1 1 2 (immediate 3 true 5)))) {
          regs = set (machine 0).regs num_regs (sub_word 0 5);
          args = 1 ∷ 2 ∷ num_regs ∷ replicate 7 0;
        }))
unfolding instructions op_data fifo_pop next_source isempty
step-two_regs_imm_example =
    step-two_regs_imm no_supervisor true (machine (two_regs_imm 1 1 2 (immediate 3 true 5))) 1 1 2
      true 5 0 0 0 (replicate 7 0) adds refl refl refl refl refl refl (omega arith) (omega arith)
      (omega arith) (omega arith)

load-store_halves_example :
    (load_halves (store_halves (λ a. 7) 3 (2 ^ 40 + 5)) 3 ≡ 2 ^ 40 + 5)
    × ((b : ℕ) → b ≢ 3 → store_halves (λ a. 7) 3 (2 ^ 40 + 5) b ≡ 7)
load-store_halves_example = load-store_halves (λ a. 7) 3 (2 ^ 40 + 5) (omega arith)

enter_exception_lem_example :
    Entered (machine 0) (enter_exception (9 ∷ []) (machine 0))
    × ((k : ℕ)
        → k < 1
        → (enter_exception (9 ∷ []) (machine 0)).mem (40 + 1 + k) ≡ get_or (9 ∷ []) k 0)
unfolding fifo_item_sz ring_buf_item_sz
enter_exception_lem_example =
    enter_exception_lem (9 ∷ []) (machine 0) refl refl (omega arith) (omega arith)

-- A handler that only writes register 5.
abbrev handled : Machine
handled = let m = enter_exception (9 ∷ []) (machine 0) in record m { regs = set m.regs 5 77 }

return_from_exception_example :
    (reg (leave_exception handled) Reg.pc ≡ reg (machine 0) Reg.pc)
    × (reg (leave_exception handled) Reg.lr ≡ reg (machine 0) Reg.lr)
    × (reg (leave_exception handled) Reg.sp ≡ reg (machine 0) Reg.sp)
    × ((r : ℕ)
        → r ≢ Reg.pc
        → r ≢ Reg.lr
        → r ≢ Reg.sp
        → reg (leave_exception handled) r ≡ reg handled r)
unfolding fifo_item_sz ring_buf_item_sz enter_exception read_words
return_from_exception_example =
    return_from_exception (9 ∷ []) (machine 0) handled refl refl (omega arith) (omega arith) refl
      refl refl refl refl
