-- ===== src/Asm/Run/Return.antt =====
-- The return from an exception handler, in `run`.
use lisp_machine.Common.{ℕ, ◌+◌, ◌^◌, ◌≤◌, ◌<◌, ◌==◌, if◌then◌else◌}
use lisp_machine.Common.{
  List, length, get_or, set, length-set, get_or-set_ne, ◌≡◌, ◌≢◌, ap, ◌∙◌, arith,
}
use lisp_machine.Word.{add_word, sub_word}
use lisp_machine.ConcurrentFifo.{fifo_item_sz}
use lisp_machine.Asm.Reg
use lisp_machine.Asm.Machine.{Machine, reg, word_at}
use lisp_machine.Asm.Run.{enter_exception, leave_exception}
use lisp_machine.Asm.Run.Stack.{get_or-set}
use lisp_machine.Asm.Run.Exception.{enter_exception_lem}

leave_exception_lem :
    (m : Machine) (s l n : ℕ)
    → length m.regs ≡ 33
    → reg m Reg.sp ≡ s + 1 + n
    → fifo_item_sz m.fifo ≡ n
    → m.mem (reg m Reg.sp) ≡ l
    → s + 1 + n < 2 ^ 61
    → let m' = leave_exception m in
      (reg m' Reg.pc ≡ reg m Reg.lr)
      × (reg m' Reg.lr ≡ l)
      × (reg m' Reg.sp ≡ s)
      × ((r : ℕ) → r ≢ Reg.pc → r ≢ Reg.lr → r ≢ Reg.sp → reg m' r ≡ reg m r)
unfolding leave_exception
leave_exception_lem m s l n hr hs hn hl small =
    let xs = set m.regs Reg.pc (reg m Reg.lr) in
    let top = m.mem (word_at (get_or xs Reg.sp 0)) in
    let ys = set xs Reg.lr top in
    let v = sub_word (get_or ys Reg.sp 0) (add_word 1 (fifo_item_sz m.fifo)) in
    let len_xs : length xs ≡ 33 = length-set m.regs Reg.pc (reg m Reg.lr) ∙ hr in
    let len_ys : length ys ≡ 33 = length-set xs Reg.lr top ∙ len_xs in
    let sp_xs : get_or xs Reg.sp 0 ≡ reg m Reg.sp =
      get_or-set_ne m.regs Reg.pc Reg.sp (reg m Reg.lr) 0 (omega arith) in
    let sp_ys : get_or ys Reg.sp 0 ≡ s + 1 + n =
      get_or-set_ne xs Reg.lr Reg.sp top 0 (omega arith) ∙ sp_xs ∙ hs in
    let saved : top ≡ l =
      ap (λ a. m.mem (word_at a)) sp_xs
      ∙ ap (λ a. m.mem a) {x = word_at (reg m Reg.sp)} {y = reg m Reg.sp} (omega arith)
      ∙ hl in
    let lowered : v ≡ s = omega arith in
    let look : (j : ℕ)
        → reg (leave_exception m) j ≡ (
            if j == 24
            then v
            else if j == 27
            then top
            else if j == 30
            then reg m Reg.lr
            else reg m j) =
      λ j. ground (
        arith,
        get_or-set ys Reg.sp j v (omega arith),
        get_or-set xs Reg.lr j top (omega arith),
        get_or-set m.regs Reg.pc j (reg m Reg.lr) (omega arith),
      ) in
    (look 30, look 27 ∙ saved, look 24 ∙ lowered, λ r p q t. look r ∙ ground arith)

-- The return from an exception resumes the interrupted program: if the handler leaves the stack
-- pointer, the link register and the word at the stack pointer as it found them, the program
-- counter, the link register and the stack pointer are those from before the exception, and
-- every other register is as the handler left it.
pub return_from_exception :
    (item : List ℕ) (m h : Machine)
    → length m.regs ≡ 33
    → length m.exc_num ≡ fifo_item_sz m.fifo
    → length item ≤ fifo_item_sz m.fifo
    → reg m Reg.sp + 1 + fifo_item_sz m.fifo < 2 ^ 61
    → length h.regs ≡ 33
    → fifo_item_sz h.fifo ≡ fifo_item_sz m.fifo
    → reg h Reg.sp ≡ reg (enter_exception item m) Reg.sp
    → reg h Reg.lr ≡ reg (enter_exception item m) Reg.lr
    → h.mem (reg h Reg.sp) ≡ (enter_exception item m).mem (reg h Reg.sp)
    → let m' = leave_exception h in
      (reg m' Reg.pc ≡ reg m Reg.pc)
      × (reg m' Reg.lr ≡ reg m Reg.lr)
      × (reg m' Reg.sp ≡ reg m Reg.sp)
      × ((r : ℕ) → r ≢ Reg.pc → r ≢ Reg.lr → r ≢ Reg.sp → reg m' r ≡ reg h r)
return_from_exception item m h hr he hi hs hh hn sp lr mem =
    let (e, _) = enter_exception_lem item m hr he hi hs in
    let (pc', lr', sp', others) =
      leave_exception_lem h (reg m Reg.sp) (reg m Reg.lr) (fifo_item_sz m.fifo) hh (sp ∙ e.sp) hn
        (mem ∙ ap (λ j. (enter_exception item m).mem j) sp ∙ e.saved_lr) hs in
    (pc' ∙ lr ∙ e.lr, lr', sp', others)
