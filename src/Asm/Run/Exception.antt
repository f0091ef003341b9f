-- ===== src/Asm/Run/Exception.antt =====
-- The entry to the exception handler and the return from it, in `run`.
use lisp_machine.Common.{ℕ, ◌+◌, ◌^◌, ◌≤◌, ◌<◌}
use lisp_machine.Common.{List, length, get_or, set, length-set, get_or-set_self}
use lisp_machine.Common.{get_or-set_ne, ◌≡◌, ◌≢◌, sym, ap, ◌∙◌, ◌⊎◌, arith}
use lisp_machine.Word.{add_word}
use lisp_machine.Memory.Words.{read_words, write_words, length-read_words}
use lisp_machine.Memory.Words.{get_or-read_words, get_or-write_words_inside}
use lisp_machine.ConcurrentFifo.{fifo_item_sz}
use lisp_machine.Asm.Reg
use lisp_machine.Asm.Machine.{Machine, reg, set_reg, word_at, store, update}
use lisp_machine.Asm.Run.{push_words, enter_exception}
use lisp_machine.Asm.Run.Halves.{update_self, update_ne}
use lisp_machine.Asm.Run.Stack.{push_words-regs, push_words-outside, push_words-inside, set_three}
use lisp_machine.Asm.Run.Stack.{get_or-set_three}

-- What the handler finds: the stack pointer `above` by the words of an exception and one more,
-- the old link register there, and the interrupted program counter in the link register.
pub record Entered (m m' : Machine) : Type 0 where
  pub pc : reg m' Reg.pc ≡ reg m Reg.ir
  pub lr : reg m' Reg.lr ≡ reg m Reg.pc
  pub sp : reg m' Reg.sp ≡ reg m Reg.sp + 1 + fifo_item_sz m.fifo
  pub saved_lr : m'.mem (reg m' Reg.sp) ≡ reg m Reg.lr
  pub others : (r : ℕ) → r ≢ Reg.pc → r ≢ Reg.lr → r ≢ Reg.sp → reg m' r ≡ reg m r
  pub regs_kept : length m'.regs ≡ length m.regs
  pub below : (j : ℕ) → j ≤ reg m Reg.sp → m'.mem j ≡ m.mem j
  pub above : (j : ℕ) → reg m' Reg.sp < j → m'.mem j ≡ m.mem j

module _ (item : List ℕ) (m : Machine) (hr : length m.regs ≡ 33) where
  abbrev new_sp : ℕ
  new_sp = add_word (reg m Reg.sp) (add_word 1 (fifo_item_sz m.fifo))

  abbrev moved : Machine
  moved = set_reg m Reg.sp new_sp

  -- The words of the exception are stored with the link register at `a` being `v`.
  abbrev pushed : ℕ → ℕ → Machine
  pushed a v =
      push_words (add_word (reg m Reg.sp) 1) 0
        (read_words (write_words m.exc_num 0 item) 0 (fifo_item_sz m.fifo))
        (record (store moved a v) { exc_num = write_words m.exc_num 0 item })

  -- The last two writes.
  abbrev redirect : List ℕ → List ℕ
  redirect xs = let ys = set xs Reg.lr (get_or xs Reg.pc 0) in set ys Reg.pc (get_or ys Reg.ir 0)

  entered_regs :
      (enter_exception item m).regs ≡ set_three m.regs new_sp (reg m Reg.pc) (reg m Reg.ir)
  unfolding enter_exception
  entered_regs =
      let xs = set m.regs Reg.sp new_sp in
      let one = length-set m.regs Reg.sp new_sp in
      ap redirect (
        push_words-regs (add_word (reg m Reg.sp) 1) 0
          (read_words (write_words m.exc_num 0 item) 0 (fifo_item_sz m.fifo))
          (record (store moved (word_at (reg moved Reg.sp)) (reg moved Reg.lr)) {
            exc_num = write_words m.exc_num 0 item;
          }))
      ∙ ap (λ t. set (set xs Reg.lr (get_or xs Reg.pc 0)) Reg.pc t)
          (get_or-set_ne xs Reg.lr Reg.ir (get_or xs Reg.pc 0) 0 (omega arith)
            ∙ get_or-set_ne m.regs Reg.sp Reg.ir new_sp 0 (omega arith))
      ∙ ap (λ t. set (set xs Reg.lr t) Reg.pc (reg m Reg.ir))
          (get_or-set_ne m.regs Reg.sp Reg.pc new_sp 0 (omega arith))

  entered_mem :
      (j : ℕ) → (enter_exception item m).mem j ≡ (pushed (word_at new_sp) (reg m Reg.lr)).mem j
  unfolding enter_exception
  entered_mem j =
      ap (λ a. (pushed (word_at a) (reg moved Reg.lr)).mem j)
        (get_or-set_self m.regs Reg.sp new_sp 0 (omega arith))
      ∙ ap (λ v. (pushed (word_at new_sp) v).mem j)
          (get_or-set_ne m.regs Reg.sp Reg.lr new_sp 0 (omega arith))

-- On the entry to the handler, the exception's words lie on the stack in their order, the
-- registers are set for the handler, and nothing else of the memory or the registers changes.
pub enter_exception_lem :
    (item : List ℕ) (m : Machine)
    → length m.regs ≡ 33
    → length m.exc_num ≡ fifo_item_sz m.fifo
    → length item ≤ fifo_item_sz m.fifo
    → reg m Reg.sp + 1 + fifo_item_sz m.fifo < 2 ^ 61
    → let m' = enter_exception item m in
      Entered m m' × ((k : ℕ) → k < length item → m'.mem (reg m Reg.sp + 1 + k) ≡ get_or item k 0)
enter_exception_lem item m hr he hi hs =
    let n = fifo_item_sz m.fifo in
    let words = read_words (write_words m.exc_num 0 item) 0 n in
    let top = word_at (new_sp item m hr) in
    let top_sum : top ≡ reg m Reg.sp + 1 + n = omega arith in
    let old_sum : add_word (reg m Reg.sp) 1 ≡ reg m Reg.sp + 1 = omega arith in
    let len : length words ≡ n = length-read_words (write_words m.exc_num 0 item) 0 n in
    let saved = store (moved item m hr) top (reg m Reg.lr) in
    let look : (j : ℕ) → _ = λ j.
      ap (λ xs. get_or xs j 0) (entered_regs item m hr)
      ∙ get_or-set_three m.regs (new_sp item m hr) (reg m Reg.pc) (reg m Reg.ir) j hr in
    let sp : reg (enter_exception item m) Reg.sp ≡ reg m Reg.sp + 1 + n = look 24 ∙ omega arith in
    let outside : (j : ℕ)
        → (j ≤ reg m Reg.sp) ⊎ (reg m Reg.sp + 1 + n ≤ j)
        → (enter_exception item m).mem j ≡ update m.mem top (reg m Reg.lr) j =
      λ j out.
        entered_mem item m hr j
        ∙ push_words-outside (add_word (reg m Reg.sp) 1) 0 j words
            (record saved { exc_num = write_words m.exc_num 0 item }) (omega arith) (omega arith) in
    (
      record {
        pc = look 30;
        lr = look 27;
        sp = sp;
        saved_lr =
            ap (λ j. (enter_exception item m).mem j) (sp ∙ sym top_sum)
            ∙ outside top (omega arith)
            ∙ update_self m.mem top (reg m Reg.lr);
        others = λ r p l q. look r ∙ ground arith;
        regs_kept =
            ap (λ xs. length xs) (entered_regs item m hr)
            ∙ length-set (set (set m.regs Reg.sp (new_sp item m hr)) Reg.lr (reg m Reg.pc)) Reg.pc
                (reg m Reg.ir)
            ∙ length-set (set m.regs Reg.sp (new_sp item m hr)) Reg.lr (reg m Reg.pc)
            ∙ length-set m.regs Reg.sp (new_sp item m hr);
        below = λ j h. outside j (omega arith) ∙ update_ne m.mem top j (reg m Reg.lr) (omega arith);
        above = λ j h. outside j (omega arith) ∙ update_ne m.mem top j (reg m Reg.lr) (omega arith);
      },
      λ k h.
          ap (λ j. (enter_exception item m).mem j) (omega (arith, old_sum))
          ∙ entered_mem item m hr (add_word (reg m Reg.sp) 1 + 0 + k)
          ∙ push_words-inside (add_word (reg m Reg.sp) 1) 0 k words
              (record saved { exc_num = write_words m.exc_num 0 item }) (omega arith) (omega arith)
          ∙ get_or-read_words (write_words m.exc_num 0 item) 0 n k (omega arith)
          ∙ get_or-write_words_inside m.exc_num 0 k item (omega arith) h,
    )
