-- ===== src/Asm/Run.antt =====
-- The interpreter loop `run` of asm.c.
pub mod Halves
pub mod Fetch
pub mod Stack
pub mod Exception
pub mod Return
use lisp_machine.Common.{ℕ, zero, suc, ◌+◌, ◌-◌, ◌*◌, ◌/◌, ◌%◌, ◌^◌, Bool, true, false, not, ◌&&◌}
use lisp_machine.Common.{◌||◌, ltb, leb, ◌==◌, if◌then◌else◌, Option, none, some, List, [], ◌∷◌}
use lisp_machine.Common.{get_or, set, replicate, bit_and, bit_or, bit_xor}
use lisp_machine.Word.{word_mod, max_word, add_word, sub_word, mul_word, not_word, shl, shr, is_neg}
use lisp_machine.Memory.Words.{read_words, write_words}
use lisp_machine.Util
use lisp_machine.ConcurrentFifo.{fifo_pop, fifo_item_sz}
use lisp_machine.Asm.{bits, num_regs, exc_cont_mask, Opcode, OpData, instruction}
use lisp_machine.Asm.{
  acx, ads, sbs, mls, mlu, dvs, dvu, and, orr, xor, nor, shf, ldr, str, jnc, exc,
}
use lisp_machine.Asm.Reg
use lisp_machine.Asm.Encode.{opcode_of, uses_reg, immediate_of, args_of}
use lisp_machine.Asm.Machine.{
  Machine, reg, set_reg, arg, operand, word_at, store, update, load_halves,
}
use lisp_machine.Asm.Machine.{store_halves, indexed}

-- How the `switch` is left: by `break`, by `continue`, by `return`, by a supervisor call that
-- the hardware takes over, or in a way that C leaves undefined.
pub data Next : Type 0 where
  advance : Machine → Next
  jumped : Machine → Next
  returned : ℕ → Machine → Next
  svc : ℕ → Machine → Next
  undefined : Next

-- Quotient and remainder of `sword` operands, rounding towards zero.
unfoldable pub div_signed : ℕ → ℕ → ℕ
unfolding Util.abs
div_signed a b =
    let q = Util.abs a / Util.abs b in
    if is_neg a
    then (if is_neg b then q else sub_word 0 q)
    else if is_neg b
    then sub_word 0 q
    else q

unfoldable pub mod_signed : ℕ → ℕ → ℕ
unfolding Util.abs
mod_signed a b = let r = Util.abs a % Util.abs b in if is_neg a then sub_word 0 r else r

-- A signed division that C defines.
unfoldable pub divides : ℕ → ℕ → Bool
divides a b = not (b == 0 || (a == 2 ^ 63 && b == max_word))

abbrev binary : Machine → (ℕ → ℕ → ℕ) → Next
binary m f = advance (set_reg m (arg m 0) (f (operand m 1) (operand m 2)))

-- The remainder is stored first, and the operands of the division are read after that.
unfoldable pub divide : (ℕ → ℕ → Bool) → (ℕ → ℕ → ℕ) → (ℕ → ℕ → ℕ) → Machine → Next
divide defined rem quot m =
    let m' = set_reg m Reg.rr (rem (operand m 1) (operand m 2)) in
    if not (defined (operand m 1) (operand m 2)) || not (defined (operand m' 1) (operand m' 2))
    then undefined
    else advance (set_reg m' (arg m 0) (quot (operand m' 1) (operand m' 2)))

-- A shift by the width of a word or more is undefined.
unfoldable pub shift : Machine → Next
unfolding Util.abs Util.min
shift m =
    let sh = operand m 2 in
    let n = Util.min (Util.abs sh) bits in
    if leb bits n then undefined else binary m (λ x _. if is_neg sh then shl x n else shr x n)

-- `atomic_cas` returns what the memory held.
unfoldable pub compare_and_swap : Machine → Next
compare_and_swap m =
    let a = word_at (operand m 0) in
    let old = m.mem a in
    let m' = if old == operand m 1 then store m a (operand m 2) else m in
    advance (set_reg m' (arg m 1) old)

unfoldable pub jump : Bool → Machine → Next
jump retn_zero m =
    if operand m 0 == 0
    then advance m
    else let m' = set_reg m Reg.pc (add_word (operand m 1) (operand m 2)) in
      if (reg m' Reg.pc == 0) && retn_zero then returned (reg m' Reg.rr) m' else jumped m'

-- `exc` with -1 returns from an exception, and with 0 to 31 calls the supervisor.
unfoldable pub leave_exception : Machine → Machine
leave_exception m =
    let m1 = set_reg m Reg.pc (reg m Reg.lr) in
    let m2 = set_reg m1 Reg.lr (m1.mem (word_at (reg m1 Reg.sp))) in
    set_reg m2 Reg.sp (sub_word (reg m2 Reg.sp) (add_word 1 (fifo_item_sz m2.fifo)))

unfoldable pub raise : Machine → Next
raise m =
    let n = operand m 0 in
    if n == max_word then jumped (leave_exception m) else if ltb n 32 then svc n m else advance m

-- The `switch` over the opcodes.
unfoldable pub execute : Bool → Opcode → Machine → Next
execute z acx m = compare_and_swap m
execute z ads m = binary m add_word
execute z sbs m = binary m (λ x y. add_word x (add_word (not_word y) 1))
execute z mls m = binary m mul_word
execute z mlu m = binary m mul_word
execute z dvs m = divide divides mod_signed div_signed m
execute z dvu m = divide (λ _ y. not (y == 0)) (λ x y. x % y) (λ x y. x / y) m
execute z and m = binary m bit_and
execute z orr m = binary m bit_or
execute z xor m = binary m bit_xor
execute z nor m = binary m (λ x y. not_word (bit_or x y))
execute z shf m = shift m
execute z ldr m =
    advance (set_reg m (arg m 0) (load_halves m.mem (indexed (operand m 1) (operand m 2))))
execute z str m =
    advance
      (record m { mem = store_halves m.mem (indexed (operand m 1) (operand m 2)) (operand m 0) })
execute z jnc m = jump z m
execute z exc m = raise m

-- `*((word*)(sizeof(word) * oldsp) + i) = exc_num[i]`
unfoldable pub push_words : ℕ → ℕ → List ℕ → Machine → Machine
unfolding update
push_words oldsp i [] m = m
push_words oldsp i (x ∷ xs) m =
    push_words oldsp (i + 1) xs (store m (add_word (mul_word 8 oldsp) (mul_word 8 i) / 8) x)

-- The entry to the handler: the link register goes to the new top of the stack, the words of the
-- exception below it, and the handler gets the program counter in the link register.
unfoldable pub enter_exception : List ℕ → Machine → Machine
unfolding update push_words
enter_exception item m =
    let n = fifo_item_sz m.fifo in
    let exc_num = write_words m.exc_num 0 item in
    let oldsp = add_word (reg m Reg.sp) 1 in
    let m1 = set_reg m Reg.sp (add_word (reg m Reg.sp) (add_word 1 n)) in
    let m2 = store m1 (word_at (reg m1 Reg.sp)) (reg m1 Reg.lr) in
    let m3 = push_words oldsp 0 (read_words exc_num 0 n) (record m2 { exc_num = exc_num }) in
    let m4 = set_reg m3 Reg.lr (reg m3 Reg.pc) in set_reg m4 Reg.pc (reg m4 Reg.ir)

-- An exception that waits is taken before the next instruction.
unfoldable pub take_exception : Machine → Machine
unfolding enter_exception
take_exception m =
    let popped = fifo_pop m.fifo in
    let m' = record m { fifo = popped.1 } in
    elim (popped.0) [ none ↦ m' | some item ↦ enter_exception item m' ]

-- The operands of an instruction with `n` arguments. An immediate value goes to the secret
-- register, and the last operand names that one.
unfoldable pub decode : ℕ → ℕ → Machine → Machine
decode instr n m =
    if not (uses_reg instr) && not (n == 0)
    then record m {
      regs = set m.regs num_regs (immediate_of instr n);
      args = args_of (n - 1) instr (set m.args (n - 1) num_regs);
    }
    else record m { args = args_of n instr m.args }

pub data Result : Type 0 where
  running : Machine → Result
  stopped : ℕ → Machine → Result
  faulted : Result

abbrev increment_pc : Machine → Machine
increment_pc m = set_reg m Reg.pc (add_word (reg m Reg.pc) 1)

-- `supervisor` is what the hardware and boot.S do on `svc #n`; `z` is `retn_zero`.
module _ (supervisor : ℕ → Machine → Machine) (z : Bool) where
  unfoldable pub settle : Next → Result
  settle (advance m) = running (increment_pc m)
  settle (jumped m) = running m
  settle (returned v m) = stopped v m
  settle (svc n m) = running (increment_pc (supervisor n m))
  settle undefined = faulted

  -- One round of the loop. An opcode outside the table is read out of its bounds.
  unfoldable pub step : Machine → Result
  unfolding take_exception decode
  step m =
      let m1 = take_exception m in
      let instr = m1.mem (word_at (reg m1 Reg.pc)) in
      let go = elim (instruction (opcode_of instr)) as (λ _. Result) [
        | none ↦ faulted
        | some op ↦ settle (execute z op.opcode (decode instr op.n_args m1))
      ] in
      if bit_and (reg m Reg.sr) exc_cont_mask == 0 then stopped (reg m Reg.rr) m else go

  -- The loop for a number of rounds.
  unfoldable pub run : ℕ → Machine → Result
  run zero m = running m
  run (suc fuel) m = elim (step m) [
    | running m' ↦ run fuel m'
    | stopped v m' ↦ stopped v m'
    | faulted ↦ faulted
  ]

-- `init_regs`, without the allocation: the registers and the secret one.
unfoldable pub init_regs : ℕ → List ℕ
init_regs bytecode =
    set (set (replicate (num_regs + 1) 0) Reg.sr exc_cont_mask) Reg.pc (bytecode / 8)
