-- ===== src/Asm/Reg.antt =====
-- `enum reg_aliases` of asm.c: the registers with a use of their own.
use lisp_machine.Common.{ℕ, ◌-◌}
use lisp_machine.Asm.{num_regs}

abbrev pub sp : ℕ
sp = num_regs - 8

abbrev pub fp : ℕ
fp = num_regs - 7

abbrev pub bp : ℕ
bp = num_regs - 6

abbrev pub lr : ℕ
lr = num_regs - 5

abbrev pub ir : ℕ
ir = num_regs - 4

abbrev pub rr : ℕ
rr = num_regs - 3

abbrev pub pc : ℕ
pc = num_regs - 2

abbrev pub sr : ℕ
sr = num_regs - 1
