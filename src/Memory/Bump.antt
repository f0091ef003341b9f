-- ===== src/Memory/Bump.antt =====
-- An allocator that never refuses, for tests and witnesses: the heap is the next free address.
use lisp_machine.Common.{ℕ, ◌+◌, ◌≤◌, ◌<◌, ◌^◌, ◌≡◌, ap, some, none, Option, length, replicate}
use lisp_machine.Common.{length-replicate, arith}
use lisp_machine.Memory.{Block, Allocator}

abbrev pub bump_alloc : ℕ → ℕ → Option (Block × ℕ)
bump_alloc h n = some (record { addr = h; words = replicate n 0 }, h + n + 1)

abbrev block_length : Option (Block × ℕ) → ℕ
block_length (some (b, h)) = length b.words
block_length none = 0

pub bump_granted :
    (h : ℕ) (n : ℕ) {b : Block} {h' : ℕ}
    → n + 1 < 2 ^ 64
    → bump_alloc h n ≡ some (b, h')
    → n ≤ length b.words
bump_granted h n lt e = omega (arith, ap block_length e, length-replicate {A = ℕ} n 0)

abbrev pub bump : Allocator
bump = record { Heap = ℕ; alloc = bump_alloc; free = λ h a. h; granted = bump_granted }
