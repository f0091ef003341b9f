-- ===== src/Memory.antt =====
-- What the data structures of datastructures.c and asm.c see of alloc.c: blocks of words that
-- `alloc` grants and `free` takes back, and `realloc`, which is built from the two.
pub mod Words
pub mod Bump
use lisp_machine.Common.{ℕ, ◌+◌, ◌-◌, ◌≤◌, ◌<◌, min, ◌≡◌, Option, none, some, List, length}
use lisp_machine.Word.{word_mod}
use lisp_machine.Memory.Words.{copy_words}

-- A used block: the address that `alloc` returns and the words from there to the block's end.
-- The `umds` header word before them holds their number plus one.
pub record Block : Type 0 where
  pub addr : ℕ
  pub words : List ℕ

abbrev pub umds_sz : ℕ
umds_sz = 1

-- The header's `mem_sz`, and `get_mem_sz`.
abbrev pub mem_sz : Block → ℕ
mem_sz b = length b.words + umds_sz

abbrev pub get_mem_sz : Block → ℕ
get_mem_sz b = mem_sz b - umds_sz

-- An allocator may refuse, and may grant more words than were asked for; a request to which the
-- size word can be added without wrapping gets enough. The words of a fresh block are whatever
-- the memory held. The allocator of alloc.c is one of these, in `Heap/Client`.
pub record Allocator : Type 1 where
  pub Heap : Type 0
  pub alloc : Heap → ℕ → Option (Block × Heap)
  pub free : Heap → ℕ → Heap
  pub granted :
      (h : Heap) (n : ℕ) {b : Block} {h' : Heap}
      → n + umds_sz < word_mod
      → alloc h n ≡ some (b, h')
      → n ≤ length b.words

module _ (a : Allocator) where
  open a use {Heap, alloc, free}

  -- `realloc`: the old block is freed only when the new one has been granted.
  unfoldable pub realloc : Heap → Block → ℕ → Option (Block × Heap)
  realloc h old n = elim (alloc h n) [
    | none ↦ none
    | some (new, h') ↦ some (
      record new { words = copy_words (min (mem_sz old - 1) n) 0 old.words new.words },
      free h' old.addr,
    )
  ]
