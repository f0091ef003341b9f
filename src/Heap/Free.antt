-- ===== src/Heap/Free.antt =====
-- `free` of alloc.c: the block comes back, joined with the free blocks that touch it.
use lisp_machine.Common.{ℕ, ◌+◌, ◌-◌, ◌<◌, ◌≤◌, ltb, leb, ◌||◌, ◌≡◌, refl}
use lisp_machine.Common.{false, some, arith}
use lisp_machine.Avl.{entries}
use lisp_machine.Word.{word_mod, sub_word}
use lisp_machine.Heap.{Heap, hds_sz, umds_sz, alloc, free}
use lisp_machine.Heap.Blocks.{total, AllClear}
use lisp_machine.Heap.Alloc.{IsHeap, alloc_lem}
use lisp_machine.Heap.Join.{avl_merge_lem}

-- What a `free` has done to the heap.
pub record Freed (h : Heap) (a : ℕ) (h' : Heap) : Type 0 where
  pub heap : IsHeap h'
  pub conserved : total (entries h'.fmds_ptr) ≡ total (entries h.fmds_ptr) + h.sizes (a - umds_sz)
  pub counted : h'.words_used ≡ sub_word h.words_used (h.sizes (a - umds_sz))

-- `free` of a block of the heap whose size word is positive and that no free block overlaps:
-- the heap is in order again, and the free words are more by exactly the words of the block.
pub free_lem :
    (h : Heap) (a : ℕ)
    → IsHeap h
    → h.heap_start + hds_sz ≤ a
    → a < h.heap_start + h.heap_end
    → 0 < h.sizes (a - umds_sz)
    → AllClear (a - umds_sz) (h.sizes (a - umds_sz)) (entries h.fmds_ptr)
    → Freed h a (free h a)
unfolding free
free_lem h a hh lo hi pos clear =
    let inside : (ltb a (h.heap_start + hds_sz) || leb (h.heap_start + h.heap_end) a) ≡ false =
      ground arith in
    let m =
      avl_merge_lem (a - umds_sz) (h.sizes (a - umds_sz)) pos h.fmds_ptr hh.balanced hh.apart
        clear in
    rw (inside, free)
      (record {
        heap = record { balanced = m.balanced; apart = m.apart };
        conserved = m.conserved;
        counted = refl;
      })

-- A block that `alloc` has granted can be given back at once: the heap is in order, and as many
-- words are free as before.
pub free-alloc :
    (h : Heap) (n : ℕ) {a : ℕ} {h' : Heap}
    → IsHeap h
    → n + umds_sz < word_mod
    → alloc h n ≡ some (a, h')
    → h.heap_start + hds_sz ≤ a
    → a < h.heap_start + h.heap_end
    → IsHeap (free h' a) × (total (entries (free h' a).fmds_ptr) ≡ total (entries h.fmds_ptr))
free-alloc h n {a} {h'} hh small e lo hi =
    let g = alloc_lem h n hh small e in
    let f =
      free_lem h' a g.heap (omega (arith, g.same_start)) (omega (arith, g.same_start, g.same_end))
        (omega (arith, g.enough)) g.clear in
    (f.heap, omega (arith, f.conserved, g.conserved))
