-- ===== src/Tests/HeapTests.antt =====
-- The allocator at work.
use lisp_machine.Common.{ℕ, ◌≡◌, refl, inl, inr, some, arith}
use lisp_machine.Avl.{Entry, Tree, leaf, node, even, high, right, entries}
use lisp_machine.Avl.Insert.{insert_node, attach, descend}
use lisp_machine.Avl.Delete.{avl_min_ge, remove_spot, shrunk}
use lisp_machine.Avl.Sorted.{AllBelow}
use lisp_machine.Heap.{Heap, alloc, free, request, set_size}
use lisp_machine.Heap.Blocks.{total}
use lisp_machine.Heap.Merge.{avl_merge}
use lisp_machine.Heap.Alloc.{IsHeap, Granted, alloc_lem, alloc-refused}
use lisp_machine.Heap.Join.{Merged, avl_merge_lem}
use lisp_machine.Heap.Free.{Freed, free_lem, free-alloc}

abbrev block : ℕ → ℕ → Entry
block a n = record { addr = a; data_word = n }

-- 92 free words behind the heap's own eight.
abbrev fresh : Heap
fresh = record {
  heap_start = 0;
  heap_end = 800;
  fmds_ptr = node (block 8 92) even leaf leaf;
  true_num_alloced = 0;
  words_used = 0;
  sizes = λ a. 0;
}

fresh-IsHeap : IsHeap fresh
fresh-IsHeap = record { balanced = (tt, tt, refl); apart = (tt, tt) }

-- After a request for ten words.
abbrev used : Heap
used = record {
  heap_start = 0;
  heap_end = 800;
  fmds_ptr = node (block 19 81) even leaf leaf;
  true_num_alloced = 1;
  words_used = 11;
  sizes = set_size (λ a. 0) 8 11;
}

granted : alloc fresh 10 ≡ some (9, used)
unfolding alloc avl_min_ge insert_node descend remove_spot shrunk attach
granted = refl

alloc_lem_example : Granted fresh 10 9 used
alloc_lem_example = alloc_lem fresh 10 fresh-IsHeap (omega arith) granted

alloc-refused_example : AllBelow (λ x. x.data_word) (request 200) (entries fresh.fmds_ptr)
unfolding alloc avl_min_ge
alloc-refused_example = alloc-refused fresh 200 refl

used-IsHeap : IsHeap used
used-IsHeap = record { balanced = (tt, tt, refl); apart = (tt, tt) }

free_lem_example : Freed used 9 (free used 9)
unfolding set_size
free_lem_example =
    free_lem used 9 used-IsHeap (omega arith) (omega arith) (omega arith) (inr (omega arith), tt)

free-alloc_example :
    IsHeap (free used 9) × (total (entries (free used 9).fmds_ptr) ≡ total (entries fresh.fmds_ptr))
free-alloc_example =
    free-alloc fresh 10 fresh-IsHeap (omega arith) granted (omega arith) (omega arith)

-- A block that touches a free block on either side.
abbrev gap : Tree
gap = node (block 8 4) (high right) leaf (node (block 20 8) even leaf leaf)

avl_merge_lem_example : Merged gap 8 (avl_merge gap 12 8)
avl_merge_lem_example =
    avl_merge_lem 12 8 (omega arith) gap (tt, (tt, tt, refl), refl) ((omega arith, tt), (tt, tt))
      (inl (omega arith), (inr (omega arith), tt))
