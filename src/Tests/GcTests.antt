-- ===== src/Tests/GcTests.antt =====
-- The set of the collector at work.
use lisp_machine.Common.{◌≡◌, refl, some, replicate, arith, true, []}
use lisp_machine.Memory.{Block}
use lisp_machine.Memory.Bump.{bump}
use lisp_machine.Avl.{leaf, entries, avl_basic_cmp, compare_by}
use lisp_machine.Avl.Insert.{insert_node, descend, attach, grown}
use lisp_machine.Avl.Nodes.{avl_insert}
use lisp_machine.Avl.DeleteOrder.{words}
use lisp_machine.Gc.{Gc, gc_alloc, gc_add, gc_free}
use lisp_machine.Gc.FreeAlloc.{GaveBack, gc_free-gc_alloc}

abbrev empty_gc : Gc bump
empty_gc = record {
  store = record {
    heap = 1000;
    objects = λ p. record { max_sz = 0; refcount = 0; type = 0; contents = [] };
  };
  gc_set = leaf;
  gc_num_alloced = 0;
}

abbrev granted : Block
granted = record { addr = 1000; words = replicate 4 0 }

four_words : gc_alloc bump empty_gc 4 ≡ (some granted, (gc_alloc bump empty_gc 4).1)
unfolding gc_alloc avl_insert insert_node descend attach grown
four_words = refl

gc_free-gc_alloc_example :
    (words (entries (gc_free bump (gc_alloc bump empty_gc 4).1 1000).gc_set)
      ≡ words (entries (empty_gc.gc_set)))
    × (((gc_free bump (gc_alloc bump empty_gc 4).1 1000).gc_num_alloced ≡ 0)
        × GaveBack bump
            (gc_alloc bump empty_gc 4).1
            1000
            (gc_free bump (gc_alloc bump empty_gc 4).1 1000).store.heap)
gc_free-gc_alloc_example =
    gc_free-gc_alloc bump empty_gc 4 granted (gc_alloc bump empty_gc 4).1 tt tt (omega arith)
      (λ h. omega (arith, h)) four_words

-- The same object twice.
twice : (gc_add bump (gc_add bump empty_gc 99).1 99).0 ≡ true
unfolding gc_add avl_insert insert_node descend attach grown avl_basic_cmp compare_by
twice = refl
