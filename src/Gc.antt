-- ===== src/Gc.antt =====
-- The set of the collector in alloc.c: `gc_alloc`, `gc_add` and `gc_free`. It holds the addresses of
-- the blocks that the collector looks after, and its own nodes come from the same heap.
pub mod FreeAlloc
use lisp_machine.Common.{ℕ, ◌+◌, ◌==◌, if◌then◌else◌, Bool, true, false, Option, none, some}
use lisp_machine.Word.{add_word, sub_word}
use lisp_machine.Memory.{Allocator, Block}
use lisp_machine.Object.Store.{Store}
use lisp_machine.Avl.{Tree, avl_basic_cmp}
use lisp_machine.Avl.Nodes.{avl_insert}
use lisp_machine.Set.{set_remove}

module _ (a : Allocator) where
  open a use {alloc, free}

  -- The tree that `gc_set` points to, and the count in the heap's header.
  pub record Gc : Type 0 where
    pub store : Store a
    pub gc_set : Tree
    pub gc_num_alloced : ℕ

  -- Where the code returns 0 the heap is returned all the same.
  unfoldable pub gc_alloc : Gc → ℕ → Option Block × Gc
  unfolding avl_insert
  gc_alloc g n = elim (alloc g.store.heap n) [
    | none ↦ (none, g)
    | some (b, h) ↦
        let r = avl_insert a h g.gc_set b.addr avl_basic_cmp in
        if r.0
        then (
          none,
          record g { store = record g.store { heap = free r.1.1 b.addr }; gc_set = r.1.0 },
        )
        else (
          some b,
          record {
            store = record g.store { heap = r.1.1 };
            gc_set = r.1.0;
            gc_num_alloced = add_word g.gc_num_alloced 1;
          },
        )
  ]

  -- The block of an object starts behind its size word.
  unfoldable pub gc_add : Gc → ℕ → Bool × Gc
  unfolding avl_insert
  gc_add g obj =
      let r = avl_insert a g.store.heap g.gc_set (obj + 1) avl_basic_cmp in
      (
        r.0,
        record {
          store = record g.store { heap = r.1.1 };
          gc_set = r.1.0;
          gc_num_alloced = if r.0 then g.gc_num_alloced else add_word g.gc_num_alloced 1;
        },
      )

  -- The count goes down even when the address was not in the set.
  unfoldable pub gc_free : Gc → ℕ → Gc
  unfolding set_remove
  gc_free g addr =
      let r = set_remove a g.store g.gc_set addr (λ objects. avl_basic_cmp) in
      record {
        store = if r.0 == 0 then r.1.1 else record r.1.1 { heap = free r.1.1.heap addr };
        gc_set = r.1.0;
        gc_num_alloced = sub_word g.gc_num_alloced 1;
      }
