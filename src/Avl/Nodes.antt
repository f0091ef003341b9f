-- ===== src/Avl/Nodes.antt =====
-- `avl_insert` and `avl_delete` of datastructures.c, which take their nodes from the allocator.
use lisp_machine.Common.{ℕ, Bool, true, false, Option, none, some, if◌then◌else◌}
use lisp_machine.Memory.{Allocator}
use lisp_machine.Avl.{Entry, Dir, Tree}
use lisp_machine.Avl.Insert.{insert_node}
use lisp_machine.Avl.Delete.{avl_find, delete_spot}

module _ (a : Allocator) where
  open a use {Heap, alloc, free}

  -- The first component is `true` where the code returns 1.
  unfoldable pub avl_insert : Heap → Tree → ℕ → (Entry → Entry → Option Dir) → Bool × (Tree × Heap)
  avl_insert h tr value cmp = elim (alloc h 4) [
    | none ↦ (true, (tr, h))
    | some (b, h') ↦
        let r = insert_node cmp tr (record { addr = b.addr; data_word = value }) in
        (r.0, (r.1, if r.0 then free h' b.addr else h'))
  ]

  unfoldable pub avl_delete : Heap → Tree → ℕ → (Entry → Entry → Option Dir) → Bool × (Tree × Heap)
  avl_delete h tr value cmp = elim (avl_find tr value cmp) [
    | none ↦ (true, (tr, h))
    | some s ↦ let d = delete_spot s in (false, (d.1, free h d.0.addr))
  ]
