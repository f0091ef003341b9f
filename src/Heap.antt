-- ===== src/Heap.antt =====
-- The allocator of alloc.c: a heap whose free blocks are the nodes of an AVL tree, in the order
-- of their addresses. An address counts words, and a block of `n` words at `a` takes the words
-- from `a` on below `a + n`.
pub mod Merge
pub mod Blocks
pub mod Place
pub mod Fit
pub mod Alloc
pub mod Touching
pub mod Search
pub mod Sides
pub mod Without
pub mod Join
pub mod Free
pub mod Client
pub mod Counts
use lisp_machine.Common.{
  ℕ, suc, ◌+◌, ◌-◌, ◌*◌, Bool, true, false, ltb, leb, ◌==◌, ◌||◌, if◌then◌else◌, Option, none, some,
  List, [],
}
use lisp_machine.Word.{add_word, sub_word}
use lisp_machine.Avl.{Tree, leaf, Entry, avl_mem_cmp}
use lisp_machine.Avl.Insert.{insert_node}
use lisp_machine.Avl.Delete.{Spot, avl_min_ge, remove_spot}
use lisp_machine.Heap.Merge.{avl_merge}

abbrev pub umds_sz : ℕ
umds_sz = 1

abbrev pub hds_sz : ℕ
hds_sz = 8

-- The words of a tree node, which every free block must hold.
abbrev pub min_alloc_sz : ℕ
min_alloc_sz = 4

-- `hds`, and the size word in front of each used block. `heap_end` counts bytes.
pub record Heap : Type 0 where
  pub heap_start : ℕ
  pub heap_end : ℕ
  pub fmds_ptr : Tree
  pub true_num_alloced : ℕ
  pub words_used : ℕ
  pub sizes : ℕ → ℕ

-- The size that a request for `n` words takes from the heap.
unfoldable pub request : ℕ → ℕ
request n =
    let mem_sz = add_word n umds_sz in if ltb mem_sz min_alloc_sz then min_alloc_sz else mem_sz

-- What a free block of `old_sz` words gives to a request.
unfoldable pub taken_sz : ℕ → ℕ → ℕ
taken_sz old_sz mem_sz = if leb (mem_sz + min_alloc_sz) old_sz then mem_sz else old_sz

-- The tree after the block of a spot has been taken: a remainder that can hold a node stays.
unfoldable pub split_block : Spot → ℕ → Tree
split_block s mem_sz =
    let old_sz = s.entry.data_word in
    let tr = remove_spot s in
    if leb (mem_sz + min_alloc_sz) old_sz
    then (insert_node avl_mem_cmp tr
        (record { addr = s.entry.addr + mem_sz; data_word = old_sz - mem_sz })).1
    else tr

unfoldable pub set_size : (ℕ → ℕ) → ℕ → ℕ → ℕ → ℕ
set_size sizes a v j = if j == a then v else sizes j

-- `alloc`: the address behind the size word, or the null pointer.
unfoldable pub alloc : Heap → ℕ → Option (ℕ × Heap)
unfolding request taken_sz split_block set_size
alloc h n =
    let mem_sz = request n in
    elim (avl_min_ge h.fmds_ptr mem_sz []) [
      | none ↦ none
      | some s ↦
          let taken = taken_sz s.entry.data_word mem_sz in
          some (
            s.entry.addr + umds_sz,
            record h {
              fmds_ptr = split_block s mem_sz;
              true_num_alloced = add_word h.true_num_alloced 1;
              words_used = add_word h.words_used taken;
              sizes = set_size h.sizes s.entry.addr taken;
            },
          )
    ]

-- `free`. The end of the heap is added to its start as it stands.
unfoldable pub free : Heap → ℕ → Heap
free h addr =
    if ltb addr (h.heap_start + hds_sz) || leb (h.heap_start + h.heap_end) addr
    then h
    else let freed_mem = addr - umds_sz in
      let fm_sz = h.sizes freed_mem in
      record h {
        fmds_ptr = avl_merge h.fmds_ptr freed_mem fm_sz;
        true_num_alloced = sub_word h.true_num_alloced 1;
        words_used = sub_word h.words_used fm_sz;
      }

-- `init_heap` up to the first object: one free block behind the heap's own words.
unfoldable pub init_heap : ℕ → ℕ → (ℕ → ℕ) → Option Heap
init_heap heap_start heap_sz sizes =
    if ltb heap_sz (min_alloc_sz + hds_sz)
    then none
    else some (record {
      heap_start = heap_start;
      heap_end = 8 * (heap_start + heap_sz);
      fmds_ptr =
          (insert_node avl_mem_cmp leaf
            (record { addr = heap_start + hds_sz; data_word = heap_sz - hds_sz })).1;
      true_num_alloced = 0;
      words_used = 0;
      sizes = sizes;
    })
