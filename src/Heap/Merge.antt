-- ===== src/Heap/Merge.antt =====
-- `avl_merge` of datastructures.c: a block comes back and joins the free blocks that touch it.
use lisp_machine.Common.{
  ℕ, zero, suc, ◌+◌, ◌-◌, ◌==◌, ltb, Bool, true, false, if◌then◌else◌, Option, none, some, [],
}
use lisp_machine.Avl.{Tree, leaf, node, Entry, height, avl_mem_cmp}
use lisp_machine.Avl.Insert.{insert_node}
use lisp_machine.Avl.Delete.{find_spot, remove_spot}

-- The variables of the search: the block before, the block behind, and the tree that is left.
pub record Search : Type 0 where
  pub before_it : Option Entry
  pub behind_it : Option Entry
  pub tree : Tree

-- The first test of a round: a neighbour is noted, and the search goes on beyond it.
unfoldable pub note_neighbour : ℕ → ℕ → Search → Search
note_neighbour addr amax s = elim (s.tree) [
  | leaf ↦ s
  | node x b l r ↦
      if x.addr == amax
      then record s { behind_it = some x; tree = l }
      else if x.addr + x.data_word == addr
      then record s { before_it = some x; tree = r }
      else s
]

-- The second test: a block that does not touch.
unfoldable pub pass_by : ℕ → ℕ → Search → Search
pass_by addr amax s = elim (s.tree) [
  | leaf ↦ s
  | node x b l r ↦
      if ltb amax x.addr
      then record s { tree = l }
      else if ltb (x.addr + x.data_word) addr
      then record s { tree = r }
      else s
]

unfoldable pub both_found : Search → Bool
both_found s = elim (s.before_it) [
  | none ↦ false
  | some x ↦ elim (s.behind_it) [ none ↦ false | some y ↦ true ]
]

unfoldable pub is_leaf : Tree → Bool
is_leaf leaf = true
is_leaf (node x b l r) = false

-- The search. `none` means that the fuel ran out.
unfoldable pub neighbours : ℕ → ℕ → ℕ → Search → Option Search
unfolding note_neighbour pass_by both_found is_leaf
neighbours zero addr amax s = none
neighbours (suc fuel) addr amax s =
    let rest = neighbours fuel addr amax (pass_by addr amax (note_neighbour addr amax s)) in
    if is_leaf s.tree then some s else if both_found s then some s else rest

-- The node at an address leaves the tree.
unfoldable pub remove_at : Tree → ℕ → Tree
remove_at t a = elim (find_spot avl_mem_cmp t (record { addr = a; data_word = 0 }) []) [
  | none ↦ t
  | some s ↦ remove_spot s
]

-- The block that comes back with the one behind it, and then with the one before it.
unfoldable pub join : Tree → ℕ → ℕ → Search → Tree
unfolding remove_at
join tr addr size s =
    let (tr1, size1) = elim (s.behind_it) as (λ _. Tree × ℕ) [
      | none ↦ (tr, size)
      | some y ↦ (remove_at tr y.addr, size + y.data_word)
    ] in
    let (tr2, addr2, size2) = elim (s.before_it) as (λ _. Tree × ℕ × ℕ) [
      | none ↦ (tr1, addr, size1)
      | some x ↦ (remove_at tr1 x.addr, addr - x.data_word, size1 + x.data_word)
    ] in
    (insert_node avl_mem_cmp tr2 (record { addr = addr2; data_word = size2 })).1

-- One round for each node on the way down, and one more, are enough.
unfoldable pub avl_merge : Tree → ℕ → ℕ → Tree
unfolding join
avl_merge tr addr size =
    elim (neighbours (suc (height tr)) addr (addr + size)
      (record { before_it = none; behind_it = none; tree = tr })) [
        | none ↦ tr
        | some s ↦ join tr addr size s
      ]
