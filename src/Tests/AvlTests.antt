-- ===== src/Tests/AvlTests.antt =====
-- The AVL trees and the growable arrays at work.
use lisp_machine.Common.{ℕ, get_or, ◌==◌, ◌*◌, ◌≡◌, refl, [], ◌∷◌, ◌++◌, arith}
use mathlib.Core.Option.{map}
use lisp_machine.Memory.{Block, realloc}
use lisp_machine.Memory.Words.{read_words, write_words, copy_words}
use lisp_machine.Memory.Bump.{bump}
use lisp_machine.Array.{array_append, array_find, array_len, store_item}
use lisp_machine.Array.Items.{IsValid, items}
use lisp_machine.Array.Append.{append-items}
use lisp_machine.Common.{drop, ◌+◌}
use lisp_machine.Array.Find.{array_find_lem, first_index}
use lisp_machine.Avl.{
  Entry, Tree, leaf, node, even, high, right, entries, avl_basic_cmp, compare_by,
}
use lisp_machine.Avl.Insert.{insert_node}
use lisp_machine.Avl.Delete.{Spot, avl_find, find_spot, delete_spot}
use lisp_machine.Avl.Sorted.{IsSorted, insert_sorted}
use lisp_machine.Avl.Order.{insert_node_lem, Inserted}
use lisp_machine.Avl.Balanced.{IsBalanced, insert_node-IsBalanced}
use lisp_machine.Avl.DeleteBalanced.{delete_found-IsBalanced}
use lisp_machine.Avl.DeleteOrder.{delete_found_lem, words, remove}

abbrev entry : ℕ → ℕ → Entry
entry a d = record { addr = a; data_word = d }

abbrev data_of : Entry → ℕ
data_of n = n.data_word

-- 1 with the right child 2: the insertion of 3 rotates.
abbrev two : Tree
two = node (entry 10 1) (high right) leaf (node (entry 20 2) even leaf leaf)

two-IsBalanced : IsBalanced two
two-IsBalanced = (tt, (tt, tt, refl), refl)

two-IsSorted : IsSorted data_of (entries two)
two-IsSorted = ((omega arith, tt), (tt, tt))

insert_node_lem_example :
    Inserted data_of
      (entry 30 3)
      two
      (insert_node (compare_by data_of) two (entry 30 3))
      (insert_sorted data_of (entry 30 3) (entries two))
insert_node_lem_example = insert_node_lem data_of (entry 30 3) two two-IsSorted

insert_node-IsBalanced_example : IsBalanced (insert_node avl_basic_cmp two (entry 30 3)).1
insert_node-IsBalanced_example =
    insert_node-IsBalanced avl_basic_cmp (entry 30 3) two two-IsBalanced

-- The root of `two`.
abbrev root : Spot
root = record {
  path = [];
  entry = entry 10 1;
  balance = high right;
  l = leaf;
  r = node (entry 20 2) even leaf leaf;
}

delete_found-IsBalanced_example : IsBalanced (delete_spot root).1
unfolding avl_find find_spot avl_basic_cmp compare_by
delete_found-IsBalanced_example =
    delete_found-IsBalanced two 1 avl_basic_cmp root two-IsBalanced refl

delete_found_lem_example : words (entries (delete_spot root).1) ≡ remove 1 (words (entries two))
unfolding avl_find find_spot avl_basic_cmp compare_by
delete_found_lem_example = delete_found_lem two 1 root two-IsBalanced two-IsSorted refl

-- An array of pairs with one item and no room for another one.
abbrev pairs : Block
pairs = record { addr = 7; words = 2 ∷ 2 ∷ 5 ∷ 6 ∷ [] }

pairs-IsValid : IsValid 2 pairs
unfolding array_len
pairs-IsValid = record { size = refl; pos = omega arith; used = refl; fits = omega arith }

-- The block that the append moves to.
abbrev longer : Block
longer = record { addr = 100; words = 4 ∷ 2 ∷ 5 ∷ 6 ∷ 8 ∷ 9 ∷ 0 ∷ [] }

append-items_example :
    IsValid 2 longer × (items longer ≡ items pairs ++ (read_words (8 ∷ 9 ∷ []) 0 2 ∷ []))
unfolding array_append realloc copy_words store_item write_words read_words
append-items_example =
    append-items bump 100 pairs (8 ∷ 9 ∷ []) {b' = longer} {h' = 108} pairs-IsValid (omega arith)
      refl

array_find_lem_example :
    array_find longer 2 (8 ∷ []) (λ x y. get_or x 0 0 == get_or y 0 0)
    ≡ map (λ j. 2 + j * 2) (first_index (λ y. 8 == get_or y 0 0) (drop 1 (items longer)))
array_find_lem_example =
    array_find_lem longer 1 (λ x y. get_or x 0 0 == get_or y 0 0) (8 ∷ []) (omega arith)
