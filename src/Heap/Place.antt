-- ===== src/Heap/Place.antt =====
-- A free block put into the tree between the others, by `_avl_insert` with `avl_mem_cmp`.
use mathlib.Core.Option.{map}
use mathlib.Core.Path.{subst}
use lisp_machine.Common.{◌==◌, ltb, ◌≡◌, refl, sym, ap, ◌∙◌, false, some}
use lisp_machine.Common.{List, [], ◌∷◌, ◌++◌, arith}
use lisp_machine.Avl.{Entry, Tree, entries, avl_mem_cmp, compare_by}
use lisp_machine.Avl.Insert.{insert_node}
use lisp_machine.Avl.Sorted.{insert_sorted, insert_sorted-past, AllAbove, AllBelow, IsSorted}
use lisp_machine.Avl.Order.{insert_node_lem, Inserted}
use lisp_machine.Heap.Blocks.{start}

insert_sorted-first :
    (e : Entry) (ys : List Entry)
    → AllAbove start (start e) ys
    → insert_sorted start e ys ≡ some (e ∷ ys)
unfolding insert_sorted
insert_sorted-first e [] h = refl
insert_sorted-first e (y ∷ ys) (lt, h) =
    let less : ltb (start y) (start e) ≡ false = ground arith in
    let same : (start y == start e) ≡ false = ground arith in rw (less, same) refl

pub insert_between :
    (t : Tree) (e : Entry) (xs ys : List Entry)
    → entries t ≡ xs ++ ys
    → IsSorted start (xs ++ ys)
    → AllBelow start (start e) xs
    → AllAbove start (start e) ys
    → entries (insert_node avl_mem_cmp t e).1 ≡ xs ++ (e ∷ ys)
unfolding avl_mem_cmp
insert_between t e xs ys eq sorted low high =
    let spec : insert_sorted start e (entries t) ≡ some (xs ++ (e ∷ ys)) =
      ap (λ es. insert_sorted start e es) eq
      ∙ insert_sorted-past start e xs ys low
      ∙ ap (λ o. map (λ zs. xs ++ zs) o) (insert_sorted-first e ys high) in
    let done =
      subst (λ o. Inserted start e t (insert_node (compare_by start) t e) o) spec
        (insert_node_lem start e t (subst (λ es. IsSorted start es) (sym eq) sorted)) in
    done.1
