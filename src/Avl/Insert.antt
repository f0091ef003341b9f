-- ===== src/Avl/Insert.antt =====
-- `_avl_insert` of datastructures.c.
use lisp_machine.Common.{Bool, true, false, Option, none, some, List, [], ◌∷◌}
use lisp_machine.Avl.{
  Dir, left, right, Entry, Balance, even, high, Tree, leaf, node, Frame, build, plug,
}
use lisp_machine.Avl.{
  balance_factor, avl_rotate_left, avl_rotate_right, avl_rotate_lr, avl_rotate_rl, left_of,
  right_of,
}

-- The first loop: the path from the place of `e` to the root, or `none` where the comparison
-- gives 0.
unfoldable pub descend :
    (Entry → Entry → Option Dir) → Tree → Entry → List Frame → Option (List Frame)
descend cmp leaf e path = some path
descend cmp (node x b l r) e path =
    let on_left =
      descend cmp l e (record { dir = left; entry = x; balance = b; sibling = r } ∷ path) in
    let on_right =
      descend cmp r e (record { dir = right; entry = x; balance = b; sibling = l } ∷ path) in
    elim (cmp x e) [ none ↦ none | some left ↦ on_left | some right ↦ on_right ]

-- The balance of a node whose subtree on side `d` has grown, as the code computes it: -2 or 2,
-- or a balance that is stored.
pub data Leaning : Type 0 where
  over : Leaning
  stored : Balance → Leaning

unfoldable pub lean : Dir → Balance → Leaning
lean d even = stored (high d)
lean left (high right) = stored even
lean right (high left) = stored even
lean left (high left) = over
lean right (high right) = over

-- The rotation of a node that is too high on side `d`, after an insertion there.
unfoldable pub rotate_grown : Dir → Tree → Tree
rotate_grown left t = elim (balance_factor (left_of t)) [
  | high left ↦ avl_rotate_right t
  | _ ↦ avl_rotate_lr t
]
rotate_grown right t = elim (balance_factor (right_of t)) [
  | high right ↦ avl_rotate_left t
  | _ ↦ avl_rotate_rl t
]

-- The second loop, towards the root, with the grown subtree `t`.
unfoldable pub grown : List Frame → Tree → Tree
grown [] t = t
grown (f ∷ path) t = elim (lean f.dir f.balance) [
  | over ↦ plug path (rotate_grown f.dir (build f.dir f.entry f.balance f.sibling t))
  | stored even ↦ plug path (build f.dir f.entry even f.sibling t)
  | stored (high d) ↦ grown path (build f.dir f.entry (high d) f.sibling t)
]

-- The new node stands at the end of the path. If its parent has two children now, no height has
-- changed.
unfoldable pub attach : List Frame → Tree → Tree
attach [] t = t
attach (f ∷ path) t = elim f.sibling [
  | leaf ↦ grown (f ∷ path) t
  | node x b l r ↦ plug path (build f.dir f.entry even f.sibling t)
]

-- The result is `true` where the code returns 1.
unfoldable pub insert_node : (Entry → Entry → Option Dir) → Tree → Entry → Bool × Tree
insert_node cmp t e = elim (descend cmp t e []) [
  | none ↦ (true, t)
  | some path ↦ (false, attach path (node e even leaf leaf))
]
