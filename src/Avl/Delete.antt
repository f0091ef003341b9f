-- ===== src/Avl/Delete.antt =====
-- `_avl_delete`, `avl_find`, `avl_min_ge` and `avl_move` of datastructures.c.
use lisp_machine.Common.{ℕ, leb, ◌==◌, if◌then◌else◌, Option, none, some, List, [], ◌∷◌, ◌++◌}
use lisp_machine.Avl.{
  Dir, left, right, Entry, Balance, even, high, Tree, leaf, node, Frame, build, plug,
}
use lisp_machine.Avl.{
  balance_factor, avl_rotate_left, avl_rotate_right, avl_rotate_lr, avl_rotate_rl, left_of,
  right_of,
}
use lisp_machine.Avl.Insert.{Leaning, over, stored}

-- A node in its tree: what a pointer to it gives access to.
pub record Spot : Type 0 where
  pub path : List Frame
  pub entry : Entry
  pub balance : Balance
  pub l : Tree
  pub r : Tree

-- `avl_find`: the node that compares as 0 with one that holds `data` and has the address 0.
unfoldable pub find_spot : (Entry → Entry → Option Dir) → Tree → Entry → List Frame → Option Spot
find_spot cmp leaf e path = none
find_spot cmp (node x b l r) e path =
    let on_left =
      find_spot cmp l e (record { dir = left; entry = x; balance = b; sibling = r } ∷ path) in
    let on_right =
      find_spot cmp r e (record { dir = right; entry = x; balance = b; sibling = l } ∷ path) in
    elim (cmp x e) [
      | none ↦ some (record { path = path; entry = x; balance = b; l = l; r = r })
      | some left ↦ on_left
      | some right ↦ on_right
    ]

unfoldable pub avl_find : Tree → ℕ → (Entry → Entry → Option Dir) → Option Spot
avl_find tr value cmp = find_spot cmp tr (record { addr = 0; data_word = value }) []

-- The left subtree is searched first, then the right one, and the node itself comes last.
unfoldable pub avl_min_ge : Tree → ℕ → List Frame → Option Spot
avl_min_ge leaf value path = none
avl_min_ge (node x b l r) value path =
    let on_left =
      avl_min_ge l value (record { dir = left; entry = x; balance = b; sibling = r } ∷ path) in
    let on_right =
      avl_min_ge r value (record { dir = right; entry = x; balance = b; sibling = l } ∷ path) in
    elim on_left [
      | some o ↦ some o
      | none ↦ elim on_right [
        | some o ↦ some o
        | none ↦
            if leb value x.data_word
            then some (record { path = path; entry = x; balance = b; l = l; r = r })
            else none
      ]
    ]

-- The loop to the leftmost node: its entry, its right child and the path to it.
pub record Leftmost : Type 0 where
  pub entry : Entry
  pub child : Tree
  pub path : List Frame

unfoldable pub leftmost : Entry → Balance → Tree → Tree → List Frame → Leftmost
leftmost x b leaf r path = record { entry = x; child = r; path = path }
leftmost x b (node y c ll lr) r path =
    leftmost y c ll lr (record { dir = left; entry = x; balance = b; sibling = r } ∷ path)

-- The balance of a node whose subtree on side `d` has shrunk, -2 or 2 being `over`.
unfoldable pub lean_back : Dir → Balance → Leaning
lean_back left even = stored (high right)
lean_back right even = stored (high left)
lean_back left (high left) = stored even
lean_back right (high right) = stored even
lean_back left (high right) = over
lean_back right (high left) = over

-- The rotation of a node that has become too low on side `d`.
unfoldable pub rotate_shrunk : Dir → Tree → Tree
rotate_shrunk left t = elim (balance_factor (right_of t)) [
  | high left ↦ avl_rotate_rl t
  | _ ↦ avl_rotate_left t
]
rotate_shrunk right t = elim (balance_factor (left_of t)) [
  | high right ↦ avl_rotate_lr t
  | _ ↦ avl_rotate_right t
]

-- The balance of the child on the other side, which decides whether the loop goes on.
unfoldable pub far_balance : Dir → Tree → Balance
far_balance left t = balance_factor (right_of t)
far_balance right t = balance_factor (left_of t)

-- The last loop, towards the root, with the shrunk subtree `t`.
unfoldable pub shrunk : List Frame → Tree → Tree
shrunk [] t = t
shrunk (f ∷ path) t =
    let nd = build f.dir f.entry f.balance f.sibling t in
    elim (lean_back f.dir f.balance) [
      | stored even ↦ shrunk path (build f.dir f.entry even f.sibling t)
      | stored (high d) ↦ plug path (build f.dir f.entry (high d) f.sibling t)
      | over ↦ elim (far_balance f.dir nd) [
        | even ↦ plug path (rotate_shrunk f.dir nd)
        | high d ↦ shrunk path (rotate_shrunk f.dir nd)
      ]
    ]

-- `_avl_delete`: the node that is out of use afterwards, and the tree. The successor's data move
-- into the place of the node; its address does not.
unfoldable pub delete_spot : Spot → Entry × Tree
delete_spot s = elim (s.r) [
  | node y c yl yr ↦
      let m = leftmost y c yl yr [] in
      let kept : Entry = record { addr = s.entry.addr; data_word = m.entry.data_word } in
      let top : Frame = record { dir = right; entry = kept; balance = s.balance; sibling = s.l } in
      (m.entry, shrunk (m.path ++ (top ∷ s.path)) m.child)
  | leaf ↦ elim (s.l) [
    | node y c yl yr ↦
        let kept : Entry = record { addr = s.entry.addr; data_word = y.data_word } in
        (
          y,
          shrunk (record { dir = left; entry = kept; balance = s.balance; sibling = leaf } ∷ s.path)
              yr,
        )
    | leaf ↦ (s.entry, shrunk s.path leaf)
  ]
]

-- `avl_move`: the node at address `src` lies at `dest` afterwards.
unfoldable pub avl_move : ℕ → ℕ → Tree → Tree
avl_move dest src leaf = leaf
avl_move dest src (node x b l r) =
    node (record { addr = if x.addr == src then dest else x.addr; data_word = x.data_word }) b
      (avl_move dest src l) (avl_move dest src r)

-- `_avl_delete` and the `avl_move` that follows it: the entry itself is out of the tree.
unfoldable pub remove_spot : Spot → Tree
unfolding delete_spot avl_move
remove_spot s =
    let (freed, t) = delete_spot s in
    if freed.addr == s.entry.addr then t else avl_move freed.addr s.entry.addr t
