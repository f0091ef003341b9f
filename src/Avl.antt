-- ===== src/Avl.antt =====
-- The AVL trees of datastructures.c. A node is its entry, its balance and its two subtrees; the
-- parent pointers are the path that leads from a place in the tree to the root.
pub mod Insert
pub mod Delete
pub mod DeleteOrder
pub mod Find
pub mod Nodes
pub mod DeleteBalanced
pub mod Remove
pub mod Rotate
pub mod Sorted
pub mod Order
pub mod Balanced
use lisp_machine.Common.{
  ℕ, suc, ◌+◌, ◌-◌, max, ltb, leb, ◌==◌, if◌then◌else◌, Bool, true, false, Option, none, some, List,
  [], ◌∷◌, ◌++◌,
}

-- The side of a child; as the result of a comparison, `left` is -1 and `right` is 1.
pub data Dir : Type 0 where
  left right : Dir

unfoldable pub same_dir : Dir → Dir → Bool
same_dir left left = true
same_dir right right = true
same_dir left right = false
same_dir right left = false

-- A node's own words: its address and `data`.
pub record Entry : Type 0 where
  pub addr : ℕ
  pub data_word : ℕ

-- The two lowest bits of `prev`: 3 for `even`, 2 for `high left` and 1 for `high right`.
pub data Balance : Type 0 where
  even : Balance
  high : Dir → Balance

pub data Tree : Type 0 where
  leaf : Tree
  node : Entry → Balance → Tree → Tree → Tree

unfoldable pub rev_balance_factor : Balance → ℕ
rev_balance_factor even = 3
rev_balance_factor (high left) = 2
rev_balance_factor (high right) = 1

-- The balance that a null pointer has is 0.
unfoldable pub balance_factor : Tree → Balance
balance_factor leaf = even
balance_factor (node x b l r) = b

unfoldable pub set_balance_factor : Balance → Tree → Tree
set_balance_factor b leaf = leaf
set_balance_factor b (node x _ l r) = node x b l r

unfoldable pub is_even : Balance → Bool
is_even even = true
is_even (high d) = false

-- What the heap and the sets compare: the addresses, or the data.
unfoldable pub compare_by : (Entry → ℕ) → Entry → Entry → Option Dir
compare_by key n1 n2 =
    if ltb (key n1) (key n2) then some right else if key n1 == key n2 then none else some left

unfoldable pub avl_basic_cmp : Entry → Entry → Option Dir
avl_basic_cmp n1 n2 = compare_by (λ n. n.data_word) n1 n2

unfoldable pub avl_mem_cmp : Entry → Entry → Option Dir
avl_mem_cmp n1 n2 = compare_by (λ n. n.addr) n1 n2

-- The rotations. The new root's old balance decides the balances.
unfoldable pub avl_rotate_left : Tree → Tree
unfolding is_even
avl_rotate_left leaf = leaf
avl_rotate_left (node x b l leaf) = node x b l leaf
avl_rotate_left (node x b l (node y c rl rr)) =
    if is_even c
    then node y (high left) (node x (high right) l rl) rr
    else node y even (node x even l rl) rr

unfoldable pub avl_rotate_right : Tree → Tree
unfolding is_even
avl_rotate_right leaf = leaf
avl_rotate_right (node x b leaf r) = node x b leaf r
avl_rotate_right (node x b (node y c ll lr) r) =
    if is_even c
    then node y (high right) ll (node x (high left) lr r)
    else node y even ll (node x even lr r)

-- The balances after a double rotation, from the one of the node that became the root.
unfoldable pub fix_lr : Balance → Tree → Tree
unfolding set_balance_factor
fix_lr b leaf = leaf
fix_lr (high right) (node x _ child nd) =
    node x even (set_balance_factor (high left) child) (set_balance_factor even nd)
fix_lr (high left) (node x _ child nd) =
    node x even (set_balance_factor even child) (set_balance_factor (high right) nd)
fix_lr even (node x _ child nd) =
    node x even (set_balance_factor even child) (set_balance_factor even nd)

unfoldable pub fix_rl : Balance → Tree → Tree
unfolding set_balance_factor
fix_rl b leaf = leaf
fix_rl (high right) (node x _ nd child) =
    node x even (set_balance_factor (high left) nd) (set_balance_factor even child)
fix_rl (high left) (node x _ nd child) =
    node x even (set_balance_factor even nd) (set_balance_factor (high right) child)
fix_rl even (node x _ nd child) =
    node x even (set_balance_factor even nd) (set_balance_factor even child)

unfoldable pub left_of : Tree → Tree
left_of leaf = leaf
left_of (node x b l r) = l

unfoldable pub right_of : Tree → Tree
right_of leaf = leaf
right_of (node x b l r) = r

unfoldable pub avl_rotate_lr : Tree → Tree
unfolding balance_factor avl_rotate_left avl_rotate_right fix_lr right_of
avl_rotate_lr leaf = leaf
avl_rotate_lr (node x b child r) =
    fix_lr (balance_factor (right_of child)) (avl_rotate_right (node x b (avl_rotate_left child) r))

unfoldable pub avl_rotate_rl : Tree → Tree
unfolding balance_factor avl_rotate_left avl_rotate_right fix_rl left_of
avl_rotate_rl leaf = leaf
avl_rotate_rl (node x b l child) =
    fix_rl (balance_factor (left_of child)) (avl_rotate_left (node x b l (avl_rotate_right child)))

-- The height in nodes, one more than `avl_tree_height`.
abbrev pub height : Tree → ℕ
height leaf = 0
height (node x b l r) = suc (max (height l) (height r))

-- A node on the way to the root: the side we come from, and the rest of the node.
pub record Frame : Type 0 where
  pub dir : Dir
  pub entry : Entry
  pub balance : Balance
  pub sibling : Tree

abbrev pub build : Dir → Entry → Balance → Tree → Tree → Tree
build left x b s t = node x b t s
build right x b s t = node x b s t

-- The whole tree with `t` at the end of the path.
unfoldable pub plug : List Frame → Tree → Tree
plug [] t = t
plug (f ∷ path) t = plug path (build f.dir f.entry f.balance f.sibling t)

-- The entries in their order.
abbrev pub entries : Tree → List Entry
entries leaf = []
entries (node x b l r) = entries l ++ (x ∷ entries r)
