-- ===== src/Set.antt =====
-- The sets of datastructures.c: trees of objects, and of pairs of a key and a value, in the order of
-- `obj_cmp`. A set is the tree that the first word of its object points to.
pub mod Order
pub mod Lookup
pub mod Values
pub mod Remove
pub mod Taken
use lisp_machine.Common.{ℕ, ◌==◌, if◌then◌else◌, Bool, true, false, Option, none, some, get_or, set}
use lisp_machine.Memory.{Allocator}
use lisp_machine.Object.{Object, obj_cmp}
use lisp_machine.Object.Store.{Store, add_ref, put_object, pair}
use lisp_machine.Avl.{Entry, Dir, left, right, Tree}
use lisp_machine.Avl.Delete.{avl_find, delete_spot}
use lisp_machine.Avl.Nodes.{avl_insert}

-- The `switch` on the result of a comparison.
abbrev pub dir_of : ℕ → Option Dir
dir_of val = if val == 0 then none else if val == 1 then some right else some left

-- A comparison of nodes sees the objects that the nodes point to.
abbrev pub Cmp : Type 0
Cmp = (ℕ → Object) → Entry → Entry → Option Dir

unfoldable pub set_cmp : Cmp
unfolding obj_cmp
set_cmp objects node1 node2 = dir_of (obj_cmp (objects node1.data_word) (objects node2.data_word))

-- The first word of a pair is its key.
abbrev pub key_of : (ℕ → Object) → ℕ → ℕ
key_of objects p = get_or (objects p).contents 0 0

unfoldable pub set_keycmp : Cmp
unfolding obj_cmp
set_keycmp objects pair1 pair2 =
    dir_of (
      obj_cmp (objects (key_of objects pair1.data_word)) (objects (key_of objects pair2.data_word)))

unfoldable pub set_keyfind_cmp : Cmp
unfolding obj_cmp
set_keyfind_cmp objects kvp key =
    dir_of (obj_cmp (objects (key_of objects kvp.data_word)) (objects key.data_word))

-- The results of the searches are addresses, and 0 where there is none.
unfoldable pub in_set : (ℕ → Object) → Tree → ℕ → ℕ
unfolding set_cmp
in_set objects tr obj = elim (avl_find tr obj (set_cmp objects)) [
  | none ↦ 0
  | some s ↦ s.entry.data_word
]

unfoldable pub set_get_value : (ℕ → Object) → Tree → ℕ → ℕ
unfolding set_keyfind_cmp
set_get_value objects tr obj = elim (avl_find tr obj (set_keyfind_cmp objects)) [
  | none ↦ 0
  | some s ↦ get_or (objects s.entry.data_word).contents 1 0
]

-- The old value, and the objects with the new one.
unfoldable pub set_set_key : (ℕ → Object) → Tree → ℕ → ℕ → ℕ × (ℕ → Object)
unfolding set_keyfind_cmp
set_set_key objects tr key val = elim (avl_find tr key (set_keyfind_cmp objects)) [
  | none ↦ (0, objects)
  | some s ↦
      let p = s.entry.data_word in
      let pear = objects p in
      (
        get_or pear.contents 1 0,
        put_object objects p (record pear { contents = set pear.contents 1 val }),
      )
]

module _ (a : Allocator) where
  -- The first component is `true` where the code returns 1.
  unfoldable pub set_add : Store a → Tree → ℕ → Cmp → Bool × (Tree × Store a)
  unfolding add_ref avl_insert
  set_add s tr value cmp =
      let objects = if value == 0 then s.objects else add_ref s.objects value in
      let r = avl_insert a s.heap tr value (cmp objects) in
      (r.0, (r.1.0, record { heap = r.1.1; objects = objects }))

  -- The element that was removed, or 0.
  unfoldable pub set_remove : Store a → Tree → ℕ → Cmp → ℕ × (Tree × Store a)
  set_remove s tr value cmp = elim (avl_find tr value (cmp s.objects)) [
    | none ↦ (0, (tr, s))
    | some spot ↦
        let d = delete_spot spot in
        (spot.entry.data_word, (d.1, record s { heap = Allocator.free a s.heap d.0.addr }))
  ]

  unfoldable pub set_remove_str_key : Store a → Tree → ℕ → ℕ × (Tree × Store a)
  unfolding set_remove set_keyfind_cmp
  set_remove_str_key s tr key = set_remove s tr key set_keyfind_cmp

  -- A pair that is refused goes in as 0.
  unfoldable pub set_add_str_key : ℕ → Store a → Tree → ℕ → ℕ → Bool × (Tree × Store a)
  unfolding set_add pair set_keycmp
  set_add_str_key cell_type s tr key val = elim (pair a cell_type s key val) [
    | none ↦ set_add s tr 0 set_keycmp
    | some (p, s') ↦ set_add s' tr p set_keycmp
  ]
