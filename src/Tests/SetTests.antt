-- ===== src/Tests/SetTests.antt =====
-- The sets at work.
use lisp_machine.Common.{ℕ, ◌==◌, if◌then◌else◌, ◌≡◌, refl, List, [], ◌∷◌, arith, none, some}
use lisp_machine.Common.{Bool-cases, inl, inr}
use lisp_machine.Memory.Bump.{bump}
use lisp_machine.Object.{Object}
use lisp_machine.Object.Store.{Store, object, object_append}
use lisp_machine.Avl.{Tree, leaf, node, even}
use lisp_machine.Avl.Delete.{avl_find, find_spot, delete_spot, shrunk}
use lisp_machine.Avl.Insert.{insert_node, descend, attach, grown, lean}
use lisp_machine.Set.{set_cmp, set_keycmp, set_add, set_remove, in_set, set_get_value}
use lisp_machine.Set.{set_add_str_key, set_set_key}
use lisp_machine.Set.Order.{Fit}
use lisp_machine.Set.Lookup.{Added, set_add_lem}
use lisp_machine.Set.Remove.{Removed, set_remove_lem}
use lisp_machine.Set.Values.{Bound, set_get_value-set_add}

abbrev text : List ℕ → Object
text cs = record { max_sz = 8; refcount = 0; type = 0; contents = cs }

-- "b" at 100, "a" at 200 and at 300, and the pair of "b" and the object at 300 at 400.
abbrev objects : ℕ → Object
objects p =
    if p == 100
    then text (b'b' ∷ [])
    else if p == 200
    then text (b'a' ∷ [])
    else if p == 300
    then text (b'a' ∷ [])
    else if p == 400
    then text (100 ∷ 300 ∷ [])
    else text []

objects-Fit : Fit objects
objects-Fit p = elim (Bool-cases (p == 100)) [
  | inl e ↦ rw e (omega arith, tt)
  | inr a ↦ elim (Bool-cases (p == 200)) [
    | inl e ↦ rw (a, e) (omega arith, tt)
    | inr b ↦ elim (Bool-cases (p == 300)) [
      | inl e ↦ rw (a, b, e) (omega arith, tt)
      | inr c ↦ elim (Bool-cases (p == 400)) [
        | inl e ↦ rw (a, b, c, e) (omega arith, (omega arith, tt))
        | inr d ↦ rw (a, b, c, d) tt
      ]
    ]
  ]
]

abbrev store : Store bump
store = record { heap = 1000; objects = objects }

set_add_lem_example :
    Added
      (set_add bump store leaf 100 set_cmp).1.1.objects
      leaf
      100
      (set_add bump store leaf 100 set_cmp).0
      (set_add bump store leaf 100 set_cmp).1.0
set_add_lem_example = set_add_lem bump store leaf 100 objects-Fit tt

set_get_value-set_add_example :
    Bound
      (set_add bump store leaf 400 set_keycmp).1.1.objects
      leaf
      400
      (set_add bump store leaf 400 set_keycmp).0
      (set_add bump store leaf 400 set_keycmp).1.0
set_get_value-set_add_example = set_get_value-set_add bump store leaf 400 objects-Fit tt

abbrev set_of_one : Tree
set_of_one = node (record { addr = 900; data_word = 200 }) even leaf leaf

set_remove_lem_example :
    Removed objects set_of_one 300
      (set_remove bump store set_of_one 300 set_cmp).0
      (set_remove bump store set_of_one 300 set_cmp).1.0
set_remove_lem_example =
    set_remove_lem bump store set_of_one 300 objects-Fit (tt, tt, refl) (tt, tt)

-- The element with the contents of the one that is looked for.
two_added :
    (let r = set_add bump store leaf 100 set_cmp in
      let q = set_add bump r.1.1 r.1.0 200 set_cmp in in_set q.1.1.objects q.1.0 300)
    ≡ 200
unfolding set_add in_set avl_find find_spot insert_node descend attach grown lean
two_added = refl

one_removed :
    (let r = set_add bump store leaf 100 set_cmp in
      let q = set_remove bump r.1.1 r.1.0 100 set_cmp in q.0 ∷ in_set q.1.1.objects q.1.0 100 ∷ [])
    ≡ 100 ∷ 0 ∷ []
unfolding set_add set_remove in_set delete_spot shrunk avl_find find_spot insert_node descend attach
    grown lean
one_removed = refl

-- A new pair, and then another value.
map_of_one :
    (let r = set_add_str_key bump 0 store leaf 100 200 in
      let q = set_set_key r.1.1.objects r.1.0 100 300 in
      set_get_value r.1.1.objects r.1.0 100 ∷ q.0 ∷ set_get_value q.1 r.1.0 100 ∷ [])
    ≡ 200 ∷ 200 ∷ 300 ∷ []
unfolding set_add_str_key set_set_key set_get_value avl_find find_spot insert_node descend attach
    grown lean
map_of_one = refl

-- A fourth word moves an object with room for three.
appended :
    (elim (object bump store 0 4 (some (1 ∷ 2 ∷ 3 ∷ 4 ∷ [])) 4) as (λ _. List ℕ) [
      | none ↦ []
      | some (p, s) ↦ elim (object_append bump s p 100) as (λ _. List ℕ) [
        | none ↦ []
        | some (q, t) ↦ p ∷ q ∷ (t.objects q).contents
      ]
    ])
    ≡ 999 ∷ 1007 ∷ 1 ∷ 2 ∷ 3 ∷ 4 ∷ 100 ∷ []
unfolding object object_append
appended = refl
