-- ===== src/Set/Order.antt =====
-- Additions to the trees of datastructures.c under any comparison of keys: what a search by a key
-- finds afterwards, and the keys of the objects in sets.
use mathlib.Core.Path.{subst}
use lisp_machine.Common.{ℕ, ◌==◌, ◌≡◌, refl, sym, ap, ◌∙◌, inl, inr, arith, Bool-cases, ==_iff}
use lisp_machine.Common.{if◌then◌else◌, Bool, true, false, Option, none, some, List, Option-cases}
use lisp_machine.Memory.{Allocator}
use lisp_machine.Object.{Object, obj_cmp}
use lisp_machine.Object.Key.{contents_key, Compared, less, equal, more, obj_cmp-Compared}
use lisp_machine.Object.Store.{add_ref}
use lisp_machine.Num.Value.{IsWords}
use lisp_machine.Avl.{Entry, Dir, Tree, entries, compare_by}
use lisp_machine.Avl.Find.{compare_at, find_key, insert_sorted-Extends, Extends}
use lisp_machine.Avl.Sorted.{IsSorted, insert_sorted, insert_sorted-OnSome, OnSome}
use lisp_machine.Avl.Order.{insert_node_lem, Inserted}
use lisp_machine.Avl.Insert.{insert_node}
use lisp_machine.Avl.Nodes.{avl_insert}
use lisp_machine.Set.{dir_of}

module _ (key : Entry → ℕ) where
  -- How an addition of `d` goes.
  pub data Adds (tr : Tree) (d : ℕ) (out : Bool) (tr' : Tree) : Type 0 where
    refused : out ≡ true → tr' ≡ tr → Adds tr d out tr'
    placed :
        (e : Entry)
        → e.data_word ≡ d
        → out ≡ false
        → IsSorted key (entries tr')
        → ((k : ℕ)
            → find_key key k (entries tr')
              ≡ (if key e == k then some e else find_key key k (entries tr)))
        → Adds tr d out tr'

  Inserted-Adds :
      (tr : Tree) (e : Entry) (out : Bool × Tree) (o : Option (List Entry))
      → Inserted key e tr out o
      → OnSome key (IsSorted key) o
      → Extends key e (entries tr) o
      → Adds tr e.data_word out.0 out.1
  Inserted-Adds tr e out none (n, same) _ _ = refused n same
  Inserted-Adds tr e out (some ys) (y, eq) sorted (_, find) =
      placed e refl y (subst (λ es. IsSorted key es) (sym eq) sorted)
        (λ k. ap (λ es. find_key key k es) eq ∙ find k)

  pub avl_insert-Adds :
      (cmp : Entry → Entry → Option Dir)
      → cmp ≡ compare_by key
      → (a : Allocator) (h : Allocator.Heap a) (tr : Tree) (d : ℕ) → IsSorted key (entries tr)
      → Adds tr d (avl_insert a h tr d cmp).0 (avl_insert a h tr d cmp).1.0
  unfolding avl_insert
  avl_insert-Adds cmp by a h tr d sorted = elim (Option-cases (Allocator.alloc a h 4)) [
    | inl none_left ↦ rw (none_left, avl_insert) (refused refl refl)
    | inr ((b, h'), granted) ↦
        let e : Entry = record { addr = b.addr; data_word = d } in
        let i : Inserted key e tr (insert_node cmp tr e) (insert_sorted key e (entries tr)) =
          subst (λ c. Inserted key e tr (insert_node c tr e) (insert_sorted key e (entries tr)))
            (sym by) (insert_node_lem key e tr sorted) in
        rw (granted, avl_insert)
          (Inserted-Adds tr e (insert_node cmp tr e) (insert_sorted key e (entries tr)) i
            (insert_sorted-OnSome key e (entries tr) sorted)
            (insert_sorted-Extends key e (entries tr) sorted))
  ]

pub dir_of-Compared : (j k w : ℕ) → Compared j k w → dir_of w ≡ compare_at j k
dir_of-Compared j k w (less p e) = ground (arith, e)
dir_of-Compared j k w (equal p e) = ground (arith, e)
dir_of-Compared j k w (more p e) = ground (arith, e)

-- The contents of all objects are words.
abbrev pub Fit : (ℕ → Object) → Type 0
Fit objects = (p : ℕ) → IsWords (objects p).contents

abbrev pub key_at : (ℕ → Object) → ℕ → ℕ
key_at objects p = contents_key (objects p).contents

pub obj_cmp-zero :
    (objects : ℕ → Object) (p q : ℕ)
    → Fit objects
    → (obj_cmp (objects p) (objects q) == 0) ≡ (key_at objects p == key_at objects q)
obj_cmp-zero objects p q fit = elim (obj_cmp-Compared (objects p) (objects q) (fit p) (fit q)) [
  | less u v ↦ ground (arith, v)
  | equal u v ↦ ground (arith, v)
  | more u v ↦ ground (arith, v)
]

-- The objects after the count of an element has been raised.
abbrev pub counted : (ℕ → Object) → ℕ → ℕ → Object
unfolding add_ref
counted objects d = if d == 0 then objects else add_ref objects d

pub counted-contents :
    (objects : ℕ → Object) (d p : ℕ) → (counted objects d p).contents ≡ (objects p).contents
unfolding add_ref
counted-contents objects d p = elim (Bool-cases (d == 0)) [
  | inl e ↦ rw e refl
  | inr e ↦ elim (Bool-cases (p == d)) [
    | inl f ↦ rw (e, f) (ap (λ t. (objects t).contents) (sym ((==_iff p d).0 f)))
    | inr f ↦ rw (e, f) refl
  ]
]
